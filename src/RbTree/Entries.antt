-- ===== src/RbTree/Entries.antt =====
-- What a tree stands for: its entries in order, and those before and behind a path.
use datatypes.Base.{
  ◌≡◌, refl, sym, ap, ◌∙◌, ◌⊎◌, inl, inr, Bool, [], ◌∷◌, ◌++◌, append-nil, append_assoc,
}
use datatypes.Callbacks.{Ptr}
use datatypes.AssocArray.Table.{Entries}
use datatypes.RbTree.{Node, leaf, node, Side, to_left, to_right, Step, step, Trail, link, plug}

unfoldable pub entries : Node → Entries
entries leaf = []
entries (node k v b l r) = entries l ++ (k, v) ∷ entries r

-- what a step adds before and behind the entries of its child
abbrev pub before_step : Step → Entries
before_step p = elim p.side [ to_left ↦ [] | to_right ↦ entries p.other ++ (p.key, p.value) ∷ [] ]

abbrev pub behind_step : Step → Entries
behind_step p = elim p.side [ to_left ↦ (p.key, p.value) ∷ entries p.other | to_right ↦ [] ]

unfoldable pub before : Trail → Entries
before [] = []
before (p ∷ ps) = before ps ++ before_step p

unfoldable pub behind : Trail → Entries
behind [] = []
behind (p ∷ ps) = behind_step p ++ behind ps

pub Side-cases : (s : Side) → (s ≡ to_left) ⊎ (s ≡ to_right)
Side-cases to_left = inl refl
Side-cases to_right = inr refl

pub entries-link :
    (p : Step) (n : Node) → entries (link p n) ≡ before_step p ++ (entries n ++ behind_step p)
unfolding link entries
entries-link p n = elim (Side-cases p.side) [
  | inl e ↦ rw (e, link, entries)
  | inr e ↦ rw (e, link, entries) (simp (append_assoc, append-nil))
]

pub entries-plug :
    (ps : Trail) (n : Node) → entries (plug ps n) ≡ before ps ++ (entries n ++ behind ps)
unfolding plug before behind
entries-plug [] n = sym (append-nil (entries n))
entries-plug (p ∷ ps) n = entries-plug ps (link p n) ∙ rw (entries-link p n) (simp append_assoc)

-- only the entries of a node matter
pub entries-plug_of :
    (ps : Trail) (m n : Node) → entries m ≡ entries n → entries (plug ps m) ≡ entries (plug ps n)
entries-plug_of ps m n e =
    entries-plug ps m ∙ ap (λ x. before ps ++ (x ++ behind ps)) e ∙ sym (entries-plug ps n)

-- the colours do not matter
pub entries-link_of :
    (k v : Ptr) (b c : Bool) (s : Side) (o o' n n' : Node)
    → entries o ≡ entries o'
    → entries n ≡ entries n'
    → entries (link (step k v b s o) n) ≡ entries (link (step k v c s o') n')
unfolding link entries
entries-link_of k v b c to_left o o' n n' e f = rw (e, f)
entries-link_of k v b c to_right o o' n n' e f = rw (e, f)
