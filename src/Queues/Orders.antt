-- ===== src/Queues/Orders.antt =====
-- The order in which stack and queue give back what was pushed.
use datatypes.Base.{
  subst, ℕ, zero, suc, ◌+◌, ◌<◌, ◌≡◌, refl, sym, ap, ◌∙◌, inl, inr, Bool, true, false, none, List,
  [], ◌∷◌, ◌++◌, append-nil, append_assoc, arith, ◌==◌, if◌then◌else◌, Bool-cases, word, ok,
  Returns, length, length-append,
}
use mathlib.Core.List.{reverse_aux, reverse, reverse_aux-eq}
use datatypes.Callbacks.{Ptr, null}
use datatypes.SList.{item, State, Cmd, pure, ◌>>=◌, ◌>>◌, load}
use datatypes.SList.Chain.{Cells, first, has, IsList, IsFresh, load-ok, has_unused, has-append}
use datatypes.SList.Ends.{append-Appends, prepend-Prepends, pop-Pops}
use datatypes.Queues.{stack_pop, stack_head, stack_push, queue_push}

-- the data of the cells
unfoldable pub items : Cells → List Ptr
items [] = []
items (c ∷ cs) = c.1 ∷ items cs

-- what stack_pop leaves
abbrev pub Takes : Cells → State → (Bool × Ptr) × State → Type 0
Takes [] st ((success, d), st') = (success ≡ false) × (d ≡ null) × (st' ≡ st)
Takes (c ∷ cs) st ((success, d), st') = (success ≡ true) × (d ≡ c.1) × IsList st' cs

stack_pop-Takes : (st : State) (xs : Cells) → IsList st xs → Returns (stack_pop st) (Takes xs st)
unfolding stack_pop
stack_pop-Takes st [] is =
    let empty : (st.list.count == 0) ≡ true = ground (arith, is.count) in
    (((false, null), st), rw empty, (refl, refl, refl))
stack_pop-Takes st (x ∷ xs) is =
    let filled : (st.list.count == 0) ≡ false = ground (arith, is.count) in
    let ((d, st'), run, (same, rest, gone, leaves)) = pop-Pops st x xs is in
    (((true, d), st'), rw (filled, run), (refl, same, rest))

-- what stack_head returns
abbrev pub shown : Ptr → Cells → Bool × Ptr
shown d₀ [] = (false, d₀)
shown d₀ (c ∷ cs) = (true, c.1)

stack_head-shown :
    (st : State) (xs : Cells) (d₀ : Ptr) → IsList st xs → stack_head d₀ st ≡ ok (shown d₀ xs, st)
unfolding stack_head
stack_head-shown st [] d₀ is =
    let empty : (st.list.head == null) ≡ true = ground (arith, is.head) in rw empty
stack_head-shown st (x ∷ xs) d₀ is =
    let filled : (st.list.head == null) ≡ false = ground (arith, is.head, is.links.0) in
    let loaded : load st.list.head st ≡ ok (item x.1 (first xs null), st) =
      ap (λ p. load p st) is.head ∙ load-ok st x.0 _ is.links.0 is.links.1 in
    rw (filled, loaded)

-- On a well-formed list with an item both readers succeed and return the data of the first one, stack_head
-- without a change and stack_pop with the rest of the list left. On an empty list both return false
-- and change nothing; stack_pop stores NULL, stack_head leaves the caller's pointer.
pub readers-agree :
    (st : State) (xs : Cells) (d₀ : Ptr)
    → IsList st xs
    → (stack_head d₀ st ≡ ok (shown d₀ xs, st)) × Returns (stack_pop st) (Takes xs st)
readers-agree st xs d₀ is = (stack_head-shown st xs d₀ is, stack_pop-Takes st xs is)

-- pops as long as the list has items, `n` times at most
unfoldable pub drain : ℕ → Cmd (List Ptr)
drain zero = pure []
drain (suc n) = do
  (success, d) ← stack_pop
  if success then (do ds ← drain n; pure (d ∷ ds)) else pure []

-- pushes all data, each at its address
unfoldable pub push_all : (Ptr → Ptr → Cmd Ptr) → Cells → Cmd (Unit {0})
push_all push [] = pure tt
push_all push (c ∷ cs) = do _ ← push c.0 c.1; push_all push cs

pub drain-items :
    (st : State) (xs : Cells)
    → IsList st xs
    → Returns (drain (length xs) st) λ (ds, st'). (ds ≡ items xs) × IsList st' []
unfolding drain items
drain-items st [] is = (([], st), refl, (refl, is))
drain-items st (x ∷ xs) is =
    let (((s, d), st'), run, (yes_s, same, rest)) = stack_pop-Takes st (x ∷ xs) is in
    let ((ds, st''), run', (tail, done)) = drain-items st' xs rest in
    ((d ∷ ds, st''), rw (run, yes_s, run'), (ground (arith, tail, same), done))

-- addresses that the allocator can hand out one after the other
abbrev pub AllFresh : State → Cells → Type 0
AllFresh st [] = Unit
AllFresh st (c ∷ cs) = IsFresh st c.0 × (has c.0 cs ≡ false) × AllFresh st cs

AllFresh-frame :
    (st st' : State) (cs : Cells)
    → AllFresh st cs
    → ((a : Ptr) → st.heap a ≡ none → has a cs ≡ true → st'.heap a ≡ none)
    → AllFresh st' cs
AllFresh-frame st st' [] f same = tt
AllFresh-frame st st' (c ∷ cs) f same = (
  (f.0.0, same c.0 f.0.1 (ground arith)),
  f.1,
  AllFresh-frame st st' cs f.2 λ a e h. same a e (ground arith),
)

has_other : (a b : Ptr) (cs : Cells) → has a cs ≡ true → has b cs ≡ false → (a == b) ≡ false
has_other a b cs i o = elim (Bool-cases (a == b)) [
  | inl e ↦
      let same : a ≡ b = ground (arith, e) in
      let both : true ≡ false = sym i ∙ ap (λ p. has p cs) same ∙ o in cc
  | inr e ↦ e
]

-- the cells with the pushed ones in front, the last one first
abbrev pub pushed : Cells → Cells → Cells
pushed xs [] = xs
pushed xs (c ∷ cs) = pushed (c ∷ xs) cs

-- a fresh address stays fresh when another one is used
AllFresh-step :
    (st st' : State) (xs : Cells) (c : Ptr × Ptr) (cs : Cells)
    → IsList st xs
    → AllFresh st (c ∷ cs)
    → ((a : Ptr) → (a == c.0) ≡ false → has a xs ≡ false → st'.heap a ≡ st.heap a)
    → AllFresh st' cs
AllFresh-step st st' xs c cs is f same =
    AllFresh-frame st st' cs f.2
      λ a e i. same a (has_other a c.0 cs i f.1) (has_unused st.heap xs null a is.links e) ∙ e

push_all-queue :
    (st : State) (xs cs : Cells)
    → IsList st xs
    → AllFresh st cs
    → length xs + length cs < word
    → Returns (push_all queue_push cs st) λ (_, st'). IsList st' (xs ++ cs)
unfolding push_all
push_all-queue st xs [] is f room =
    ((tt, st), refl, subst (λ ys. IsList st ys) (sym (append-nil xs)) is)
push_all-queue st xs (c ∷ cs) is f room =
    let ((p, st'), run, (same, list, leaves)) =
      append-Appends st xs is c.0 c.1 f.0 (omega (arith, is.count)) in
    let f' =
      AllFresh-step st st' xs c cs is f
        λ a ne out. leaves.outside a (has-append a xs (c ∷ []) ∙ ground (arith, ne, out)) in
    let (end, run', all) =
      push_all-queue st' (xs ++ c ∷ []) cs list f' (omega (arith, length-append xs (c ∷ []))) in
    (end, rw run run', subst (λ ys. IsList end.1 ys) (append_assoc xs (c ∷ []) cs) all)

push_all-stack :
    (st : State) (xs cs : Cells)
    → IsList st xs
    → AllFresh st cs
    → length xs + length cs < word
    → Returns (push_all stack_push cs st) λ (_, st'). IsList st' (pushed xs cs)
unfolding push_all
push_all-stack st xs [] is f room = ((tt, st), refl, is)
push_all-stack st xs (c ∷ cs) is f room =
    let ((p, st'), run, (same, list, leaves)) =
      prepend-Prepends st xs is c.0 c.1 f.0 (omega (arith, is.count)) in
    let f' = AllFresh-step st st' xs c cs is f λ a ne out. leaves.outside a (ground (arith, ne)) in
    let (end, run', all) = push_all-stack st' (c ∷ xs) cs list f' (omega arith) in
    (end, rw run run', all)

pub items-append : (xs ys : Cells) → items (xs ++ ys) ≡ items xs ++ items ys
unfolding items
items-append [] ys = refl
items-append (x ∷ xs) ys = ap (λ t. x.1 ∷ t) (items-append xs ys)

-- Data pushed onto a well-formed queue at fresh addresses, as long as the count fits into a size_t, come out
-- behind what the queue held and in the order of the calls. All pushes and all pops succeed, and the
-- queue is empty in the end.
pub queue-fifo :
    (st : State) (xs cs : Cells)
    → IsList st xs
    → AllFresh st cs
    → length xs + length cs < word
    → Returns
        ((do push_all queue_push cs; drain (length (xs ++ cs))) st)
        λ (ds, st'). (ds ≡ items xs ++ items cs) × IsList st' []
queue-fifo st xs cs is f room =
    let (mid, run, list) = push_all-queue st xs cs is f room in
    let (end, run', (same, done)) = drain-items mid.1 (xs ++ cs) list in
    (end, rw run run', (same ∙ items-append xs cs, done))

items-pushed : (xs cs : Cells) → items (pushed xs cs) ≡ reverse_aux (items cs) (items xs)
unfolding items
items-pushed xs [] = refl
items-pushed xs (c ∷ cs) = items-pushed (c ∷ xs) cs

-- Data pushed onto a well-formed stack at fresh addresses, as long as the count fits into a size_t, come out in
-- front of what the stack held and the last one first. All pushes and all pops succeed, and the stack
-- is empty in the end.
pub stack-lifo :
    (st : State) (xs cs : Cells)
    → IsList st xs
    → AllFresh st cs
    → length xs + length cs < word
    → Returns
        ((do push_all stack_push cs; drain (length (pushed xs cs))) st)
        λ (ds, st'). (ds ≡ reverse (items cs) ++ items xs) × IsList st' []
stack-lifo st xs cs is f room =
    let (mid, run, list) = push_all-stack st xs cs is f room in
    let (end, run', (same, done)) = drain-items mid.1 (pushed xs cs) list in
    (end, rw run run', (same ∙ items-pushed xs cs ∙ reverse_aux-eq (items cs) (items xs), done))
