-- ===== src/AssocArray/Search.antt =====
-- _assoc_array_binary_search.
use datatypes.Base.{
  ℕ, zero, suc, ◌+◌, ◌-◌, ◌/◌, ◌≤◌, ◌<◌, Ordering, ◌≡◌, refl, sym, ◌∙◌, ◌≢◌, inl, inr, some, List,
  [], ◌∷◌, arith, ltb, ◌==◌, Bool-cases, Returns, length, get_elem?, take, length-take,
  get_elem?-lt, get_elem?-take, get_elem?-none,
}
use datatypes.Memory.{load-ok}
use native.Mathlib.Decide.{dec_lt}
use datatypes.AssocArray.{search_loop, binary_search}
use datatypes.Callbacks.{Ordering-cases, Ptr, CompareFunc, IsOrder}

module _ (compare_keys : CompareFunc) where
  -- every key compares below every later one
  abbrev pub AllAbove : Ptr → List Ptr → Type 0
  AllAbove a [] = Unit
  AllAbove a (k ∷ ks) = (compare_keys a k ≡ Ordering.lt) × AllAbove a ks

  abbrev pub IsSorted : List Ptr → Type 0
  IsSorted [] = Unit
  IsSorted (k ∷ ks) = AllAbove k ks × IsSorted ks

  AllAbove-get_elem? :
      (a b : Ptr) (ks : List Ptr) (i : ℕ)
      → AllAbove a ks
      → get_elem? ks i ≡ some b
      → compare_keys a b ≡ Ordering.lt
  AllAbove-get_elem? a b [] i h e = cc
  AllAbove-get_elem? a b (k ∷ ks) zero h e = ground (arith, h.0)
  AllAbove-get_elem? a b (k ∷ ks) (suc i) h e = AllAbove-get_elem? a b ks i h.1 e

  IsSorted-get_elem? :
      (a b : Ptr) (ks : List Ptr) (i j : ℕ)
      → IsSorted ks
      → i < j
      → get_elem? ks i ≡ some a
      → get_elem? ks j ≡ some b
      → compare_keys a b ≡ Ordering.lt
  IsSorted-get_elem? a b [] i j s h e f = cc
  IsSorted-get_elem? a b (k ∷ ks) i zero s h e f = absurd (omega arith)
  IsSorted-get_elem? a b (k ∷ ks) zero (suc j) s h e f =
      let same : k ≡ a = cc in AllAbove-get_elem? a b ks j (rw same at s.0) f
  IsSorted-get_elem? a b (k ∷ ks) (suc i) (suc j) s h e f =
      IsSorted-get_elem? a b ks i j s.1 (omega arith) e f

  -- What the answer of the search says: the key stands at the index, or directly before or behind it.
  pub record Locates (ks : List Ptr) (key : Ptr) (answer : Ordering × ℕ) : Type 0 where
    pub within : answer.1 < length ks
    pub compares : (k : Ptr) → get_elem? ks answer.1 ≡ some k → compare_keys key k ≡ answer.0
    pub earlier :
        (j : ℕ) (k : Ptr)
        → j < answer.1
        → get_elem? ks j ≡ some k
        → compare_keys key k ≡ Ordering.gt
    pub later :
        (j : ℕ) (k : Ptr)
        → answer.1 < j
        → get_elem? ks j ≡ some k
        → compare_keys key k ≡ Ordering.lt

  module _ (order : IsOrder compare_keys) (ks : List Ptr) (key : Ptr) (sorted : IsSorted ks) where
    -- a key that is not below one of the keys is above all that stand before it
    earlier_gt :
        (i j : ℕ) (a b : Ptr)
        → j < i
        → get_elem? ks j ≡ some a
        → get_elem? ks i ≡ some b
        → compare_keys key b ≢ Ordering.lt
        → compare_keys key a ≡ Ordering.gt
    earlier_gt i j a b h e f ne =
        let below = IsSorted-get_elem? a b ks j i sorted h e f in
        ground (
          arith,
          order.swap a key,
          order.swap key b,
          order.swap b key,
          order.swap key a,
          order.lt_trans a b key,
          order.eq_left b key a,
          order.eq_left key b a,
          order.swap a b,
          below,
        )

    later_lt :
        (i j : ℕ) (a b : Ptr)
        → i < j
        → get_elem? ks j ≡ some a
        → get_elem? ks i ≡ some b
        → compare_keys key b ≢ Ordering.gt
        → compare_keys key a ≡ Ordering.lt
    later_lt i j a b h e f ne =
        let below = IsSorted-get_elem? b a ks i j sorted h f e in
        ground (arith, order.lt_trans key b a, order.eq_left key b a, below)

    module _ (i : ℕ) (b : Ptr) (here : get_elem? ks i ≡ some b) where
      from_lt :
          compare_keys key b ≡ Ordering.lt
          → (j : ℕ) (k : Ptr) → i ≤ j
          → get_elem? ks j ≡ some k
          → compare_keys key k ≡ Ordering.lt
      from_lt below j k h f = elim (dec_lt i j) [
        | yes g ↦ later_lt i j k b g f here (ground (arith, below))
        | no g ↦ let same : j ≡ i = omega arith in let e : b ≡ k = cc in rw (← e) below
      ]

      upto_gt :
          compare_keys key b ≡ Ordering.gt
          → (j : ℕ) (k : Ptr) → j < suc i
          → get_elem? ks j ≡ some k
          → compare_keys key k ≡ Ordering.gt
      upto_gt above j k h f = elim (dec_lt j i) [
        | yes g ↦ earlier_gt i j k b g f here (ground (arith, above))
        | no g ↦ let same : j ≡ i = omega arith in let e : b ≡ k = cc in rw (← e) above
      ]

      -- a cell that splits the keys is the answer
      Locates-at :
          (o : Ordering)
          → compare_keys key b ≡ o
          → i < length ks
          → ((j : ℕ) (k : Ptr) → j < i → get_elem? ks j ≡ some k → compare_keys key k ≡ Ordering.gt)
          → ((j : ℕ) (k : Ptr) → i < j → get_elem? ks j ≡ some k → compare_keys key k ≡ Ordering.lt)
          → Locates ks key (o, i)
      Locates-at o e h lower upper = record {
        within = h;
        compares = λ k f. let same : b ≡ k = cc in rw (← same) e;
        earlier = lower;
        later = upper;
      }

    module _ (cells : List Ptr)
        (agree : (i : ℕ) → i < length ks → get_elem? cells i ≡ get_elem? ks i) where
      search_loop-Locates :
          (fuel begin stop : ℕ) (result : Ordering) (index : ℕ)
          → stop - begin < fuel
          → begin ≤ stop
          → stop ≤ length ks
          → ((j : ℕ) (k : Ptr)
              → j < begin
              → get_elem? ks j ≡ some k
              → compare_keys key k ≡ Ordering.gt)
          → ((j : ℕ) (k : Ptr)
              → stop ≤ j
              → get_elem? ks j ≡ some k
              → compare_keys key k ≡ Ordering.lt)
          → (begin ≡ stop → Locates ks key (result, index))
          → Returns
              (search_loop compare_keys cells key fuel begin stop result index)
              (Locates ks key)
      unfolding search_loop
      search_loop-Locates zero begin stop result index h le fits lower upper last =
          absurd (omega arith)
      search_loop-Locates (suc fuel) begin stop result index h le fits lower upper last =
          elim (Bool-cases (ltb begin stop)) [
            | inr ended ↦ ((result, index), rw ended, last (ground arith))
            | inl more ↦
                let middle = (begin + stop - 1) / 2 in
                let wide : begin < stop = ground arith in
                let low : begin ≤ middle = omega arith in
                let high : middle < stop = omega arith in
                let (b, here) = get_elem?-lt ks middle (omega arith) in
                let read = load-ok cells middle b (agree middle (omega arith) ∙ here) in
                rw (more, read)
                  (elim (Ordering-cases (compare_keys key b)) [
                    | inl below ↦
                        let rest = from_lt middle b here below in
                        rw below (
                          search_loop-Locates fuel begin middle Ordering.lt middle (omega arith) low
                            (omega arith) lower rest
                            λ e.
                              Locates-at middle b here Ordering.lt below (omega arith)
                                (λ j k g. lower j k (omega arith))
                                (λ j k g. rest j k (omega arith)))
                    | inr (inl found) ↦ (
                      (Ordering.eq, middle),
                      rw found,
                      Locates-at middle b here Ordering.eq found (omega arith)
                          (λ j k g f. earlier_gt middle j k b g f here (ground (arith, found)))
                          (λ j k g f. later_lt middle j k b g f here (ground (arith, found))),
                    )
                    | inr (inr above) ↦
                        let front = upto_gt middle b here above in
                        rw above (
                          search_loop-Locates fuel (middle + 1) stop Ordering.gt middle
                            (omega arith) (omega arith) fits (λ j k g. front j k (omega arith))
                            upper
                            λ e.
                              Locates-at middle b here Ordering.gt above (omega arith)
                                (λ j k g. front j k (omega arith))
                                (λ j k g. upper j k (omega arith)))
                  ])
          ]

  -- With an order to compare by, and on the sorted keys of a non-empty array, whatever lies in the cells behind them, the search
  -- returns within its fuel and without a read out of bounds. Its answer is an index at which the key
  -- compares equal, or below with all earlier keys smaller, or above with all later keys greater.
  pub binary_search-Locates :
      IsOrder compare_keys
      → (cells : List Ptr) (len : ℕ) (key : Ptr) → 0 < len
      → len ≤ length cells
      → IsSorted (take len cells)
      → Returns (binary_search compare_keys cells len key) (Locates (take len cells) key)
  unfolding binary_search
  binary_search-Locates order cells len key pos fits sorted =
      let ks = take len cells in
      let total : length ks ≡ len = omega (arith, length-take len cells) in
      let agree : (i : ℕ) → i < length ks → get_elem? cells i ≡ get_elem? ks i =
        λ i h. sym (get_elem?-take len cells i (omega arith)) in
      elim (Bool-cases (len == 1)) [
        | inl one ↦
            let single : len ≡ 1 = ground arith in
            let (b, here) = get_elem?-lt ks 0 (omega arith) in
            (
              (compare_keys key b, 0),
              rw (one, load-ok cells 0 b (agree 0 (omega arith) ∙ here)),
              Locates-at order ks key sorted 0 b here (compare_keys key b) refl (omega arith)
                  (λ j k h. absurd (omega arith))
                  (λ j k h f. let beyond = get_elem?-none ks j (omega arith) in cc),
            )
        | inr many ↦ rw many (
            search_loop-Locates order ks key sorted cells agree (len + 1) 0 len Ordering.eq 0
              (omega arith) (omega arith) (omega arith) (λ j k h. absurd (omega arith))
              (λ j k h f. let beyond = get_elem?-none ks j (omega arith) in cc)
              (λ e. absurd (omega arith)))
      ]
