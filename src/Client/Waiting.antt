-- ===== src/Client/Waiting.antt =====
-- The queue of received nodes: the fuel of its loops is enough, and what becomes of nodes of one
-- priority.
use zowpy.Prelude.{
  ltb, ◌==◌, ltb→lt, ==_refl, Bool-cases, Option-cases, length, ℕ, zero, suc, ◌+◌, ◌*◌, ◌/◌, ◌≤◌,
  ◌<◌, ◌≡◌, refl, sym, ap, ◌∙◌, inl, inr, Bool, true, false, Option, none, some, List, [], ◌∷◌,
  arith,
}
use zowpy.Coder.Node.{Node}
use zowpy.Iq.{Callbacks}
use zowpy.Client.Queue.{
  priority_of, item_of, replace_at, swap, pop_last, after_push, after_pop, waiting_after, item_lt,
  compare_at, siftdown, smaller_child, siftup, put_node, take_first, get_node, put_all, Received,
  settled, type_error, fails, queued, raises,
}
use zowpy.Client.Kept.{length-swap}

module _ (pair_lt : Received → Received → Option Bool) where
  -- More fuel than the position makes no difference.
  pub siftdown-fuel :
      (f g pos : ℕ) (heap : List Received)
      → pos < f
      → pos < g
      → siftdown pair_lt f pos heap ≡ siftdown pair_lt g pos heap
  unfolding siftdown
  siftdown-fuel zero g pos heap h k = absurd (omega arith)
  siftdown-fuel (suc f) zero pos heap h k = absurd (omega arith)
  siftdown-fuel (suc f) (suc g) zero heap h k = refl
  siftdown-fuel (suc f) (suc g) (suc p) heap h k =
      ap
        (λ up. elim (compare_at pair_lt heap (suc p) (p / 2)) [
          | none ↦ type_error heap
          | some false ↦ settled heap
          | some true ↦ up
        ])
        (siftdown-fuel f g (p / 2) (swap (suc p) (p / 2) heap) (omega arith) (omega arith))

  smaller_child-between :
      (heap : List Received) (pos c : ℕ)
      → pos < length heap / 2
      → smaller_child pair_lt heap pos ≡ some c
      → (pos < c) × (c < length heap)
  unfolding smaller_child
  smaller_child-between heap pos c h e = elim (Bool-cases (ltb (2 * pos + 1 + 1) (length heap))) [
    | inr last ↦ let same : 2 * pos + 1 ≡ c = cc (rw last at e) in (omega arith, omega arith)
    | inl more ↦
        let bound = ltb→lt (2 * pos + 1 + 1) (length heap) more in
        elim (compare_at pair_lt heap (2 * pos + 1) (2 * pos + 1 + 1))
            as (λ o.
              (elim o [
                | none ↦ none
                | some true ↦ some (2 * pos + 1)
                | some false ↦ some (2 * pos + 1 + 1)
              ])
                ≡ some c
              → (pos < c) × (c < length heap)) [
                | none ↦ λ bad. absurd cc
                | some true ↦ λ left. let same : 2 * pos + 1 ≡ c = cc in (omega arith, omega arith)
                | some false ↦
                    λ right. let same : 2 * pos + 1 + 1 ≡ c = cc in (omega arith, omega arith)
              ]
          (rw more at e)
  ]

  -- Fuel that leads past the end of the heap is enough.
  pub siftup-fuel :
      (f g pos : ℕ) (heap : List Received)
      → pos < length heap
      → length heap ≤ pos + f
      → length heap ≤ pos + g
      → siftup pair_lt f pos heap ≡ siftup pair_lt g pos heap
  unfolding siftup
  siftup-fuel zero g pos heap p h k = absurd (omega arith)
  siftup-fuel (suc f) zero pos heap p h k = absurd (omega arith)
  siftup-fuel (suc f) (suc g) pos heap p h k = elim (Bool-cases (ltb pos (length heap / 2))) [
    | inr leaf ↦ rw leaf refl
    | inl inside ↦ elim (Option-cases (smaller_child pair_lt heap pos)) [
      | inl bad ↦ rw (inside, siftup, bad) refl
      | inr (c, good) ↦
          let between =
            smaller_child-between heap pos c (ltb→lt pos (length heap / 2) inside) good in
          let same = length-swap c pos heap in
          rw (inside, siftup, good)
            (siftup-fuel f g c (swap c pos heap) (omega (arith, between, same))
              (omega (arith, between, same)) (omega (arith, between, same)))
    ]
  ]

  item_lt-none :
      (x y : Received) → x.priority ≡ y.priority → pair_lt x y ≡ none → item_lt pair_lt x y ≡ none
  item_lt-none x y e h =
      let same : (x.priority == y.priority) ≡ true = rw e (==_refl y.priority) in rw same h

  put_node-first : (x : Received) → put_node pair_lt x [] ≡ queued (x ∷ [])
  unfolding put_node siftdown
  put_node-first x = refl

  put_node-second :
      (x y : Received)
      → item_lt pair_lt y x ≡ none
      → put_node pair_lt y (x ∷ []) ≡ raises (x ∷ y ∷ [])
  unfolding put_node siftdown
  put_node-second x y h =
      ap
        (λ o. after_push (elim o [
          | none ↦ type_error (x ∷ y ∷ [])
          | some false ↦ settled (x ∷ y ∷ [])
          | some true ↦ siftdown pair_lt 1 0 (swap 1 0 (x ∷ y ∷ []))
        ]))
        h

  put_node-third :
      (x y z : Received)
      → item_lt pair_lt z x ≡ none
      → put_node pair_lt z (x ∷ y ∷ []) ≡ raises (x ∷ y ∷ z ∷ [])
  unfolding put_node siftdown
  put_node-third x y z h =
      ap
        (λ o. after_push (elim o [
          | none ↦ type_error (x ∷ y ∷ z ∷ [])
          | some false ↦ settled (x ∷ y ∷ z ∷ [])
          | some true ↦ siftdown pair_lt 2 0 (swap 2 0 (x ∷ y ∷ z ∷ []))
        ]))
        h

  get_node-third :
      (x y z : Received)
      → item_lt pair_lt z y ≡ none
      → get_node pair_lt (x ∷ y ∷ z ∷ []) ≡ fails (y ∷ z ∷ [])
  unfolding get_node take_first pop_last siftup smaller_child siftdown swap replace_at
  get_node-third x y z h =
      ap
        (λ o. after_pop x (elim o [
          | none ↦ type_error (y ∷ z ∷ [])
          | some false ↦ settled (y ∷ z ∷ [])
          | some true ↦ siftdown pair_lt 1 0 (swap 1 0 (y ∷ z ∷ []))
        ]))
        h

  put_all-three :
      (x y z : Received)
      → item_lt pair_lt y x ≡ none
      → item_lt pair_lt z x ≡ none
      → put_all pair_lt (x ∷ y ∷ z ∷ []) [] ≡ x ∷ y ∷ z ∷ []
  unfolding put_all
  put_all-three x y z h k =
      ap (λ p. put_all pair_lt (y ∷ z ∷ []) (waiting_after p)) (put_node-first x)
      ∙ ap (λ p. put_all pair_lt (z ∷ []) (waiting_after p)) (put_node-second x y h)
      ∙ ap waiting_after (put_node-third x y z k)

  -- Three nodes of one priority, of which no two can be compared, are put into an empty queue: all wait,
  -- and the first `get` raises and loses the first of them.
  pub get_node-put_all_unordered :
      (callbacks : Callbacks) (a b c : Node) (as_ bs cs : List ℕ)
      → priority_of callbacks a ≡ priority_of callbacks b
      → priority_of callbacks a ≡ priority_of callbacks c
      → pair_lt (item_of callbacks b bs) (item_of callbacks a as_) ≡ none
      → pair_lt (item_of callbacks c cs) (item_of callbacks a as_) ≡ none
      → pair_lt (item_of callbacks c cs) (item_of callbacks b bs) ≡ none
      → get_node pair_lt (
          put_all pair_lt
            (item_of callbacks a as_ ∷ item_of callbacks b bs ∷ item_of callbacks c cs ∷ [])
            [])
        ≡ fails (item_of callbacks b bs ∷ item_of callbacks c cs ∷ [])
  get_node-put_all_unordered callbacks a b c as_ bs cs ab ac ba ca cb =
      let x = item_of callbacks a as_ in
      let y = item_of callbacks b bs in
      let z = item_of callbacks c cs in
      ap (get_node pair_lt)
        (put_all-three x y z (item_lt-none y x (sym ab) ba) (item_lt-none z x (sym ac) ca))
      ∙ get_node-third x y z (item_lt-none z y (sym ac ∙ ab) cb)
