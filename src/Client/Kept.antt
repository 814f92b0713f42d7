-- ===== src/Client/Kept.antt =====
-- What the queue of received nodes keeps.
use zowpy.Prelude.{
  ltb, leb, if◌then◌else◌, Bool-cases, Option-cases, length, get_elem?, ℕ, zero, suc, ◌+◌, ◌/◌, ◌≡◌,
  refl, ap, ◌∙◌, inl, inr, Bool, true, false, Option, none, some, List, [], ◌∷◌, ◌++◌, arith,
}
use zowpy.Client.Queue.{
  max_size, replace_at, swap, pop_last, after_push, after_pop, waiting_after, compare_at, siftdown,
  smaller_child, siftup, put_node, take_first, get_node, Received, Sifted, settled, type_error, Got,
  waits, gives, fails,
}

module _ {ℓ} {A : Type ℓ} where
  length-replace_at : (i : ℕ) (a : A) (xs : List A) → length (replace_at i a xs) ≡ length xs
  unfolding replace_at
  length-replace_at i a [] = refl
  length-replace_at zero a (x ∷ xs) = refl
  length-replace_at (suc i) a (x ∷ xs) = ap suc (length-replace_at i a xs)

  get_elem?-replace_at :
      (i j : ℕ) (a : A) (xs : List A)
      → get_elem? xs i ≡ some a
      → get_elem? (replace_at j a xs) i ≡ some a
  unfolding replace_at
  get_elem?-replace_at i j a [] h = h
  get_elem?-replace_at zero zero a (x ∷ xs) h = refl
  get_elem?-replace_at zero (suc j) a (x ∷ xs) h = h
  get_elem?-replace_at (suc i) zero a (x ∷ xs) h = h
  get_elem?-replace_at (suc i) (suc j) a (x ∷ xs) h = get_elem?-replace_at i j a xs h

  pub length-swap : (i j : ℕ) (xs : List A) → length (swap i j xs) ≡ length xs
  unfolding swap
  length-swap i j xs = elim (Option-cases (get_elem? xs i)) [
    | inl out ↦ rw (swap, out) refl
    | inr (a, there) ↦ elim (Option-cases (get_elem? xs j)) [
      | inl out ↦ rw (swap, there, out) refl
      | inr (b, here) ↦
          rw (swap, there, here)
            (length-replace_at i b (replace_at j a xs) ∙ length-replace_at j a xs)
    ]
  ]

-- How many elements pass a test.
abbrev pub one_if : Bool → ℕ
one_if true = 1
one_if false = 0

unfoldable pub count {ℓ} : {A : Type ℓ} → (A → Bool) → List A → ℕ
count test [] = 0
count test (x ∷ xs) = one_if (test x) + count test xs

module _ {ℓ} {A : Type ℓ} (test : A → Bool) where
  count-replace_at :
      (i : ℕ) (a x : A) (xs : List A)
      → get_elem? xs i ≡ some x
      → count test (replace_at i a xs) + one_if (test x) ≡ count test xs + one_if (test a)
  unfolding replace_at count
  count-replace_at i a x [] h = absurd cc
  count-replace_at zero a x (y ∷ xs) h = let same : y ≡ x = cc in rw same (omega arith)
  count-replace_at (suc i) a x (y ∷ xs) h = omega (arith, count-replace_at i a x xs h)

  pub count-swap : (i j : ℕ) (xs : List A) → count test (swap i j xs) ≡ count test xs
  unfolding swap
  count-swap i j xs = elim (Option-cases (get_elem? xs i)) [
    | inl out ↦ rw (swap, out) refl
    | inr (a, there) ↦ elim (Option-cases (get_elem? xs j)) [
      | inl out ↦ rw (swap, there, out) refl
      | inr (b, here) ↦
          rw (swap, there, here)
            (omega (
              arith,
              count-replace_at i b a (replace_at j a xs) (get_elem?-replace_at i j a xs there),
              count-replace_at j a b xs here,
            ))
    ]
  ]

  pub count-append : (xs ys : List A) → count test (xs ++ ys) ≡ count test xs + count test ys
  unfolding count
  count-append [] ys = omega arith
  count-append (x ∷ xs) ys = omega (arith, count-append xs ys)

  pub count-pop_last :
      (x : A) (xs : List A)
      → count test (x ∷ xs) ≡ one_if (test ((pop_last x xs).0)) + count test ((pop_last x xs).1)
  unfolding count pop_last
  count-pop_last x [] = refl
  count-pop_last x (y ∷ xs) = omega (arith, count-pop_last y xs)

unfoldable pub heap_of : Sifted → List Received
heap_of (settled heap) = heap
heap_of (type_error heap) = heap

module _ (pair_lt : Received → Received → Option Bool) where
  module _ (test : Received → Bool) where
    siftdown-kept :
        (f pos : ℕ) (heap : List Received)
        → count test (heap_of (siftdown pair_lt f pos heap)) ≡ count test heap
    unfolding heap_of siftdown
    siftdown-kept zero pos heap = refl
    siftdown-kept (suc f) zero heap = refl
    siftdown-kept (suc f) (suc p) heap =
        elim (compare_at pair_lt heap (suc p) (p / 2))
          as (λ o.
            count test (
              heap_of (elim o [
                | none ↦ type_error heap
                | some false ↦ settled heap
                | some true ↦ siftdown pair_lt f (p / 2) (swap (suc p) (p / 2) heap)
              ]))
            ≡ count test heap) [
              | none ↦ refl
              | some false ↦ refl
              | some true ↦
                  siftdown-kept f (p / 2) (swap (suc p) (p / 2) heap)
                  ∙ count-swap test (suc p) (p / 2) heap
            ]

    siftup-kept :
        (f pos : ℕ) (heap : List Received)
        → count test (heap_of (siftup pair_lt f pos heap)) ≡ count test heap
    unfolding heap_of siftup
    siftup-kept zero pos heap = refl
    siftup-kept (suc f) pos heap = elim (Bool-cases (ltb pos (length heap / 2))) [
      | inl inside ↦ elim (Option-cases (smaller_child pair_lt heap pos)) [
        | inl bad ↦ rw (siftup, inside, bad) refl
        | inr (below, good) ↦
            rw (siftup, inside, good)
              (siftup-kept f below (swap below pos heap) ∙ count-swap test below pos heap)
      ]
      | inr leaf ↦ rw (siftup, leaf) (siftdown-kept (suc pos) pos heap)
    ]

    put_node-sifted :
        (before : List Received) (sifted : Sifted)
        → count test (heap_of sifted) ≡ count test before
        → count test (waiting_after (after_push sifted)) ≡ count test before
    unfolding heap_of
    put_node-sifted before (settled heap) h = h
    put_node-sifted before (type_error heap) h = h

    -- A node that is put is among those that wait afterwards, with all that waited before, whether the
    -- call raises or not. Only a queue of the greatest size does not take it.
    pub put_node-keeps :
        (item : Received) (heap : List Received)
        → count test (waiting_after (put_node pair_lt item heap))
          ≡ count test heap + (if leb max_size (length heap) then 0 else one_if (test item))
    unfolding put_node
    put_node-keeps item heap = elim (Bool-cases (leb max_size (length heap))) [
      | inl full ↦ rw full (omega arith)
      | inr room ↦ rw room (
          put_node-sifted (heap ++ item ∷ []) _
            (siftdown-kept (length heap + 1) (length heap) (heap ++ item ∷ []))
          ∙ count-append test heap (item ∷ [])
          ∙ unfold count in omega arith)
    ]

    -- What a `get` leaves: it takes the first node, and returns it or, when it raises, loses it.
    abbrev pub Leaves : List Received → Got → Type 0
    Leaves heap waits = heap ≡ []
    Leaves heap (gives item rest) =
        (get_elem? heap 0 ≡ some item) × (count test heap ≡ one_if (test item) + count test rest)
    Leaves heap (fails rest) =
        (lost : Received) × (get_elem? heap 0 ≡ some lost)
        × (count test heap ≡ one_if (test lost) + count test rest)

    after_pop-Leaves :
        (heap : List Received) (top : Received) (sifted : Sifted)
        → get_elem? heap 0 ≡ some top
        → count test heap ≡ one_if (test top) + count test (heap_of sifted)
        → Leaves heap (after_pop top sifted)
    unfolding heap_of
    after_pop-Leaves heap top (settled rest) h k = (h, k)
    after_pop-Leaves heap top (type_error rest) h k = (top, h, k)

    -- A `get` takes the first of the nodes that wait. Where it returns, it returns that node, and the
    -- others wait on. Where it raises, the others wait on as well, and that node is lost.
    pub get_node-Leaves : (heap : List Received) → Leaves heap (get_node pair_lt heap)
    unfolding get_node take_first pop_last
    get_node-Leaves [] = refl
    get_node-Leaves (x ∷ []) = (refl, unfold count in omega arith)
    get_node-Leaves (x ∷ y ∷ xs) =
        let last = (pop_last y xs).0 in
        let others = (pop_last y xs).1 in
        let kept = siftup-kept (length others + 1) 0 (last ∷ others) in
        let split = count-pop_last test y xs in
        after_pop-Leaves (x ∷ y ∷ xs) x (siftup pair_lt (length others + 1) 0 (last ∷ others)) refl
          (unfold count in omega (arith, kept, split))
