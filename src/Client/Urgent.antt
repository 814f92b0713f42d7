-- ===== src/Client/Urgent.antt =====
-- The first node of the queue of received nodes is a most urgent one.
use zowpy.Prelude.{
  ltb, leb, ◌==◌, Bool-cases, Option-cases, length, get_elem?, length-append, ℕ, zero, suc, ◌+◌,
  ◌/◌, ◌≤◌, ◌<◌, ◌≡◌, refl, sym, ap, ◌∙◌, ◌≢◌, ◌⊎◌, inl, inr, Bool, true, false, Option, some, List,
  [], ◌∷◌, ◌++◌, arith,
}
use zowpy.Client.Queue.{
  max_size, swap, pop_last, after_push, after_pop, waiting_after, item_lt, compare_at, siftdown,
  siftup, put_node, take_first, get_node, put_all, Received, Sifted, settled, type_error, Got,
  gives, fails,
}
use zowpy.Client.Kept.{heap_of}
use zowpy.Client.Heap.{IsHeap, same_priority, swapped, swap-AlmostHeap, AlmostHeap}

get_elem?-there :
    (xs : List Received) (i j : ℕ) (a : Received)
    → get_elem? xs i ≡ some a
    → j ≤ i
    → (b : Received) × (get_elem? xs j ≡ some b)
get_elem?-there [] i j a h le = absurd cc
get_elem?-there (x ∷ xs) i zero a h le = (x, refl)
get_elem?-there (x ∷ xs) zero (suc j) a h le = absurd (omega arith)
get_elem?-there (x ∷ xs) (suc i) (suc j) a h le = get_elem?-there xs i j a h (omega arith)

-- What the two ends of a comparison say of the priorities.
module _ (pair_lt : Received → Received → Option Bool) where
  item_lt-le :
      (a b : Received)
      → (item_lt pair_lt a b ≡ some true → a.priority ≤ b.priority)
        × (item_lt pair_lt a b ≢ some true → b.priority ≤ a.priority)
  item_lt-le a b = elim (Bool-cases (a.priority == b.priority)) [
    | inl same ↦
        let e : a.priority ≡ b.priority = ground arith in ((λ h. omega arith), (λ h. omega arith))
    | inr differ ↦ elim (Bool-cases (ltb a.priority b.priority)) [
      | inl less ↦ ((λ h. ground arith), (λ h. absurd (h (rw (differ, less) refl))))
      | inr not_less ↦ ((λ h. absurd (cc (rw (differ, not_less) at h))), (λ h. ground arith))
    ]
  ]

  AlmostHeap-settled :
      (q : ℕ) (a b : Received) (xs : List Received)
      → AlmostHeap (suc q) xs
      → get_elem? xs (suc q) ≡ some a
      → get_elem? xs (q / 2) ≡ some b
      → b.priority ≤ a.priority
      → IsHeap xs
  AlmostHeap-settled q a b xs almost here above le i x y hx hy = elim (Bool-cases (i == q)) [
    | inl same ↦
        let e : i ≡ q = ground arith in
        let x_is = same_priority (rw e at hx) above in
        let y_is = same_priority (rw e at hy) here in omega (arith, le, x_is, y_is)
    | inr differ ↦ almost.elsewhere i (λ e. ground arith) x y hx hy
  ]

  AlmostHeap-zero : (xs : List Received) → AlmostHeap 0 xs → IsHeap xs
  AlmostHeap-zero xs almost i = almost.elsewhere i (λ e. omega arith)

  compare_at-there :
      (xs : List Received) (i j : ℕ) (a b : Received)
      → get_elem? xs i ≡ some a
      → get_elem? xs j ≡ some b
      → compare_at pair_lt xs i j ≡ item_lt pair_lt a b
  compare_at-there xs i j a b h k = rw (compare_at, h, k) refl

  -- Whether the comparisons raise or not, sifting the last doubtful node restores the heap.
  siftdown-IsHeap :
      (f p : ℕ) (a : Received) (xs : List Received)
      → p < f
      → get_elem? xs p ≡ some a
      → AlmostHeap p xs
      → IsHeap (heap_of (siftdown pair_lt f p xs))
  unfolding siftdown heap_of
  siftdown-IsHeap zero p a xs fuel here almost = absurd (omega arith)
  siftdown-IsHeap (suc f) zero a xs fuel here almost = AlmostHeap-zero xs almost
  siftdown-IsHeap (suc f) (suc q) a xs fuel here almost =
      let (b, above) = get_elem?-there xs (suc q) (q / 2) a here (omega arith) in
      let same = compare_at-there xs (suc q) (q / 2) a b here above in
      let le = item_lt-le a b in
      elim (Option-cases (item_lt pair_lt a b)) [
        | inl unordered ↦
            rw (siftdown, same ∙ unordered)
              (AlmostHeap-settled q a b xs almost here above (le.1 (λ e. cc)))
        | inr (false, later) ↦
            rw (siftdown, same ∙ later)
              (AlmostHeap-settled q a b xs almost here above (le.1 (λ e. cc)))
        | inr (true, sooner) ↦
            rw (siftdown, same ∙ sooner)
              (siftdown-IsHeap f (q / 2) a (swap (suc q) (q / 2) xs) (omega arith)
                ((swapped q a b xs almost here above (le.0 sooner)).at_j)
                (swap-AlmostHeap q a b xs almost here above (le.0 sooner)))
      ]

get_elem?-append_left :
    (xs ys : List Received) (k : ℕ) → k < length xs → get_elem? (xs ++ ys) k ≡ get_elem? xs k
get_elem?-append_left [] ys k h = absurd (omega arith)
get_elem?-append_left (x ∷ xs) ys zero h = refl
get_elem?-append_left (x ∷ xs) ys (suc k) h = get_elem?-append_left xs ys k (omega arith)

get_elem?-append_last :
    (xs : List Received) (y : Received) → get_elem? (xs ++ y ∷ []) (length xs) ≡ some y
get_elem?-append_last [] y = refl
get_elem?-append_last (x ∷ xs) y = get_elem?-append_last xs y

get_elem?-lt : (xs : List Received) (k : ℕ) (x : Received) → get_elem? xs k ≡ some x → k < length xs
get_elem?-lt [] k x h = absurd cc
get_elem?-lt (y ∷ xs) zero x h = omega arith
get_elem?-lt (y ∷ xs) (suc k) x h = omega (arith, get_elem?-lt xs k x h)

-- A node that is appended to a heap is the only doubtful one.
append-AlmostHeap :
    (xs : List Received) (item : Received) → IsHeap xs → AlmostHeap (length xs) (xs ++ item ∷ [])
append-AlmostHeap xs item heap = record {
  elsewhere = λ i ne x y hx hy.
      let total = length-append xs (item ∷ []) in
      let inside : suc i < length xs =
        omega (arith, ne, total, get_elem?-lt (xs ++ item ∷ []) (suc i) y hy) in
      heap i x y (sym (get_elem?-append_left xs (item ∷ []) (i / 2) (omega arith)) ∙ hx)
        (sym (get_elem?-append_left xs (item ∷ []) (suc i) inside) ∙ hy);
  around = λ i q below e x y hx hy.
      absurd
        (omega (arith, length-append xs (item ∷ []), get_elem?-lt (xs ++ item ∷ []) (suc i) y hy));
}

module _ (pair_lt : Received → Received → Option Bool) where
  after_push-IsHeap :
      (sifted : Sifted) → IsHeap (heap_of sifted) → IsHeap (waiting_after (after_push sifted))
  unfolding heap_of
  after_push-IsHeap (settled xs) h = h
  after_push-IsHeap (type_error xs) h = h

  put_node-IsHeap :
      (item : Received) (xs : List Received)
      → IsHeap xs
      → IsHeap (waiting_after (put_node pair_lt item xs))
  unfolding put_node
  put_node-IsHeap item xs h = elim (Bool-cases (leb max_size (length xs))) [
    | inl full ↦ rw full h
    | inr room ↦ rw room (
        after_push-IsHeap (siftdown pair_lt (length xs + 1) (length xs) (xs ++ item ∷ [])) (
          siftdown-IsHeap pair_lt (length xs + 1) (length xs) item (xs ++ item ∷ []) (omega arith)
            (get_elem?-append_last xs item) (append-AlmostHeap xs item h)))
  ]

  put_all-IsHeap : (items xs : List Received) → IsHeap xs → IsHeap (put_all pair_lt items xs)
  unfolding put_all
  put_all-IsHeap [] xs h = h
  put_all-IsHeap (item ∷ items) xs h =
      put_all-IsHeap items (waiting_after (put_node pair_lt item xs)) (put_node-IsHeap item xs h)

-- The first of a heap has the least number.
first-le :
    (f k : ℕ) (xs : List Received) (first x : Received)
    → k < f
    → IsHeap xs
    → get_elem? xs 0 ≡ some first
    → get_elem? xs k ≡ some x
    → first.priority ≤ x.priority
first-le zero k xs first x fuel heap h e = absurd (omega arith)
first-le (suc f) zero xs first x fuel heap h e = omega (arith, same_priority h e)
first-le (suc f) (suc k) xs first x fuel heap h e =
    let (parent, there) = get_elem?-there xs (suc k) (k / 2) x e (omega arith) in
    let step = heap k parent x there e in
    let start = first-le f (k / 2) xs first parent (omega arith) heap h there in
    omega (arith, step, start)

-- The first node is returned, or lost with a TypeError.
abbrev pub Takes : Received → Got → Type 0
Takes first got = (rest : List Received) × ((got ≡ gives first rest) ⊎ (got ≡ fails rest))

after_pop-Takes : (top : Received) (sifted : Sifted) → Takes top (after_pop top sifted)
after_pop-Takes top (settled rest) = (rest, inl refl)
after_pop-Takes top (type_error rest) = (rest, inr refl)

get_node-Takes :
    (pair_lt : Received → Received → Option Bool) (xs : List Received) (first : Received)
    → get_elem? xs 0 ≡ some first
    → Takes first (get_node pair_lt xs)
unfolding get_node take_first pop_last
get_node-Takes pair_lt [] first h = absurd cc
get_node-Takes pair_lt (x ∷ []) first h =
    let e : x ≡ first = cc in ([], inl (ap (λ r. gives r []) e))
get_node-Takes pair_lt (x ∷ y ∷ xs) first h =
    let e : x ≡ first = cc in
    rw (← e) (
      after_pop-Takes x
        (siftup pair_lt (length (pop_last y xs).1 + 1) 0 ((pop_last y xs).0 ∷ (pop_last y xs).1)))

IsHeap-empty : IsHeap []
IsHeap-empty i a b h k = absurd cc

-- Whatever nodes were put into an empty queue, and whether the calls raised or not, the node that the
-- next `get` returns or loses has the least number as its priority among all that wait.
pub get_node-put_all_le :
    (pair_lt : Received → Received → Option Bool) (items : List Received) (first : Received)
    → get_elem? (put_all pair_lt items []) 0 ≡ some first
    → Takes first (get_node pair_lt (put_all pair_lt items []))
      × ((k : ℕ) (x : Received)
          → get_elem? (put_all pair_lt items []) k ≡ some x
          → first.priority ≤ x.priority)
get_node-put_all_le pair_lt items first h = (
  get_node-Takes pair_lt (put_all pair_lt items []) first h,
  λ k x e.
      first-le (suc k) k (put_all pair_lt items []) first x (omega arith)
        (put_all-IsHeap pair_lt items [] IsHeap-empty) h e,
)
