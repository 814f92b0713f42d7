-- ===== src/Client/Heap.antt =====
-- The queue of received nodes is a heap: the parent of a node has no greater number as its priority.
use zowpy.Prelude.{
  ◌==◌, Bool-cases, get_elem?, ℕ, zero, suc, ◌/◌, ◌≤◌, ◌≡◌, refl, sym, ap, ◌∙◌, ◌≢◌, inl, inr,
  Option, some, List, [], ◌∷◌, arith,
}
use zowpy.Client.Queue.{replace_at, swap, Received}

-- The number at `i` is not greater than the one at `j`, where both are there.
abbrev pub LeAt : List Received → ℕ → ℕ → Type 0
LeAt xs i j =
    (a b : Received) → get_elem? xs i ≡ some a → get_elem? xs j ≡ some b → a.priority ≤ b.priority

abbrev pub IsHeap : List Received → Type 0
IsHeap xs = (i : ℕ) → LeAt xs (i / 2) (suc i)

-- A heap but for one position, whose children are not below its parent.
pub record AlmostHeap (p : ℕ) (xs : List Received) : Type 0 where
  pub elsewhere : (i : ℕ) → suc i ≢ p → LeAt xs (i / 2) (suc i)
  pub around : (i q : ℕ) → i / 2 ≡ p → p ≡ suc q → LeAt xs (q / 2) (suc i)

pub same_priority :
    {o : Option Received} {x y : Received} → o ≡ some x → o ≡ some y → x.priority ≡ y.priority
same_priority {o} {x} {y} h k = let e : x ≡ y = cc in ap (λ r. r.priority) e

module _ {ℓ} {A : Type ℓ} where
  get_elem?-replace_at_same :
      (i : ℕ) (a x : A) (xs : List A)
      → get_elem? xs i ≡ some x
      → get_elem? (replace_at i a xs) i ≡ some a
  unfolding replace_at
  get_elem?-replace_at_same i a x [] h = absurd cc
  get_elem?-replace_at_same zero a x (y ∷ xs) h = refl
  get_elem?-replace_at_same (suc i) a x (y ∷ xs) h = get_elem?-replace_at_same i a x xs h

  get_elem?-replace_at_other :
      (i k : ℕ) (a : A) (xs : List A) → k ≢ i → get_elem? (replace_at i a xs) k ≡ get_elem? xs k
  unfolding replace_at
  get_elem?-replace_at_other i k a [] h = refl
  get_elem?-replace_at_other zero zero a (y ∷ xs) h = absurd (h refl)
  get_elem?-replace_at_other zero (suc k) a (y ∷ xs) h = refl
  get_elem?-replace_at_other (suc i) zero a (y ∷ xs) h = refl
  get_elem?-replace_at_other (suc i) (suc k) a (y ∷ xs) h =
      get_elem?-replace_at_other i k a xs (λ e. h (ap suc e))

-- Two elements that changed places.
pub record Swapped (i j : ℕ) (a b : Received) (xs : List Received) : Type 0 where
  pub at_i : get_elem? (swap i j xs) i ≡ some b
  pub at_j : get_elem? (swap i j xs) j ≡ some a
  pub other : (k : ℕ) → k ≢ i → k ≢ j → get_elem? (swap i j xs) k ≡ get_elem? xs k

swap-opened :
    (i j : ℕ) (a b : Received) (xs : List Received)
    → get_elem? xs i ≡ some a
    → get_elem? xs j ≡ some b
    → swap i j xs ≡ replace_at i b (replace_at j a xs)
unfolding swap
swap-opened i j a b xs h k = rw (swap, h, k) refl

swap-Swapped :
    (i j : ℕ) (a b : Received) (xs : List Received)
    → i ≢ j
    → get_elem? xs i ≡ some a
    → get_elem? xs j ≡ some b
    → Swapped i j a b xs
swap-Swapped i j a b xs ne h k =
    let opened = swap-opened i j a b xs h k in
    let inner = get_elem?-replace_at_other j i a xs ne in
    record {
      at_i = rw opened (get_elem?-replace_at_same i b a (replace_at j a xs) (inner ∙ h));
      at_j = rw opened (
          get_elem?-replace_at_other i j b (replace_at j a xs) (λ e. ne (sym e))
          ∙ get_elem?-replace_at_same j a b xs k);
      other = λ n not_i not_j. rw opened (
          get_elem?-replace_at_other i n b (replace_at j a xs) not_i
          ∙ get_elem?-replace_at_other j n a xs not_j);
    }

-- One step up: the node that is below its parent changes places with it.
module _ (q : ℕ) (a b : Received) (xs : List Received) (almost : AlmostHeap (suc q) xs)
    (here : get_elem? xs (suc q) ≡ some a) (above : get_elem? xs (q / 2) ≡ some b)
    (less : a.priority ≤ b.priority) where
  pub swapped : Swapped (suc q) (q / 2) a b xs
  swapped = swap-Swapped (suc q) (q / 2) a b xs (omega arith) here above

  swap-elsewhere : (i : ℕ) → suc i ≢ q / 2 → LeAt (swap (suc q) (q / 2) xs) (i / 2) (suc i)
  swap-elsewhere i ne x y hx hy = elim (Bool-cases (i == q)) [
    | inl same ↦
        let e : i ≡ q = ground arith in
        let y_is = same_priority (rw e at hy) (swapped.at_i) in
        let x_is = same_priority (rw e at hx) (swapped.at_j) in omega (arith, less, x_is, y_is)
    | inr differ ↦
        let apart : suc i ≢ suc q = λ e. ground arith in
        let y_there : get_elem? xs (suc i) ≡ some y = sym (swapped.other (suc i) apart ne) ∙ hy in
        elim (Bool-cases (i / 2 == suc q)) [
          | inl below ↦
              let e : i / 2 ≡ suc q = ground arith in
              let x_is = same_priority (rw e at hx) (swapped.at_i) in
              omega (arith, x_is, almost.around i q e refl b y above y_there)
          | inr not_below ↦ elim (Bool-cases (i / 2 == q / 2)) [
            | inl beside ↦
                let e : i / 2 ≡ q / 2 = ground arith in
                let x_is = same_priority (rw e at hx) (swapped.at_j) in
                let b_le = almost.elsewhere i apart b y (rw e above) y_there in
                omega (arith, less, x_is, b_le)
            | inr far ↦
                let x_there : get_elem? xs (i / 2) ≡ some x =
                  sym (swapped.other (i / 2) (λ e. ground arith) (λ e. ground arith)) ∙ hx in
                almost.elsewhere i apart x y x_there y_there
          ]
        ]
  ]

  swap-around :
      (i t : ℕ) → i / 2 ≡ q / 2 → q / 2 ≡ suc t → LeAt (swap (suc q) (q / 2) xs) (t / 2) (suc i)
  swap-around i t beside root x y hx hy =
      let x_there : get_elem? xs (t / 2) ≡ some x =
        sym (swapped.other (t / 2) (λ e. omega arith) (λ e. omega arith)) ∙ hx in
      let x_le : x.priority ≤ b.priority =
        almost.elsewhere t (λ e. omega arith) x b x_there (rw (← root) above) in
      elim (Bool-cases (i == q)) [
        | inl same ↦
            let e : i ≡ q = ground arith in
            let y_is = same_priority (rw e at hy) (swapped.at_i) in omega (arith, x_le, y_is)
        | inr differ ↦
            let apart : suc i ≢ suc q = λ e. ground arith in
            let y_there : get_elem? xs (suc i) ≡ some y =
              sym (swapped.other (suc i) apart (λ e. omega arith)) ∙ hy in
            omega (arith, x_le, almost.elsewhere i apart b y (rw beside above) y_there)
      ]

  pub swap-AlmostHeap : AlmostHeap (q / 2) (swap (suc q) (q / 2) xs)
  swap-AlmostHeap = record { elsewhere = swap-elsewhere; around = swap-around }
