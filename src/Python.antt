-- ===== src/Python.antt =====
-- What the modelled code uses of Python's built-in texts and numbers: `str`, `int`, `split`,
-- `index` and slices, on texts as lists of code points.
pub mod Decimal
pub mod Dict
use zowpy.Prelude.{
  ◌==◌, if◌then◌else◌, length, Text, ℕ, zero, suc, ◌≤◌, ◌<◌, ◌≡◌, refl, ap, Bool, true, false, ◌||◌,
  Option, none, some, [], ◌∷◌, ◌++◌, arith,
}

-- `s.find(c)`, with `none` for -1; also `s.index(c)`, where `none` is the ValueError.
unfoldable pub index_of : ℕ → Text → Option ℕ
index_of c [] = none
index_of c (a ∷ s) =
    if a == c then some 0 else elim (index_of c s) [ none ↦ none | some i ↦ some (suc i) ]

-- `s.split(c)[0]`: what stands before the first `c`, the whole text if there is none.
unfoldable pub before : ℕ → Text → Text
before c [] = []
before c (a ∷ s) = if a == c then [] else a ∷ before c s

-- What stands after the first `c`; `none` if there is no `c`.
unfoldable pub after : ℕ → Text → Option Text
after c [] = none
after c (a ∷ s) = if a == c then some s else after c s

-- `s.split(c)[1]`; `none` is the IndexError.
unfoldable pub second_part : ℕ → Text → Option Text
second_part c s = elim (after c s) [ none ↦ none | some r ↦ some (before c r) ]

unfoldable pub contains : ℕ → Text → Bool
contains c [] = false
contains c (a ∷ s) = if a == c then true else contains c s

-- A text with no `c` is one part.
pub before-of_not_contains : (c : ℕ) (s : Text) → contains c s ≡ false → before c s ≡ s
unfolding before contains
before-of_not_contains c [] h = refl
before-of_not_contains c (a ∷ s) h = ground (arith, before-of_not_contains c s)

pub before-append : (c : ℕ) (s t : Text) → contains c s ≡ false → before c (s ++ c ∷ t) ≡ s
unfolding before contains
before-append c [] t h = ground arith
before-append c (a ∷ s) t h = ground (arith, before-append c s t)

pub after-append : (c : ℕ) (s t : Text) → contains c s ≡ false → after c (s ++ c ∷ t) ≡ some t
unfolding after contains
after-append c [] t h = ground arith
after-append c (a ∷ s) t h = ground (arith, after-append c s t)

pub contains-append_self : (c : ℕ) (s t : Text) → contains c (s ++ c ∷ t) ≡ true
unfolding contains
contains-append_self c [] t = ground arith
contains-append_self c (a ∷ s) t = ground (arith, contains-append_self c s t)

pub index_of-append :
    (c : ℕ) (s t : Text) → contains c s ≡ false → index_of c (s ++ c ∷ t) ≡ some (length s)
unfolding index_of contains
index_of-append c [] t h = ground arith
index_of-append c (a ∷ s) t h = ground (arith, index_of-append c s t)

pub index_of-of_not_contains : (c : ℕ) (s : Text) → contains c s ≡ false → index_of c s ≡ none
unfolding index_of contains
index_of-of_not_contains c [] h = refl
index_of-of_not_contains c (a ∷ s) h = ground (arith, index_of-of_not_contains c s)

pub index_of-lt : (c : ℕ) (s : Text) (i : ℕ) → index_of c s ≡ some i → i < length s
unfolding index_of
index_of-lt c [] i h = cc
index_of-lt c (a ∷ s) zero h = omega arith
index_of-lt c (a ∷ s) (suc i) h = ground (arith, index_of-lt c s i)

pub contains-append : (c : ℕ) (s t : Text) → contains c (s ++ t) ≡ contains c s || contains c t
unfolding contains
contains-append c [] t = refl
contains-append c (a ∷ s) t = ground (arith, contains-append c s t)

pub contains-before : (c b : ℕ) (s : Text) → contains c s ≡ false → contains c (before b s) ≡ false
unfolding contains before
contains-before c b [] h = refl
contains-before c b (a ∷ s) h = ground (arith, contains-before c b s)

pub second_part-append :
    (c : ℕ) (s t : Text)
    → contains c s ≡ false
    → contains c t ≡ false
    → second_part c (s ++ c ∷ t) ≡ some t
unfolding second_part
second_part-append c s t h k =
    rw (after-append c s t h, second_part) (ap some (before-of_not_contains c t k))

pub length-before-le : (c : ℕ) (s : Text) → length (before c s) ≤ length s
unfolding before
length-before-le c [] = omega arith
length-before-le c (a ∷ s) = ground (arith, length-before-le c s)
