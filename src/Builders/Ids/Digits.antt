-- ===== src/Builders/Ids/Digits.antt =====
-- The hexadecimal digits of a number, as `format(n, 'x')` gives them.
use zowpy.Prelude.{
  ltb, if◌then◌else◌, ltb→lt, lt→ltb, Bool-cases, length, length-append, All, All-append, ℕ, zero,
  suc, ◌+◌, ◌*◌, ◌/◌, ◌%◌, ◌^◌, ◌≤◌, ◌<◌, ◌≡◌, refl, ap, inl, inr, true, List, [], ◌∷◌, ◌++◌, map,
  arith,
}
use zowpy.Nodes.{hex_digit}
use zowpy.Builders.Ids.{hex_fuel}

-- The hexadecimal digits of a number, most significant first.
unfoldable pub nibbles : ℕ → ℕ → List ℕ
nibbles zero n = []
nibbles (suc f) n =
    let more = nibbles f (n / 16) ++ n % 16 ∷ [] in if ltb n 16 then n ∷ [] else more

unfoldable pub AreNibbles : List ℕ → Type 0
AreNibbles = All (λ d. d < 16)

unfoldable pub number : ℕ → ℕ → List ℕ → ℕ
number base acc [] = acc
number base acc (d ∷ ds) = number base (acc * base + d) ds

map-append : (xs ys : List ℕ) → map hex_digit (xs ++ ys) ≡ map hex_digit xs ++ map hex_digit ys
map-append [] ys = refl
map-append (x ∷ xs) ys = ap (λ s. hex_digit x ∷ s) (map-append xs ys)

pub length-map : (xs : List ℕ) → length (map hex_digit xs) ≡ length xs
length-map [] = refl
length-map (x ∷ xs) = ap suc (length-map xs)

pub hex_fuel-nibbles : (f n : ℕ) → hex_fuel f n ≡ map hex_digit (nibbles f n)
unfolding hex_fuel nibbles
hex_fuel-nibbles zero n = refl
hex_fuel-nibbles (suc f) n = elim (Bool-cases (ltb n 16)) [
  | inl small ↦ rw small refl
  | inr large ↦
      rw (large, map-append (nibbles f (n / 16)) (n % 16 ∷ []), hex_fuel-nibbles f (n / 16)) refl
]

pub nibbles-AreNibbles : (f n : ℕ) → AreNibbles (nibbles f n)
unfolding nibbles AreNibbles
nibbles-AreNibbles zero n = tt
nibbles-AreNibbles (suc f) n = elim (Bool-cases (ltb n 16)) [
  | inl small ↦ rw small (ltb→lt n 16 small, tt)
  | inr large ↦ rw large (
      All-append (λ d. d < 16) (nibbles f (n / 16)) _ (nibbles-AreNibbles f (n / 16))
        (omega arith, tt))
]

number-append :
    (base acc : ℕ) (ds : List ℕ) (d : ℕ)
    → number base acc (ds ++ d ∷ []) ≡ number base acc ds * base + d
unfolding number
number-append base acc [] d = refl
number-append base acc (c ∷ ds) d = number-append base (acc * base + c) ds d

pub number-nibbles : (f n : ℕ) → n < f → number 16 0 (nibbles f n) ≡ n
unfolding number nibbles
number-nibbles zero n h = absurd (omega arith)
number-nibbles (suc f) n h = elim (Bool-cases (ltb n 16)) [
  | inl small ↦ rw small (omega arith)
  | inr large ↦
      let less : n / 16 < f = ground arith in
      rw (large, number-append 16 0 (nibbles f (n / 16)) (n % 16), number-nibbles f (n / 16) less)
        (omega arith)
]

pub length-nibbles : (k f n : ℕ) → n < 16 ^ suc k → length (nibbles f n) ≤ suc k
unfolding nibbles
length-nibbles k zero n h = omega arith
length-nibbles zero (suc f) n h =
    let small : ltb n 16 ≡ true = lt→ltb n 16 (omega arith) in rw small (omega arith)
length-nibbles (suc k) (suc f) n h = elim (Bool-cases (ltb n 16)) [
  | inl small ↦ rw small (omega arith)
  | inr large ↦
      let less : n / 16 < 16 ^ suc k = omega arith in
      rw (large, length-append (nibbles f (n / 16)) (n % 16 ∷ []))
        (omega (arith, length-nibbles k f (n / 16) less))
]
