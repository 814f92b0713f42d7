-- ===== src/Python/Decimal.antt =====
-- Decimal numbers as Python prints and reads them: `str(n)` and `int(s)`.
use zowpy.Prelude.{
  ltb, leb, ◌==◌, if◌then◌else◌, Bool-cases, All, All-append, Text, ℕ, zero, suc, ◌+◌, ◌-◌, ◌*◌,
  ◌/◌, ◌%◌, ◌<◌, ◌≡◌, refl, ap, ◌∙◌, inl, inr, Bool, true, false, ◌&&◌, ◌||◌, Option, none, some,
  [], ◌∷◌, ◌++◌, arith,
}
use mathlib.Core.List.{reverse, reverse-append, reverse-reverse}
use zowpy.Python.{contains}
use mathlib.Core.Option

-- `str(n)` on fuel: the digits, most significant first.
decimal_fuel : ℕ → ℕ → Text
decimal_fuel zero n = []
decimal_fuel (suc f) n =
    let more = decimal_fuel f (n / 10) ++ (b'0' + n % 10) ∷ [] in
    if ltb n 10 then (b'0' + n) ∷ [] else more

unfoldable pub decimal : ℕ → Text
unfolding decimal_fuel
decimal n = decimal_fuel (suc n) n

abbrev pub is_digit : ℕ → Bool
is_digit c = leb b'0' c && leb c b'9'

-- The integers; `negsuc n` is -(n + 1).
pub data ℤ : Type 0 where
  pos : ℕ → ℤ
  negsuc : ℕ → ℤ

-- Digits, with single underscores between them; `last` says that a digit stands before.
scan_digits : Bool → ℕ → Text → Option ℕ
scan_digits last acc [] = if last then some acc else none
scan_digits last acc (c ∷ s) =
    let rest = scan_digits (is_digit c) (if is_digit c then acc * 10 + (c - b'0') else acc) s in
    if is_digit c || (c == b'_' && last) then rest else none

-- The white space below code point 256.
abbrev is_space : ℕ → Bool
is_space c = (leb 9 c && leb c 13) || (leb 28 c && leb c 32) || c == 133 || c == 160

strip_left : Text → Text
strip_left [] = []
strip_left (c ∷ s) = if is_space c then strip_left s else c ∷ s

unfoldable pub strip : Text → Text
unfolding strip_left
strip s = reverse (strip_left (reverse (strip_left s)))

signed : Option ℕ → Option ℤ
signed none = none
signed (some zero) = some (pos zero)
signed (some (suc n)) = some (negsuc n)

int_of_stripped : Text → Option ℤ
unfolding scan_digits signed
int_of_stripped [] = none
int_of_stripped (c ∷ s) =
    if c == b'+'
    then Option.map pos (scan_digits false 0 s)
    else if c == b'-'
    then signed (scan_digits false 0 s)
    else Option.map pos (scan_digits false 0 (c ∷ s))

-- `int(s)` at a text of code points below 256; `none` is the ValueError.
unfoldable pub int_of : Text → Option ℤ
unfolding strip int_of_stripped
int_of s = int_of_stripped (strip s)

abbrev Digits : Text → Type 0
Digits = All (λ c. is_digit c ≡ true)

decimal_fuel-Digits : (f n : ℕ) → n < f → Digits (decimal_fuel f n)
unfolding decimal_fuel
decimal_fuel-Digits zero n h = tt
decimal_fuel-Digits (suc f) n h = elim (Bool-cases (ltb n 10)) [
  | inl small ↦ rw small (ground arith, tt)
  | inr large ↦ rw large (
      All-append (λ c. is_digit c ≡ true) (decimal_fuel f (n / 10)) _
        (decimal_fuel-Digits f (n / 10) (ground arith)) (ground arith, tt))
]

scan_digits-append :
    (s : Text) (last : Bool) (acc k : ℕ) (c : ℕ)
    → is_digit c ≡ true
    → scan_digits last acc s ≡ some k
    → Digits s
    → scan_digits last acc (s ++ c ∷ []) ≡ some (k * 10 + (c - b'0'))
unfolding scan_digits
scan_digits-append [] last acc k c d h e = ground arith
scan_digits-append (x ∷ s) last acc k c d h e =
    rw e.0 (scan_digits-append s true (acc * 10 + (x - b'0')) k c d (rw e.0 at h) e.1)

scan_digits-decimal_fuel : (f n : ℕ) → n < f → scan_digits false 0 (decimal_fuel f n) ≡ some n
unfolding decimal_fuel
scan_digits-decimal_fuel zero n h = absurd (omega arith)
scan_digits-decimal_fuel (suc f) n h = elim (Bool-cases (ltb n 10)) [
  | inl small ↦ rw small (unfold scan_digits in ground arith)
  | inr large ↦ rw large (
      scan_digits-append (decimal_fuel f (n / 10)) false 0 (n / 10) (b'0' + n % 10) (ground arith)
        (scan_digits-decimal_fuel f (n / 10) (ground arith))
        (decimal_fuel-Digits f (n / 10) (ground arith))
      ∙ ap some (omega arith))
]

strip_left-Digits : (s : Text) → Digits s → strip_left s ≡ s
unfolding strip_left
strip_left-Digits [] h = refl
strip_left-Digits (c ∷ s) h = ground arith

reverse-Digits : (s : Text) → Digits s → Digits (reverse s)
reverse-Digits [] h = tt
reverse-Digits (c ∷ s) h =
    rw (reverse-append (c ∷ []) s)
      (All-append (λ c. is_digit c ≡ true) (reverse s) _ (reverse-Digits s h.1) (h.0, tt))

strip-Digits : (s : Text) → Digits s → strip s ≡ s
unfolding strip
strip-Digits s h =
    rw (strip_left-Digits s h)
      (rw (strip_left-Digits (reverse s) (reverse-Digits s h)) (reverse-reverse s))

int_of_stripped-Digits :
    (s : Text) (n : ℕ)
    → Digits s
    → scan_digits false 0 s ≡ some n
    → int_of_stripped s ≡ some (pos n)
int_of_stripped-Digits [] n d h = unfold scan_digits in cc
int_of_stripped-Digits (c ∷ s) n d h = unfold int_of_stripped in ground (arith, d.0)

-- `int(str(n))` is `n`.
pub int_of-decimal : (n : ℕ) → int_of (decimal n) ≡ some (pos n)
unfolding int_of decimal
int_of-decimal n =
    let digits = decimal_fuel-Digits (suc n) n (omega arith) in
    rw (strip-Digits (decimal_fuel (suc n) n) digits) (
      int_of_stripped-Digits (decimal_fuel (suc n) n) n digits
        (scan_digits-decimal_fuel (suc n) n (omega arith)))

contains-Digits : (c : ℕ) (s : Text) → is_digit c ≡ false → Digits s → contains c s ≡ false
unfolding contains
contains-Digits c [] e h = refl
contains-Digits c (a ∷ s) e h = ground (arith, contains-Digits c s)

-- A printed number has only digits.
pub contains-decimal : (c n : ℕ) → is_digit c ≡ false → contains c (decimal n) ≡ false
unfolding decimal
contains-decimal c n e =
    contains-Digits c (decimal_fuel (suc n) n) e (decimal_fuel-Digits (suc n) n (omega arith))
