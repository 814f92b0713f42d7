-- ===== src/Phone/Codes.antt =====
-- `PhoneCountryHelper.get_country_code`, over any set of codes.
use zowpy.Prelude.{
  leb, ◌==◌, if◌then◌else◌, Bool-cases, Option-cases, length, take, Text, codes, text_eq, ℕ, zero,
  suc, ◌≤◌, ◌<◌, ◌≡◌, refl, sym, ap, ◌∙◌, ◌≢◌, ◌⊎◌, inl, inr, Bool, true, false, ◌&&◌, ◌||◌, Option,
  none, some, List, [], ◌∷◌, ◌++◌, arith,
}

-- `str.isdigit` below code point 256: the decimal digits, and the superscripts 1, 2 and 3.
unfoldable pub is_digit_char : ℕ → Bool
is_digit_char c = (leb b'0' c && leb c b'9') || c == 178 || c == 179 || c == 185

unfoldable pub digits_of : Text → Text
unfolding is_digit_char
digits_of [] = []
digits_of (c ∷ s) = let rest = digits_of s in if is_digit_char c then c ∷ rest else rest

unfoldable pub in_set : Text → List Text → Bool
in_set code [] = false
in_set code (c ∷ cs) = text_eq code c || in_set code cs

-- One round of the loop over the lengths 3, 2 and 1.
unfoldable pub prefix_code : List Text → Text → ℕ → Option Text
unfolding in_set
prefix_code cc_set digits n =
    if leb n (length digits)
    then if in_set (take n digits) cc_set then some (take n digits) else none
    else none

abbrev one : Text
one = codes "1"

-- `digits[0] if digits else "1"`
first_digit : Text → Text
first_digit [] = one
first_digit (c ∷ s) = c ∷ []

starts_with_one : Text → Bool
starts_with_one [] = false
starts_with_one (c ∷ s) = c == b'1'

-- The loop over the lengths, and the last line.
longest_code : List Text → Text → Text
unfolding prefix_code first_digit
longest_code cc_set digits = elim (prefix_code cc_set digits 3) [
  | some code ↦ code
  | none ↦ elim (prefix_code cc_set digits 2) [
    | some code ↦ code
    | none ↦ elim (prefix_code cc_set digits 1) [ some code ↦ code | none ↦ first_digit digits ]
  ]
]

unfoldable pub code_of_digits : List Text → Text → Text
unfolding longest_code starts_with_one
code_of_digits cc_set [] = one
code_of_digits cc_set (c ∷ s) =
    if starts_with_one (c ∷ s) && leb 10 (length (c ∷ s)) then one else longest_code cc_set (c ∷ s)

unfoldable pub get_country_code : List Text → Text → Text
unfolding digits_of code_of_digits
get_country_code cc_set phone_number = code_of_digits cc_set (digits_of phone_number)

pub digits_of_idem : (s : Text) → digits_of (digits_of s) ≡ digits_of s
unfolding digits_of
digits_of_idem [] = refl
digits_of_idem (c ∷ s) = ground (arith, digits_of_idem s)

digits_of-append : (s t : Text) → digits_of (s ++ t) ≡ digits_of s ++ digits_of t
unfolding digits_of
digits_of-append [] t = refl
digits_of-append (c ∷ s) t = ground (arith, digits_of-append s t)

-- Characters that are no digits change nothing, wherever they stand.
pub get_country_code-formatting :
    (cc_set : List Text) (s marks t : Text)
    → digits_of marks ≡ []
    → get_country_code cc_set (s ++ (marks ++ t)) ≡ get_country_code cc_set (s ++ t)
unfolding get_country_code
get_country_code-formatting cc_set s marks t h =
    rw (digits_of-append s (marks ++ t), digits_of-append marks t, h, digits_of-append s t)

-- The code stands at the start of the digits, has 1 to 3 of them, and is in the set, if not the
-- first digit alone.
pub record IsCodeOf (cc_set : List Text) (digits code : Text) : Type 0 where
  pub at_start : take (length code) digits ≡ code
  pub nonempty : 0 < length code
  pub at_most_three : length code ≤ 3
  pub known : (in_set code cc_set ≡ true) ⊎ (length code ≡ 1)
  pub longest :
      (n : ℕ) → length code < n → n ≤ 3 → n ≤ length digits → in_set (take n digits) cc_set ≡ false

length-take : (n : ℕ) (s : Text) → n ≤ length s → length (take n s) ≡ n
length-take zero s h = refl
length-take (suc n) [] h = absurd (omega arith)
length-take (suc n) (c ∷ s) h = ap suc (length-take n s (omega arith))

prefix_code-some :
    (cc_set : List Text) (digits : Text) (n : ℕ) (code : Text)
    → prefix_code cc_set digits n ≡ some code
    → (code ≡ take n digits) × (length code ≡ n) × (in_set (take n digits) cc_set ≡ true)
unfolding prefix_code
prefix_code-some cc_set digits n code h =
    let fits : n ≤ length digits = ground arith in
    let same : take n digits ≡ code = ground arith in
    (sym same, ap length (sym same) ∙ length-take n digits fits, ground arith)

prefix_code-none :
    (cc_set : List Text) (digits : Text) (n : ℕ)
    → prefix_code cc_set digits n ≡ none
    → n ≤ length digits
    → in_set (take n digits) cc_set ≡ false
unfolding prefix_code
prefix_code-none cc_set digits n h fits = ground arith

-- A code of length `n`, where no longer prefix is a code.
found-IsCodeOf :
    (cc_set : List Text) (digits : Text) (n : ℕ) (code : Text)
    → 0 < n
    → n ≤ 3
    → prefix_code cc_set digits n ≡ some code
    → ((m : ℕ) → n < m → m ≤ 3 → prefix_code cc_set digits m ≡ none)
    → IsCodeOf cc_set digits code
found-IsCodeOf cc_set digits n code pos small found longer =
    let (same, size, member) = prefix_code-some cc_set digits n code found in
    record {
      at_start = rw size (sym same);
      nonempty = omega (arith, size);
      at_most_three = omega (arith, size);
      known = inl (rw same member);
      longest = λ m above top fits.
          prefix_code-none cc_set digits m (longer m (omega (arith, size)) top) fits;
    }

none_longer :
    (cc_set : List Text) (digits : Text) (n : ℕ)
    → (n < 3 → prefix_code cc_set digits 3 ≡ none)
    → (n < 2 → prefix_code cc_set digits 2 ≡ none)
    → (n < 1 → prefix_code cc_set digits 1 ≡ none)
    → (m : ℕ) → n < m
    → m ≤ 3
    → prefix_code cc_set digits m ≡ none
none_longer cc_set digits n three two one' zero h k = absurd (omega arith)
none_longer cc_set digits n three two one' (suc zero) h k = one' h
none_longer cc_set digits n three two one' (suc (suc zero)) h k = two h
none_longer cc_set digits n three two one' (suc (suc (suc zero))) h k = three h
none_longer cc_set digits n three two one' (suc (suc (suc (suc m)))) h k = absurd (omega arith)

longest_code-IsCodeOf :
    (cc_set : List Text) (c : ℕ) (s : Text) → IsCodeOf cc_set (c ∷ s) (longest_code cc_set (c ∷ s))
unfolding longest_code first_digit
longest_code-IsCodeOf cc_set c s = elim (Option-cases (prefix_code cc_set (c ∷ s) 3)) [
  | inr (code, three) ↦
      rw (three, longest_code)
        (found-IsCodeOf cc_set (c ∷ s) 3 code (omega arith) (omega arith) three (
          none_longer cc_set (c ∷ s) 3 (λ h. absurd (omega arith)) (λ h. absurd (omega arith))
            (λ h. absurd (omega arith))))
  | inl three ↦ elim (Option-cases (prefix_code cc_set (c ∷ s) 2)) [
    | inr (code, two) ↦
        rw (three, two, longest_code)
          (found-IsCodeOf cc_set (c ∷ s) 2 code (omega arith) (omega arith) two (
            none_longer cc_set (c ∷ s) 2 (λ h. three) (λ h. absurd (omega arith))
              (λ h. absurd (omega arith))))
    | inl two ↦ elim (Option-cases (prefix_code cc_set (c ∷ s) 1)) [
      | inr (code, single) ↦
          rw (three, two, single, longest_code)
            (found-IsCodeOf cc_set (c ∷ s) 1 code (omega arith) (omega arith) single
              (none_longer cc_set (c ∷ s) 1 (λ h. three) (λ h. two) (λ h. absurd (omega arith))))
      | inl single ↦
          rw (three, two, single, longest_code)
            (record {
              at_start = refl;
              nonempty = omega arith;
              at_most_three = omega arith;
              known = inr refl;
              longest = λ m above top fits.
                  prefix_code-none cc_set (c ∷ s) m
                    (none_longer cc_set (c ∷ s) 1 (λ h. three) (λ h. two) (λ h. single) m above top)
                    fits;
            })
    ]
  ]
]

-- The code of a number that has digits, and does not start with 1 or has fewer than 10 of them, is
-- the longest prefix of 3, 2 or 1 digits that is a code, and the first digit where there is none.
pub get_country_code-IsCodeOf :
    (cc_set : List Text) (phone_number : Text) (c : ℕ) (s : Text)
    → digits_of phone_number ≡ c ∷ s
    → (c ≡ b'1' → length (c ∷ s) < 10)
    → IsCodeOf cc_set (c ∷ s) (get_country_code cc_set phone_number)
unfolding get_country_code code_of_digits starts_with_one
get_country_code-IsCodeOf cc_set phone_number c s digits short =
    let local : (c == b'1' && leb 10 (length (c ∷ s))) ≡ false = ground arith in
    rw (digits, local) (longest_code-IsCodeOf cc_set c s)

code_of_digits-short :
    (cc_set : List Text) (digits : Text) → length (code_of_digits cc_set digits) ≤ 3
unfolding code_of_digits
code_of_digits-short cc_set [] = omega arith
code_of_digits-short cc_set (c ∷ s) =
    elim (Bool-cases (starts_with_one (c ∷ s) && leb 10 (length (c ∷ s)))) [
      | inl local ↦ rw (local, code_of_digits) (omega arith)
      | inr other ↦ rw (other, code_of_digits) (longest_code-IsCodeOf cc_set c s).at_most_three
    ]

-- A code of more than three digits is never found, whatever the set and the number.
pub get_country_code-ne_long :
    (cc_set : List Text) (phone_number code : Text)
    → 3 < length code
    → get_country_code cc_set phone_number ≢ code
unfolding get_country_code
get_country_code-ne_long cc_set phone_number code long same =
    let short = code_of_digits-short cc_set (digits_of phone_number) in
    omega (arith, short, ap length same)
