-- ===== src/Bridge/Framing.antt =====
-- Segments are found again in their bytes, in whatever chunks these arrive.
use zowpy.Prelude.{
  ltb, leb, Bool-cases, length, take, drop, length-append, length-drop-le, AreBytes, ℕ, zero, suc,
  ◌+◌, ◌/◌, ◌%◌, ◌^◌, ◌≤◌, ◌<◌, ◌≡◌, refl, sym, ap, ◌∙◌, inl, inr, true, false, List, [], ◌∷◌, ◌++◌,
  arith,
}
use zowpy.Noise.Stream.{Segment}
use zowpy.Bridge.{size_of, extract}

pub size_of-size_bytes :
    (n : ℕ) → n < 2 ^ 24 → size_of (n / 2 ^ 16 % 2 ^ 8) (n / 2 ^ 8 % 2 ^ 8) (n % 2 ^ 8) ≡ n
unfolding size_of
size_of-size_bytes n h = omega arith

take-append : (xs ys : List ℕ) (n : ℕ) → n ≤ length xs → take n (xs ++ ys) ≡ take n xs
take-append xs ys zero h = refl
take-append [] ys (suc n) h = absurd (omega arith)
take-append (x ∷ xs) ys (suc n) h = ap (λ l. x ∷ l) (take-append xs ys n (omega arith))

drop-append : (xs ys : List ℕ) (n : ℕ) → n ≤ length xs → drop n (xs ++ ys) ≡ drop n xs ++ ys
drop-append xs ys zero h = refl
drop-append [] ys (suc n) h = absurd (omega arith)
drop-append (x ∷ xs) ys (suc n) h = drop-append xs ys n (omega arith)

pub drop-AreBytes : (n : ℕ) (bs : List ℕ) → AreBytes bs → AreBytes (drop n bs)
drop-AreBytes zero bs h = h
drop-AreBytes (suc n) [] h = tt
drop-AreBytes (suc n) (b ∷ bs) h = drop-AreBytes n bs h.1

-- A size of three bytes is never too large.
pub size_of-small :
    (a b c : ℕ) → a < 2 ^ 8 → b < 2 ^ 8 → c < 2 ^ 8 → leb (2 ^ 24) (size_of a b c) ≡ false
unfolding size_of
size_of-small a b c x y z = ground arith

pub extract-suc :
    (f : ℕ) (buffer : List ℕ) → length buffer ≤ f → extract (suc f) buffer ≡ extract f buffer
unfolding extract
extract-suc zero [] h = refl
extract-suc zero (a ∷ buffer) h = absurd (omega arith)
extract-suc (suc f) [] h = refl
extract-suc (suc f) (a ∷ []) h = refl
extract-suc (suc f) (a ∷ b ∷ []) h = refl
extract-suc (suc f) (a ∷ b ∷ c ∷ bytes) h =
    let rest = drop (size_of a b c) bytes in
    rw (extract-suc f rest (omega (arith, length-drop-le (size_of a b c) bytes))) refl

pub extract-more :
    (d f : ℕ) (buffer : List ℕ) → length buffer ≤ f → extract (d + f) buffer ≡ extract f buffer
extract-more zero f buffer h = let none_more : 0 + f ≡ f = omega arith in rw none_more refl
extract-more (suc d) f buffer h =
    let more : suc d + f ≡ suc (d + f) = omega arith in
    rw more (extract-suc (d + f) buffer (omega arith) ∙ extract-more d f buffer h)

pub length-extract-le : (f : ℕ) (buffer : List ℕ) → length (extract f buffer).1 ≤ length buffer
unfolding extract
length-extract-le zero buffer = omega arith
length-extract-le (suc f) [] = omega arith
length-extract-le (suc f) (a ∷ []) = omega arith
length-extract-le (suc f) (a ∷ b ∷ []) = omega arith
length-extract-le (suc f) (a ∷ b ∷ c ∷ bytes) =
    let rest = drop (size_of a b c) bytes in
    ground (arith, length-extract-le f rest, length-drop-le (size_of a b c) bytes)

pub extract-AreBytes : (f : ℕ) (buffer : List ℕ) → AreBytes buffer → AreBytes (extract f buffer).1
unfolding extract
extract-AreBytes zero buffer h = h
extract-AreBytes (suc f) [] h = h
extract-AreBytes (suc f) (a ∷ []) h = h
extract-AreBytes (suc f) (a ∷ b ∷ []) h = h
extract-AreBytes (suc f) (a ∷ b ∷ c ∷ bytes) h =
    rw (size_of-small a b c h.0 h.1.0 h.1.1.0)
      (elim (Bool-cases (ltb (length bytes) (size_of a b c))) [
        | inl short ↦ rw short h
        | inr whole ↦ rw whole (
            extract-AreBytes f (drop (size_of a b c) bytes)
              (drop-AreBytes (size_of a b c) bytes h.1.1.1))
      ])

pub extract-partial :
    (f a b c : ℕ) (bytes : List ℕ)
    → leb (2 ^ 24) (size_of a b c) ≡ false
    → ltb (length bytes) (size_of a b c) ≡ true
    → extract (suc f) (a ∷ b ∷ c ∷ bytes) ≡ ([], a ∷ b ∷ c ∷ bytes)
unfolding extract
extract-partial f a b c bytes small short = rw (small, short) refl

-- The segments of a result and those of what was left, with more bytes behind it.
abbrev pub continue : ℕ → List Segment × List ℕ → List ℕ → List Segment × List ℕ
continue f (segments, rest) more =
    let (others, left) = extract f (rest ++ more) in (segments ++ others, left)

pub extract-append :
    (f : ℕ) (buffer more : List ℕ)
    → AreBytes buffer
    → length (buffer ++ more) ≤ f
    → extract f (buffer ++ more) ≡ continue f (extract f buffer) more
unfolding extract
extract-append zero buffer more h k = refl
extract-append (suc f) [] more h k = refl
extract-append (suc f) (a ∷ []) more h k = refl
extract-append (suc f) (a ∷ b ∷ []) more h k = refl
extract-append (suc f) (a ∷ b ∷ c ∷ bytes) more h k =
    let size = size_of a b c in
    let small = size_of-small a b c h.0 h.1.0 h.1.1.0 in
    elim (Bool-cases (ltb (length bytes) size)) [
      | inl short ↦
          ap (λ e. continue (suc f) e more) (sym (extract-partial f a b c bytes small short))
      | inr whole ↦
          let fits : size ≤ length bytes = ground arith in
          let still : ltb (length (bytes ++ more)) size ≡ false =
            ground (arith, length-append bytes more) in
          let rest = drop size bytes in
          let left = (extract f rest).1 in
          let bound : length (left ++ more) ≤ f = omega (
            arith,
            length-append left more,
            length-extract-le f rest,
            length-drop-le size bytes,
            length-append bytes more,
          ) in
          let room : length (rest ++ more) ≤ f =
            omega (
              arith,
              length-append rest more,
              length-drop-le size bytes,
              length-append bytes more,
            ) in
          rw
            (
              small,
              whole,
              still,
              take-append bytes more size fits,
              drop-append bytes more size fits,
            )
            (rw
              (
                extract-append f rest more (drop-AreBytes size bytes h.1.1.1) room,
                extract-suc f (left ++ more) bound,
              )
              refl)
    ]
