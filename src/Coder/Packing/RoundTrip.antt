-- ===== src/Coder/Packing/RoundTrip.antt =====
-- A packed text unpacks to itself.
use zowpy.Prelude.{
  ◌==◌, Option-cases, length, take-length_append, drop-length_append, All, AreBytes, ℕ, zero, suc,
  ◌+◌, ◌*◌, ◌/◌, ◌%◌, ◌^◌, ◌≤◌, ◌<◌, ◌≡◌, refl, ◌⊎◌, inl, inr, ◌&&◌, some, List, [], ◌∷◌, ◌++◌,
  append-nil, arith,
}
use zowpy.Result.{ok}
use mathlib.Core.Path.{subst}
use zowpy.Coder.Ints.{write_int8}
use zowpy.Coder.Packing.{
  pack_byte, pack_all, merge_halves, try_pack, unpack_byte, split_halves, hex_char, unpack_all,
  drop_last, unpack_text, read_packed8,
}

abbrev Halves : List ℕ → Type 0
Halves = All (λ p. p < 16)

-- The two alphabets, in one predicate on the marker byte.
abbrev pub IsMarker : ℕ → Type 0
IsMarker v = (v ≡ 251) ⊎ (v ≡ 255)

unpack_byte-pack_byte :
    (v n p : ℕ) → IsMarker v → pack_byte v n ≡ some p → (unpack_byte v p ≡ ok n) × (p < 16)
unfolding unpack_byte pack_byte
unpack_byte-pack_byte v n p m h = ground arith

-- A value of the nibble alphabet is never one that the reader would skip.
pack_nibble-le : (n p : ℕ) → pack_byte 255 n ≡ some p → p ≤ 11
unfolding pack_byte
pack_nibble-le n p h = ground arith

pack_byte-hex_char : (n p : ℕ) → pack_byte 251 n ≡ some p → hex_char p ≡ n
unfolding pack_byte
pack_byte-hex_char n p h = ground arith

length-pack_all : (v : ℕ) (ns ps : List ℕ) → pack_all v ns ≡ some ps → length ps ≡ length ns
unfolding pack_all
length-pack_all v [] [] h = refl
length-pack_all v [] (p ∷ ps) h = cc
length-pack_all v (n ∷ ns) [] h = ground arith
length-pack_all v (n ∷ ns) (p ∷ ps) h = ground (arith, length-pack_all v ns ps)

length-merge_halves : (ps : List ℕ) → length (merge_halves ps) ≡ (length ps + 1) / 2
unfolding merge_halves
length-merge_halves [] = refl
length-merge_halves (p ∷ []) = refl
length-merge_halves (p ∷ q ∷ ps) = omega (arith, length-merge_halves ps)

-- The filling of an odd number of values.
filling : List ℕ → List ℕ
filling [] = []
filling (p ∷ []) = 15 ∷ []
filling (p ∷ q ∷ ps) = filling ps

split_halves-merge_halves :
    (ps : List ℕ) → Halves ps → split_halves (merge_halves ps) ≡ ps ++ filling ps
unfolding split_halves merge_halves filling
split_halves-merge_halves [] h = refl
split_halves-merge_halves (p ∷ []) h = ground arith
split_halves-merge_halves (p ∷ q ∷ ps) h = ground (arith, split_halves-merge_halves ps h.1.1)

filling-even : (ps : List ℕ) → length ps % 2 ≡ 0 → filling ps ≡ []
unfolding filling
filling-even [] h = refl
filling-even (p ∷ []) h = absurd (omega arith)
filling-even (p ∷ q ∷ ps) h = filling-even ps (omega arith)

filling-odd : (ps : List ℕ) → length ps % 2 ≡ 1 → filling ps ≡ 15 ∷ []
unfolding filling
filling-odd [] h = absurd (omega arith)
filling-odd (p ∷ []) h = refl
filling-odd (p ∷ q ∷ ps) h = filling-odd ps (omega arith)

-- The value list `ps` is what `pack_all` makes of `ns`, one character at a time.
data Packs (v : ℕ) : List ℕ → List ℕ → Type 0 where
  nothing : Packs v [] []
  also :
      (n p : ℕ) {ns ps : List ℕ}
      → pack_byte v n ≡ some p
      → Packs v ns ps
      → Packs v (n ∷ ns) (p ∷ ps)

pack_all-Packs : (v : ℕ) (ns ps : List ℕ) → pack_all v ns ≡ some ps → Packs v ns ps
unfolding pack_all
pack_all-Packs v [] [] h = nothing
pack_all-Packs v [] (p ∷ ps) h = absurd (cc)
pack_all-Packs v (n ∷ ns) [] h = absurd (ground arith)
pack_all-Packs v (n ∷ ns) (p ∷ ps) h =
    also n p (ground arith) (pack_all-Packs v ns ps (ground arith))

Packs-Halves : {v : ℕ} {ns ps : List ℕ} → IsMarker v → Packs v ns ps → Halves ps
Packs-Halves m nothing = tt
Packs-Halves {v} m (also n p e r) = ((unpack_byte-pack_byte v n p m e).1, Packs-Halves m r)

-- Read without a filling.
unpack_all-Packs : {v : ℕ} {ns ps : List ℕ} → IsMarker v → Packs v ns ps → unpack_all v ps ≡ ok ns
unfolding unpack_all
unpack_all-Packs m nothing = refl
unpack_all-Packs {v} m (also n p e nothing) =
    ground (arith, unpack_byte-pack_byte v n p m e, pack_nibble-le n p)
unpack_all-Packs {v} m (also n p e (also n' p' e' r)) =
    ground (arith, unpack_byte-pack_byte v n p m e, unpack_all-Packs m (also n' p' e' r))

-- Read with a filling, which the nibble alphabet skips.
unpack_all-Packs_filled :
    {ns ps : List ℕ} → Packs 255 ns ps → unpack_all 255 (ps ++ 15 ∷ []) ≡ ok ns
unfolding unpack_all
unpack_all-Packs_filled nothing = refl
unpack_all-Packs_filled (also n p e nothing) =
    ground (arith, unpack_byte-pack_byte 255 n p (inr refl) e)
unpack_all-Packs_filled (also n p e (also n' p' e' r)) =
    ground
      (arith, unpack_byte-pack_byte 255 n p (inr refl) e, unpack_all-Packs_filled (also n' p' e' r))

drop_last-Packs : {ns ps : List ℕ} → Packs 251 ns ps → drop_last (ps ++ 15 ∷ []) ≡ ns
unfolding drop_last
drop_last-Packs nothing = refl
drop_last-Packs (also n p e nothing) = ground (arith, pack_byte-hex_char n p e)
drop_last-Packs (also n p e (also n' p' e' r)) =
    ground (arith, pack_byte-hex_char n p e, drop_last-Packs (also n' p' e' r))

unpack_text-Packs :
    {v : ℕ} {ns ps : List ℕ} (parity : ℕ)
    → IsMarker v
    → Packs v ns ps
    → length ps % 2 ≡ parity
    → unpack_text v (parity == 1 && v == 251) (ps ++ filling ps) ≡ ok ns
unfolding unpack_text
unpack_text-Packs {v} {ns} {ps} zero m r e =
    rw (filling-even ps e, append-nil, unpack_all-Packs m r)
unpack_text-Packs {v} {ns} {ps} (suc zero) (inl hex) r e =
    let r' : Packs 251 ns ps = subst (λ w. Packs w ns ps) hex r in
    rw (hex, filling-odd ps e, drop_last-Packs r')
unpack_text-Packs {v} {ns} {ps} (suc zero) (inr nibble) r e =
    let r' : Packs 255 ns ps = subst (λ w. Packs w ns ps) nibble r in
    rw (nibble, filling-odd ps e, unpack_all-Packs_filled r')
unpack_text-Packs (suc (suc n)) m r e = absurd (omega arith)

-- The reader, at a size byte whose flag says whether the number of characters is odd.
read_packed8-Packs :
    (v : ℕ) (ns ps rest : List ℕ)
    → IsMarker v
    → Packs v ns ps
    → length ps ≡ length ns
    → length ns < 128
    → read_packed8 v
        (write_int8 (length ns % 2 * 2 ^ 7 + length (merge_halves ps)) ++ (merge_halves ps ++ rest))
      ≡ ok (ns, rest)
unfolding read_packed8 write_int8
read_packed8-Packs v ns ps rest m r e small =
    let n = length ns in
    let k = length (merge_halves ps) in
    let len : k ≡ (n + 1) / 2 = rw (← e) (length-merge_halves ps) in
    let size : (n % 2 * 2 ^ 7 + k) % 2 ^ 8 % 2 ^ 7 ≡ k = omega arith in
    let odd : (n % 2 * 2 ^ 7 + k) % 2 ^ 8 / 2 ^ 7 % 2 ≡ n % 2 = omega arith in
    simp (
      size,
      odd,
      take-length_append,
      drop-length_append,
      split_halves-merge_halves ps (Packs-Halves m r),
      unpack_text-Packs (n % 2) m r (omega arith),
    )

try_pack-inv :
    (v : ℕ) (ns header arr : List ℕ)
    → try_pack v ns ≡ some (header, arr)
    → (ps : List ℕ) × (pack_all v ns ≡ some ps)
      × (length ns < 128)
      × (header ≡ v ∷ write_int8 (length ns % 2 * 2 ^ 7 + length (merge_halves ps)))
      × (arr ≡ merge_halves ps)
unfolding try_pack
try_pack-inv v ns header arr h = elim (Option-cases (pack_all v ns)) [
  | inl bad ↦ absurd (ground arith)
  | inr (ps, good) ↦ (ps, good, ground arith, ground arith, ground arith)
]

-- Whatever the encoder packs, under either alphabet, is read back as the same characters: the header
-- is the marker and a size byte, and what follows the packed bytes is left.
pub read_packed8-try_pack :
    (v : ℕ) (ns header arr : List ℕ)
    → IsMarker v
    → try_pack v ns ≡ some (header, arr)
    → (size : List ℕ) × (header ≡ v ∷ size)
      × ((rest : List ℕ) → read_packed8 v (size ++ (arr ++ rest)) ≡ ok (ns, rest))
read_packed8-try_pack v ns header arr m h =
    let (ps, good, small, head_eq, arr_eq) = try_pack-inv v ns header arr h in
    (
      write_int8 (length ns % 2 * 2 ^ 7 + length (merge_halves ps)),
      head_eq,
      λ rest. rw arr_eq (
          read_packed8-Packs v ns ps rest m (pack_all-Packs v ns ps good)
            (length-pack_all v ns ps good) small),
    )

merge_halves-AreBytes : (ps : List ℕ) → Halves ps → AreBytes (merge_halves ps)
unfolding merge_halves
merge_halves-AreBytes [] h = tt
merge_halves-AreBytes (p ∷ []) h = (omega (arith, h.0), tt)
merge_halves-AreBytes (p ∷ q ∷ ps) h = (omega (arith, h.0, h.1.0), merge_halves-AreBytes ps (h.1.1))

-- What is packed is bytes.
pub try_pack-AreBytes :
    (v : ℕ) (ns header arr : List ℕ)
    → IsMarker v
    → try_pack v ns ≡ some (header, arr)
    → AreBytes (header ++ arr)
unfolding write_int8
try_pack-AreBytes v ns header arr m h =
    let (ps, good, small, head_eq, arr_eq) = try_pack-inv v ns header arr h in
    rw (head_eq, arr_eq)
      (
        omega arith,
        (omega arith, merge_halves-AreBytes ps (Packs-Halves m (pack_all-Packs v ns ps good))),
      )
