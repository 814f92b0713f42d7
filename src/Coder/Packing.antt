-- ===== src/Coder/Packing.antt =====
-- Packed texts of zowpy/utils/coder.py, two characters to a byte: `tryPackAndWriteHeader`,
-- `packByte`, `packHex`, `packNibble`, and `readPacked8`, `unpackByte`, `unpackHex`, `unpackNibble`.
pub mod RoundTrip
use zowpy.Prelude.{
  ltb, leb, ◌==◌, if◌then◌else◌, length, ℕ, ◌+◌, ◌-◌, ◌*◌, ◌/◌, ◌%◌, ◌^◌, Bool, not, ◌&&◌, ◌||◌,
  Option, none, some, List, [], ◌∷◌,
}
use zowpy.Result.{bind, value_error, Result, ok, err}
use zowpy.Coder.Ints.{Reader, ◌>>=◌, read_int8, read_array, write_int8}

-- The value of a character in the alphabet; `none` is the -1 of the source.
unfoldable pub pack_hex : ℕ → Option ℕ
pack_hex n =
    if leb 48 n && ltb n 58
    then some (n - 48)
    else if leb 65 n && ltb n 71
    then some (10 + (n - 65))
    else none

unfoldable pub pack_nibble : ℕ → Option ℕ
pack_nibble n =
    if n == 45 || n == 46
    then some (10 + (n - 45))
    else if leb 48 n && ltb n 58
    then some (n - 48)
    else none

unfoldable pub pack_byte : ℕ → ℕ → Option ℕ
unfolding pack_hex pack_nibble
pack_byte v n2 = if v == 251 then pack_hex n2 else if v == 255 then pack_nibble n2 else none

-- The values of all characters; `none` if one of them is not in the alphabet.
unfoldable pub pack_all : ℕ → List ℕ → Option (List ℕ)
unfolding pack_byte
pack_all v [] = some []
pack_all v (n ∷ ns) = elim (pack_byte v n) [
  | none ↦ none
  | some p ↦ elim (pack_all v ns) [ none ↦ none | some ps ↦ some (p ∷ ps) ]
]

-- `arr`: the values at even places in the high halves, at odd places in the low ones. A half that
-- is left over at the end is filled with 15.
unfoldable pub merge_halves : List ℕ → List ℕ
merge_halves [] = []
merge_halves (p ∷ []) = (p * 2 ^ 4 + 15) ∷ []
merge_halves (p ∷ q ∷ ps) = (p * 2 ^ 4 + q) ∷ merge_halves ps

-- The header that the encoder appends, and the packed bytes; `none` if the text cannot be packed.
unfoldable pub try_pack : ℕ → List ℕ → Option (List ℕ × List ℕ)
unfolding pack_all merge_halves write_int8
try_pack v header_data =
    let size = length header_data in
    if leb 128 size || size == 0 then none else elim (pack_all v header_data) [
      | none ↦ none
      | some ps ↦
          let arr = merge_halves ps in some (v ∷ write_int8 (size % 2 * 2 ^ 7 + length arr), arr)
    ]

unfoldable pub unpack_hex : ℕ → Result ℕ
unpack_hex n =
    if ltb n 10 then ok (n + 48) else if ltb n 16 then ok (65 + (n - 10)) else err value_error

unfoldable pub unpack_nibble : ℕ → Result ℕ
unpack_nibble n =
    if ltb n 10
    then ok (n + 48)
    else if n == 10 || n == 11
    then ok (45 + (n - 10))
    else err value_error

unfoldable pub unpack_byte : ℕ → ℕ → Result ℕ
unfolding unpack_hex unpack_nibble
unpack_byte n n2 =
    if n == 251 then unpack_hex n2 else if n == 255 then unpack_nibble n2 else err value_error

-- `hexlify`, as the values of its digits.
unfoldable pub split_halves : List ℕ → List ℕ
split_halves [] = []
split_halves (b ∷ bs) = b / 2 ^ 4 % 2 ^ 4 ∷ b % 2 ^ 4 ∷ split_halves bs

-- An upper-case hexadecimal digit.
abbrev pub hex_char : ℕ → ℕ
hex_char v = if ltb v 10 then v + 48 else v + 55

-- The loop of `readPacked8`: a last value above 11 is skipped, unless the alphabet is hexadecimal.
unfoldable pub unpack_all : ℕ → List ℕ → Result (List ℕ)
unfolding unpack_byte
unpack_all n [] = ok []
unpack_all n (v ∷ []) =
    if ltb 11 v && not (n == 251) then ok [] else bind (unpack_byte n v) λ c. ok (c ∷ [])
unpack_all n (v ∷ w ∷ vs) =
    bind (unpack_byte n v) λ c. bind (unpack_all n (w ∷ vs)) λ cs. ok (c ∷ cs)

-- `hexData[0:-1]`
unfoldable pub drop_last : List ℕ → List ℕ
drop_last [] = []
drop_last (v ∷ []) = []
drop_last (v ∷ w ∷ vs) = hex_char v ∷ drop_last (w ∷ vs)

-- The characters of the values, as the size byte asks for.
unfoldable pub unpack_text : ℕ → Bool → List ℕ → Result (List ℕ)
unfolding unpack_all drop_last
unpack_text n remove vs = if remove then ok (drop_last vs) else unpack_all n vs

unfoldable pub read_packed8 : ℕ → Reader (List ℕ)
unfolding read_int8 read_array split_halves unpack_text
read_packed8 n = do
  size ← read_int8
  text ← read_array (size % 2 ^ 7)
  λ rest.
      bind (unpack_text n (size / 2 ^ 7 % 2 == 1 && n == 251) (split_halves text))
        λ out. ok (out, rest)
