-- ===== src/Coder/Ints.antt =====
-- The fixed-width numbers of zowpy/utils/coder.py: `writeInt8` to `writeInt32`, `writeListStart`,
-- `readInt8` to `readInt31`, `readListSize`.
pub mod RoundTrip
use zowpy.Prelude.{ltb, ◌==◌, if◌then◌else◌, take, drop, ℕ, ◌+◌, ◌*◌, ◌/◌, ◌%◌, ◌^◌, List, [], ◌∷◌}
use zowpy.Result.{bind, Error, index_error, exception, Result, ok, err}

-- A method of the decoder takes values off the front of `data`, a bytearray that it shares with its
-- callers, or raises.
abbrev pub Reader {ℓ} : Type ℓ → Type ℓ
Reader A = List ℕ → Result (A × List ℕ)

abbrev pub pure {ℓ} : {A : Type ℓ} → A → Reader A
pure a data' = ok (a, data')

abbrev pub raise {ℓ} : {A : Type ℓ} → Error → Reader A
raise e data' = err e

module _ {ℓ κ} {A : Type ℓ} {B : Type κ} where
  infixl 5 ◌>>=◌
  abbrev pub ◌>>=◌ : Reader A → (A → Reader B) → Reader B
  p >>= q = λ bs. bind (p bs) λ (a, rest). q a rest

-- `readInt8`, and `data.pop(0)` where it stands alone: an IndexError at the end of the data.
unfoldable pub read_int8 : Reader ℕ
read_int8 [] = err index_error
read_int8 (b ∷ bs) = ok (b, bs)

unfoldable pub read_int16 : Reader ℕ
read_int16 = do top ← read_int8; bot ← read_int8; pure (top * 2 ^ 8 + bot)

-- The fields of `|` do not overlap, since the elements of a bytearray are below 256.
unfoldable pub read_int20 : Reader ℕ
read_int20 = do
  int1 ← read_int8
  int2 ← read_int8
  int3 ← read_int8
  pure (int1 % 2 ^ 4 * 2 ^ 16 + int2 * 2 ^ 8 + int3)

unfoldable pub read_int24 : Reader ℕ
read_int24 = do
  int1 ← read_int8
  int2 ← read_int8
  int3 ← read_int8
  pure (int1 * 2 ^ 16 + int2 * 2 ^ 8 + int3)

-- The first value is dropped, and the second one is used at two places.
unfoldable pub read_int31 : Reader ℕ
read_int31 = do
  _ ← read_int8
  int1 ← read_int8
  int2 ← read_int8
  int3 ← read_int8
  pure (int1 * 2 ^ 24 + int1 * 2 ^ 16 + int2 * 2 ^ 8 + int3)

unfoldable pub read_list_size : ℕ → Reader ℕ
unfolding read_int8 read_int16
read_list_size token =
    if token == 0
    then pure 0
    else if token == 248
    then read_int8
    else if token == 249
    then read_int16
    else raise exception

-- `readArray`: a slice, which takes what is there if the data is too short.
unfoldable pub read_array : ℕ → Reader (List ℕ)
read_array size data' = ok (take size data', drop size data')

-- Each `writeInt` appends to `data`; here it is what it appends.
unfoldable pub write_int8 : ℕ → List ℕ
write_int8 v = v % 2 ^ 8 ∷ []

unfoldable pub write_int16 : ℕ → List ℕ
write_int16 v = v / 2 ^ 8 % 2 ^ 8 ∷ v % 2 ^ 8 ∷ []

unfoldable pub write_int20 : ℕ → List ℕ
write_int20 v = v / 2 ^ 16 % 2 ^ 4 ∷ v / 2 ^ 8 % 2 ^ 8 ∷ v % 2 ^ 8 ∷ []

unfoldable pub write_int24 : ℕ → List ℕ
write_int24 v = v / 2 ^ 16 % 2 ^ 8 ∷ v / 2 ^ 8 % 2 ^ 8 ∷ v % 2 ^ 8 ∷ []

unfoldable pub write_int31 : ℕ → List ℕ
write_int31 v = v / 2 ^ 24 % 2 ^ 7 ∷ v / 2 ^ 16 % 2 ^ 8 ∷ v / 2 ^ 8 % 2 ^ 8 ∷ v % 2 ^ 8 ∷ []

unfoldable pub write_int32 : ℕ → List ℕ
write_int32 v = v / 2 ^ 24 % 2 ^ 8 ∷ v / 2 ^ 16 % 2 ^ 8 ∷ v / 2 ^ 8 % 2 ^ 8 ∷ v % 2 ^ 8 ∷ []

unfoldable pub write_list_start : ℕ → List ℕ
unfolding write_int8 write_int16
write_list_start i =
    if i == 0 then 0 ∷ [] else if ltb i 256 then 248 ∷ write_int8 i else 249 ∷ write_int16 i
