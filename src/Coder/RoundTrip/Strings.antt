-- ===== src/Coder/RoundTrip/Strings.antt =====
-- Dictionary words and texts with no "@" inside.
use zowpy.Prelude.{
  if◌then◌else◌, lt→ltb, Option-cases, length, AreBytes, Text, ℕ, zero, suc, ◌+◌, ◌*◌, ◌/◌, ◌%◌,
  ◌^◌, ◌≤◌, ◌<◌, ◌≡◌, refl, ◌∙◌, ◌≢◌, ◌⊎◌, inl, inr, Bool, true, false, none, some, List, [], ◌∷◌,
  arith,
}
use zowpy.Result.{ok}
use zowpy.Coder.Dictionary.{get_token, get_index, get_token-get_index, TokenDictionary, IsBounded}
use zowpy.Coder.Ints.{◌>>=◌, read_int8}
use zowpy.Coder.Write.{put, write_token, write_bytes, write_double, write_string_fuel}
use zowpy.Coder.Read.{get_token_double, read_token, read_simple}
use zowpy.Coder.RoundTrip.Plain.{read_string-simple, write_bytes-Reads, Reads}
use zowpy.Python.{index_of}

-- A text that the codes can carry: it is not empty, no word at a reserved place, below 1 MiB, and of
-- characters below 256.
pub record IsSafe (d : TokenDictionary) (s : Text) : Type 0 where
  pub nonempty : s ≢ []
  pub unreserved : (i : ℕ) → get_index d s ≡ some (i, false) → 3 ≤ i
  pub short : length s < 2 ^ 20
  pub latin : AreBytes s

read_token-word :
    (d : TokenDictionary) (i : ℕ) (s : Text) (bs : List ℕ)
    → s ≢ []
    → get_token d i false ≡ some s
    → read_token d i bs ≡ ok (some s, bs)
unfolding read_token
read_token-word d i [] bs ne h = absurd (ne refl)
read_token-word d i (c ∷ s) bs ne h = rw h

primary-Reads :
    (d : TokenDictionary) (i : ℕ) (s : Text)
    → s ≢ []
    → 3 ≤ i
    → get_token d i false ≡ some s
    → i < 236
    → Reads d (write_token i) s
unfolding write_token
primary-Reads d i s ne low h high = record {
  token = i;
  body = [];
  written = ground arith;
  are_bytes = (omega arith, tt);
  read = λ f rest lt.
      read_string-simple d f i _ lt (omega arith) (omega arith)
      ∙ unfold read_simple in
        rw (lt→ltb 2 i low, lt→ltb i 236 high) (read_token-word d i s rest ne h);
}

get_token_double-word :
    (d : TokenDictionary) (i : ℕ) (s : Text) (bs : List ℕ)
    → s ≢ []
    → get_token d i true ≡ some s
    → get_token_double d (i / 256) (i % 256) bs ≡ ok (some s, bs)
unfolding get_token_double
get_token_double-word d i [] bs ne h = absurd (ne refl)
get_token_double-word d i (c ∷ s) bs ne h =
    let e : i % 256 + i / 256 * 256 ≡ i = omega arith in rw (e, h)

write_double_lem : (i : ℕ) → i < 1024 → write_double i ≡ put ((236 + i / 256) ∷ i % 256 ∷ [])
unfolding write_double
write_double_lem i h = ground arith

read_simple-double :
    (d : TokenDictionary) (page : ℕ) (bs : List ℕ)
    → page < 4
    → read_simple d (236 + page) bs ≡ (read_int8 >>= get_token_double d page) bs
unfolding read_simple
read_simple-double d zero bs h = refl
read_simple-double d (suc zero) bs h = refl
read_simple-double d (suc (suc zero)) bs h = refl
read_simple-double d (suc (suc (suc zero))) bs h = refl
read_simple-double d (suc (suc (suc (suc n)))) bs h = absurd (omega arith)

secondary-Reads :
    (d : TokenDictionary) (i : ℕ) (s : Text)
    → s ≢ []
    → get_token d i true ≡ some s
    → i < 1024
    → Reads d (write_double i) s
secondary-Reads d i s ne h high = record {
  token = 236 + i / 256;
  body = i % 256 ∷ [];
  written = write_double_lem i high;
  are_bytes = (omega arith, (omega arith, tt));
  read = λ f rest lt.
      read_string-simple d f (236 + i / 256) _ lt (omega arith) (omega arith)
      ∙ read_simple-double d (i / 256) _ (omega arith)
      ∙ (unfold read_int8 in get_token_double-word d i s rest ne h);
}

-- A word of either list is written as its code, which is read back.
word-Reads :
    (d : TokenDictionary) (s : Text) (i : ℕ) (secondary : Bool)
    → IsBounded d
    → IsSafe d s
    → get_index d s ≡ some (i, secondary)
    → Reads d (if secondary then write_double i else write_token i) s
word-Reads d s i true b safe h =
    let (back, bound) = get_token-get_index d s i true b h in
    secondary-Reads d i s safe.nonempty back bound
word-Reads d s i false b safe h =
    let (back, bound) = get_token-get_index d s i false b h in
    primary-Reads d i s safe.nonempty (safe.unreserved i h) back bound

-- A text with no "@", or with one at its start, is not taken for a jid.
abbrev pub IsPlain : Text → Type 0
IsPlain s = (index_of b'@' s ≡ none) ⊎ (index_of b'@' s ≡ some 0)

write_string-plain :
    (d : TokenDictionary) (f : ℕ) (s : Text) (packed : Bool)
    → IsPlain s
    → get_index d s ≡ none
    → write_string_fuel d (suc f) s packed ≡ put (write_bytes s packed)
unfolding write_string_fuel
write_string-plain d f s packed (inl e) h = rw (h, e, write_string_fuel)
write_string-plain d f s packed (inr e) h = rw (h, e, write_string_fuel)

write_string-word :
    (d : TokenDictionary) (f : ℕ) (s : Text) (packed : Bool) (i : ℕ) (secondary : Bool)
    → get_index d s ≡ some (i, secondary)
    → write_string_fuel d (suc f) s packed ≡ (if secondary then write_double i else write_token i)
unfolding write_string_fuel
write_string-word d f s packed i secondary h = rw (h, write_string_fuel)

-- With dictionary lists of a bounded length, a safe text that is no jid is read back as it was, whether
-- it is a word, packed or written out. Safe is a text that is not empty, no reserved word, below 1 MiB,
-- and of characters below 256; one with no "@", or with one at its start, is no jid.
pub write_string_fuel-Reads :
    (d : TokenDictionary) (f : ℕ) (s : Text) (packed : Bool)
    → IsBounded d
    → IsSafe d s
    → IsPlain s
    → Reads d (write_string_fuel d (suc f) s packed) s
write_string_fuel-Reads d f s packed b safe plain = elim (Option-cases (get_index d s)) [
  | inl none_there ↦
      rw (write_string-plain d f s packed plain none_there)
        (write_bytes-Reads d s safe.latin packed safe.short)
  | inr ((i, secondary), word) ↦
      rw (write_string-word d f s packed i secondary word) (word-Reads d s i secondary b safe word)
]
