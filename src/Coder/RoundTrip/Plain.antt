-- ===== src/Coder/RoundTrip/Plain.antt =====
-- Texts that are no jid: dictionary words, packed texts, and texts of plain characters.
use zowpy.Prelude.{
  ltb, leb, ==_ne, Bool-cases, Option-cases, length, take-length_append, drop-length_append,
  AreBytes, Text, ℕ, zero, suc, ◌^◌, ◌<◌, ◌≡◌, refl, ◌∙◌, ◌≢◌, inl, inr, Bool, true, false, some,
  List, ◌∷◌, ◌++◌, append_assoc, arith,
}
use zowpy.Result.{ok}
use zowpy.Coder.Dictionary.{TokenDictionary}
use zowpy.Coder.Ints.{Reader, ◌>>=◌, read_int8, read_int20, read_array, write_int8, write_int20}
use zowpy.Coder.Ints.RoundTrip.{read_int-write_int}
use zowpy.Coder.Write.{Out, put, write_short, write_bytes}
use zowpy.Coder.Read.{some_text, read_sized, read_simple, read_string}
use zowpy.Coder.Packing.{try_pack, read_packed8}
use zowpy.Coder.Packing.RoundTrip.{IsMarker, read_packed8-try_pack, try_pack-AreBytes}

-- What was written is a token and a body, which are bytes, and the decoder reads `t` off them, whatever
-- follows.
pub record Reads (d : TokenDictionary) (out : Out) (t : Text) : Type 0 where
  pub token : ℕ
  pub body : List ℕ
  pub written : out ≡ put (token ∷ body)
  pub are_bytes : AreBytes (token ∷ body)
  pub read :
      (f : ℕ) (rest : List ℕ)
      → length body < f
      → read_string d f token (body ++ rest) ≡ ok (some t, rest)

-- Most tokens are read with no string inside.
pub read_string-simple :
    (d : TokenDictionary) (f token : ℕ) (bs : List ℕ) {n : ℕ}
    → n < f
    → token ≢ 247
    → token ≢ 250
    → read_string d f token bs ≡ read_simple d token bs
unfolding read_string
read_string-simple d zero token bs h a b = absurd (omega arith)
read_string-simple d (suc f) token bs h a b = rw (==_ne token 247 a, ==_ne token 250 b)

pub read_sized_bytes :
    (d : TokenDictionary) (s rest : List ℕ) (size : Reader ℕ) (header : List ℕ)
    → ((r : List ℕ) → size (header ++ r) ≡ ok (length s, r))
    → read_sized size ((header ++ s) ++ rest) ≡ ok (s, rest)
unfolding read_array
read_sized_bytes d s rest size header h =
    simp (append_assoc, h (s ++ rest), take-length_append, drop-length_append)

pub leb-false : (a b : ℕ) → b < a → leb a b ≡ false
leb-false a b h = ground arith

marker_ne_247 : (v : ℕ) → IsMarker v → v ≢ 247
marker_ne_247 v m = omega arith

marker_ne_250 : (v : ℕ) → IsMarker v → v ≢ 250
marker_ne_250 v m = omega arith

read_simple-marker :
    (d : TokenDictionary) (v : ℕ) (bs : List ℕ)
    → IsMarker v
    → read_simple d v bs ≡ (read_packed8 v >>= some_text) bs
unfolding read_simple
read_simple-marker d v bs (inl e) = rw e
read_simple-marker d v bs (inr e) = rw e

module _ (d : TokenDictionary) (s : List ℕ) (latin : AreBytes s) where
  short-Reads : length s < 256 → Reads d (put (252 ∷ write_int8 (length s) ++ s)) s
  unfolding read_simple
  short-Reads h = record {
    token = 252;
    body = write_int8 (length s) ++ s;
    written = refl;
    are_bytes = unfold write_int8 in (omega arith, (omega arith, latin));
    read = λ f rest lt.
        read_string-simple d f 252 _ lt (omega arith) (omega arith)
        ∙ rw (
            read_sized_bytes d s rest read_int8 (write_int8 (length s))
              (λ r. (read_int-write_int (length s) r).0 h));
  }

  medium-Reads : length s < 2 ^ 20 → Reads d (put (253 ∷ write_int20 (length s) ++ s)) s
  unfolding read_simple
  medium-Reads h = record {
    token = 253;
    body = write_int20 (length s) ++ s;
    written = refl;
    are_bytes =
        unfold write_int20 in (omega arith, (omega arith, (omega arith, (omega arith, latin))));
    read = λ f rest lt.
        read_string-simple d f 253 _ lt (omega arith) (omega arith)
        ∙ rw (
            read_sized_bytes d s rest read_int20 (write_int20 (length s))
              (λ r. (read_int-write_int (length s) r).2 h));
  }

  packed-Reads :
      (v : ℕ) (header arr : List ℕ)
      → IsMarker v
      → try_pack v s ≡ some (header, arr)
      → Reads d (put (header ++ arr)) s
  packed-Reads v header arr m h =
      let size = (read_packed8-try_pack v s header arr m h).0 in
      let head_eq = (read_packed8-try_pack v s header arr m h).1 in
      record {
        token = v;
        body = size ++ arr;
        written = rw head_eq;
        are_bytes = rw head_eq at (try_pack-AreBytes v s header arr m h);
        read = λ f rest lt.
            read_string-simple d f v _ lt (marker_ne_247 v m) (marker_ne_250 v m)
            ∙ read_simple-marker d v _ m
            ∙ rw (append_assoc, (read_packed8-try_pack v s header arr m h).2 rest);
      }

  write_short-Reads : (packed : Bool) → length s < 256 → Reads d (put (write_short s packed)) s
  unfolding write_short
  write_short-Reads false small = short-Reads small
  write_short-Reads true small = elim (Bool-cases (ltb (length s) 128)) [
    | inl lt ↦ rw lt (elim (Option-cases (try_pack 255 s)) [
      | inr ((header, arr), good) ↦ rw good (packed-Reads 255 header arr (inr refl) good)
      | inl bad ↦ rw bad (elim (Option-cases (try_pack 251 s)) [
        | inr ((header, arr), good) ↦ rw good (packed-Reads 251 header arr (inl refl) good)
        | inl bad' ↦ rw bad' (short-Reads small)
      ])
    ])
    | inr ge ↦ rw ge (short-Reads small)
  ]

  -- Any text below 1 MiB of characters below 256 that is written by its characters is read back, packed
  -- or not.
  pub write_bytes-Reads :
      (packed : Bool) → length s < 2 ^ 20 → Reads d (put (write_bytes s packed)) s
  unfolding write_bytes
  write_bytes-Reads packed h =
      rw (leb-false 0x100000 (length s) h) (elim (Bool-cases (leb 0x100 (length s))) [
        | inl large ↦ rw large (medium-Reads h)
        | inr small ↦ rw small (write_short-Reads packed (ground arith))
      ])
