-- ===== src/Coder/RoundTrip/Carry.antt =====
-- A test for texts that the encoding carries, jids of two parts among them.
use zowpy.Prelude.{
  ltb, length, AreBytes, Text, text_eq, ℕ, ◌^◌, ◌≡◌, Bool, true, false, not, ◌&&◌, ◌||◌, Option,
  none, some, List, [], ◌∷◌, ◌++◌, arith,
}
use zowpy.Python.{contains}
use zowpy.Coder.Dictionary.{get_index, TokenDictionary, IsBounded}
use zowpy.Coder.Write.{lid, write_string}
use zowpy.Coder.Read.{fit_bytes}
use zowpy.Coder.RoundTrip.Strings.{IsSafe}
use zowpy.Coder.RoundTrip.Jids.{user-Reads, jid-Reads}
use zowpy.Coder.RoundTrip.Attributes.{Carried}

is_reserved : Option (ℕ × Bool) → Bool
is_reserved none = false
is_reserved (some (i, secondary)) = not secondary && ltb i 3

-- Not empty, not at a reserved place, below 1 MiB, and of characters below 256.
unfoldable pub is_safe : TokenDictionary → Text → Bool
unfolding is_reserved fit_bytes
is_safe d s =
    not (text_eq s [])
    && not (is_reserved (get_index d s))
    && ltb (length s) (2 ^ 20)
    && fit_bytes s

fit_bytes-AreBytes : (bs : List ℕ) → fit_bytes bs ≡ true → AreBytes bs
unfolding fit_bytes
fit_bytes-AreBytes [] h = tt
fit_bytes-AreBytes (b ∷ bs) h = (ground arith, fit_bytes-AreBytes bs (ground arith))

pub is_safe→IsSafe : (d : TokenDictionary) (s : Text) → is_safe d s ≡ true → IsSafe d s
unfolding is_safe
is_safe→IsSafe d s h = record {
  nonempty = λ e. ground (arith, rw e at h);
  unreserved = λ i e. ground (arith, rw e at h);
  short = ground arith;
  latin = fit_bytes-AreBytes s (ground arith);
}

-- A text with no "@" that is safe is carried, whatever else it holds.
pub is_safe-Carried :
    (d : TokenDictionary) (s : Text)
    → IsBounded d
    → is_safe d s ≡ true
    → contains b'@' s ≡ false
    → Carried d s
unfolding write_string
is_safe-Carried d s b safe no_at packed =
    user-Reads d (length s) s packed b (is_safe→IsSafe d s safe) no_at

-- A jid of a safe user with no ":" and a safe server that is no lid is carried, if it is no word.
pub is_safe-Carried_jid :
    (d : TokenDictionary) (user server : Text)
    → IsBounded d
    → is_safe d user && is_safe d server ≡ true
    → contains b'@' user || contains b':' user || contains b'@' server || text_eq server lid ≡ false
    → get_index d (user ++ b'@' ∷ server) ≡ none
    → Carried d (user ++ b'@' ∷ server)
is_safe-Carried_jid d user server b safe no_marks new packed =
    let not_lid : text_eq server lid ≡ false = ground arith in
    rw not_lid at (
      jid-Reads d user server packed b
        (record {
          safe = is_safe→IsSafe d user (ground arith);
          no_at = ground arith;
          no_colon = ground arith;
        })
        (is_safe→IsSafe d server (ground arith)) (ground arith) new)
