-- ===== src/Coder/RoundTrip/Jids.antt =====
-- Jids: "user@server", and the forms with a device.
use zowpy.Prelude.{
  ltb, if◌then◌else◌, Bool-cases, length, drop, length-append, take-length_append, AreBytes-append,
  Text, codes, text_eq, text_eq→eq, text_eq_refl, text_eq_ne, ℕ, zero, suc, ◌+◌, ◌^◌, ◌<◌, ◌≡◌,
  refl, ◌≢◌, inl, inr, Bool, true, false, none, some, List, [], ◌∷◌, ◌++◌, append_assoc, arith,
}
use zowpy.Python.{index_of, contains, index_of-append, index_of-of_not_contains}
use zowpy.Coder.Dictionary.{get_index, TokenDictionary, IsBounded}
use zowpy.Coder.Write.{
  Out, put, ◌▹◌, except_value_error, write_bytes, lid, write_jid, write_string_fuel, write_string,
}
use zowpy.Result.{ok}
use zowpy.Coder.Ints.{read_int8}
use zowpy.Coder.Read.{device_jid, read_string}
use zowpy.Coder.RoundTrip.Plain.{Reads}
use zowpy.Python.Decimal.{decimal}
use zowpy.Coder.RoundTrip.Strings.{IsPlain, write_string_fuel-Reads, IsSafe}

drop-length_append_suc {ℓ} :
    {A : Type ℓ} (xs : List A) (x : A) (ys : List A) → drop (length xs + 1) (xs ++ x ∷ ys) ≡ ys
drop-length_append_suc [] x ys = refl
drop-length_append_suc (a ∷ xs) x ys =
    let e : suc (length xs) + 1 ≡ suc (length xs + 1) = omega arith in
    rw (e, drop-length_append_suc xs x ys)

-- Fuel above any bound is a successor.
pub spend : {n : ℕ} (P : ℕ → Type 0) (f : ℕ) → ((k : ℕ) → n < suc k → P (suc k)) → n < f → P f
spend P zero step h = absurd (omega arith)
spend P (suc k) step h = step k h

-- A text that is no word, with a user before its first "@", goes to `writeJid`.
pub write_string-jid :
    (d : TokenDictionary) (f : ℕ) (user server : Text) (packed : Bool)
    → user ≢ []
    → contains b'@' user ≡ false
    → get_index d (user ++ b'@' ∷ server) ≡ none
    → write_string_fuel d (suc f) (user ++ b'@' ∷ server) packed
      ≡ except_value_error
          (write_jid (write_string_fuel d f) user server)
          (put (write_bytes (user ++ b'@' ∷ server) packed))
unfolding write_string_fuel except_value_error
write_string-jid d f [] server packed ne no_at h = absurd (ne refl)
write_string-jid d f (c ∷ user) server packed ne no_at h =
    let at : index_of b'@' ((c ∷ user) ++ b'@' ∷ server) ≡ some (suc (length user)) =
      index_of-append b'@' (c ∷ user) server no_at in
    let big : ltb (suc (length user)) 1 ≡ false = ground arith in
    rw (
      h,
      at,
      write_string_fuel,
      big,
      take-length_append (c ∷ user) (b'@' ∷ server),
      drop-length_append_suc (c ∷ user) b'@' server,
    )

read_string-device :
    (d : TokenDictionary) (f xx device : ℕ) {out : Out} {user : Text} (r : Reads d out user)
    (rest : List ℕ)
    → length r.body < f
    → read_string d (suc f) 247 (xx ∷ device ∷ r.token ∷ (r.body ++ rest))
      ≡ ok (some (device_jid xx device (some user)), rest)
unfolding read_string read_int8
read_string-device d f xx device r rest h = rw (r.read f rest h)

-- A device jid: the kind and the device, which are bytes, and the user.
pub device-Reads :
    (d : TokenDictionary) (xx device : ℕ) {out : Out} {user : Text}
    → xx < 2 ^ 8
    → device < 2 ^ 8
    → Reads d out user
    → Reads d (put (247 ∷ xx ∷ device ∷ []) ▹ out) (device_jid xx device (some user))
unfolding ◌▹◌
device-Reads d xx device {out} {user} kind small r = record {
  token = 247;
  body = xx ∷ device ∷ r.token ∷ r.body;
  written = rw (r.written);
  are_bytes = (omega arith, (kind, (small, r.are_bytes)));
  read = λ f rest.
      spend (λ k. read_string d k 247 _ ≡ _) f
        (λ k h. read_string-device d k xx device r rest (omega arith));
}

read_string-pair :
    (d : TokenDictionary) (f : ℕ) {out out' : Out} {user server : Text} (r : Reads d out user)
    (s : Reads d out' server) (rest : List ℕ)
    → length r.body + length s.body < f
    → read_string d (suc f) 250 (r.token ∷ (r.body ++ s.token ∷ (s.body ++ rest)))
      ≡ ok (some (user ++ b'@' ∷ server), rest)
unfolding read_string read_int8
read_string-pair d f r s rest h =
    rw (r.read f (s.token ∷ (s.body ++ rest)) (omega arith), s.read f rest (omega arith))

-- A jid of two strings.
pub pair-Reads :
    (d : TokenDictionary) {out out' : Out} {user server : Text}
    → Reads d out user
    → Reads d out' server
    → Reads d (put (250 ∷ []) ▹ out ▹ out') (user ++ b'@' ∷ server)
unfolding ◌▹◌
pair-Reads d {out} {out'} {user} {server} r s = record {
  token = 250;
  body = r.token ∷ (r.body ++ s.token ∷ s.body);
  written = rw (r.written, s.written);
  are_bytes = (
    omega arith,
    (r.are_bytes.0, AreBytes-append r.body (s.token ∷ s.body) (r.are_bytes.1) s.are_bytes),
  );
  read = λ f rest.
      spend (λ k. read_string d k 250 _ ≡ _) f
        (λ k h.
          rw append_assoc (
            read_string-pair d k r s rest
              (omega (arith, length-append r.body (s.token ∷ s.body)))));
}

except-Reads :
    (d : TokenDictionary) {out : Out} {t : Text} (handler : Out)
    → Reads d out t
    → Reads d (except_value_error out handler) t
unfolding except_value_error
except-Reads d handler r = record {
  token = r.token;
  body = r.body;
  written = rw (r.written);
  are_bytes = r.are_bytes;
  read = r.read;
}

-- The part of a jid that names the user.
pub record IsUser (d : TokenDictionary) (user : Text) : Type 0 where
  pub safe : IsSafe d user
  pub no_at : contains b'@' user ≡ false
  pub no_colon : contains b':' user ≡ false

no_at-IsPlain : (s : Text) → contains b'@' s ≡ false → IsPlain s
no_at-IsPlain s h = inl (index_of-of_not_contains b'@' s h)

pub user-Reads :
    (d : TokenDictionary) (f : ℕ) (user : Text) (packed : Bool)
    → IsBounded d
    → IsSafe d user
    → contains b'@' user ≡ false
    → Reads d (write_string_fuel d (suc f) user packed) user
user-Reads d f user packed b safe no_at =
    write_string_fuel-Reads d f user packed b safe (no_at-IsPlain user no_at)

write_jid-pair :
    (w : Text → Bool → Out) (user server : Text)
    → contains b':' user ≡ false
    → server ≢ lid
    → write_jid w user server ≡ (put (250 ∷ []) ▹ w user true ▹ w server false)
unfolding write_jid
write_jid-pair w user server no_colon not_lid = rw (no_colon, text_eq_ne server lid not_lid)

write_jid-lid :
    (w : Text → Bool → Out) (user : Text)
    → contains b':' user ≡ false
    → write_jid w user lid ≡ (put (247 ∷ 1 ∷ 0 ∷ []) ▹ w user true)
unfolding write_jid
write_jid-lid w user no_colon = rw no_colon

-- The whole writer at a jid: fuel for the parts is left.
module _ (d : TokenDictionary) (user server : Text) (packed : Bool) where
  jid_fuel : suc (length (user ++ b'@' ∷ server)) ≡ suc (suc (length user + length server))
  jid_fuel = omega (arith, length-append user (b'@' ∷ server))

  pub write_string-Reads :
      (t : Text)
      → user ≢ []
      → contains b'@' user ≡ false
      → get_index d (user ++ b'@' ∷ server) ≡ none
      → Reads d (write_jid (write_string_fuel d (suc (length user + length server))) user server) t
      → Reads d (write_string d (user ++ b'@' ∷ server) packed) t
  unfolding write_string
  write_string-Reads t ne no_at h r =
      rw (jid_fuel, write_string-jid d _ user server packed ne no_at h) (except-Reads d _ r)

-- With dictionary lists of a bounded length: "user@server" is read back as it was, if the server is no
-- lid; "user@lid" comes back with a device number 0. The user and the server are safe: not empty, no
-- reserved word, below 1 MiB, and of characters below 256. The user has no "@" and no ":", the server
-- has no "@", and the whole jid is no dictionary word.
pub jid-Reads :
    (d : TokenDictionary) (user server : Text) (packed : Bool)
    → IsBounded d
    → IsUser d user
    → IsSafe d server
    → contains b'@' server ≡ false
    → get_index d (user ++ b'@' ∷ server) ≡ none
    → Reads d
        (write_string d (user ++ b'@' ∷ server) packed)
        (if text_eq server lid then user ++ codes ":0@lid" else user ++ b'@' ∷ server)
jid-Reads d user server packed b u safe no_at h =
    write_string-Reads d user server packed _ u.safe.nonempty u.no_at h
      (elim (Bool-cases (text_eq server lid)) [
        | inl same ↦
            rw (same, text_eq→eq server lid same, write_jid-lid _ user u.no_colon)
              (unfold device_jid decimal in
                device-Reads d 1 0 (omega arith) (omega arith)
                  (user-Reads d _ user true b u.safe u.no_at))
        | inr other ↦
            rw (other, write_jid-pair _ user server u.no_colon (λ e. cc (text_eq_refl lid)))
              (pair-Reads d (user-Reads d _ user true b u.safe u.no_at)
                (user-Reads d _ server false b safe no_at))
      ])
