-- ===== src/Coder/RoundTrip/Devices.antt =====
-- Jids with a device number.
use mathlib.Core.Path.{subst}
use zowpy.Prelude.{
  if◌then◌else◌, Bool-cases, Text, codes, text_eq, text_eq→eq, text_eq_refl, text_eq_ne, ℕ, ◌^◌,
  ◌<◌, ◌≡◌, refl, ◌≢◌, inl, inr, Bool, true, false, none, some, List, [], ◌∷◌, ◌++◌, append_assoc,
  arith,
}
use zowpy.Python.{
  before, second_part, contains, before-append, contains-append_self, contains-append,
  contains-before, second_part-append,
}
use zowpy.Python.Decimal.{decimal, int_of-decimal, contains-decimal}
use zowpy.Coder.Dictionary.{get_index, TokenDictionary, IsBounded}
use zowpy.Coder.Write.{Out, put, ◌▹◌, append_int, lid, write_jid, write_string}
use zowpy.Coder.Read.{device_jid}
use zowpy.Coder.RoundTrip.Plain.{Reads}
use zowpy.Coder.RoundTrip.Strings.{IsSafe}
use zowpy.Coder.RoundTrip.Jids.{device-Reads, user-Reads, write_string-Reads}

-- "name:device", the part of a jid before its "@".
abbrev pub with_device : Text → ℕ → Text
with_device name device = name ++ b':' ∷ decimal device

-- "name.0:device@s.whatsapp.net"
abbrev pub as_agent_zero : Text → ℕ → Text
as_agent_zero name device =
    name ++ b'.' ∷ (decimal 0 ++ b':' ∷ (decimal device ++ codes "@s.whatsapp.net"))

put-▹ : (bs cs : List ℕ) (out : Out) → (put bs ▹ put cs ▹ out) ≡ (put (bs ++ cs) ▹ out)
unfolding ◌▹◌
put-▹ bs cs (ds, fault) = rw append_assoc

pub append-ne_nil : (s t : Text) → s ≢ [] → s ++ t ≢ []
append-ne_nil [] t h e = h refl
append-ne_nil (c ∷ s) t h e = cc

append_int-decimal : (device : ℕ) → append_int (some (decimal device)) ≡ put (device ∷ [])
unfolding append_int
append_int-decimal device = rw (int_of-decimal device, append_int)

module _ (name : Text) (device : ℕ) (no_colon : contains b':' name ≡ false) where
  second_part-with_device : second_part b':' (with_device name device) ≡ some (decimal device)
  second_part-with_device =
      second_part-append b':' name (decimal device) no_colon (contains-decimal b':' device refl)

  write_jid-lid_device :
      (w : Text → Bool → Out)
      → write_jid w (with_device name device) lid ≡ (put (247 ∷ 1 ∷ device ∷ []) ▹ w name true)
  unfolding write_jid
  write_jid-lid_device w =
      rw
        (
          contains-append_self b':' name (decimal device),
          second_part-with_device,
          append_int-decimal device,
          before-append b':' name (decimal device) no_colon,
        )
        (put-▹ (247 ∷ 1 ∷ []) (device ∷ []) (w name true))

  write_jid-device :
      (w : Text → Bool → Out) (server : Text)
      → server ≢ lid
      → write_jid w (with_device name device) server
        ≡ (put (247 ∷ 0 ∷ device ∷ []) ▹ w (before b'.' (with_device name device)) true)
  unfolding write_jid
  write_jid-device w server not_lid =
      rw
        (
          contains-append_self b':' name (decimal device),
          text_eq_ne server lid not_lid,
          second_part-with_device,
          append_int-decimal device,
        )
        (put-▹ (247 ∷ 0 ∷ []) (device ∷ []) (w (before b'.' (with_device name device)) true))

-- What the user of a device jid is written as.
abbrev pub device_user : Text → ℕ → Text → Text
device_user name device server =
    if text_eq server lid then name else before b'.' (with_device name device)

-- A jid "name:device@lid" is read back as it was. With any other server the decoder reads what stands
-- before the first "." of "name:device", with the agent 0 and the server "s.whatsapp.net": the
-- agent and the server that were written are lost. This holds for dictionary lists of a bounded length
-- and a device below 256; the name is not empty and has no "@" and no ":"; the user that is written is
-- safe: not empty, no reserved word, below 1 MiB, and of characters below 256; and the whole jid is no
-- dictionary word.
pub device_jid-Reads :
    (d : TokenDictionary) (name server : Text) (device : ℕ) (packed : Bool)
    → IsBounded d
    → device < 2 ^ 8
    → name ≢ []
    → contains b'@' name ≡ false
    → contains b':' name ≡ false
    → IsSafe d (device_user name device server)
    → get_index d (with_device name device ++ b'@' ∷ server) ≡ none
    → Reads d (write_string d (with_device name device ++ b'@' ∷ server) packed) (
        if text_eq server lid
        then name ++ b':' ∷ (decimal device ++ codes "@lid")
        else as_agent_zero (device_user name device server) device)
device_jid-Reads d name server device packed b small ne no_at no_colon safe h =
    let user_no_at : contains b'@' (with_device name device) ≡ false =
      rw (contains-append b'@' name (b':' ∷ decimal device), no_at)
        (unfold contains in contains-decimal b'@' device refl) in
    write_string-Reads d (with_device name device) server packed _ (append-ne_nil name _ ne)
      user_no_at h
      (elim (Bool-cases (text_eq server lid)) [
        | inl same ↦
            rw (same, text_eq→eq server lid same, write_jid-lid_device name device no_colon)
              (unfold device_jid in
                device-Reads d 1 device (omega arith) small
                  (user-Reads d _ name true b (subst (IsSafe d) (rw same) safe) no_at))
        | inr other ↦
            rw (other, write_jid-device name device no_colon _ server (λ e. cc (text_eq_refl lid)))
              (unfold device_jid in
                device-Reads d 0 device (omega arith) small (
                  user-Reads d _ (before b'.' (with_device name device)) true b
                    (subst (IsSafe d) (rw other) safe)
                    (contains-before b'@' b'.' (with_device name device) user_no_at)))
      ])
