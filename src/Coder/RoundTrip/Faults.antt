-- ===== src/Coder/RoundTrip/Faults.antt =====
-- Texts that are not carried: the empty word, and a jid whose device is no number.
use zowpy.Prelude.{
  if◌then◌else◌, Bool-cases, Text, text_eq, ℕ, suc, ◌≡◌, refl, ◌≢◌, inl, inr, Bool, false, none,
  some, List, [], ◌∷◌, ◌++◌,
}
use zowpy.Result.{value_error, ok}
use zowpy.Python.{contains, contains-append_self, second_part-append}
use zowpy.Python.Decimal.{int_of}
use zowpy.Coder.Dictionary.{get_index, TokenDictionary}
use zowpy.Coder.Write.{
  put, throw, ◌▹◌, except_value_error, write_bytes, append_int, lid, write_jid, write_string_fuel,
  write_string,
}
use zowpy.Coder.Read.{read_string}
use zowpy.Coder.RoundTrip.Devices.{append-ne_nil}
use zowpy.Coder.RoundTrip.Jids.{write_string-jid}

-- With the empty word at the start of the first list, as in the program, the empty text is written
-- as the byte 0, and the decoder reads that byte as None, not as an empty text.
pub empty_text-lost :
    (d : TokenDictionary) (packed : Bool) (f : ℕ) (rest : List ℕ)
    → get_index d [] ≡ some (0, false)
    → (write_string d [] packed ≡ put (0 ∷ [])) × (read_string d (suc f) 0 rest ≡ ok (none, rest))
unfolding write_string write_string_fuel read_string
empty_text-lost d packed f rest h = (rw (h, write_string_fuel), refl)

-- The kind that `writeJid` puts for a server.
abbrev pub kind : Text → ℕ
kind server = if text_eq server lid then 1 else 0

append_int-bad :
    (device : Text) → int_of device ≡ none → append_int (some device) ≡ throw value_error
unfolding append_int
append_int-bad device h = rw (h, append_int)

-- The marker of a device jid is written before its device is read as a number. Where that fails, the
-- marker stays in the data, and the whole text is written behind it.
pub bad_device-leaves_marker :
    (d : TokenDictionary) (name device server : Text) (packed : Bool)
    → name ≢ []
    → contains b'@' (name ++ b':' ∷ device) ≡ false
    → contains b':' name ≡ false
    → contains b':' device ≡ false
    → int_of device ≡ none
    → get_index d ((name ++ b':' ∷ device) ++ b'@' ∷ server) ≡ none
    → write_string d ((name ++ b':' ∷ device) ++ b'@' ∷ server) packed
      ≡ put (247 ∷ kind server ∷ write_bytes ((name ++ b':' ∷ device) ++ b'@' ∷ server) packed)
unfolding write_string write_jid except_value_error ◌▹◌
bad_device-leaves_marker d name device server packed ne no_at no_colon one_colon bad h =
    rw
      (
        write_string-jid d _ (name ++ b':' ∷ device) server packed (append-ne_nil name _ ne) no_at
            h,
        contains-append_self b':' name device,
        second_part-append b':' name device no_colon one_colon,
        append_int-bad device bad,
      )
      (elim (Bool-cases (text_eq server lid)) [ inl e ↦ rw e | inr e ↦ rw e ])
