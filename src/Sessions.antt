-- ===== src/Sessions.antt =====
-- zowpy/core/session_jid.py and `jidDecode` of zowpy/utils/tools.py. `none` is the ValueError of
-- `int`.
use zowpy.Prelude.{
  ltb, ◌==◌, if◌then◌else◌, length, get_elem?, Text, text_eq, ℕ, Bool, true, false, ◌&&◌, ◌||◌,
  Option, none, some, List, [], ◌∷◌,
}
use zowpy.Python.{before}
use zowpy.Python.Decimal.{int_of, ℤ, pos, negsuc}
use zowpy.Phone.Codes.{is_digit_char}
pub mod Decoding
pub mod Distinct
pub mod Missing
mod Examples

-- What `jidDecode` returns.
pub record Decoded : Type 0 where
  pub recipient_id : Text
  pub recipient_type : ℤ
  pub device_id : ℤ

unfoldable pub push_char : ℕ → List Text → List Text
push_char c [] = (c ∷ []) ∷ []
push_char c (part ∷ parts) = (c ∷ part) ∷ parts

-- `re.split(':|\\.', username)`
unfoldable pub split_username : Text → List Text
unfolding push_char
split_username [] = [] ∷ []
split_username (c ∷ s) =
    let rest = split_username s in if c == b':' || c == b'.' then [] ∷ rest else push_char c rest

-- `int(nps[i]) if len(nps) >= i + 1 else 0`
unfoldable pub int_or_zero : Option Text → Option ℤ
int_or_zero none = some (pos 0)
int_or_zero (some part) = int_of part

unfoldable pub type_of : Text → Option Text → Option ℤ
unfolding int_or_zero
type_of recipient_id part = if ltb (length recipient_id) 14 then int_or_zero part else some (pos 1)

unfoldable pub decode_parts : List Text → Option Decoded
unfolding type_of int_or_zero
decode_parts [] = none
decode_parts (recipient_id ∷ parts) = elim (type_of recipient_id (get_elem? parts 0)) [
  | none ↦ none
  | some t ↦ elim (int_or_zero (get_elem? parts 1)) [
    | none ↦ none
    | some d ↦ some (record { recipient_id = recipient_id; recipient_type = t; device_id = d })
  ]
]

unfoldable pub jid_decode : Text → Option Decoded
unfolding split_username decode_parts
jid_decode jid = decode_parts (split_username (before b'@' jid))

-- `recipient_id` as a number or a text, and the device.
pub data Recipient : Type 0 where
  number : ℤ → Recipient
  name : Text → Recipient

abbrev pub Key : Type 0
Key = Recipient × ℤ

-- `isdigit` of a text.
unfoldable pub are_digits : Text → Bool
unfolding is_digit_char
are_digits [] = false
are_digits (c ∷ []) = is_digit_char c
are_digits (c ∷ d ∷ s) = is_digit_char c && are_digits (d ∷ s)

unfoldable pub recipient_of : Text → Option Recipient
unfolding are_digits
recipient_of r =
    if are_digits r
    then elim (int_of r) [ none ↦ none | some n ↦ some (number n) ]
    else some (name r)

unfoldable pub key_of : Decoded → Option Key
unfolding recipient_of
key_of decoded = elim (recipient_of decoded.recipient_id) [
  | none ↦ none
  | some r ↦ some (r, decoded.device_id)
]

unfoldable pub jid_to_recipient_device : Text → Option Key
unfolding jid_decode key_of
jid_to_recipient_device jid = elim (jid_decode (before b'@' jid)) [
  | none ↦ none
  | some decoded ↦ key_of decoded
]

-- `==` on keys.
unfoldable pub int_eq : ℤ → ℤ → Bool
int_eq (pos m) (pos n) = m == n
int_eq (negsuc m) (negsuc n) = m == n
int_eq _ _ = false

unfoldable pub recipient_eq : Recipient → Recipient → Bool
unfolding int_eq
recipient_eq (number m) (number n) = int_eq m n
recipient_eq (name s) (name t) = text_eq s t
recipient_eq _ _ = false

unfoldable pub has_key : Key → List Key → Bool
unfolding int_eq recipient_eq
has_key k [] = false
has_key k (j ∷ js) = (recipient_eq k.0 j.0 && int_eq k.1 j.1) || has_key k js

-- The loop of `deduplicate_jids_by_recipient_device`, with the set `seen`.
unfoldable pub deduplicate_from : List Key → List Text → Option (List Text)
unfolding jid_to_recipient_device has_key
deduplicate_from seen [] = some []
deduplicate_from seen (jid ∷ jids) = elim (jid_to_recipient_device jid) [
  | none ↦ none
  | some key ↦ elim (has_key key seen) [
    | true ↦ deduplicate_from seen jids
    | false ↦ elim (deduplicate_from (key ∷ seen) jids) [
      | none ↦ none
      | some rest ↦ some (jid ∷ rest)
    ]
  ]
]

unfoldable pub deduplicate : List Text → Option (List Text)
unfolding deduplicate_from
deduplicate jids = deduplicate_from [] jids

-- The set of `existing_sessions_set`.
unfoldable pub existing_sessions : List Key → Option (List Key)
unfolding recipient_of
existing_sessions [] = some []
existing_sessions ((number n, device) ∷ maps) = elim (existing_sessions maps) [
  | none ↦ none
  | some rest ↦ some ((number n, device) ∷ rest)
]
existing_sessions ((name r, device) ∷ maps) = elim (recipient_of r) [
  | none ↦ none
  | some recipient ↦ elim (existing_sessions maps) [
    | none ↦ none
    | some rest ↦ some ((recipient, device) ∷ rest)
  ]
]

unfoldable pub filter_new : List Key → List Text → Option (List Text)
unfolding jid_to_recipient_device has_key
filter_new existing [] = some []
filter_new existing (jid ∷ jids) = elim (jid_to_recipient_device jid) [
  | none ↦ none
  | some key ↦ elim (filter_new existing jids) [
    | none ↦ none
    | some rest ↦ some (if has_key key existing then rest else jid ∷ rest)
  ]
]

unfoldable pub jids_without_session : List Text → List Key → Option (List Text)
unfolding existing_sessions filter_new
jids_without_session jids jids_maps = elim (existing_sessions jids_maps) [
  | none ↦ none
  | some existing ↦ filter_new existing jids
]
