-- ===== src/Builders/Ids.antt =====
-- `_adjust_id` and `_adjust_array` of zowpy/core/builders/prekey_builder.py. `none` is an exception.
use zowpy.Prelude.{
  ltb, ◌==◌, if◌then◌else◌, length, replicate, Text, ℕ, zero, suc, ◌+◌, ◌-◌, ◌*◌, ◌/◌, ◌%◌, Option,
  none, some, List, [], ◌∷◌, ◌++◌,
}
use zowpy.Nodes.{hex_digit, hex, hex_value}
pub mod Digits
pub mod Values

-- `format(n, 'x')` on fuel.
unfoldable pub hex_fuel : ℕ → ℕ → Text
hex_fuel zero n = []
hex_fuel (suc f) n =
    let more = hex_fuel f (n / 16) ++ hex_digit (n % 16) ∷ [] in
    if ltb n 16 then hex_digit n ∷ [] else more

unfoldable pub format_hex : ℕ → Text
unfolding hex_fuel
format_hex n = hex_fuel (suc n) n

-- `s.zfill(width)` at a text with no sign.
unfoldable pub zfill : ℕ → Text → Text
zfill width s = replicate (width - length s) b'0' ++ s

-- `binascii.unhexlify`
unfoldable pub unhexlify : Text → Option (List ℕ)
unfolding hex_value
unhexlify [] = some []
unhexlify (c ∷ []) = none
unhexlify (c ∷ d ∷ s) =
    let rest = unhexlify s in
    elim (hex_value c) [
      | none ↦ none
      | some high ↦ elim (hex_value d) [
        | none ↦ none
        | some low ↦ elim rest [ none ↦ none | some bs ↦ some ((high * 16 + low) ∷ bs) ]
      ]
    ]

-- `_adjust_id`
unfoldable pub adjust_id : ℕ → ℕ → Option (List ℕ)
unfolding format_hex zfill unhexlify
adjust_id id byte_count =
    let id_hex = format_hex id in
    let zfiller = if length id_hex % 2 == 0 then length id_hex else length id_hex + 1 in
    unhexlify (zfill (if ltb (byte_count * 2) zfiller then zfiller else byte_count * 2) id_hex)

-- `_adjust_array`
unfoldable pub adjust_array : List ℕ → Option (List ℕ)
unfolding hex unhexlify
adjust_array arr = unhexlify (hex arr)
