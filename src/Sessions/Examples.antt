-- ===== src/Sessions/Examples.antt =====
-- The theorems on sessions at concrete jids.
use zowpy.Prelude.{Text, codes, ◌≡◌, refl, some, List, [], ◌∷◌}
use zowpy.Python.{before}
use zowpy.Python.Decimal.{int_of, pos}
use zowpy.Sessions.{jid_decode, Key, jid_to_recipient_device, deduplicate, number}
use zowpy.Sessions.Distinct.{deduplicate-Keeps, AreKeys, no_keys, a_key, Keeps}

abbrev first_jid : Text
first_jid = codes "55.0:3@a"

abbrev same_device : Text
same_device = codes "55.1:3"

abbrev key_55 : Key
key_55 = (number (pos 55), pos 3)

two_jids-AreKeys : AreKeys (first_jid ∷ same_device ∷ []) (key_55 ∷ key_55 ∷ [])
unfolding jid_to_recipient_device before jid_decode int_of
two_jids-AreKeys =
    a_key first_jid key_55 (same_device ∷ []) (key_55 ∷ []) refl
      (a_key same_device key_55 [] [] refl no_keys)

deduplicate-Keeps_example :
    (out : List Text) × (deduplicate (first_jid ∷ same_device ∷ []) ≡ some out)
    × Keeps [] (first_jid ∷ same_device ∷ []) out (key_55 ∷ key_55 ∷ [])
deduplicate-Keeps_example =
    deduplicate-Keeps (first_jid ∷ same_device ∷ []) (key_55 ∷ key_55 ∷ []) two_jids-AreKeys
