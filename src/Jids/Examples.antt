-- ===== src/Jids/Examples.antt =====
-- The theorems on addresses at concrete jids.
use zowpy.Prelude.{codes, ◌≡◌}
use zowpy.Phone.Codes.{digits_of}
use zowpy.Jids.{to_whatsapp_jid}
use zowpy.Jids.Digits.{address, to_whatsapp_jid-address}

to_whatsapp_jid-address_example :
    to_whatsapp_jid (codes "5511-1234@g.us") ≡ address (digits_of (codes "5511-1234@g.us"))
to_whatsapp_jid-address_example = to_whatsapp_jid-address (codes "5511-1234@g.us")
