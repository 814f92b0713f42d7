-- ===== src/Builders/Examples.antt =====
-- An upload of two prekeys, and the theorems of the builders at it.
use zowpy.Prelude.{Text, codes, ℕ, ◌≡◌, refl, Option, none, some, List, [], ◌∷◌, arith}
use zowpy.Result.{bind, ok}
use zowpy.Python.{contains}
use zowpy.Coder.Node.{Node}
use zowpy.Coder.Dictionary.{get_index, TokenDictionary}
use zowpy.Coder.Write.{protocol_node_to_bytes}
use zowpy.Coder.Read.{fit_bytes, get_protocol_node}
use zowpy.Coder.RoundTrip.Carry.{is_safe}
use zowpy.Builders.Ids.{hex_fuel, format_hex, zfill, unhexlify, adjust_id}
use zowpy.Builders.Ids.Values.{adjust_id-Adjusted, Adjusted}
use zowpy.Builders.Prekeys.{flush_iq, Prekey, SignedPrekey}
use zowpy.Builders.Prekeys.Upload.{read_upload}
use zowpy.Builders.Prekeys.Published.{announced, IsFlush}
use zowpy.Builders.Prekeys.Sendable.{CanUpload}
use zowpy.Builders.Prekeys.Carried.{flush_iq-arrives, Fits}

adjust_id-Adjusted_example : Adjusted 0x0102030 4
adjust_id-Adjusted_example = adjust_id-Adjusted 0x0102030 4

-- Four digits padded to three bytes.
adjust_id_small : adjust_id 4660 3 ≡ some (0 ∷ 18 ∷ 52 ∷ [])
unfolding adjust_id format_hex hex_fuel zfill unhexlify
adjust_id_small = refl

-- The first words of the lists of zowpy/utils/token_dict.py, and a few more.
abbrev words : TokenDictionary
words = record {
  dictionary =
      codes ""
      ∷ codes "xmlstreamstart"
      ∷ codes "xmlstreamend"
      ∷ codes "s.whatsapp.net"
      ∷ codes "type"
      ∷ codes "key"
      ∷ codes "id"
      ∷ [];
  secondary_dictionary = codes "read-self" ∷ codes "identity" ∷ [];
}

abbrev iq_id : Text
iq_id = codes "0F5A0"

can_upload : CanUpload words iq_id
unfolding is_safe fit_bytes get_index contains
can_upload = record {
  bounded = omega arith;
  words = (
    refl,
    (
      refl,
      (
        refl,
        (
          refl,
          (
            refl,
            (refl, (refl, (refl, (refl, (refl, (refl, (refl, (refl, (refl, (refl, tt)))))))))),
          ),
        ),
      ),
    ),
  );
  id_safe = refl;
  id_plain = refl;
}

abbrev signed : SignedPrekey
signed = record { id = 7; public_key = 5 ∷ 9 ∷ 8 ∷ []; signature = 200 ∷ 100 ∷ [] }

abbrev prekeys : List Prekey
prekeys =
    record { id = 1; public_key = 5 ∷ 1 ∷ 2 ∷ [] }
    ∷ record { id = 300; public_key = 5 ∷ 3 ∷ 4 ∷ [] }
    ∷ []

abbrev identity_key : List ℕ
identity_key = 5 ∷ 250 ∷ 251 ∷ []

is_flush : IsFlush signed prekeys identity_key
is_flush = record {
  distinct = (((λ e. omega arith), tt), (tt, tt));
  keys = (
    (omega arith, (omega arith, (omega arith, tt))),
    ((omega arith, (omega arith, (omega arith, tt))), tt),
  );
  signed_key = (omega arith, (omega arith, (omega arith, tt)));
  signature = (omega arith, (omega arith, tt));
  identity_key = (omega arith, (omega arith, (omega arith, tt)));
}

fits : Fits signed prekeys identity_key 123456
fits = record {
  few = omega arith;
  small = ((omega arith, omega arith), ((omega arith, omega arith), tt));
  signed_id = omega arith;
  signed_key = omega arith;
  signature = omega arith;
  identity_key = omega arith;
  registration_id = omega arith;
}

abbrev no_zlib : List ℕ → Option (List ℕ)
no_zlib bs = none

flush_iq-arrives_example :
    (n : Node) × (flush_iq iq_id signed prekeys identity_key 123456 ≡ some n)
    × (bind (protocol_node_to_bytes words n) (get_protocol_node no_zlib words) ≡ ok (some n))
    × (read_upload n ≡ some (announced signed prekeys identity_key 123456))
flush_iq-arrives_example =
    flush_iq-arrives no_zlib words iq_id signed prekeys identity_key 123456 can_upload is_flush fits
