-- ===== src/Builders/Prekeys.antt =====
-- `PrekeyBuilder` of zowpy/core/builders/prekey_builder.py: the nodes that upload and ask for keys.
use zowpy.Prelude.{
  ltb, if◌then◌else◌, drop, Text, codes, ℕ, String, Option, none, some, List, [], ◌∷◌, ◌++◌, map,
}
use zowpy.Python.{contains}
use zowpy.Python.Dict.{store}
use zowpy.Coder.Node.{absent, bytes, Node, node, no_nodes}
use zowpy.Builders.{nodes_of, add_children, attribute, optional, own_id, build_base_iq}
use zowpy.Builders.Ids.{adjust_id, adjust_array}
pub mod Flush
pub mod Upload
pub mod Published
pub mod Sendable
pub mod Carried

-- What the records of the axolotl library give: `getId`, the serialized public key, the signature.
pub record Prekey : Type 0 where
  pub id : ℕ
  pub public_key : List ℕ

pub record SignedPrekey : Type 0 where
  pub id : ℕ
  pub public_key : List ℕ
  pub signature : List ℕ

-- The dict that `prepare_flush_payload` returns.
pub record FlushPayload : Type 0 where
  pub identity_key : List ℕ
  pub signed_prekey : List ℕ × List ℕ × List ℕ
  pub prekeys : List (List ℕ × List ℕ)
  pub registration_id : List ℕ

-- The loop over the prekeys.
unfoldable pub add_prekeys : List Prekey → List (List ℕ × List ℕ) → Option (List (List ℕ × List ℕ))
unfolding adjust_id adjust_array store
add_prekeys [] prekeys_dict = some prekeys_dict
add_prekeys (prekey ∷ prekeys) prekeys_dict = elim (adjust_id prekey.id 3) [
  | none ↦ none
  | some adjusted_id ↦ elim (adjust_array (drop 1 prekey.public_key)) [
    | none ↦ none
    | some adjusted_key ↦ add_prekeys prekeys (store adjusted_id adjusted_key prekeys_dict)
  ]
]

unfoldable pub flush_payload_of :
    Option (List (List ℕ × List ℕ))
    → Option (List ℕ)
    → Option (List ℕ)
    → Option (List ℕ)
    → Option (List ℕ)
    → Option (List ℕ)
    → Option FlushPayload
flush_payload_of (some prekeys) (some id) (some key) (some signature) (some identity)
      (some registration) =
    some (record {
      identity_key = identity;
      signed_prekey = (id, key, signature);
      prekeys = prekeys;
      registration_id = registration;
    })
flush_payload_of _ _ _ _ _ _ = none

-- `prepare_flush_payload`
unfoldable pub prepare_flush_payload : SignedPrekey → List Prekey → List ℕ → ℕ → Option FlushPayload
unfolding adjust_id adjust_array add_prekeys flush_payload_of
prepare_flush_payload signed_prekey prekeys identity_public_key_trimmed registration_id_int =
    flush_payload_of (add_prekeys prekeys []) (adjust_id signed_prekey.id 3)
      (adjust_array (drop 1 signed_prekey.public_key)) (adjust_array signed_prekey.signature)
      (adjust_array identity_public_key_trimmed) (adjust_id registration_id_int 4)

abbrev pub leaf_of : String → List ℕ → Node
leaf_of tag data_ = node (codes tag) [] no_nodes (bytes data_)

abbrev pub key_node : List ℕ × List ℕ → Node
key_node (key_id, public_key) =
    node (codes "key") [] (nodes_of (leaf_of "id" key_id ∷ leaf_of "value" public_key ∷ [])) absent

-- `struct.pack('<B', n)`
abbrev pub pack_uint8 : ℕ → Option (List ℕ)
pack_uint8 n = if ltb n 256 then some (n ∷ []) else none

abbrev pub extended : List Node → Node → Node
unfolding add_children
extended more (node tag attributes children payload) =
    node tag attributes (add_children children more) payload

abbrev pub skey_node : List ℕ × List ℕ × List ℕ → Node
skey_node (signed_id, signed_value, signed_signature) =
    node (codes "skey") []
      (nodes_of (
        leaf_of "id" signed_id
        ∷ leaf_of "value" signed_value
        ∷ leaf_of "signature" signed_signature
        ∷ []))
      absent

abbrev pub whatsapp_server : Text
whatsapp_server = codes "s.whatsapp.net"

abbrev pub encrypt_iq : Text → Text → Option Text → Node
unfolding build_base_iq
encrypt_iq generated iq_type iq_id =
    build_base_iq generated (codes "encrypt") iq_type (some (own_id generated iq_id))
      (some whatsapp_server) none

-- `build_set_keys_iq`
unfoldable pub build_set_keys_iq : Text → FlushPayload → ℕ → Option Text → Option Node
unfolding add_children
build_set_keys_iq generated payload djb_type iq_id = elim (pack_uint8 djb_type) [
  | none ↦ none
  | some packed ↦ some (
      extended
        (extended (map key_node payload.prekeys) (node (codes "list") [] no_nodes absent)
          ∷ leaf_of "identity" payload.identity_key
          ∷ leaf_of "registration" payload.registration_id
          ∷ leaf_of "type" packed
          ∷ skey_node payload.signed_prekey
          ∷ [])
        (encrypt_iq generated (codes "set") iq_id))
]

-- The iq that `_flush_prekeys` of core/client.py sends, for the serialized identity key.
unfoldable pub flush_iq : Text → SignedPrekey → List Prekey → List ℕ → ℕ → Option Node
unfolding prepare_flush_payload build_set_keys_iq
flush_iq generated signed_prekey prekeys identity registration_id =
    elim (prepare_flush_payload signed_prekey prekeys (drop 1 identity) registration_id) [
      | none ↦ none
      | some payload ↦ build_set_keys_iq generated payload 5 none
    ]

-- `jid if "@" in jid else f"{jid}@s.whatsapp.net"`
abbrev pub jid_for_request : Text → Text
unfolding contains
jid_for_request jid = if contains b'@' jid then jid else jid ++ b'@' ∷ whatsapp_server

abbrev pub user_node : Option Text → Text → Node
user_node reason jid =
    node (codes "user") (attribute "jid" (jid_for_request jid) ∷ optional "reason" reason) no_nodes
      absent

-- `build_get_keys_iq`
unfoldable pub build_get_keys_iq : Text → List Text → Option Text → Option Text → Node
unfolding add_children
build_get_keys_iq generated jids reason iq_id =
    extended (extended (map (user_node reason) jids) (node (codes "key") [] no_nodes absent) ∷ [])
      (encrypt_iq generated (codes "get") iq_id)
