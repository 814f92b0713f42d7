-- ===== src/Builders/Prekeys/Published.antt =====
-- What can be read off the iq that uploads keys: the keys, under their ids.
use zowpy.Prelude.{
  lt→ltb, drop, All, Text, codes, ℕ, ◌<◌, String, ◌≡◌, refl, ap, ◌∙◌, none, some, List, [], ◌∷◌,
  map, arith,
}
use zowpy.Coder.Node.{Attributes, absent, Node, node, no_nodes}
use zowpy.Nodes.{get_child}
use zowpy.Builders.{nodes_of, attribute, own_id, build_base_iq, add_children-nodes_of}
use zowpy.Builders.Ids.Values.{int_from_bytes, adjust_id-Adjusted, adjust_array-same, Adjusted}
use zowpy.Builders.Prekeys.Upload.{
  find, content_of, read_key, read_keys, upload_of, read_upload, Upload,
}
use zowpy.Builders.Prekeys.{
  prepare_flush_payload, leaf_of, key_node, extended, skey_node, whatsapp_server, encrypt_iq,
  build_set_keys_iq, flush_iq, Prekey, SignedPrekey, FlushPayload,
}
use zowpy.Builders.Prekeys.Flush.{
  Bytes, AreDistinct, AreByteKeys, numbered, trimmed, drop-Bytes, add_prekeys-Stored,
  flush_payload_of-some, Stored,
}

-- The children of the iq.
abbrev pub upload_children : FlushPayload → ℕ → List Node
upload_children payload djb_type =
    node (codes "list") [] (nodes_of (map key_node payload.prekeys)) absent
    ∷ leaf_of "identity" payload.identity_key
    ∷ leaf_of "registration" payload.registration_id
    ∷ leaf_of "type" (djb_type ∷ [])
    ∷ skey_node payload.signed_prekey
    ∷ []

abbrev pub iq_attributes : Text → String → Attributes
iq_attributes id type =
    attribute "id" id
    ∷ attribute "type" (codes type)
    ∷ attribute "xmlns" (codes "encrypt")
    ∷ attribute "to" whatsapp_server
    ∷ []

abbrev pub upload_node : Text → FlushPayload → ℕ → Node
upload_node id payload djb_type =
    node (codes "iq") (iq_attributes id "set") (nodes_of (upload_children payload djb_type)) absent

list-extended :
    (ns : List Node)
    → extended ns (node (codes "list") [] no_nodes absent)
      ≡ node (codes "list") [] (nodes_of ns) absent
unfolding extended
list-extended ns = ap (λ c. node (codes "list") [] c absent) (add_children-nodes_of [] ns)

own_id_idem : (generated : Text) → own_id generated (some (own_id generated none)) ≡ generated
own_id_idem [] = refl
own_id_idem (c ∷ cs) = refl

pub build_set_keys_iq-node :
    (generated : Text) (payload : FlushPayload) (djb_type : ℕ)
    → djb_type < 256
    → build_set_keys_iq generated payload djb_type none
      ≡ some (upload_node generated payload djb_type)
unfolding build_set_keys_iq encrypt_iq build_base_iq extended
build_set_keys_iq-node generated payload djb_type h =
    rw
      (
        build_set_keys_iq,
        lt→ltb djb_type 256 h,
        list-extended (map key_node payload.prekeys),
        own_id_idem generated,
      )
      (ap (λ c. some (node (codes "iq") (iq_attributes generated "set") c absent))
        (add_children-nodes_of [] (upload_children payload djb_type)))

read_keys-key_node :
    (entries : List (List ℕ × List ℕ))
    → read_keys (nodes_of (map key_node entries)) ≡ some (map numbered entries)
unfolding read_keys read_key content_of find get_child
read_keys-key_node [] = refl
read_keys-key_node ((id, key) ∷ entries) = rw (read_keys-key_node entries) refl

read_upload-node :
    (id : Text) (payload : FlushPayload) (djb_type : ℕ)
    → read_upload (upload_node id payload djb_type)
      ≡ some (record {
        keys = map numbered payload.prekeys;
        identity = payload.identity_key;
        registration = int_from_bytes payload.registration_id;
        key_type = djb_type ∷ [];
        signed_prekey = (int_from_bytes payload.signed_prekey.0, payload.signed_prekey.1);
        signature = payload.signed_prekey.2;
      })
unfolding read_upload upload_of find content_of read_key get_child
read_upload-node id payload djb_type = rw (read_keys-key_node payload.prekeys) refl

-- What `_flush_prekeys` is given: prekeys of different ids, and keys that are bytes.
pub record IsFlush (signed : SignedPrekey) (prekeys : List Prekey) (identity : List ℕ)
    : Type 0 where
  pub distinct : AreDistinct prekeys
  pub keys : AreByteKeys prekeys
  pub signed_key : Bytes signed.public_key
  pub signature : Bytes signed.signature
  pub identity_key : Bytes identity

-- The payload of a flush, and what was put in it.
pub record Prepared (signed : SignedPrekey) (prekeys : List Prekey) (identity : List ℕ)
    (registration : ℕ) : Type 0 where
  pub stored : Stored prekeys []
  pub signed_id : Adjusted signed.id 3
  pub registration_id : Adjusted registration 4
  pub is_there :
      prepare_flush_payload signed prekeys (drop 1 identity) registration
      ≡ some (record {
        identity_key = drop 1 identity;
        signed_prekey = (signed_id.bs, drop 1 signed.public_key, signed.signature);
        prekeys = stored.entries;
        registration_id = registration_id.bs;
      })

nothing_there : (ps : List Prekey) → All {0, 0} (λ p. Unit) ps
nothing_there [] = tt
nothing_there (p ∷ ps) = (tt, nothing_there ps)

pub IsFlush-Prepared :
    (signed : SignedPrekey) (prekeys : List Prekey) (identity : List ℕ) (registration : ℕ)
    → IsFlush signed prekeys identity
    → Prepared signed prekeys identity registration
unfolding prepare_flush_payload
IsFlush-Prepared signed prekeys identity registration h =
    let stored = add_prekeys-Stored prekeys [] h.distinct (nothing_there prekeys) h.keys in
    let signed_id = adjust_id-Adjusted signed.id 3 in
    let registration_id = adjust_id-Adjusted registration 4 in
    let same = adjust_array-same in
    record {
      stored = stored;
      signed_id = signed_id;
      registration_id = registration_id;
      is_there =
          flush_payload_of-some stored.is_there signed_id.is_there
            (same (drop 1 signed.public_key) (drop-Bytes 1 signed.public_key h.signed_key))
            (same signed.signature h.signature)
            (same (drop 1 identity) (drop-Bytes 1 identity h.identity_key))
            registration_id.is_there;
    }

-- What a flush of these keys is to say.
abbrev pub announced : SignedPrekey → List Prekey → List ℕ → ℕ → Upload
announced signed prekeys identity registration = record {
  keys = map trimmed prekeys;
  identity = drop 1 identity;
  registration = registration;
  key_type = 5 ∷ [];
  signed_prekey = (signed.id, drop 1 signed.public_key);
  signature = signed.signature;
}

abbrev pub payload_of_flush :
    {signed : SignedPrekey} {prekeys : List Prekey} {identity : List ℕ} {registration : ℕ}
    → Prepared signed prekeys identity registration
    → FlushPayload
payload_of_flush {signed} {prekeys} {identity} p = record {
  identity_key = drop 1 identity;
  signed_prekey = (p.signed_id.bs, drop 1 signed.public_key, signed.signature);
  prekeys = p.stored.entries;
  registration_id = p.registration_id.bs;
}

pub flush_iq-Prepared :
    (generated : Text) (signed : SignedPrekey) (prekeys : List Prekey) (identity : List ℕ)
    (registration : ℕ) (p : Prepared signed prekeys identity registration)
    → (flush_iq generated signed prekeys identity registration
        ≡ some (upload_node generated (payload_of_flush p) 5))
      × (read_upload (upload_node generated (payload_of_flush p) 5)
          ≡ some (announced signed prekeys identity registration))
unfolding flush_iq
flush_iq-Prepared generated signed prekeys identity registration p = (
  rw (flush_iq, p.is_there) (build_set_keys_iq-node generated (payload_of_flush p) 5 (omega arith)),
  read_upload-node generated (payload_of_flush p) 5
      ∙ rw (p.stored.numbers, p.signed_id.value, p.registration_id.value) refl,
)

-- For prekeys of different ids and keys that are bytes, the iq of a flush is built, and every key is
-- read off it under its id, in order, with the signed prekey, the identity and the registration id.
pub read_upload-flush_iq :
    (generated : Text) (signed : SignedPrekey) (prekeys : List Prekey) (identity : List ℕ)
    (registration : ℕ)
    → IsFlush signed prekeys identity
    → (n : Node) × (flush_iq generated signed prekeys identity registration ≡ some n)
      × (read_upload n ≡ some (announced signed prekeys identity registration))
read_upload-flush_iq generated signed prekeys identity registration h =
    let p = IsFlush-Prepared signed prekeys identity registration h in
    let f = flush_iq-Prepared generated signed prekeys identity registration p in
    (upload_node generated (payload_of_flush p) 5, f.0, f.1)
