-- ===== src/Builders/Prekeys/Sendable.antt =====
-- The nodes of the iq that uploads keys can be sent.
use zowpy.Prelude.{
  length, All, AreBytes, Text, codes, ℕ, suc, ◌-◌, ◌^◌, ◌<◌, String, ◌≡◌, refl, ap, true, false,
  List, [], ◌∷◌, map, arith,
}
use zowpy.Python.{contains}
use zowpy.Coder.Node.{Attributes, count_nodes, absent, Node, node}
use zowpy.Coder.Dictionary.{TokenDictionary, IsBounded}
use zowpy.Coder.RoundTrip.Attributes.{Carried, has_key, AreCarried}
use zowpy.Coder.RoundTrip.Nodes.{
  Faithful, leaf, with_content, parent, AllFaithful, none_left, one_more,
}
use zowpy.Coder.RoundTrip.Carry.{is_safe, is_safe-Carried}
use zowpy.Builders.{nodes_of}
use zowpy.Builders.Prekeys.{leaf_of, key_node, skey_node, whatsapp_server, FlushPayload}
use zowpy.Builders.Prekeys.Flush.{IsSmall}
use zowpy.Builders.Prekeys.Published.{upload_children, iq_attributes, upload_node}

-- The texts of the iq.
abbrev pub words_of_upload : List Text
words_of_upload =
    codes "iq"
    ∷ codes "list"
    ∷ codes "key"
    ∷ codes "id"
    ∷ codes "value"
    ∷ codes "identity"
    ∷ codes "registration"
    ∷ codes "type"
    ∷ codes "skey"
    ∷ codes "signature"
    ∷ codes "xmlns"
    ∷ codes "to"
    ∷ codes "set"
    ∷ codes "encrypt"
    ∷ whatsapp_server
    ∷ []

-- A dictionary that can send them, and an id of an iq with no "@".
pub record CanUpload (d : TokenDictionary) (id : Text) : Type 0 where
  pub bounded : IsBounded d
  pub words : All (λ w. is_safe d w ≡ true) words_of_upload
  pub id_safe : is_safe d id ≡ true
  pub id_plain : contains b'@' id ≡ false

-- The words, carried.
pub record Words (d : TokenDictionary) (id : Text) : Type 0 where
  iq : Carried d (codes "iq")
  list : Carried d (codes "list")
  key : Carried d (codes "key")
  id_word : Carried d (codes "id")
  value : Carried d (codes "value")
  identity : Carried d (codes "identity")
  registration : Carried d (codes "registration")
  type : Carried d (codes "type")
  skey : Carried d (codes "skey")
  signature : Carried d (codes "signature")
  xmlns : Carried d (codes "xmlns")
  to : Carried d (codes "to")
  set_word : Carried d (codes "set")
  encrypt : Carried d (codes "encrypt")
  server : Carried d whatsapp_server
  own : Carried d id

pub CanUpload-Words : {d : TokenDictionary} {id : Text} → CanUpload d id → Words d id
unfolding contains
CanUpload-Words {d} {id} c =
    let carried : (w : Text) → is_safe d w ≡ true → contains b'@' w ≡ false → Carried d w =
      λ w. is_safe-Carried d w c.bounded in
    let w = c.words in
    record {
      iq = carried (codes "iq") (w.0) refl;
      list = carried (codes "list") (w.1.0) refl;
      key = carried (codes "key") (w.1.1.0) refl;
      id_word = carried (codes "id") (w.1.1.1.0) refl;
      value = carried (codes "value") (w.1.1.1.1.0) refl;
      identity = carried (codes "identity") (w.1.1.1.1.1.0) refl;
      registration = carried (codes "registration") (w.1.1.1.1.1.1.0) refl;
      type = carried (codes "type") (w.1.1.1.1.1.1.1.0) refl;
      skey = carried (codes "skey") (w.1.1.1.1.1.1.1.1.0) refl;
      signature = carried (codes "signature") (w.1.1.1.1.1.1.1.1.1.0) refl;
      xmlns = carried (codes "xmlns") (w.1.1.1.1.1.1.1.1.1.1.0) refl;
      to = carried (codes "to") (w.1.1.1.1.1.1.1.1.1.1.1.0) refl;
      set_word = carried (codes "set") (w.1.1.1.1.1.1.1.1.1.1.1.1.0) refl;
      encrypt = carried (codes "encrypt") (w.1.1.1.1.1.1.1.1.1.1.1.1.1.0) refl;
      server = carried whatsapp_server (w.1.1.1.1.1.1.1.1.1.1.1.1.1.1.0) refl;
      own = carried id c.id_safe c.id_plain;
    }

count-nodes_of : (ns : List Node) → count_nodes (nodes_of ns) ≡ length ns
count-nodes_of [] = refl
count-nodes_of (n ∷ ns) = ap suc (count-nodes_of ns)

length-map : (entries : List (List ℕ × List ℕ)) → length (map key_node entries) ≡ length entries
length-map [] = refl
length-map (e ∷ entries) = ap suc (length-map entries)

module _ {d : TokenDictionary} where
  leaf_of-Faithful :
      (tag : String) (bs : List ℕ)
      → Carried d (codes tag)
      → length bs < 2 ^ 20
      → AreBytes bs
      → Faithful d (leaf_of tag bs)
  leaf_of-Faithful tag bs c h are = with_content (codes tag) [] bs c tt (omega arith) h are

  nodes_of-AllFaithful : (ns : List Node) → All (λ n. Faithful d n) ns → AllFaithful d (nodes_of ns)
  nodes_of-AllFaithful [] h = none_left
  nodes_of-AllFaithful (n ∷ ns) h = one_more n (nodes_of ns) h.0 (nodes_of-AllFaithful ns h.1)

  -- A node with children, or with none, and no content.
  branch-Faithful :
      (tag : Text) (attributes : Attributes) (ns : List Node)
      → Carried d tag
      → AreCarried d attributes
      → length attributes < 2 ^ 15 - 1
      → length ns < 2 ^ 16
      → All (λ n. Faithful d n) ns
      → Faithful d (node tag attributes (nodes_of ns) absent)
  branch-Faithful tag attributes [] c a few short h = leaf tag attributes c a few
  branch-Faithful tag attributes (n ∷ ns) c a few short h =
      parent tag attributes n (nodes_of ns) c a few (omega (arith, count-nodes_of ns)) (h.0)
        (nodes_of-AllFaithful ns (h.1))

  key_node-Faithful :
      {id : Text}
      → Words d id
      → (entries : List (List ℕ × List ℕ)) → All IsSmall entries
      → All (λ n. Faithful d n) (map key_node entries)
  key_node-Faithful w [] h = tt
  key_node-Faithful w ((id, key) ∷ entries) h = (
    branch-Faithful (codes "key") [] (leaf_of "id" id ∷ leaf_of "value" key ∷ []) w.key tt
        (omega arith) (omega arith)
        (
          leaf_of-Faithful "id" id w.id_word (h.0.0) (h.0.2),
          (leaf_of-Faithful "value" key w.value (h.0.1) (h.0.3), tt),
        ),
    key_node-Faithful w entries (h.1),
  )

-- A payload that nodes can hold: bytes, and fewer than 2 ^ 20 of them in each.
pub record IsSmallPayload (payload : FlushPayload) : Type 0 where
  pub few : length payload.prekeys < 2 ^ 16
  pub keys : All IsSmall payload.prekeys
  pub identity : length payload.identity_key < 2 ^ 20
  pub registration : length payload.registration_id < 2 ^ 20
  pub signed_id : length payload.signed_prekey.0 < 2 ^ 20
  pub signed_key : length payload.signed_prekey.1 < 2 ^ 20
  pub signature : length payload.signed_prekey.2 < 2 ^ 20
  pub identity_bytes : AreBytes payload.identity_key
  pub registration_bytes : AreBytes payload.registration_id
  pub signed_id_bytes : AreBytes payload.signed_prekey.0
  pub signed_key_bytes : AreBytes payload.signed_prekey.1
  pub signature_bytes : AreBytes payload.signed_prekey.2

list-Faithful :
    {d : TokenDictionary} {id : Text}
    → Words d id
    → (payload : FlushPayload) → IsSmallPayload payload
    → Faithful d (node (codes "list") [] (nodes_of (map key_node payload.prekeys)) absent)
list-Faithful w payload s =
    branch-Faithful (codes "list") [] (map key_node payload.prekeys) w.list tt (omega arith)
      (omega (arith, s.few, length-map payload.prekeys))
      (key_node-Faithful w payload.prekeys s.keys)

skey-Faithful :
    {d : TokenDictionary} {id : Text}
    → Words d id
    → (payload : FlushPayload) → IsSmallPayload payload
    → Faithful d (skey_node payload.signed_prekey)
skey-Faithful w payload s =
    branch-Faithful (codes "skey") []
      (leaf_of "id" payload.signed_prekey.0
        ∷ leaf_of "value" payload.signed_prekey.1
        ∷ leaf_of "signature" payload.signed_prekey.2
        ∷ [])
      w.skey tt (omega arith) (omega arith)
      (
        leaf_of-Faithful "id" payload.signed_prekey.0 w.id_word s.signed_id s.signed_id_bytes,
        (
          leaf_of-Faithful "value" payload.signed_prekey.1 w.value s.signed_key s.signed_key_bytes,
          (
            leaf_of-Faithful "signature" payload.signed_prekey.2 w.signature s.signature
                s.signature_bytes,
            tt,
          ),
        ),
      )

pub upload_node-Faithful :
    {d : TokenDictionary} {id : Text}
    → Words d id
    → (payload : FlushPayload) (djb_type : ℕ) → djb_type < 2 ^ 8
    → IsSmallPayload payload
    → Faithful d (upload_node id payload djb_type)
unfolding has_key
upload_node-Faithful {d} {id} w payload djb_type byte s =
    branch-Faithful (codes "iq") (iq_attributes id "set") (upload_children payload djb_type) w.iq
      (
        w.id_word,
        w.own,
        refl,
        (w.type, w.set_word, refl, (w.xmlns, w.encrypt, refl, (w.to, w.server, refl, tt))),
      )
      (omega arith) (omega arith)
      (
        list-Faithful w payload s,
        (
          leaf_of-Faithful "identity" payload.identity_key w.identity s.identity s.identity_bytes,
          (
            leaf_of-Faithful "registration" payload.registration_id w.registration s.registration
                s.registration_bytes,
            (
              leaf_of-Faithful "type" (djb_type ∷ []) w.type (omega arith) (byte, tt),
              (skey-Faithful w payload s, tt),
            ),
          ),
        ),
      )
