-- ===== src/Builders/Prekeys/Upload.antt =====
-- A reading of the iq that uploads keys: the keys under their ids, as numbers.
use zowpy.Prelude.{codes, ℕ, String, Option, none, some, List, [], ◌∷◌}
use zowpy.Coder.Node.{bytes, Node, node, Nodes, no_nodes, child, missing}
use zowpy.Nodes.{get_child}
use zowpy.Builders.Ids.Values.{int_from_bytes}

-- What an upload says: numbers for the bytes of ids.
pub record Upload : Type 0 where
  pub keys : List (ℕ × List ℕ)
  pub identity : List ℕ
  pub registration : ℕ
  pub key_type : List ℕ
  pub signed_prekey : ℕ × List ℕ
  pub signature : List ℕ

abbrev pub children_of : Node → Nodes
children_of (node tag attributes children payload) = children

abbrev pub bytes_of : Node → Option (List ℕ)
bytes_of (node tag attributes children (bytes bs)) = some bs
bytes_of (node tag attributes children payload) = none

abbrev pub bind_option : {A : Type 0} {B : Type 0} → Option A → (A → Option B) → Option B
bind_option none f = none
bind_option (some a) f = f a

-- The first child with the tag.
unfoldable pub find : String → Nodes → Option Node
unfolding get_child
find tag children = elim (get_child (codes tag) children) [ none ↦ none | some found ↦ found ]

unfoldable pub content_of : String → Nodes → Option (List ℕ)
unfolding find
content_of tag children = bind_option (find tag children) bytes_of

-- An id and a value.
unfoldable pub read_key : Nodes → Option (ℕ × List ℕ)
unfolding content_of int_from_bytes
read_key children =
    bind_option (content_of "id" children)
      (λ id. bind_option (content_of "value" children) (λ key. some (int_from_bytes id, key)))

unfoldable pub read_keys : Nodes → Option (List (ℕ × List ℕ))
unfolding read_key
read_keys no_nodes = some []
read_keys (missing ns) = none
read_keys (child n ns) =
    bind_option (read_key (children_of n))
      (λ key. bind_option (read_keys ns) (λ keys. some (key ∷ keys)))

unfoldable pub upload_of :
    Option (List (ℕ × List ℕ))
    → Option (List ℕ)
    → Option (List ℕ)
    → Option (List ℕ)
    → Option (ℕ × List ℕ)
    → Option (List ℕ)
    → Option Upload
unfolding int_from_bytes
upload_of (some keys) (some identity) (some registration) (some key_type) (some signed)
      (some signature) =
    some (record {
      keys = keys;
      identity = identity;
      registration = int_from_bytes registration;
      key_type = key_type;
      signed_prekey = signed;
      signature = signature;
    })
upload_of _ _ _ _ _ _ = none

-- The parts of an upload.
unfoldable pub read_upload : Node → Option Upload
unfolding find content_of read_key read_keys upload_of
read_upload n =
    let children = children_of n in
    let signed = bind_option (find "skey" children) (λ skey. some (children_of skey)) in
    upload_of (bind_option (find "list" children) (λ list. read_keys (children_of list)))
      (content_of "identity" children) (content_of "registration" children)
      (content_of "type" children) (bind_option signed read_key)
      (bind_option signed (content_of "signature"))
