-- ===== src/Nodes.antt =====
-- The methods of `ProtocolNode` of zowpy/protocol/structs.py. `none` is an exception.
use zowpy.Prelude.{
  ltb, leb, ◌==◌, if◌then◌else◌, Text, text_eq, ℕ, ◌+◌, ◌-◌, ◌*◌, ◌/◌, ◌%◌, Bool, ◌&&◌, ◌||◌,
  Option, none, some, List, [], ◌∷◌,
}
use zowpy.Coder.Node.{
  Attributes, Payload, absent, bytes, text, char_codes, Node, node, Nodes, no_nodes, child, missing,
}
use zowpy.Coder.Read.{key_eq}
pub mod Dicts
pub mod Access
mod Examples

-- What `to_dict` returns. `data` is a text of hexadecimal digits, or None.
mutual
  pub data NodeDict : Type 0 where
    node_dict : Text → Attributes → NodeDicts → Option Text → NodeDict

  pub data NodeDicts : Type 0 where
    no_dicts : NodeDicts
    more_dicts : NodeDict → NodeDicts → NodeDicts

abbrev pub hex_digit : ℕ → ℕ
hex_digit n = if ltb n 10 then b'0' + n else b'a' + (n - 10)

-- `bytes.hex`
unfoldable pub hex : List ℕ → Text
hex [] = []
hex (b ∷ bs) = hex_digit (b / 16) ∷ hex_digit (b % 16) ∷ hex bs

unfoldable pub hex_value : ℕ → Option ℕ
hex_value c =
    if leb b'0' c && leb c b'9'
    then some (c - b'0')
    else if leb b'a' c && leb c b'f'
    then some (c - b'a' + 10)
    else if leb b'A' c && leb c b'F'
    then some (c - b'A' + 10)
    else none

abbrev pub is_blank : ℕ → Bool
is_blank c = c == 32 || (leb 9 c && leb c 13)

-- `bytes.fromhex`, which skips white space between bytes.
unfoldable pub from_hex : Text → Option (List ℕ)
unfolding hex_value
from_hex [] = some []
from_hex (c ∷ []) = if is_blank c then some [] else none
from_hex (c ∷ d ∷ s) =
    let blank = from_hex (d ∷ s) in
    let rest = from_hex s in
    if is_blank c then blank else elim (hex_value c) [
      | none ↦ none
      | some high ↦ elim (hex_value d) [
        | none ↦ none
        | some low ↦ elim rest [ none ↦ none | some bs ↦ some ((high * 16 + low) ∷ bs) ]
      ]
    ]

-- `self.data.hex() if self.data else None`: a text and a list have no `hex`.
unfoldable pub payload_to_dict : Payload → Option (Option Text)
unfolding hex
payload_to_dict absent = some none
payload_to_dict (bytes []) = some none
payload_to_dict (bytes (b ∷ bs)) = some (some (hex (b ∷ bs)))
payload_to_dict (text []) = some none
payload_to_dict (text (c ∷ s)) = none
payload_to_dict (char_codes []) = some none
payload_to_dict (char_codes (c ∷ s)) = none

unfoldable pub payload_from_dict : Option Text → Option Payload
unfolding from_hex
payload_from_dict none = some absent
payload_from_dict (some []) = some absent
payload_from_dict (some (c ∷ s)) = elim (from_hex (c ∷ s)) [
  | none ↦ none
  | some bs ↦ some (bytes bs)
]

-- The parts of a dict, and of a node, any of which may have raised.
unfoldable pub dict_of :
    Text → Attributes → Option NodeDicts → Option (Option Text) → Option NodeDict
dict_of tag attributes (some dicts) (some data_) = some (node_dict tag attributes dicts data_)
dict_of tag attributes _ _ = none

unfoldable pub node_of : Text → Attributes → Option Nodes → Option Payload → Option Node
node_of tag attributes (some children) (some payload) = some (node tag attributes children payload)
node_of tag attributes _ _ = none

unfoldable mutual
  unfolding payload_to_dict dict_of

  pub to_dict : Node → Option NodeDict
  to_dict (node tag attributes children payload) =
      dict_of tag attributes (children_to_dict children) (payload_to_dict payload)

  pub children_to_dict : Nodes → Option NodeDicts
  children_to_dict no_nodes = some no_dicts
  children_to_dict (child n ns) = elim (to_dict n) [
    | none ↦ none
    | some d ↦ elim (children_to_dict ns) [ none ↦ none | some ds ↦ some (more_dicts d ds) ]
  ]
  children_to_dict (missing ns) = none

unfoldable mutual
  unfolding payload_from_dict node_of

  pub from_dict : NodeDict → Option Node
  from_dict (node_dict tag attributes dicts data_) =
      node_of tag attributes (children_from_dict dicts) (payload_from_dict data_)

  pub children_from_dict : NodeDicts → Option Nodes
  children_from_dict no_dicts = some no_nodes
  children_from_dict (more_dicts d ds) = elim (from_dict d) [
    | none ↦ none
    | some n ↦ elim (children_from_dict ds) [ none ↦ none | some ns ↦ some (child n ns) ]
  ]

-- `getAttributeValue`: None where the key is not there.
unfoldable pub get_attribute_value : Option Text → Attributes → Option Text
get_attribute_value k [] = none
get_attribute_value k ((j, v) ∷ rest) = if key_eq k j then v else get_attribute_value k rest

unfoldable pub remove_attribute : Option Text → Attributes → Attributes
remove_attribute k [] = []
remove_attribute k ((j, v) ∷ rest) = if key_eq k j then rest else (j, v) ∷ remove_attribute k rest

abbrev pub tag_is : Text → Node → Bool
tag_is tag (node t attributes children payload) = text_eq tag t

-- `getChild` with a tag, over children that are nodes: `c.tag` of None raises.
unfoldable pub get_child : Text → Nodes → Option (Option Node)
get_child tag no_nodes = some none
get_child tag (child n ns) = if tag_is tag n then some (some n) else get_child tag ns
get_child tag (missing ns) = none

-- `getAllChildren` with a tag.
unfoldable pub get_all_children : Text → Nodes → Option (List Node)
get_all_children tag no_nodes = some []
get_all_children tag (child n ns) = elim (get_all_children tag ns) [
  | none ↦ none
  | some rest ↦ some (if tag_is tag n then n ∷ rest else rest)
]
get_all_children tag (missing ns) = none

-- `addChild`
unfoldable pub add_child : Nodes → Node → Nodes
add_child no_nodes n = child n no_nodes
add_child (child m ns) n = child m (add_child ns n)
add_child (missing ns) n = missing (add_child ns n)
