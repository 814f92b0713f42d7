-- ===== src/Builders/Receipts.antt =====
-- `ReceiptBuilder` of zowpy/core/builders/receipt_builder.py, and `_send_ack` of zowpy/core/client.py.
use zowpy.Prelude.{if◌then◌else◌, Text, codes, String, Option, none, some, List, [], ◌∷◌, ◌++◌, map}
use zowpy.Coder.Node.{Attributes, absent, Node, node, no_nodes}
use zowpy.Iq.Dispatch.{is_text}
use zowpy.Builders.{nodes_of, attribute, optional}

-- `build_ack`: the type is left out where it is empty.
unfoldable pub build_ack : Text → Text → Text → Option Text → Text → Node
build_ack message_id to receipt_type participant ack_class =
    node (codes "ack")
      ((attribute "id" message_id ∷ attribute "to" to ∷ attribute "class" ack_class ∷ [])
        ++ optional "type" (some receipt_type)
        ++ optional "participant" participant)
      no_nodes absent

-- `_send_ack`: the node that is sent, with a type that may be empty.
unfoldable pub client_ack : Text → Text → Text → Text → Option Text → Node
client_ack message_id message_type notification_type from_jid participant =
    node (codes "ack")
      ((attribute "id" message_id
          ∷ attribute "class" message_type
          ∷ attribute "type" notification_type
          ∷ attribute "to" from_jid
          ∷ [])
        ++ optional "participant" participant)
      no_nodes absent

-- `message_id`: a text, or a list of texts.
pub data MessageId : Type 0 where
  one : Text → MessageId
  many : List Text → MessageId

-- The id of the receipt and the list of ids; an empty list has no first element.
unfoldable pub ids_of : Text → MessageId → Option (Text × List Text)
ids_of generated (one id) = some (id, id ∷ [])
ids_of generated (many []) = none
ids_of generated (many (id ∷ [])) = some (id, id ∷ [])
ids_of generated (many (id ∷ other ∷ ids)) = some (generated, id ∷ other ∷ ids)

abbrev pub type_attribute : Option Text → Attributes
type_attribute receipt_type =
    if is_text "read" receipt_type
    then attribute "type" (codes "read") ∷ []
    else if is_text "played" receipt_type
    then attribute "type" (codes "view") ∷ []
    else []

-- A list of items, where there are any.
abbrev pub item_list : String → List Text → List Node
item_list key [] = []
item_list key (v ∷ values) =
    node (codes "list") []
      (nodes_of
        (map (λ w. node (codes "item") (attribute key w ∷ []) no_nodes absent) (v ∷ values)))
      absent
    ∷ []

abbrev pub offer_of : Option Text → List Node
offer_of none = []
offer_of (some []) = []
offer_of (some (c ∷ cs)) =
    node (codes "offer") (attribute "call-id" (c ∷ cs) ∷ []) no_nodes absent ∷ []

abbrev pub several : List Text → List Text
several (a ∷ b ∷ ids) = a ∷ b ∷ ids
several ids = []

-- `build_receipt`, with the id that `_generate_id` returns if it is called. `none` is the IndexError.
unfoldable pub build_receipt :
    Text
    → MessageId
    → Text
    → Option Text
    → Option Text
    → Option Text
    → Option Text
    → List Text
    → Option Node
unfolding ids_of
build_receipt generated message_id from_jid receipt_type participant recipient call_id server_ids =
    elim (ids_of generated message_id) [
      | none ↦ none
      | some (receipt_id, message_ids) ↦ some (
          node (codes "receipt")
            ((attribute "id" receipt_id ∷ attribute "to" from_jid ∷ [])
              ++ type_attribute receipt_type
              ++ optional "participant" participant
              ++ optional "recipient" recipient)
            (nodes_of (
              offer_of call_id
              ++ item_list "id" (several message_ids)
              ++ item_list "server_id" server_ids))
            absent)
    ]
