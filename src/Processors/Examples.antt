-- ===== src/Processors/Examples.antt =====
-- Nodes that arrive, and the theorems of the processors at them.
use zowpy.Prelude.{
  if◌then◌else◌, Text, codes, ℕ, ◌≡◌, refl, ◌⊎◌, true, not, ◌&&◌, ◌||◌, none, some, List, [], ◌∷◌,
}
use zowpy.Result.{Error, ok, err}
use zowpy.Coder.Node.{Attributes, absent, Node, node, no_nodes, child}
use zowpy.Nodes.{get_attribute_value, get_child}
use zowpy.Router.{has_tag, route}
use zowpy.Iq.Dispatch.{is_text}
use zowpy.Builders.{attribute}
use zowpy.Processors.{Data, Outcome, attr, nodes_in, child_of, run_handlers, sent_nodes}
use zowpy.Processors.Receipts.{items_of, process_receipt, IsReported, process_receipt-acks}
use zowpy.Processors.Streams.{
  error_type_from_children, either_type, is_conflict, stream_error_data, process_stream_error,
  disconnects, process_stream_error-disconnects,
}
use zowpy.Processors.Sent.{notification_ack, is_encrypt}
use zowpy.Processors.Routed.{client_router, asked, route-asked, Setup}
use zowpy.Processors.Acknowledged.{is_group_change, group_gives, run_handlers-acknowledged}

abbrev receipt : Node
receipt =
    node (codes "receipt")
      (attribute "id" (codes "3EB0F")
        ∷ attribute "from" (codes "5511@s.whatsapp.net")
        ∷ attribute "type" (codes "read")
        ∷ [])
      no_nodes absent

process_receipt-acks_example :
    ((e : Error) × (items_of (child_of "list" receipt) ≡ err e)
      × (process_receipt receipt ≡ (err e, [])))
    ⊎ ((data_ : Data) × ((process_receipt receipt).0 ≡ ok (some data_))
        × IsReported receipt data_ ((process_receipt receipt).1))
process_receipt-acks_example = process_receipt-acks receipt

abbrev ascii : List ℕ → Text
ascii bs = bs

abbrev replaced : Node
replaced =
    node (codes "stream:error") (attribute "code" (codes "503") ∷ [])
      (child (node (codes "conflict") [] no_nodes absent) no_nodes) absent

process_stream_error-disconnects_example :
    disconnects true ((process_stream_error ascii replaced).1) ≡ (
      is_text "503" (attr "code" replaced)
      || is_text "conflict"
          (either_type (error_type_from_children (nodes_in replaced)) (attr "type" replaced)))
unfolding process_stream_error is_conflict error_type_from_children child_of get_child has_tag
    get_attribute_value
process_stream_error-disconnects_example =
    process_stream_error-disconnects ascii replaced
      (stream_error_data ascii replaced (some (codes "conflict")) true) refl

-- No message and no iq is processed here.
abbrev nothing_done : Node → Outcome
nothing_done n = (ok none, [])

abbrev setup : Setup
setup = record {
  decode_text = λ bs. some bs;
  decode_replace = ascii;
  wiring = record {
    has_send_ack = true;
    has_flush_prekeys = true;
    has_get_keys = true;
    has_update_trusted_contact = true;
  };
  group_has_send_ack = true;
  generated = codes "A1";
  now = 1700000000;
  process_message = nothing_done;
  process_iq = nothing_done;
}

route-asked_example :
    (route (client_router setup) receipt none).0 ≡ (run_handlers (asked setup) receipt).0
route-asked_example = route-asked setup receipt none

-- A change of a group that the processor does not read: it has no child.
abbrev change : Attributes
change =
    attribute "id" (codes "77")
    ∷ attribute "from" (codes "120@g.us")
    ∷ attribute "type" (codes "w:gp2")
    ∷ []

abbrev group_change : Node
group_change = node (codes "notification") change no_nodes absent

run_handlers-acknowledged_example :
    sent_nodes ((run_handlers (asked setup) group_change).1)
    ≡ notification_ack group_change
      ∷ (if is_encrypt group_change
            || (is_group_change setup change no_nodes absent
                && not (group_gives setup change no_nodes absent))
          then notification_ack group_change ∷ []
          else [])
unfolding get_attribute_value
run_handlers-acknowledged_example =
    run_handlers-acknowledged setup change no_nodes absent
      (record { wired = refl; addressed = refl }) refl
