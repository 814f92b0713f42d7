-- ===== src/Processors/Ib.antt =====
-- `IbProcessor` of ib.py with the entities of protocol/entities/ib.py and iq_clean_dirty.py, with the
-- events emitter given. An exception is logged, and None returned.
use zowpy.Prelude.{
  if◌then◌else◌, Text, codes, text_eq, ℕ, Bool, true, false, none, some, List, [], ◌∷◌, ◌++◌,
}
use zowpy.Result.{value_error, Result, ok, err}
use zowpy.Python.Decimal.{decimal}
use zowpy.Coder.Node.{Payload, absent, bytes, text, char_codes, Node, node, no_nodes, child}
use zowpy.Nodes.{tag_is, get_child}
use zowpy.Iq.Dispatch.{emits}
use zowpy.Builders.{attribute}
use zowpy.Processors.{
  Outcome, attr, or_word, nodes_in, payload_in, entry, child_of, optional_text, of_payload, flag,
  emits, sends, Value, NodeProcessor,
}

-- `CleanDirtyIqProtocolEntity(dirty_type).to_protocol_node()`, with the id and the time that it takes.
unfoldable pub clean_dirty : Text → ℕ → Text → Node
unfolding decimal
clean_dirty generated now dirty_type =
    node (codes "iq")
      (attribute "id" generated
        ∷ attribute "type" (codes "set")
        ∷ attribute "xmlns" (codes "urn:xmpp:whatsapp:dirty")
        ∷ attribute "to" (codes "s.whatsapp.net")
        ∷ [])
      (child
        (node (codes "clean")
          (attribute "type" dirty_type ∷ attribute "timestamp" (decimal now) ∷ []) no_nodes absent)
        no_nodes)
      absent

abbrev pub is_true : Payload → Bool
is_true absent = false
is_true (bytes []) = false
is_true (text []) = false
is_true (char_codes []) = false
is_true _ = true

-- `EdgeRoutingIbProtocolEntity.from_protocol_node`, at the child "edge_routing".
unfoldable pub routing_info_of : Node → Result Payload
unfolding child_of
routing_info_of edge = elim (child_of "routing_info" edge) [
  | err e ↦ err e
  | ok none ↦ err value_error
  | ok (some info) ↦ if is_true (payload_in info) then ok (payload_in info) else err value_error
]

abbrev pub from_entry : Node → Text × Value
from_entry n = entry "from" (optional_text (attr "from" n))

abbrev pub type_entry : Text → Text × Value
type_entry kind = entry "type" (optional_text (some kind))

-- The kinds of an <ib>, in the order in which their children are looked for.
abbrev pub kinds : List Text
kinds =
    codes "dirty"
    ∷ codes "offline"
    ∷ codes "account"
    ∷ codes "edge_routing"
    ∷ codes "attestation"
    ∷ codes "fbip"
    ∷ codes "notice"
    ∷ codes "safetynet"
    ∷ codes "gpia"
    ∷ codes "offline_preview"
    ∷ []

module _ (has_send_node : Bool) (generated : Text) (now : ℕ) where
  unfoldable pub clean_up : Node → Node → Outcome
  unfolding clean_dirty
  clean_up n dirty =
      let dirty_type = or_word (attr "type" dirty) (codes "account_sync") in
      (
        ok (
            some (
              type_entry (codes "dirty")
              ∷ entry "dirty_type" (optional_text (some dirty_type))
              ∷ [])),
        (if has_send_node then sends (clean_dirty generated now dirty_type) ∷ [] else [])
            ++ emits (codes "ib:dirty")
                (entry "type" (optional_text (some dirty_type)) ∷ from_entry n ∷ [])
              ∷ [],
      )

  abbrev pub report_routing : Node → Result Payload → Outcome
  report_routing n (err e) = (ok none, [])
  report_routing n (ok info) =
      let data_ = entry "routing_info" (of_payload info) ∷ from_entry n ∷ [] in
      (ok (some data_), emits (codes "ib:edge_routing") data_ ∷ [])

  -- What is done for the first kind that has a child.
  unfoldable pub handle_kind : Node → Text → Node → Outcome
  unfolding clean_up routing_info_of
  handle_kind n kind found =
      if text_eq kind (codes "dirty")
      then clean_up n found
      else if text_eq kind (codes "offline")
      then (ok (some (type_entry kind ∷ [])), emits (codes "ib:offline") (from_entry n ∷ []) ∷ [])
      else if text_eq kind (codes "account")
      then (ok (some (type_entry kind ∷ [])), emits (codes "ib:account") (from_entry n ∷ []) ∷ [])
      else if text_eq kind (codes "edge_routing")
      then report_routing n (routing_info_of found)
      else if text_eq kind (codes "offline_preview")
      then (ok (some (type_entry kind ∷ [])), [])
      else (ok (some (type_entry kind ∷ entry "ignored" (flag true) ∷ [])), [])

  -- The kinds that are left to look for.
  unfoldable pub try_kinds : List Text → Node → Outcome
  unfolding handle_kind get_child
  try_kinds [] n = (ok none, [])
  try_kinds (kind ∷ more) n =
      let rest = try_kinds more n in
      elim (get_child kind (nodes_in n)) [
        | none ↦ (ok none, [])
        | some none ↦ rest
        | some (some found) ↦ handle_kind n kind found
      ]

  -- `process`
  unfoldable pub process_ib : Node → Outcome
  unfolding try_kinds
  process_ib n = try_kinds kinds n

  abbrev pub ib_processor : ℕ → NodeProcessor
  ib_processor identity = record {
    identity = identity;
    class_name = codes "IbProcessor";
    priority = 0;
    can_handle = λ n. tag_is (codes "ib") n;
    handle = process_ib;
  }
