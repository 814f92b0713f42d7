-- ===== src/Processors/Streams.antt =====
-- `StreamErrorProcessor` of stream_error.py and `FailureProcessor` of failure.py, with the client's
-- listeners of their events. `decode` is `bytes.decode("utf-8", errors="replace")`.
use zowpy.Prelude.{
  if◌then◌else◌, Text, codes, text_eq, ℕ, ◌≡◌, refl, ◌⊎◌, inl, inr, Bool, true, false, ◌&&◌, ◌||◌,
  Option, none, some, List, [], ◌∷◌, arith,
}
use zowpy.Result.{Error, Result, ok, err}
use zowpy.Python.Dict.{lookup, store}
use zowpy.Coder.Node.{Payload, bytes, text, Node, Nodes, no_nodes, child, missing}
use zowpy.Nodes.{tag_is}
use zowpy.Router.{tag_of, has_tag}
use zowpy.Iq.Dispatch.{is_text, is_set, emits}
use zowpy.Processors.{
  Data, Outcome, attr, nodes_in, payload_in, entry, child_of, optional_text, flag, of_tags, of_node,
  emits, Value, Action, NodeProcessor,
}

abbrev pub error_types : List Text
error_types = codes "conflict" ∷ codes "ack" ∷ codes "xml-not-well-formed" ∷ codes "bad-mac" ∷ []

-- `_error_type_from_children`: the first child whose tag is an error type. A None has no tag.
unfoldable pub error_type_from_children : Nodes → Option Text
unfolding has_tag
error_type_from_children no_nodes = none
error_type_from_children (missing ns) = error_type_from_children ns
error_type_from_children (child n ns) =
    let rest = error_type_from_children ns in
    if has_tag (tag_of n) error_types then some (tag_of n) else rest

-- `self._error_type_from_children(node) or type_attr`
abbrev pub either_type : Option Text → Option Text → Option Text
either_type none type_attr = type_attr
either_type (some t) type_attr = some t

abbrev pub is_replaced : Option Text → Bool
is_replaced reason = is_text "conflict" reason || is_text "replaced" reason

-- `attrs.get("reason") or attrs.get("type")`
abbrev pub reason_of : Node → Option Text
reason_of n = if is_set (attr "reason" n) then attr "reason" n else attr "type" n

-- `_is_conflict`
unfoldable pub is_conflict : Node → Option Text → Result Bool
unfolding child_of
is_conflict n error_type =
    if is_text "conflict" error_type || is_replaced (reason_of n)
    then ok true
    else (elim (child_of "conflict" n) [
      | err e ↦ err e
      | ok none ↦ ok false
      | ok (some c) ↦ ok true
    ])

module _ (decode : List ℕ → Text) where
  abbrev pub decoded : Payload → Payload
  decoded (bytes bs) = text (decode bs)
  decoded data_ = data_

  -- `_error_data_from_children` and `_children_data`: a dict, so the last child of a tag counts.
  unfoldable pub add_children_data : Nodes → List (Text × Payload) → List (Text × Payload)
  unfolding store
  add_children_data no_nodes d = d
  add_children_data (missing ns) d = add_children_data ns d
  add_children_data (child n ns) d =
      add_children_data ns (store (tag_of n) (decoded (payload_in n)) d)

  abbrev pub stream_error_data : Node → Option Text → Bool → Data
  unfolding add_children_data
  stream_error_data n error_type conflict =
      entry "node" (of_node n)
      ∷ entry "code" (optional_text (attr "code" n))
      ∷ entry "type" (optional_text error_type)
      ∷ entry "reason" (optional_text (attr "reason" n))
      ∷ entry "error_data" (of_tags (add_children_data (nodes_in n) []))
      ∷ entry "is_conflict" (flag conflict)
      ∷ []

  abbrev pub report_stream_error : Node → Option Text → Result Bool → Outcome
  unfolding stream_error_data
  report_stream_error n error_type (err e) = (err e, [])
  report_stream_error n error_type (ok conflict) =
      let data_ = stream_error_data n error_type conflict in
      (ok (some data_), emits (codes "stream:error") data_ ∷ [])

  unfoldable pub process_stream_error : Node → Outcome
  unfolding report_stream_error is_conflict error_type_from_children
  process_stream_error n =
      let error_type = either_type (error_type_from_children (nodes_in n)) (attr "type" n) in
      report_stream_error n error_type (is_conflict n error_type)

  -- The attributes are those of the node in the dict.
  unfoldable pub process_failure : Node → Outcome
  unfolding add_children_data
  process_failure n =
      let data_ =
        entry "node" (of_node n)
        ∷ entry "code" (optional_text (attr "code" n))
        ∷ entry "reason" (optional_text (attr "reason" n))
        ∷ entry "attributes" (of_node n)
        ∷ entry "children_data" (of_tags (add_children_data (nodes_in n) []))
        ∷ [] in
      (ok (some data_), emits (codes "failure") data_ ∷ [])

  abbrev pub stream_error_processor : ℕ → NodeProcessor
  stream_error_processor identity = record {
    identity = identity;
    class_name = codes "StreamErrorProcessor";
    priority = 20;
    can_handle = λ n. tag_is (codes "stream:error") n;
    handle = process_stream_error;
  }

  abbrev pub failure_processor : ℕ → NodeProcessor
  failure_processor identity = record {
    identity = identity;
    class_name = codes "FailureProcessor";
    priority = 18;
    can_handle = λ n. tag_is (codes "failure") n;
    handle = process_failure;
  }

-- `_data.get(key)`, where the value is a text.
abbrev pub text_in : Option Value → Option Text
text_in (some (optional_text t)) = t
text_in _ = none

-- `handle_stream_error` and `handle_failure` of the client: whether it starts to disconnect.
unfoldable pub listener_disconnects : Bool → Action → Bool
unfolding lookup
listener_disconnects running (emits event data_) =
    running
    && ((text_eq event (codes "stream:error")
          && (is_text "503" (text_in (lookup (codes "code") data_))
              || is_text "conflict" (text_in (lookup (codes "type") data_))))
        || text_eq event (codes "failure"))
listener_disconnects running action = false

unfoldable pub disconnects : Bool → List Action → Bool
unfolding listener_disconnects
disconnects running [] = false
disconnects running (action ∷ actions) =
    listener_disconnects running action || disconnects running actions

Result-bool-cases : (r : Result Bool) → ((e : Error) × (r ≡ err e)) ⊎ ((b : Bool) × (r ≡ ok b))
Result-bool-cases (err e) = inl (e, refl)
Result-bool-cases (ok b) = inr (b, refl)

-- Where a stream error is reported, a running client starts to disconnect exactly if the code is 503 or
-- the error type is "conflict": the first child whose tag is an error type, or else the type attribute.
pub process_stream_error-disconnects :
    (decode : List ℕ → Text) (n : Node) (data_ : Data)
    → (process_stream_error decode n).0 ≡ ok (some data_)
    → disconnects true ((process_stream_error decode n).1) ≡ (
        is_text "503" (attr "code" n)
        || is_text "conflict" (either_type (error_type_from_children (nodes_in n)) (attr "type" n)))
unfolding process_stream_error disconnects listener_disconnects lookup report_stream_error
process_stream_error-disconnects decode n data_ h =
    let error_type = either_type (error_type_from_children (nodes_in n)) (attr "type" n) in
    elim (Result-bool-cases (is_conflict n error_type)) [
      | inl (e, bad) ↦ absurd (cc (rw bad at h))
      | inr (b, good) ↦ rw good (ground arith)
    ]
