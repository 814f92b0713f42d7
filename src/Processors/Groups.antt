-- ===== src/Processors/Groups.antt =====
-- `GroupProcessor` of group.py, with the events emitter given. `decode` is `bytes.decode("utf-8")`.
use zowpy.Prelude.{
  if◌then◌else◌, Text, codes, ℕ, Bool, ◌&&◌, Option, none, some, List, [], ◌∷◌, ◌++◌,
}
use zowpy.Result.{ok}
use zowpy.Coder.Node.{Payload, bytes, text, char_codes, Node, Nodes, no_nodes, child, missing}
use zowpy.Nodes.{tag_is}
use zowpy.Router.{tag_of}
use zowpy.Iq.Dispatch.{is_text, is_set, emits}
use zowpy.Processors.{
  Data, Outcome, attr, or_word, or_none, nodes_in, payload_in, entry, optional_text, texts,
  of_payload, of_node, emits, Value, NodeProcessor,
}
use zowpy.Processors.Notifications.{ack_notification, after_ack}

-- `node.get_child(0)`: the first child, which may be a None.
abbrev pub first_child : Nodes → Option Node
first_child no_nodes = none
first_child (child n ns) = some n
first_child (missing ns) = none

-- The jids of the participants; a None among the children raises.
unfoldable pub participant_jids : Nodes → Option (List Text)
participant_jids no_nodes = some []
participant_jids (missing ns) = none
participant_jids (child n ns) =
    let rest = participant_jids ns in
    if tag_is (codes "participant") n && is_set (attr "jid" n)
    then (elim rest [ none ↦ none | some jids ↦ some (or_word (attr "jid" n) [] ∷ jids) ])
    else rest

abbrev pub participant_entry : Option (List Text) → Option Data
participant_entry none = none
participant_entry (some jids) = some (entry "participants" (texts jids) ∷ [])

abbrev pub subject_entries : Node → Option (Option Value) → Option Data
subject_entries n none = none
subject_entries n (some none) = some []
subject_entries n (some (some subject)) = some (
    entry "subject" subject
    ∷ entry "subject_owner" (optional_text (or_none (attr "s_o" n)))
    ∷ entry "subject_time" (optional_text (or_none (attr "s_t" n)))
    ∷ [])

abbrev pub creation_entries : Node → Data
creation_entries n =
    if is_set (attr "reason" n)
    then entry "reason" (optional_text (attr "reason" n))
      ∷ entry "creator" (optional_text (or_none (attr "creator" n)))
      ∷ []
    else entry "creator" (optional_text (or_none (attr "creator" n)))
      ∷ entry "creation" (optional_text (or_none (attr "creation" n)))
      ∷ []

abbrev pub group_fields : Node → Node → Data
group_fields n first =
    entry "type" (optional_text (some (tag_of first)))
    ∷ entry "group_jid"
        (optional_text (if is_set (attr "from" n) then attr "from" n else attr "to" n))
    ∷ entry "timestamp" (optional_text (or_none (attr "t" n)))
    ∷ []

-- An exception is logged, and None returned.
abbrev pub emit_change : Data → Option Data × Text → Outcome
emit_change fields (none, event) = (ok none, [])
emit_change fields (some more, event) =
    (ok (some (fields ++ more)), emits event (fields ++ more) ∷ [])

module _ (decode : List ℕ → Option Text) where
  -- The subject, where the data is true.
  unfoldable pub subject_value : Payload → Option (Option Value)
  subject_value (bytes (b ∷ bs)) = elim (decode (b ∷ bs)) [
    | none ↦ none
    | some subject ↦ some (some (optional_text (some subject)))
  ]
  subject_value (text (c ∷ cs)) = some (some (optional_text (some (c ∷ cs))))
  subject_value (char_codes (c ∷ cs)) = some (some (of_payload (char_codes (c ∷ cs))))
  subject_value _ = some none

  -- What is added to the event for the first child, and the event's name. The text of an unknown child
  -- stands as the child.
  unfoldable pub change_of : Node → Option Data × Text
  unfolding subject_value participant_jids
  change_of n =
      if tag_is (codes "subject") n
      then (subject_entries n (subject_value (payload_in n)), codes "group:subject_changed")
      else if tag_is (codes "create") n
      then (
        some (creation_entries n),
        if is_set (attr "reason" n) then codes "group:invite" else codes "group:created",
      )
      else if tag_is (codes "remove") n
      then (participant_entry (participant_jids (nodes_in n)), codes "group:participants_removed")
      else if tag_is (codes "add") n
      then (participant_entry (participant_jids (nodes_in n)), codes "group:participants_added")
      else (some (entry "raw" (of_node n) ∷ []), codes "group:notification")

  unfoldable pub process_change : Node → Option Node → Outcome
  unfolding change_of
  process_change n none = (ok none, [])
  process_change n (some first) = emit_change (group_fields n first) (change_of first)

  -- `process`
  unfoldable pub process_group : Bool → Node → Outcome
  unfolding ack_notification process_change
  process_group has_send_ack n =
      after_ack
        (ack_notification has_send_ack (attr "id" n) (attr "type" n) (attr "from" n)
          (attr "participant" n))
        (process_change n (first_child (nodes_in n)))

  abbrev pub group_processor : Bool → ℕ → NodeProcessor
  group_processor has_send_ack identity = record {
    identity = identity;
    class_name = codes "GroupProcessor";
    priority = 6;
    can_handle = λ n. tag_is (codes "notification") n && is_text "w:gp2" (attr "type" n);
    handle = process_group has_send_ack;
  }
