-- ===== src/Processors/Notifications.antt =====
-- `NotificationProcessor` of notification.py. Which functions it was given are the fields of `Wiring`.
use zowpy.Prelude.{
  if◌then◌else◌, Text, codes, ℕ, Bool, true, false, not, ◌&&◌, ◌||◌, Option, none, some, List, [],
  ◌∷◌, ◌++◌,
}
use zowpy.Result.{Result, ok, err}
use zowpy.Coder.Node.{
  Payload, absent, bytes, text, char_codes, Node, Nodes, no_nodes, child, missing,
}
use zowpy.Nodes.{tag_is}
use zowpy.Iq.Dispatch.{is_text, is_set, emits}
use zowpy.Builders.Receipts.{client_ack}
use zowpy.Processors.{
  Data, Outcome, attr, or_word, nodes_in, payload_in, entry, child_of, optional_text, tokens, emits,
  sends, saves_trusted_contact, gets_keys, flushes_prekeys, Action, NodeProcessor,
}

pub record Wiring : Type 0 where
  pub has_send_ack : Bool
  pub has_flush_prekeys : Bool
  pub has_get_keys : Bool
  pub has_update_trusted_contact : Bool

-- `_send_ack_for_notification`, here and in group.py: the client's `_send_ack` sends the node.
unfoldable pub ack_notification :
    Bool → Option Text → Option Text → Option Text → Option Text → List Action
unfolding client_ack
ack_notification has_send_ack id type from_jid participant =
    if not has_send_ack || not (is_set from_jid) || not (is_set id)
    then []
    else sends (
        client_ack (or_word id []) (codes "notification") (or_word type []) (or_word from_jid [])
          participant)
      ∷ []

-- `data if isinstance(data, bytes) else (data or b"")`, and whether it is true.
abbrev pub holds_something : Payload → Bool
holds_something absent = false
holds_something (bytes []) = false
holds_something (text []) = false
holds_something (char_codes []) = false
holds_something _ = true

abbrev pub save_token : Wiring → Option Text → Option Text → Payload → List Action
save_token w from_jid typ data_ =
    if is_text "trusted_contact" typ
      && is_set from_jid
      && w.has_update_trusted_contact
      && holds_something data_
    then saves_trusted_contact (or_word from_jid []) data_ ∷ []
    else []

-- The loop over the children of "tokens": a None has no type and no data.
unfoldable pub read_tokens :
    Wiring → Option Text → Nodes → List (Option Text × Payload) × List Action
read_tokens w from_jid no_nodes = ([], [])
read_tokens w from_jid (child n ns) =
    let (items, saves) = read_tokens w from_jid ns in
    (
      (attr "type" n, payload_in n) ∷ items,
      save_token w from_jid (attr "type" n) (payload_in n) ++ saves,
    )
read_tokens w from_jid (missing ns) =
    let (items, saves) = read_tokens w from_jid ns in ((none, absent) ∷ items, saves)

abbrev pub notification_fields : Node → Data
notification_fields n =
    entry "id" (optional_text (attr "id" n))
    ∷ entry "type" (optional_text (attr "type" n))
    ∷ entry "from" (optional_text (attr "from" n))
    ∷ entry "participant" (optional_text (attr "participant" n))
    ∷ entry "timestamp" (optional_text (attr "t" n))
    ∷ []

abbrev pub token_entry : List (Option Text × Payload) → Data
token_entry [] = []
token_entry (item ∷ items) = entry "token_data" (tokens (item ∷ items)) ∷ []

abbrev pub announce_notification : List Action → Data → Outcome
announce_notification before data_ =
    (ok (some data_), before ++ emits (codes "notification") data_ ∷ [])

-- The branch of "privacy_token".
unfoldable pub process_tokens : Wiring → Node → Result (Option Node) → Outcome
unfolding read_tokens
process_tokens w n (err e) = (err e, [])
process_tokens w n (ok none) = announce_notification [] (notification_fields n)
process_tokens w n (ok (some holder)) =
    let (items, saves) = read_tokens w (attr "from" n) (nodes_in holder) in
    announce_notification saves (notification_fields n ++ token_entry items)

-- What is done about the children of an "encrypt".
abbrev pub renew_keys : Wiring → Node → Option Node → Option Node → List Action
renew_keys w n (some count) identity = if w.has_flush_prekeys then flushes_prekeys ∷ [] else []
renew_keys w n none (some identity) = if w.has_get_keys then gets_keys (attr "from" n) ∷ [] else []
renew_keys w n none none = []

-- `_process_encrypt_notification`, which acknowledges as well.
unfoldable pub process_encrypt : Wiring → Node → Outcome
unfolding ack_notification child_of
process_encrypt w n =
    let acks =
      ack_notification w.has_send_ack (attr "id" n) (some (codes "encrypt")) (attr "from" n)
        (attr "participant" n) in
    elim (child_of "count" n) [
      | err e ↦ (err e, acks)
      | ok count ↦ elim (child_of "identity" n) [
        | err e ↦ (err e, acks)
        | ok identity ↦ (ok none, acks ++ renew_keys w n count identity)
      ]
    ]

abbrev pub after_ack : List Action → Outcome → Outcome
after_ack acks (result, actions) = (result, acks ++ actions)

-- `process` after the first acknowledgement.
unfoldable pub process_kind : Wiring → Node → Outcome
unfolding process_encrypt process_tokens child_of
process_kind w n =
    if is_text "psa" (attr "type" n)
    then (ok none, [])
    else if is_text "encrypt" (attr "type" n)
    then process_encrypt w n
    else if is_text "privacy_token" (attr "type" n)
    then process_tokens w n (child_of "tokens" n)
    else announce_notification [] (notification_fields n)

-- `process`
unfoldable pub process_notification : Wiring → Node → Outcome
unfolding process_kind ack_notification
process_notification w n =
    after_ack
      (ack_notification w.has_send_ack (attr "id" n)
        (some (or_word (attr "type" n) (codes "privacy_token"))) (attr "from" n)
        (attr "participant" n))
      (process_kind w n)

abbrev pub notification_processor : Wiring → ℕ → NodeProcessor
notification_processor w identity = record {
  identity = identity;
  class_name = codes "NotificationProcessor";
  priority = 5;
  can_handle = λ n. tag_is (codes "notification") n;
  handle = process_notification w;
}
