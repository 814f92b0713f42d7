-- ===== src/Processors/Acknowledged.antt =====
-- How often a notification is acknowledged by the processors of the client.
use zowpy.Prelude.{
  if◌then◌else◌, Bool-cases, codes, ◌≡◌, refl, sym, ap, ◌∙◌, inl, inr, Bool, true, false, not, ◌&&◌,
  ◌||◌, Option, none, some, List, [], ◌∷◌, ◌++◌, append-nil,
}
use zowpy.Result.{Result, ok, err}
use zowpy.Coder.Node.{Attributes, Payload, Node, node, Nodes}
use zowpy.Iq.Dispatch.{attribute_of, is_text}
use zowpy.Processors.{Data, Outcome, then_rest, run_handlers, sent_nodes, Action}
use zowpy.Processors.Notifications.{process_notification}
use zowpy.Processors.Groups.{process_group}
use zowpy.Processors.Routed.{asked, Setup}
use zowpy.Processors.Sent.{
  notification_ack, sent_nodes-append, is_text→eq, is_encrypt, own_acks, process_notification-sent,
  process_group-sent, IsAcknowledgeable,
}

-- `process` returned something that is not None.
abbrev pub gives : Result (Option Data) → Bool
gives (ok (some data_)) = true
gives _ = false

then_rest-sent :
    (o : Outcome) (rest : Option Data × List Action)
    → sent_nodes ((then_rest o rest).1)
      ≡ sent_nodes (o.1) ++ (if gives o.0 then [] else sent_nodes (rest.1))
then_rest-sent (ok (some data_), actions) rest = sym (append-nil (sent_nodes actions))
then_rest-sent (ok none, actions) (result, later) = sent_nodes-append actions later
then_rest-sent (err e, actions) (result, later) = sent_nodes-append actions later

nothing_more : (b : Bool) (xs : List Node) → xs ++ (if b then [] else []) ≡ xs
nothing_more true xs = append-nil xs
nothing_more false xs = append-nil xs

then_rest-twice :
    (o : Outcome) (rest : Option Data × List Action) (ack : Node)
    → sent_nodes (o.1) ≡ ack ∷ []
    → sent_nodes (rest.1) ≡ ack ∷ []
    → sent_nodes ((then_rest o rest).1) ≡ ack ∷ (if not (gives o.0) then ack ∷ [] else [])
then_rest-twice o rest ack h k = then_rest-sent o rest ∙ elim (Bool-cases (gives o.0)) [
  | inl given ↦ rw (given, h) refl
  | inr silent ↦ rw (silent, h, k) refl
]

module _ (s : Setup) (attributes : Attributes) (children : Nodes) (payload : Payload) where
  abbrev notification : Node
  notification = node (codes "notification") attributes children payload

  abbrev pub is_group_change : Bool
  is_group_change = is_text "w:gp2" (attribute_of "type" attributes)

  -- Whether `GroupProcessor` returned something about it.
  abbrev pub group_gives : Bool
  unfolding process_group
  group_gives = gives ((process_group s.decode_text s.group_has_send_ack notification).0)

  after_groups : Option Data × List Action
  after_groups = then_rest (process_notification s.wiring notification) (none, [])

  run_handlers-notification : run_handlers (asked s) notification ≡ (
      if is_group_change
      then then_rest (process_group s.decode_text s.group_has_send_ack notification) after_groups
      else after_groups)
  unfolding run_handlers after_groups
  run_handlers-notification = refl

  after_groups-sent :
      IsAcknowledgeable s.wiring notification → sent_nodes (after_groups.1) ≡ own_acks notification
  unfolding after_groups
  after_groups-sent a =
      then_rest-sent (process_notification s.wiring notification) (none, [])
      ∙ rw (process_notification-sent s.wiring notification a) (
          nothing_more (gives ((process_notification s.wiring notification).0))
            (own_acks notification))

  -- A notification with an id and a sender, when the client has given its functions, is acknowledged
  -- once by the client's processors. It is acknowledged twice if its type is "encrypt", or "w:gp2" with
  -- nothing returned by the group processor.
  pub run_handlers-acknowledged :
      IsAcknowledgeable s.wiring notification
      → s.group_has_send_ack ≡ true
      → sent_nodes ((run_handlers (asked s) notification).1)
        ≡ notification_ack notification
          ∷ (if is_encrypt notification || (is_group_change && not group_gives)
              then notification_ack notification ∷ []
              else [])
  unfolding group_gives
  run_handlers-acknowledged a given = elim (Bool-cases is_group_change) [
    | inl change ↦
        let e = is_text→eq "w:gp2" (attribute_of "type" attributes) change in
        let unencrypted : is_encrypt notification ≡ false = ap (is_text "encrypt") e in
        rw (run_handlers-notification, change, unencrypted)
          (then_rest-twice (process_group s.decode_text s.group_has_send_ack notification)
            after_groups (notification_ack notification)
            (rw given (process_group-sent s.decode_text notification a.addressed e))
            (after_groups-sent a ∙ rw unencrypted refl))
    | inr other ↦
        rw (run_handlers-notification, other, after_groups-sent a)
          (elim (Bool-cases (is_encrypt notification)) [
            | inl encrypt ↦ rw encrypt refl
            | inr unencrypted ↦ rw unencrypted refl
          ])
  ]
