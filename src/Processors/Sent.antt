-- ===== src/Processors/Sent.antt =====
-- What the processors of notifications send: acknowledgements and nothing else.
use zowpy.Prelude.{
  if◌then◌else◌, Bool-cases, Text, codes, text_eq→eq, ℕ, String, ◌≡◌, refl, sym, ap, ◌∙◌, inl, inr,
  Bool, true, false, ◌&&◌, Option, none, some, List, [], ◌∷◌, ◌++◌, append-nil, arith,
}
use zowpy.Result.{Result-cases, Result, ok, err}
use zowpy.Coder.Node.{Payload, Node, Nodes, no_nodes, child, missing}
use zowpy.Iq.Dispatch.{is_text, is_set, emits}
use zowpy.Builders.Receipts.{client_ack}
use zowpy.Processors.{
  Data, attr, or_word, nodes_in, payload_in, child_of, sent_nodes, emits, sends,
  saves_trusted_contact, gets_keys, flushes_prekeys, Action,
}
use zowpy.Processors.Notifications.{
  ack_notification, holds_something, save_token, read_tokens, process_tokens, renew_keys,
  process_encrypt, process_kind, process_notification, Wiring,
}
use zowpy.Processors.Groups.{
  first_child, group_fields, emit_change, change_of, process_change, process_group,
}

-- The acknowledgement of a notification: a missing type becomes "privacy_token".
abbrev pub notification_ack : Node → Node
notification_ack n =
    client_ack (or_word (attr "id" n) []) (codes "notification")
      (or_word (attr "type" n) (codes "privacy_token")) (or_word (attr "from" n) [])
      (attr "participant" n)

pub sent_nodes-append :
    (xs ys : List Action) → sent_nodes (xs ++ ys) ≡ sent_nodes xs ++ sent_nodes ys
sent_nodes-append [] ys = refl
sent_nodes-append (sends n ∷ xs) ys = ap (λ ns. n ∷ ns) (sent_nodes-append xs ys)
sent_nodes-append (emits event data_ ∷ xs) ys = sent_nodes-append xs ys
sent_nodes-append (saves_trusted_contact jid token ∷ xs) ys = sent_nodes-append xs ys
sent_nodes-append (gets_keys jid ∷ xs) ys = sent_nodes-append xs ys
sent_nodes-append (flushes_prekeys ∷ xs) ys = sent_nodes-append xs ys

pub is_text→eq : (word : String) (t : Option Text) → is_text word t ≡ true → t ≡ some (codes word)
is_text→eq word none h = absurd cc
is_text→eq word (some t) h = ap some (sym (text_eq→eq (codes word) t h))

-- An acknowledgement is sent where there is an id and a sender.
ack_notification-sent :
    (id type from_jid participant : Option Text)
    → is_set id && is_set from_jid ≡ true
    → sent_nodes (ack_notification true id type from_jid participant)
      ≡ client_ack
          (or_word id [])
          (codes "notification")
          (or_word type [])
          (or_word from_jid [])
          participant
        ∷ []
unfolding ack_notification
ack_notification-sent id type from_jid participant h = elim (Bool-cases (is_set from_jid)) [
  | inl has_from ↦ elim (Bool-cases (is_set id)) [
    | inl has_id ↦ rw (has_from, has_id) refl
    | inr no_id ↦ absurd (cc (rw (no_id) at h))
  ]
  | inr no_from ↦ absurd (ground arith)
]

save_token-quiet :
    (w : Wiring) (from_jid typ : Option Text) (data_ : Payload)
    → sent_nodes (save_token w from_jid typ data_) ≡ []
save_token-quiet w from_jid typ data_ =
    elim (Bool-cases (
      is_text "trusted_contact" typ
      && is_set from_jid
      && w.has_update_trusted_contact
      && holds_something data_)) [ inl saves ↦ rw saves refl | inr not_saved ↦ rw not_saved refl ]

read_tokens-quiet :
    (w : Wiring) (from_jid : Option Text) (ns : Nodes)
    → sent_nodes ((read_tokens w from_jid ns).1) ≡ []
unfolding read_tokens
read_tokens-quiet w from_jid no_nodes = refl
read_tokens-quiet w from_jid (missing ns) = read_tokens-quiet w from_jid ns
read_tokens-quiet w from_jid (child n ns) =
    sent_nodes-append (save_token w from_jid (attr "type" n) (payload_in n))
      ((read_tokens w from_jid ns).1)
    ∙ rw (save_token-quiet w from_jid (attr "type" n) (payload_in n))
        (read_tokens-quiet w from_jid ns)

process_tokens-quiet :
    (w : Wiring) (n : Node) (r : Result (Option Node)) → sent_nodes ((process_tokens w n r).1) ≡ []
unfolding process_tokens
process_tokens-quiet w n (err e) = refl
process_tokens-quiet w n (ok none) = refl
process_tokens-quiet w n (ok (some holder)) =
    sent_nodes-append ((read_tokens w (attr "from" n) (nodes_in holder)).1) _
    ∙ rw (read_tokens-quiet w (attr "from" n) (nodes_in holder)) refl

-- The id and the sender are there, and the client has given its functions.
pub record IsAcknowledgeable (w : Wiring) (n : Node) : Type 0 where
  pub wired : w.has_send_ack ≡ true
  pub addressed : is_set (attr "id" n) && is_set (attr "from" n) ≡ true

renew_keys-quiet :
    (w : Wiring) (n : Node) (count identity : Option Node)
    → sent_nodes (renew_keys w n count identity) ≡ []
renew_keys-quiet w n (some c) identity = elim (Bool-cases w.has_flush_prekeys) [
  | inl wired ↦ rw wired refl
  | inr unwired ↦ rw unwired refl
]
renew_keys-quiet w n none (some i) = elim (Bool-cases w.has_get_keys) [
  | inl wired ↦ rw wired refl
  | inr unwired ↦ rw unwired refl
]
renew_keys-quiet w n none none = refl

or_else_idem :
    (t : Option Text)
    → or_word (some (or_word t (codes "privacy_token"))) [] ≡ or_word t (codes "privacy_token")
or_else_idem none = refl
or_else_idem (some []) = refl
or_else_idem (some (c ∷ cs)) = refl

first_ack :
    (w : Wiring) (n : Node)
    → IsAcknowledgeable w n
    → sent_nodes (
        ack_notification w.has_send_ack
          (attr "id" n)
          (some (or_word (attr "type" n) (codes "privacy_token")))
          (attr "from" n)
          (attr "participant" n))
      ≡ notification_ack n ∷ []
first_ack w n a =
    let sent =
      ack_notification-sent (attr "id" n) (some (or_word (attr "type" n) (codes "privacy_token")))
        (attr "from" n) (attr "participant" n) a.addressed in
    rw (a.wired) (sent ∙ rw (or_else_idem (attr "type" n)) refl)

-- The acknowledgement that `_process_encrypt_notification` sends.
abbrev encrypt_acks : Wiring → Node → List Action
unfolding ack_notification
encrypt_acks w n =
    ack_notification w.has_send_ack (attr "id" n) (some (codes "encrypt")) (attr "from" n)
      (attr "participant" n)

process_encrypt-sent :
    (w : Wiring) (n : Node) → sent_nodes ((process_encrypt w n).1) ≡ sent_nodes (encrypt_acks w n)
unfolding process_encrypt encrypt_acks
process_encrypt-sent w n = elim (Result-cases (child_of "count" n)) [
  | inl (e, bad) ↦ rw (process_encrypt, bad) refl
  | inr (count, good) ↦ elim (Result-cases (child_of "identity" n)) [
    | inl (e, bad) ↦ rw (process_encrypt, good, bad) refl
    | inr (identity, there) ↦
        rw (process_encrypt, good, there)
          (sent_nodes-append (encrypt_acks w n) (renew_keys w n count identity)
            ∙ rw (renew_keys-quiet w n count identity, append-nil) refl)
  ]
]

abbrev pub is_encrypt : Node → Bool
is_encrypt n = is_text "encrypt" (attr "type" n)

encrypt_acks-sent :
    (w : Wiring) (n : Node)
    → IsAcknowledgeable w n
    → attr "type" n ≡ some (codes "encrypt")
    → sent_nodes (encrypt_acks w n) ≡ notification_ack n ∷ []
unfolding encrypt_acks
encrypt_acks-sent w n a e =
    let sent =
      ack_notification-sent (attr "id" n) (some (codes "encrypt")) (attr "from" n)
        (attr "participant" n) a.addressed in
    rw (a.wired) (sent ∙ rw e refl)

process_kind-sent :
    (w : Wiring) (n : Node)
    → IsAcknowledgeable w n
    → sent_nodes ((process_kind w n).1) ≡ (if is_encrypt n then notification_ack n ∷ [] else [])
unfolding process_kind
process_kind-sent w n a = elim (Bool-cases (is_text "psa" (attr "type" n))) [
  | inl psa ↦
      let e = is_text→eq "psa" (attr "type" n) psa in
      let other : is_encrypt n ≡ false = ap (is_text "encrypt") e in rw (psa, other) refl
  | inr no_psa ↦ elim (Bool-cases (is_encrypt n)) [
    | inl encrypt ↦
        let e = is_text→eq "encrypt" (attr "type" n) encrypt in
        rw (no_psa, encrypt) (process_encrypt-sent w n ∙ encrypt_acks-sent w n a e)
    | inr no_encrypt ↦ elim (Bool-cases (is_text "privacy_token" (attr "type" n))) [
      | inl token ↦ rw (no_psa, no_encrypt, token) (process_tokens-quiet w n (child_of "tokens" n))
      | inr other ↦ rw (no_psa, no_encrypt, other) refl
    ]
  ]
]

-- How often `NotificationProcessor` acknowledges.
abbrev pub own_acks : Node → List Node
own_acks n =
    if is_encrypt n then notification_ack n ∷ notification_ack n ∷ [] else notification_ack n ∷ []

pub process_notification-sent :
    (w : Wiring) (n : Node)
    → IsAcknowledgeable w n
    → sent_nodes ((process_notification w n).1) ≡ own_acks n
unfolding process_notification
process_notification-sent w n a =
    sent_nodes-append
      (ack_notification w.has_send_ack (attr "id" n)
        (some (or_word (attr "type" n) (codes "privacy_token"))) (attr "from" n)
        (attr "participant" n))
      ((process_kind w n).1)
    ∙ rw (first_ack w n a, process_kind-sent w n a)
        (elim (Bool-cases (is_encrypt n)) [
          | inl encrypt ↦ rw encrypt refl
          | inr other ↦ rw other refl
        ])

pub emit_change-quiet :
    (fields : Data) (change : Option Data × Text) → sent_nodes ((emit_change fields change).1) ≡ []
emit_change-quiet fields (none, event) = refl
emit_change-quiet fields (some more, event) = refl

module _ (decode : List ℕ → Option Text) where
  process_change-quiet :
      (n : Node) (first : Option Node) → sent_nodes ((process_change decode n first).1) ≡ []
  unfolding process_change
  process_change-quiet n none = refl
  process_change-quiet n (some first) =
      emit_change-quiet (group_fields n first) (change_of decode first)

  -- `GroupProcessor` acknowledges once.
  pub process_group-sent :
      (n : Node)
      → is_set (attr "id" n) && is_set (attr "from" n) ≡ true
      → attr "type" n ≡ some (codes "w:gp2")
      → sent_nodes ((process_group decode true n).1) ≡ notification_ack n ∷ []
  unfolding process_group
  process_group-sent n a e =
      sent_nodes-append
        (ack_notification true (attr "id" n) (attr "type" n) (attr "from" n) (attr "participant" n))
        ((process_change decode n (first_child (nodes_in n))).1)
      ∙ rw
          (
            ack_notification-sent (attr "id" n) (attr "type" n) (attr "from" n)
                (attr "participant" n) a,
            process_change-quiet n (first_child (nodes_in n)),
            e,
          )
          refl
