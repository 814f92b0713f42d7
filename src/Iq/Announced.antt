-- ===== src/Iq/Announced.antt =====
-- Which iqs are announced by an event.
use zowpy.Prelude.{
  if◌then◌else◌, Bool-cases, Option-cases, All, Text, codes, text_eq, ℕ, ◌≡◌, refl, ap, ◌∙◌, inl,
  inr, true, false, not, ◌&&◌, Option, none, some, List, [], ◌∷◌, ◌++◌, map,
}
use zowpy.Result.{Result, ok, err}
use zowpy.Coder.Node.{has_children, Node, node, Nodes}
use zowpy.Python.Dict.{lookup}
use zowpy.Nodes.{get_child}
use zowpy.Iq.{Callbacks, not_processed, process_iq_response, Processed, CallbackEnd}
use zowpy.Iq.Dispatch.{
  is_text, is_set, result_tags, first_tag, result_type_from_children, md_kind_of, run_xmlns_handler,
  announce, announce_md, announce_result, answer_pong, receive_iq, data_of, call_of, after_registry,
  asks_registry, process, IqProcessor, Extra, handled_by_registry, pong_sent, plain, md_kind,
  result_type, IqData, Effect, calls_callback, sends_pong, emits, calls_got_pong, calls_handler,
}

-- The events that are emitted, with their data, in order.
pub announced : List Effect → List (Text × IqData)
announced [] = []
announced (calls_callback callback ∷ effects) = announced effects
announced (sends_pong ∷ effects) = announced effects
announced (emits event data_ ∷ effects) = (event, data_) ∷ announced effects
announced (calls_got_pong id ∷ effects) = announced effects
announced (calls_handler handler ∷ effects) = announced effects

-- The events for a result: none where a callback took it, and for a ping or the answer to a ping, and
-- two for an error.
pub events_of : Extra → List Text
events_of handled_by_registry = []
events_of pong_sent = []
events_of plain = codes "iq" ∷ []
events_of (md_kind kind) = codes "iq" ∷ []
events_of (result_type kind) =
    if text_eq kind (codes "pong")
    then []
    else if text_eq kind (codes "error")
    then codes "iq" ∷ codes "iq:error" ∷ []
    else codes "iq" ∷ []

-- A result announces itself by its events; an exception announces nothing.
pub Announces : Result IqData → List Effect → Type 0
Announces (err e) effects = announced effects ≡ []
Announces (ok data_) effects =
    announced effects ≡ map (λ event. (event, data_)) (events_of data_.extra)

announced-call_of :
    (r : Processed) (effects : List Effect) → announced (call_of r ++ effects) ≡ announced effects
unfolding announced
announced-call_of r effects = elim (Option-cases r.called) [
  | inl idle ↦ rw idle refl
  | inr (callback, called) ↦ rw called refl
]

announced-called : (r : Processed) → announced (call_of r) ≡ []
unfolding announced
announced-called r = elim (Option-cases r.called) [
  | inl idle ↦ rw idle refl
  | inr (callback, called) ↦ rw called refl
]

Announces-call_of :
    (r : Processed) (result : Result IqData) (effects : List Effect)
    → Announces result effects
    → Announces result (call_of r ++ effects)
unfolding Announces
Announces-call_of r (err e) effects h = announced-call_of r effects ∙ h
Announces-call_of r (ok data_) effects h = announced-call_of r effects ∙ h

announced-run_xmlns_handler :
    (p : IqProcessor) (xmlns : Option Text) → announced (run_xmlns_handler p xmlns) ≡ []
unfolding announced run_xmlns_handler
announced-run_xmlns_handler p none = refl
announced-run_xmlns_handler p (some []) = refl
announced-run_xmlns_handler p (some (c ∷ cs)) =
    elim (Option-cases (lookup (c ∷ cs) p.iq_handlers)) [
      | inl idle ↦ rw (idle, announced) refl
      | inr (handler, there) ↦ rw (there, announced) refl
    ]

announced-map :
    (data_ : IqData) (events : List Text) (effects : List Effect)
    → announced effects ≡ []
    → announced (map (λ event. emits event data_) events ++ effects)
      ≡ map (λ event. (event, data_)) events
unfolding announced
announced-map data_ [] effects h = h
announced-map data_ (event ∷ events) effects h =
    ap (λ l. (event, data_) ∷ l) (announced-map data_ events effects h)

announce-Announces :
    (p : IqProcessor) (data_ : IqData) (events : List Text)
    → events_of data_.extra ≡ events
    → Announces (announce p events data_).0 (announce p events data_).1
unfolding announce Announces
announce-Announces p data_ events h = rw h (
    announced-map data_ events (run_xmlns_handler p data_.xmlns)
      (announced-run_xmlns_handler p data_.xmlns))

announce_md-Announces :
    (p : IqProcessor) (data_ : IqData) (kind : Result Text)
    → Announces (announce_md p data_ kind).0 (announce_md p data_ kind).1
unfolding announce_md Announces announced events_of
announce_md-Announces p data_ (err e) = refl
announce_md-Announces p data_ (ok kind) = announce-Announces p _ (codes "iq" ∷ []) refl

-- A found tag is one of the tags.
first_tag-All :
    (P : Text → Type 0) (tags : List Text) (children : Nodes) (tag : Text)
    → All P tags
    → first_tag tags children ≡ ok (some tag)
    → P tag
unfolding first_tag
first_tag-All P [] children tag h e = absurd cc
first_tag-All P (t ∷ tags) children tag h e = elim (Option-cases (get_child t children)) [
  | inl raised ↦ absurd (let f = rw (raised, first_tag) at e in cc)
  | inr (none, missed) ↦ first_tag-All P tags children tag h.1 (rw (missed, first_tag) at e)
  | inr (some n, found) ↦
      let same : t ≡ tag = (let f = rw (found, first_tag) at e in cc) in rw (← same) h.0
]

result_type_from_children-All :
    (P : Text → Type 0) (children : Nodes) (tag : Text)
    → All P result_tags
    → result_type_from_children children ≡ ok (some tag)
    → P tag
unfolding result_type_from_children
result_type_from_children-All P children tag h e = elim (Bool-cases (has_children children)) [
  | inl some_child ↦ first_tag-All P result_tags children tag h (rw some_child at e)
  | inr no_child ↦ absurd (let f = rw no_child at e in cc)
]

abbrev IsOrdinary : Text → Type 0
IsOrdinary tag = events_of (result_type tag) ≡ codes "iq" ∷ []

tags-IsOrdinary : All IsOrdinary result_tags
unfolding events_of
tags-IsOrdinary = (
  refl,
  (
    refl,
    (
      refl,
      (
        refl,
        (
          refl,
          (
            refl,
            (refl, (refl, (refl, (refl, (refl, (refl, (refl, (refl, (refl, (refl, tt)))))))))),
          ),
        ),
      ),
    ),
  ),
)

announce_result-Announces :
    (p : IqProcessor) (data_ : IqData) (found : Result (Option Text))
    → ((tag : Text) → found ≡ ok (some tag) → IsOrdinary tag)
    → Announces (announce_result p data_ found).0 (announce_result p data_ found).1
unfolding announce_result Announces announced events_of
announce_result-Announces p data_ (err e) h = refl
announce_result-Announces p data_ (ok none) h = announce-Announces p _ (codes "iq" ∷ []) refl
announce_result-Announces p data_ (ok (some tag)) h =
    announce-Announces p _ (codes "iq" ∷ []) (h tag refl)

answer_pong-Announces :
    (p : IqProcessor) (data_ : IqData) → Announces (answer_pong p data_).0 (answer_pong p data_).1
unfolding answer_pong Announces announced events_of
answer_pong-Announces p data_ = elim (Option-cases data_.id) [
  | inl idle ↦ rw idle refl
  | inr (id, there) ↦ elim (Bool-cases (is_set (some id) && p.has_got_pong_fn)) [
    | inl told ↦ rw (there, told) refl
    | inr silent ↦ rw (there, silent) refl
  ]
]

receive_iq-Announces :
    (p : IqProcessor) (data_ : IqData) (children : Nodes)
    → data_.extra ≡ plain
    → Announces (receive_iq p data_ children).0 (receive_iq p data_ children).1
unfolding receive_iq
receive_iq-Announces p data_ children h =
    elim (Bool-cases (is_text "urn:xmpp:ping" data_.xmlns && p.has_send_node_fn)) [
      | inl ping ↦ rw ping (unfold Announces announced events_of in refl)
      | inr no_ping ↦ elim (Bool-cases (is_text "md" data_.xmlns)) [
        | inl md ↦ rw (no_ping, md) (announce_md-Announces p data_ (md_kind_of children))
        | inr no_md ↦ elim (Bool-cases (is_text "error" data_.type)) [
          | inl error ↦
              rw (no_ping, no_md, error)
                (announce-Announces p (record data_ { extra = result_type (codes "error") })
                  (codes "iq" ∷ codes "iq:error" ∷ []) (unfold events_of in refl))
          | inr no_error ↦ elim (Bool-cases (is_text "result" data_.type)) [
            | inl result ↦
                elim (Bool-cases (is_text "w:p" data_.xmlns && not (has_children children))) [
                  | inl pong ↦
                      rw (no_ping, no_md, no_error, result, pong) (answer_pong-Announces p data_)
                  | inr other ↦
                      rw (no_ping, no_md, no_error, result, other)
                        (announce_result-Announces p data_ (result_type_from_children children)
                          (λ tag e.
                            result_type_from_children-All IsOrdinary children tag tags-IsOrdinary
                              e))
                ]
            | inr no_result ↦
                rw (no_ping, no_md, no_error, no_result)
                  (announce-Announces p data_ (codes "iq" ∷ []) (rw h (unfold events_of in refl)))
          ]
        ]
      ]
    ]

after_registry-Announces :
    (p : IqProcessor) (data_ : IqData) (children : Nodes) (r : Processed)
    → data_.extra ≡ plain
    → Announces
        (after_registry p data_ children r).result
        (after_registry p data_ children r).effects
unfolding after_registry
after_registry-Announces p data_ children r h = elim (Bool-cases r.returned) [
  | inl taken ↦
      rw taken (unfold Announces events_of in announced-called (record r { returned = true }))
  | inr free ↦ rw free (
      Announces-call_of (record r { returned = false }) (receive_iq p data_ children).0
        (receive_iq p data_ children).1 (receive_iq-Announces p data_ children h))
]

-- The events that an iq emits all carry the data that is returned, whose last entry tells which they are:
-- none for a response that a callback took, for a ping that is answered, and for the answer to a ping;
-- `iq` and then `iq:error` where the result type is "error"; and `iq` alone for everything else. An iq
-- that ends with an exception emits nothing.
pub process-Announces :
    (p : IqProcessor) (now : ℕ) (run : CallbackEnd) (table : Callbacks) (n : Node)
    → Announces (process p now run table n).result (process p now run table n).effects
unfolding process
process-Announces p now run table (node tag attributes children payload) =
    let data_ = data_of attributes in
    after_registry-Announces p data_ children
      (if asks_registry p data_
        then process_iq_response now run data_.id table
        else not_processed table)
      refl
