-- ===== src/Iq/Dispatch.antt =====
-- `IQProcessor` of zowpy/core/processors/iq.py: what is done with an iq that arrived.
use zowpy.Prelude.{
  if◌then◌else◌, Text, codes, text_eq, ℕ, String, Bool, true, false, not, ◌&&◌, ◌||◌, Option, none,
  some, List, [], ◌∷◌, ◌++◌, map,
}
use zowpy.Result.{attribute_error, Result, ok, err}
use zowpy.Python.Dict.{lookup, store}
use zowpy.Coder.Node.{Attributes, has_children, Node, node, Nodes}
use zowpy.Nodes.{get_attribute_value, get_child}
use zowpy.Iq.{Callbacks, not_processed, process_iq_response, Processed, CallbackEnd}

-- Which of the optional parts the processor was given, and the handlers by xmlns. A handler is
-- called by its number.
pub record IqProcessor : Type 0 where
  pub has_response_processor : Bool
  pub has_send_node_fn : Bool
  pub has_got_pong_fn : Bool
  pub iq_handlers : List (Text × ℕ)

-- `register_handler`
unfoldable pub register_handler : IqProcessor → Text → ℕ → IqProcessor
unfolding store
register_handler p xmlns handler = record p { iq_handlers = store xmlns handler p.iq_handlers }

-- The last entry of the dict that is returned.
pub data Extra : Type 0 where
  handled_by_registry pong_sent plain : Extra
  md_kind result_type : Text → Extra

pub record IqData : Type 0 where
  pub id : Option Text
  pub type : Option Text
  pub xmlns : Option Text
  pub from_jid : Option Text
  pub to_jid : Option Text
  pub extra : Extra

-- What is done, in order. Exceptions of what is called are logged.
pub data Effect : Type 0 where
  calls_callback : ℕ → Effect
  sends_pong : Effect
  emits : Text → IqData → Effect
  calls_got_pong : Text → Effect
  calls_handler : ℕ → Effect

abbrev pub attribute_of : String → Attributes → Option Text
unfolding get_attribute_value
attribute_of key attributes = get_attribute_value (some (codes key)) attributes

abbrev pub is_text : String → Option Text → Bool
is_text word none = false
is_text word (some t) = text_eq (codes word) t

-- `bool` of a text that may be None.
abbrev pub is_set : Option Text → Bool
is_set none = false
is_set (some []) = false
is_set (some (c ∷ cs)) = true

abbrev pub result_tags : List Text
result_tags =
    codes "verified_name"
    ∷ codes "media_conn"
    ∷ codes "cat"
    ∷ codes "list"
    ∷ codes "usync"
    ∷ codes "companion-props"
    ∷ codes "groups"
    ∷ codes "group"
    ∷ codes "account"
    ∷ codes "email"
    ∷ codes "verify_email"
    ∷ codes "device_logout"
    ∷ codes "count"
    ∷ codes "picture"
    ∷ codes "result"
    ∷ codes "sync"
    ∷ []

-- The first of some tags that a child has. `get_child` raises where it meets a None.
unfoldable pub first_tag : List Text → Nodes → Result (Option Text)
unfolding get_child
first_tag [] children = ok none
first_tag (tag ∷ tags) children =
    let rest = first_tag tags children in
    elim (get_child tag children) [
      | none ↦ err attribute_error
      | some none ↦ rest
      | some (some n) ↦ ok (some tag)
    ]

unfoldable pub result_type_from_children : Nodes → Result (Option Text)
unfolding first_tag
result_type_from_children children =
    if has_children children then first_tag result_tags children else ok none

-- `md_kind`: both children are looked for.
unfoldable pub md_kind_of : Nodes → Result Text
unfolding get_child
md_kind_of children = elim (get_child (codes "pair-device") children) [
  | none ↦ err attribute_error
  | some device ↦ elim (get_child (codes "pair-success") children) [
    | none ↦ err attribute_error
    | some success ↦ ok (elim device [
      | some n ↦ codes "pair-device"
      | none ↦ elim success [ some n ↦ codes "pair-success" | none ↦ codes "md" ]
    ])
  ]
]

-- `_run_xmlns_handler`
unfoldable pub run_xmlns_handler : IqProcessor → Option Text → List Effect
unfolding lookup
run_xmlns_handler p none = []
run_xmlns_handler p (some []) = []
run_xmlns_handler p (some (c ∷ cs)) = elim (lookup (c ∷ cs) p.iq_handlers) [
  | none ↦ []
  | some handler ↦ calls_handler handler ∷ []
]

-- An event and the handler, as at the end of most branches.
unfoldable pub announce : IqProcessor → List Text → IqData → Result IqData × List Effect
unfolding run_xmlns_handler
announce p events data_ =
    (ok data_, map (λ event. emits event data_) events ++ run_xmlns_handler p data_.xmlns)

-- 2b, 2d and 2e, where a read of the children may raise.
unfoldable pub announce_md : IqProcessor → IqData → Result Text → Result IqData × List Effect
unfolding announce
announce_md p data_ (err e) = (err e, [])
announce_md p data_ (ok kind) = announce p (codes "iq" ∷ []) (record data_ { extra = md_kind kind })

unfoldable pub announce_result :
    IqProcessor → IqData → Result (Option Text) → Result IqData × List Effect
unfolding announce
announce_result p data_ (err e) = (err e, [])
announce_result p data_ (ok none) =
    announce p (codes "iq" ∷ []) (record data_ { extra = result_type (codes "generic") })
announce_result p data_ (ok (some tag)) =
    announce p (codes "iq" ∷ []) (record data_ { extra = result_type tag })

unfoldable pub answer_pong : IqProcessor → IqData → Result IqData × List Effect
answer_pong p data_ = (
  ok (record data_ { extra = result_type (codes "pong") }),
  elim data_.id [
    | none ↦ []
    | some iq_id ↦
        if is_set (some iq_id) && p.has_got_pong_fn then calls_got_pong iq_id ∷ [] else []
  ],
)

-- From step 2 on.
unfoldable pub receive_iq : IqProcessor → IqData → Nodes → Result IqData × List Effect
unfolding announce announce_md announce_result md_kind_of result_type_from_children answer_pong
receive_iq p data_ children =
    if is_text "urn:xmpp:ping" data_.xmlns && p.has_send_node_fn
    then (ok (record data_ { extra = pong_sent }), sends_pong ∷ [])
    else if is_text "md" data_.xmlns
    then announce_md p data_ (md_kind_of children)
    else if is_text "error" data_.type
    then announce p (codes "iq" ∷ codes "iq:error" ∷ [])
        (record data_ { extra = result_type (codes "error") })
    else if is_text "result" data_.type
    then (if is_text "w:p" data_.xmlns && not (has_children children)
        then answer_pong p data_
        else announce_result p data_ (result_type_from_children children))
    else announce p (codes "iq" ∷ []) data_

abbrev pub data_of : Attributes → IqData
data_of attributes = record {
  id = attribute_of "id" attributes;
  type = attribute_of "type" attributes;
  xmlns = attribute_of "xmlns" attributes;
  from_jid = attribute_of "from" attributes;
  to_jid = attribute_of "to" attributes;
  extra = plain;
}

-- The call of the callback, if it was called.
abbrev pub call_of : Processed → List Effect
call_of r = elim r.called [ none ↦ [] | some callback ↦ calls_callback callback ∷ [] ]

-- What `process` returns and does, and the table of callbacks after it.
pub record Handled : Type 0 where
  pub result : Result IqData
  pub effects : List Effect
  pub callbacks : Callbacks

-- Step 2 after step 1, unless a callback took the answer.
unfoldable pub after_registry : IqProcessor → IqData → Nodes → Processed → Handled
unfolding receive_iq
after_registry p data_ children r =
    if r.returned
    then record {
      result = ok (record data_ { extra = handled_by_registry });
      effects = call_of r;
      callbacks = r.callbacks;
    }
    else (let (result, effects) = receive_iq p data_ children in
        record { result = result; effects = call_of r ++ effects; callbacks = r.callbacks })

abbrev pub asks_registry : IqProcessor → IqData → Bool
asks_registry p data_ =
    p.has_response_processor
    && is_set data_.id
    && (is_text "result" data_.type || is_text "error" data_.type)

-- `process`
unfoldable pub process : IqProcessor → ℕ → CallbackEnd → Callbacks → Node → Handled
unfolding after_registry process_iq_response
process p now run table (node tag attributes children payload) =
    let data_ = data_of attributes in
    after_registry p data_ children (
      if asks_registry p data_
      then process_iq_response now run data_.id table
      else not_processed table)
