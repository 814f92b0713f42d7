-- ===== src/Processors.antt =====
-- zowpy/core/processors: what a processor is given, what it returns, and what it does in order. The
-- coroutines that it calls do not raise, and an "ack:send" that it emits stands here as the node that
-- the client's listener sends.
use zowpy.Prelude.{
  if◌then◌else◌, Text, codes, ℕ, String, Bool, Option, none, some, List, [], ◌∷◌, ◌++◌,
}
use zowpy.Result.{attribute_error, Result, ok, err}
use zowpy.Coder.Node.{Payload, Node, node, Nodes}
use zowpy.Nodes.{get_child}
use zowpy.Iq.Dispatch.{attribute_of}
use zowpy.Router.{Answer, declines, returns, raises, Processor}
pub mod Receipts
pub mod Notifications
pub mod Groups
pub mod Streams
pub mod Ib
pub mod Sent
pub mod Routed
pub mod Acknowledged
mod Examples

-- The values of the dicts that processors return and emit.
pub data Value : Type 0 where
  optional_text : Option Text → Value
  texts : List Text → Value
  no_value : Value
  of_payload : Payload → Value
  flag : Bool → Value
  of_tags : List (Text × Payload) → Value
  tokens : List (Option Text × Payload) → Value
  of_node : Node → Value

abbrev pub Data : Type 0
Data = List (Text × Value)

pub data Action : Type 0 where
  emits : Text → Data → Action
  sends : Node → Action
  saves_trusted_contact : Text → Payload → Action
  gets_keys : Option Text → Action
  flushes_prekeys : Action

-- What `process` returns or raises, and what it did before.
abbrev pub Outcome : Type 0
Outcome = Result (Option Data) × List Action

-- `can_handle` and `process`.
pub record NodeProcessor : Type 0 where
  pub identity : ℕ
  pub class_name : Text
  pub priority : ℕ
  pub can_handle : Node → Bool
  pub handle : Node → Outcome

-- `node.get_attribute(key)`, and `get_attribute(key) or ""`.
abbrev pub attr : String → Node → Option Text
attr key (node tag attributes children payload) = attribute_of key attributes

abbrev pub or_word : Option Text → Text → Text
or_word none word = word
or_word (some []) word = word
or_word (some (c ∷ cs)) word = c ∷ cs

-- `x or None`
abbrev pub or_none : Option Text → Option Text
or_none (some []) = none
or_none t = t

abbrev pub nodes_in : Node → Nodes
nodes_in (node tag attributes children payload) = children

abbrev pub payload_in : Node → Payload
payload_in (node tag attributes children payload) = payload

abbrev pub entry : String → Value → Text × Value
entry key value = (codes key, value)

-- `node.get_child(tag)`, which raises where it meets a None.
unfoldable pub child_of : String → Node → Result (Option Node)
unfolding get_child
child_of tag n = elim (get_child (codes tag) (nodes_in n)) [
  | none ↦ err attribute_error
  | some found ↦ ok found
]

-- What the router is told of a call.
abbrev pub answer_of : Result (Option Data) → Answer Data
answer_of (err e) = raises
answer_of (ok result) = returns result

-- A processor, as the router sees it.
abbrev pub as_processor : NodeProcessor → Processor Data
as_processor h = record {
  identity = h.identity;
  class_name = h.class_name;
  priority = h.priority;
  answer = λ n raw_data. if h.can_handle n then answer_of ((h.handle n).0) else declines;
}

-- The loop of `route`, with what the processors do.
abbrev pub then_rest : Outcome → Option Data × List Action → Option Data × List Action
then_rest (ok (some data_), actions) rest = (some data_, actions)
then_rest (ok none, actions) (result, later) = (result, actions ++ later)
then_rest (err e, actions) (result, later) = (result, actions ++ later)

unfoldable pub run_handlers : List NodeProcessor → Node → Option Data × List Action
run_handlers [] n = (none, [])
run_handlers (h ∷ hs) n =
    let rest = run_handlers hs n in if h.can_handle n then then_rest (h.handle n) rest else rest

-- The nodes that were sent.
abbrev pub sent_nodes : List Action → List Node
sent_nodes [] = []
sent_nodes (sends n ∷ actions) = n ∷ sent_nodes actions
sent_nodes (action ∷ actions) = sent_nodes actions
