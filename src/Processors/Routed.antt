-- ===== src/Processors/Routed.antt =====
-- The processors that the client registers (core/client.py), and what becomes of a node that its router
-- is given.
use zowpy.Prelude.{
  if◌then◌else◌, Text, codes, ℕ, ◌≡◌, refl, sym, ap, ◌∙◌, Bool, true, false, Option, none, some,
  List, [], ◌∷◌, map,
}
use zowpy.Result.{ok, err}
use zowpy.Coder.Node.{Node}
use zowpy.Nodes.{tag_is}
use zowpy.Router.{
  empty_router, insert, sort, register, first_result, route, declines, returns, raises, Router,
}
use zowpy.Processors.{
  Data, Outcome, answer_of, as_processor, then_rest, run_handlers, Action, NodeProcessor,
}
use zowpy.Processors.Receipts.{receipt_processor, ack_processor, presence_processor}
use zowpy.Processors.Notifications.{notification_processor, Wiring}
use zowpy.Processors.Groups.{group_processor}
use zowpy.Processors.Streams.{stream_error_processor, failure_processor}
use zowpy.Processors.Ib.{ib_processor}

-- What the processors are given, and `process` of the two that stand outside: messages and iqs.
pub record Setup : Type 0 where
  pub decode_text : List ℕ → Option Text
  pub decode_replace : List ℕ → Text
  pub wiring : Wiring
  pub group_has_send_ack : Bool
  pub generated : Text
  pub now : ℕ
  pub process_message : Node → Outcome
  pub process_iq : Node → Outcome

abbrev pub message_processor : Setup → ℕ → NodeProcessor
message_processor s identity = record {
  identity = identity;
  class_name = codes "MessageProcessor";
  priority = 10;
  can_handle = λ n. tag_is (codes "message") n;
  handle = s.process_message;
}

abbrev pub iq_processor : Setup → ℕ → NodeProcessor
iq_processor s identity = record {
  identity = identity;
  class_name = codes "IQProcessor";
  priority = 8;
  can_handle = λ n. tag_is (codes "iq") n;
  handle = s.process_iq;
}

-- In the order in which they are registered.
abbrev pub registered : Setup → List NodeProcessor
registered s =
    message_processor s 0
    ∷ receipt_processor 1
    ∷ stream_error_processor s.decode_replace 2
    ∷ failure_processor s.decode_replace 3
    ∷ ack_processor 4
    ∷ presence_processor 5
    ∷ iq_processor s 6
    ∷ notification_processor s.wiring 7
    ∷ group_processor s.decode_text s.group_has_send_ack 8
    ∷ ib_processor true s.generated s.now 9
    ∷ []

unfoldable pub register_all : Router Data → List NodeProcessor → Router Data
unfolding register
register_all r [] = r
register_all r (h ∷ hs) = register_all (register r (as_processor h)) hs

-- The router of the client.
unfoldable pub client_router : Setup → Router Data
unfolding register_all
client_router s = register_all empty_router (registered s)

-- In the order in which they are asked.
abbrev pub asked : Setup → List NodeProcessor
asked s =
    stream_error_processor s.decode_replace 2
    ∷ failure_processor s.decode_replace 3
    ∷ message_processor s 0
    ∷ iq_processor s 6
    ∷ group_processor s.decode_text s.group_has_send_ack 8
    ∷ receipt_processor 1
    ∷ ack_processor 4
    ∷ notification_processor s.wiring 7
    ∷ presence_processor 5
    ∷ ib_processor true s.generated s.now 9
    ∷ []

client_router-asked : (s : Setup) → (client_router s).processors ≡ map as_processor (asked s)
unfolding client_router register_all register sort insert
client_router-asked s = refl

-- One round of the loop, where `rest` is what the rounds after it do.
then_rest-round :
    (can : Bool) (o : Outcome) (rest : Option Data × List Action) (later : Option Data)
    → rest.0 ≡ later
    → (if can then then_rest o rest else rest).0 ≡ (elim (if can then answer_of o.0 else declines) [
      | returns (some result) ↦ some result
      | returns none ↦ later
      | declines ↦ later
      | raises ↦ later
    ])
then_rest-round false o rest later h = h
then_rest-round true (ok (some data_), actions) rest later h = refl
then_rest-round true (ok none, actions) rest later h = h
then_rest-round true (err e, actions) rest later h = h

-- The result of the loop with actions is that of the router's loop.
pub run_handlers-first_result :
    (hs : List NodeProcessor) (n : Node) (raw_data : Option (List ℕ))
    → (run_handlers hs n).0 ≡ first_result (map as_processor hs) n raw_data
unfolding run_handlers first_result
run_handlers-first_result [] n raw_data = refl
run_handlers-first_result (h ∷ hs) n raw_data =
    then_rest-round (h.can_handle n) (h.handle n) (run_handlers hs n)
      (first_result (map as_processor hs) n raw_data) (run_handlers-first_result hs n raw_data)

-- What the client's router returns for a node is what its processors return, asked in the order of
-- their priorities: stream errors, failures, messages, iqs, groups, then receipts, acknowledgements,
-- notifications, presence and <ib>.
pub route-asked :
    (s : Setup) (n : Node) (raw_data : Option (List ℕ))
    → (route (client_router s) n raw_data).0 ≡ (run_handlers (asked s) n).0
unfolding route
route-asked s n raw_data =
    ap (λ ps. first_result ps n raw_data) (client_router-asked s)
    ∙ sym (run_handlers-first_result (asked s) n raw_data)
