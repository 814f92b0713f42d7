-- ===== src/Iq/Examples.antt =====
-- The theorems on iqs at concrete tables and nodes.
use zowpy.Prelude.{codes, ℕ, ◌*◌, ◌^◌, ◌≡◌, true, false, some, [], ◌∷◌}
use zowpy.Coder.Node.{absent, Node, node, no_nodes, child}
use zowpy.Iq.{
  Callbacks, register_callback, has_callback, not_processed, process_iq_response, CallbackEnd,
}
use zowpy.Iq.Waiting.{process_iq_response-once}
use zowpy.Iq.Dispatch.{process, IqProcessor}
use zowpy.Iq.Announced.{Announces, process-Announces}

abbrev seconds : ℕ → ℕ
seconds n = n * 10 ^ 6

-- A callback 7 for the id "a1" from second 100 on, and one that another callback registers.
abbrev one_callback : Callbacks
unfolding register_callback
one_callback = register_callback (seconds 100) (codes "a1") 7 (seconds 30) []

abbrev returns_after : CallbackEnd
returns_after = record { works = true; meanwhile = λ t. t }

process_iq_response-once_example :
    (has_callback
        (codes "a1")
        (process_iq_response (seconds 101) returns_after (some (codes "a1")) one_callback).callbacks
      ≡ false)
    × (process_iq_response
          (seconds 102)
          returns_after
          (some (codes "a1"))
          (process_iq_response
            (seconds 101)
            returns_after
            (some (codes "a1"))
            one_callback).callbacks
        ≡ not_processed
            (process_iq_response
              (seconds 101)
              returns_after
              (some (codes "a1"))
              one_callback).callbacks)
process_iq_response-once_example =
    process_iq_response-once (seconds 101) (seconds 102) returns_after returns_after (codes "a1")
      one_callback

abbrev whole_processor : IqProcessor
whole_processor = record {
  has_response_processor = true;
  has_send_node_fn = true;
  has_got_pong_fn = true;
  iq_handlers = [];
}

abbrev result_node : Node
result_node =
    node (codes "iq")
      ((some (codes "id"), some (codes "a1")) ∷ (some (codes "type"), some (codes "result")) ∷ [])
      (child (node (codes "sync") [] no_nodes absent) no_nodes) absent

process-Announces_example :
    Announces
      (process whole_processor (seconds 131) returns_after one_callback result_node).result
      (process whole_processor (seconds 131) returns_after one_callback result_node).effects
process-Announces_example =
    process-Announces whole_processor (seconds 131) returns_after one_callback result_node
