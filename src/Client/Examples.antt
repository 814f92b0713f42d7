-- ===== src/Client/Examples.antt =====
-- The theorems on the client's queues at concrete inputs.
use zowpy.Prelude.{
  ◌==◌, if◌then◌else◌, get_elem?, replicate, codes, ℕ, ◌^◌, ◌≤◌, String, ◌≡◌, refl, ◌≢◌, Bool, true,
  false, Option, none, some, [], ◌∷◌, arith,
}
use zowpy.Coder.Node.{Attributes, absent, Node, node, no_nodes}
use zowpy.Nodes.{get_attribute_value}
use zowpy.Iq.Dispatch.{IqProcessor}
use zowpy.Client.Urgent.{Takes, get_node-put_all_le}
use zowpy.Client.Queue.{
  priority_of, item_of, replace_at, swap, siftdown, put_node, get_node, put_all, Received, fails,
}
use zowpy.Client.Kept.{Leaves, get_node-Leaves}
use zowpy.Client.Waiting.{get_node-put_all_unordered}
use zowpy.Client.Prekeys.{flush_prekeys, on_sent_keys_error, answer_arrives, Keys, waits_for_lock}
use zowpy.Client.Flushed.{answer_arrives-marked, on_sent_keys_error-ending}
use zowpy.Client.Sent.{id_of, has_id, enqueue_sent_message, get_enqueued_message}
use zowpy.Client.Window.{enqueue_all, get_enqueued_message-enqueue_all}

abbrev message : String → Node
message id = node (codes "message") ((some (codes "id"), some (codes id)) ∷ []) no_nodes absent

get_enqueued_message-enqueue_all_example :
    (get_enqueued_message (codes "m2") true (
      enqueue_all
        (enqueue_sent_message (message "m1" ∷ []) (message "m2"))
        (replicate 255 (message "m3")))).0
    ≡ some (message "m2")
unfolding id_of get_attribute_value
get_enqueued_message-enqueue_all_example =
    get_enqueued_message-enqueue_all (message "m1" ∷ []) (message "m2")
      (replicate 255 (message "m3")) (codes "m2") true (refl, tt) refl (omega arith)

abbrev idle_keys : Keys
idle_keys = record {
  pending = none;
  is_locked = false;
  marked = 1 ∷ [];
  callbacks = [];
  requests = [];
}

abbrev client_processor : IqProcessor
client_processor = record {
  has_response_processor = true;
  has_send_node_fn = true;
  has_got_pong_fn = true;
  iq_handlers = [];
}

abbrev error_attributes : Attributes
error_attributes =
    (some (codes "id"), some (codes "k1")) ∷ (some (codes "type"), some (codes "error")) ∷ []

k1_ne_empty : codes "k1" ≢ []
k1_ne_empty e = cc

answer_arrives-marked_example :
    ((answer_arrives client_processor
        (10 ^ 6)
        7
        (2 ∷ 3 ∷ [])
        (node (codes "iq") error_attributes no_nodes absent)
        (flush_prekeys 0 (codes "k1") 7 (2 ∷ 3 ∷ []) 0 idle_keys).1).marked
      ≡ 1 ∷ 2 ∷ 3 ∷ [])
    × ((answer_arrives client_processor
          (10 ^ 6)
          7
          (2 ∷ 3 ∷ [])
          (node (codes "iq") error_attributes no_nodes absent)
          (flush_prekeys 0 (codes "k1") 7 (2 ∷ 3 ∷ []) 0 idle_keys).1).pending
        ≡ none)
unfolding get_attribute_value
answer_arrives-marked_example =
    answer_arrives-marked client_processor 0 (10 ^ 6) 7 0 (codes "k1") (2 ∷ 3 ∷ []) idle_keys
      (codes "iq") error_attributes no_nodes absent refl refl refl k1_ne_empty (omega arith)
      (omega arith)

abbrev pending_keys : Keys
pending_keys = record idle_keys { pending = some (2 ∷ 3 ∷ [], 0) }

on_sent_keys_error-ending_example :
    let (ending, after) =
      on_sent_keys_error 0 (codes "k2") 8 (some (some (codes "503"))) (2 ∷ 3 ∷ []) 0 pending_keys in
    (ending ≡ waits_for_lock) × (after.is_locked ≡ true) × (after.requests ≡ [])
on_sent_keys_error-ending_example =
    on_sent_keys_error-ending 0 (codes "k2") 8 (some (some (codes "503"))) (2 ∷ 3 ∷ []) 0
      pending_keys refl

abbrev of_id : String → Node
of_id word = node (codes "message") ((some (codes "id"), some (codes word)) ∷ []) no_nodes absent

-- Nodes whose ids differ cannot be compared; of nodes with one id, the bytes are.
abbrev unless_ids_differ : Received → Received → Option Bool
unless_ids_differ x y = elim (id_of x.received) [
  | none ↦ some false
  | some i ↦ if has_id i y.received then some false else none
]

get_node-Leaves_example :
    Leaves unless_ids_differ
      (λ item. item.priority == 2)
      (item_of [] (of_id "a") [] ∷ item_of [] (of_id "b") [] ∷ [])
      (get_node unless_ids_differ (item_of [] (of_id "a") [] ∷ item_of [] (of_id "b") [] ∷ []))
get_node-Leaves_example =
    get_node-Leaves unless_ids_differ (λ item. item.priority == 2)
      (item_of [] (of_id "a") [] ∷ item_of [] (of_id "b") [] ∷ [])

get_node-put_all_unordered_example :
    get_node unless_ids_differ (
      put_all unless_ids_differ
        (item_of [] (of_id "a") [] ∷ item_of [] (of_id "b") [] ∷ item_of [] (of_id "c") [] ∷ [])
        [])
    ≡ fails (item_of [] (of_id "b") [] ∷ item_of [] (of_id "c") [] ∷ [])
unfolding priority_of id_of get_attribute_value
get_node-put_all_unordered_example =
    get_node-put_all_unordered unless_ids_differ [] (of_id "a") (of_id "b") (of_id "c") [] [] []
      refl refl refl refl refl

abbrev offline_message : Node
offline_message =
    node (codes "message") ((some (codes "offline"), some (codes "1")) ∷ []) no_nodes absent

get_node-put_all_le_example :
    let items = item_of [] offline_message [] ∷ item_of [] (of_id "a") [] ∷ [] in
    let waiting = put_all unless_ids_differ items [] in
    Takes (item_of [] (of_id "a") []) (get_node unless_ids_differ waiting)
    × ((k : ℕ) (x : Received) → get_elem? waiting k ≡ some x → 2 ≤ x.priority)
unfolding priority_of put_all put_node siftdown swap replace_at get_attribute_value
get_node-put_all_le_example =
    get_node-put_all_le unless_ids_differ
      (item_of [] offline_message [] ∷ item_of [] (of_id "a") [] ∷ []) (item_of [] (of_id "a") [])
      refl
