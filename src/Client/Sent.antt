-- ===== src/Client/Sent.antt =====
-- The queue of sent messages, from which a message is sent again.
use zowpy.Prelude.{
  leb, if◌then◌else◌, length, drop, Text, codes, text_eq, ℕ, Bool, false, Option, none, some, List,
  [], ◌∷◌, ◌++◌,
}
use zowpy.Coder.Node.{Node, node}
use zowpy.Nodes.{get_attribute_value}

abbrev pub max_sent_queue : ℕ
max_sent_queue = 256

-- `node.get_attribute("id")`
unfoldable pub id_of : Node → Option Text
unfolding get_attribute_value
id_of (node tag attributes children payload) = get_attribute_value (some (codes "id")) attributes

abbrev pub has_id : Text → Node → Bool
has_id message_id n = elim (id_of n) [ none ↦ false | some i ↦ text_eq i message_id ]

-- `_enqueue_sent_message`
unfoldable pub enqueue_sent_message : List Node → Node → List Node
enqueue_sent_message queue n =
    if leb max_sent_queue (length queue) then drop 1 queue ++ n ∷ [] else queue ++ n ∷ []

-- `_get_enqueued_message`: the message, and the queue after the call.
unfoldable pub get_enqueued_message : Text → Bool → List Node → Option Node × List Node
get_enqueued_message message_id keep_enqueued [] = (none, [])
get_enqueued_message message_id keep_enqueued (n ∷ queue) =
    let (found, rest) = get_enqueued_message message_id keep_enqueued queue in
    if has_id message_id n
    then (some n, if keep_enqueued then n ∷ queue else queue)
    else (found, n ∷ rest)
