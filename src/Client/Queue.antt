-- ===== src/Client/Queue.antt =====
-- The queue of received nodes in `_message_loop` of zowpy/core/client.py: an `asyncio.PriorityQueue`,
-- which keeps its items with `heapq`.
use zowpy.Prelude.{
  ltb, leb, ◌==◌, if◌then◌else◌, length, get_elem?, Text, codes, text_eq, ℕ, zero, suc, ◌+◌, ◌*◌,
  ◌/◌, Bool, true, false, ◌||◌, Option, none, some, List, [], ◌∷◌, ◌++◌,
}
use zowpy.Coder.Node.{Node, node}
use zowpy.Iq.{Callbacks, has_callback}
use zowpy.Iq.Dispatch.{attribute_of, is_set}

-- An item `(priority, (node, decrypted))`.
pub record Received : Type 0 where
  pub priority : ℕ
  pub received : Node
  pub decrypted : List ℕ

-- `has_callback`, which is false for None.
abbrev pub awaits : Option Text → Callbacks → Bool
awaits none callbacks = false
awaits (some id) callbacks = has_callback id callbacks

-- The priority that `receive_loop` gives a node.
unfoldable pub priority_of : Callbacks → Node → ℕ
unfolding has_callback
priority_of callbacks (node tag attributes children payload) =
    if text_eq tag (codes "iq")
    then (if awaits (attribute_of "id" attributes) callbacks then 0 else 1)
    else if text_eq tag (codes "presence")
        || text_eq tag (codes "notification")
        || text_eq tag (codes "ack")
    then 1
    else if text_eq tag (codes "message")
    then (if is_set (attribute_of "offline" attributes)
          || is_set (attribute_of "history" attributes)
        then 3
        else 2)
    else 2

-- What `receive_loop` puts for a node.
abbrev pub item_of : Callbacks → Node → List ℕ → Received
item_of callbacks n decrypted = record {
  priority = priority_of callbacks n;
  received = n;
  decrypted = decrypted;
}

abbrev pub max_size : ℕ
max_size = 5000

module _ {ℓ} {A : Type ℓ} where
  -- `xs[i] = a`
  unfoldable pub replace_at : ℕ → A → List A → List A
  replace_at i a [] = []
  replace_at zero a (x ∷ xs) = a ∷ xs
  replace_at (suc i) a (x ∷ xs) = x ∷ replace_at i a xs

  unfoldable pub swap : ℕ → ℕ → List A → List A
  unfolding replace_at
  swap i j xs = elim (get_elem? xs i) [
    | none ↦ xs
    | some a ↦ elim (get_elem? xs j) [ none ↦ xs | some b ↦ replace_at i b (replace_at j a xs) ]
  ]

  -- The last element, which `list.pop` takes, and the others.
  unfoldable pub pop_last : A → List A → A × List A
  pop_last x [] = (x, [])
  pop_last x (y ∷ xs) = let (last, others) = pop_last y xs in (last, x ∷ others)

-- How a call ends, and the list after it.
pub data Sifted : Type 0 where
  settled type_error : List Received → Sifted

pub data Got : Type 0 where
  waits : Got
  gives : Received → List Received → Got
  fails : List Received → Got

pub data Put : Type 0 where
  queued discarded raises : List Received → Put

abbrev pub after_push : Sifted → Put
after_push (settled heap) = queued heap
after_push (type_error heap) = raises heap

abbrev pub after_pop : Received → Sifted → Got
after_pop top (settled heap) = gives top heap
after_pop top (type_error heap) = fails heap

-- What waits after a `put`, of which the loop logs an exception.
abbrev pub waiting_after : Put → List Received
waiting_after (queued heap) = heap
waiting_after (discarded heap) = heap
waiting_after (raises heap) = heap

-- `<` on the pairs of a node and its bytes, which may raise.
module _ (pair_lt : Received → Received → Option Bool) where
  -- `<` on items: tuples compare their first elements that differ.
  abbrev pub item_lt : Received → Received → Option Bool
  item_lt a b = if a.priority == b.priority then pair_lt a b else some (ltb a.priority b.priority)

  abbrev pub compare_at : List Received → ℕ → ℕ → Option Bool
  compare_at heap i j = elim (get_elem? heap i) [
    | none ↦ some false
    | some a ↦ elim (get_elem? heap j) [ none ↦ some false | some b ↦ item_lt a b ]
  ]

  -- `_siftdown(heap, 0, pos)`, on fuel.
  unfoldable pub siftdown : ℕ → ℕ → List Received → Sifted
  unfolding swap
  siftdown zero pos heap = settled heap
  siftdown (suc f) zero heap = settled heap
  siftdown (suc f) (suc p) heap =
      let up = siftdown f (p / 2) (swap (suc p) (p / 2) heap) in
      elim (compare_at heap (suc p) (p / 2)) [
        | none ↦ type_error heap
        | some false ↦ settled heap
        | some true ↦ up
      ]

  -- The smaller child of a position that has one; `none` is the TypeError.
  unfoldable pub smaller_child : List Received → ℕ → Option ℕ
  smaller_child heap pos =
      let left = 2 * pos + 1 in
      if ltb (left + 1) (length heap)
      then (elim (compare_at heap left (left + 1)) [
        | none ↦ none
        | some true ↦ some left
        | some false ↦ some (left + 1)
      ])
      else some left

  -- `_siftup(heap, pos)`, on fuel.
  unfoldable pub siftup : ℕ → ℕ → List Received → Sifted
  unfolding smaller_child siftdown swap
  siftup zero pos heap = settled heap
  siftup (suc f) pos heap =
      if ltb pos (length heap / 2)
      then (elim (smaller_child heap pos) [
        | none ↦ type_error heap
        | some below ↦ siftup f below (swap below pos heap)
      ])
      else siftdown (suc pos) pos heap

  -- `put` within its time: a queue that stays full makes the loop discard the node. `heappush` appends
  -- the item before it compares.
  unfoldable pub put_node : Received → List Received → Put
  unfolding siftdown
  put_node item heap =
      if leb max_size (length heap)
      then discarded heap
      else after_push (siftdown (length heap + 1) (length heap) (heap ++ item ∷ []))

  -- The last item takes the place of the first before anything is compared.
  unfoldable pub take_first : Received → List Received → Got
  unfolding siftup
  take_first last [] = gives last []
  take_first last (top ∷ below) = after_pop top (siftup (length below + 1) 0 (last ∷ below))

  -- `get`, which calls `heappop`.
  unfoldable pub get_node : List Received → Got
  unfolding pop_last take_first
  get_node [] = waits
  get_node (first ∷ rest) = let (last, others) = pop_last first rest in take_first last others

  -- What waits after nodes were put one by one.
  unfoldable pub put_all : List Received → List Received → List Received
  unfolding put_node
  put_all [] heap = heap
  put_all (item ∷ items) heap = put_all items (waiting_after (put_node item heap))
