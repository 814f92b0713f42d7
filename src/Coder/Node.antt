-- ===== src/Coder/Node.antt =====
-- `ProtocolNode` of zowpy/protocol/structs.py.
use zowpy.Prelude.{Text, ℕ, suc, Bool, true, false, Option, List}

-- `data` of a node: None, `bytes`, a `str` (a dictionary word that the decoder met as content), or
-- the list of character codes that the decoder leaves for packed content.
pub data Payload : Type 0 where
  absent : Payload
  bytes : List ℕ → Payload
  text : Text → Payload
  char_codes : List ℕ → Payload

-- A dict in insertion order. The decoder may store None as a key or as a value.
abbrev pub Attributes : Type 0
Attributes = List (Option Text × Option Text)

-- `missing` is a None in the list of children, which the decoder leaves for a stream end.
mutual
  pub data Node : Type 0 where
    node : Text → Attributes → Nodes → Payload → Node

  pub data Nodes : Type 0 where
    no_nodes : Nodes
    child : Node → Nodes → Nodes
    missing : Nodes → Nodes

abbrev pub count_nodes : Nodes → ℕ
count_nodes no_nodes = 0
count_nodes (child n ns) = suc (count_nodes ns)
count_nodes (missing ns) = suc (count_nodes ns)

-- `hasChildren`
abbrev pub has_children : Nodes → Bool
has_children no_nodes = false
has_children _ = true

abbrev pub is_absent : Payload → Bool
is_absent absent = true
is_absent _ = false
