-- ===== src/Nodes/Examples.antt =====
-- The theorems on nodes at concrete nodes.
use zowpy.Prelude.{codes, ◌≡◌, some, [], ◌∷◌, arith}
use zowpy.Coder.Node.{absent, bytes, Node, node, no_nodes, child}
use zowpy.Nodes.{to_dict, from_dict, NodeDict}
use zowpy.Nodes.Dicts.{from_dict-to_dict, none_kept, bytes_kept, IsWhole, whole, no_more, one_more}

abbrev body : Node
body = node (codes "body") [] no_nodes (bytes (104 ∷ 105 ∷ []))

abbrev message_node : Node
message_node = node (codes "message") [] (child body no_nodes) absent

message_node-IsWhole : IsWhole message_node
message_node-IsWhole =
    whole (codes "message") [] (child body no_nodes) absent
      (one_more body no_nodes
        (whole (codes "body") [] no_nodes (bytes (104 ∷ 105 ∷ [])) no_more
          (bytes_kept 104 (105 ∷ []) (omega arith, (omega arith, tt))))
        no_more)
      none_kept

from_dict-to_dict_example :
    (d : NodeDict) × (to_dict message_node ≡ some d) × (from_dict d ≡ some message_node)
from_dict-to_dict_example = from_dict-to_dict message_node message_node-IsWhole
