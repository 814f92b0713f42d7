-- ===== src/Router/Examples.antt =====
-- The theorems on processors at concrete routers.
use zowpy.Prelude.{All, codes, ℕ, ◌<◌, refl, none, some, []}
use zowpy.Coder.Node.{absent, Node, node, no_nodes}
use zowpy.Router.{empty_router, register, route, returns, raises, Processor, Router}
use zowpy.Router.Order.{
  IsDescending, IsReachable-IsDescending, registers, IsReachable, starts, continues,
}
use zowpy.Router.Routing.{GivesNone, route-highest, IsFirst}
use zowpy.Router.Clearing.{starts}

abbrev ack_node : Node
ack_node = node (codes "ack") [] no_nodes absent

-- A processor that answers every node with its number, and one that raises.
abbrev numbered : ℕ → ℕ → Processor ℕ
numbered i priority = record {
  identity = i;
  class_name = codes "AckProcessor";
  priority = priority;
  answer = λ n raw_data. returns (some i);
}

abbrev failing : ℕ → ℕ → Processor ℕ
failing i priority = record {
  identity = i;
  class_name = codes "FailureProcessor";
  priority = priority;
  answer = λ n raw_data. raises;
}

abbrev two_processors : Router ℕ
two_processors = register (register empty_router (numbered 1 5)) (failing 2 18)

two_processors-IsReachable : IsReachable two_processors
two_processors-IsReachable =
    continues (register empty_router (numbered 1 5)) two_processors
      (continues empty_router (register empty_router (numbered 1 5)) starts
        (registers empty_router (numbered 1 5)))
      (registers (register empty_router (numbered 1 5)) (failing 2 18))

IsReachable-IsDescending_example : IsDescending two_processors.processors
IsReachable-IsDescending_example =
    IsReachable-IsDescending two_processors two_processors-IsReachable

route-highest_example :
    (first : IsFirst ack_node none two_processors.processors 1) × All
      (λ q. first.chosen.priority < q.priority → GivesNone ack_node none q)
      two_processors.processors
unfolding register route
route-highest_example = route-highest ack_node none two_processors 1 two_processors-IsReachable refl
