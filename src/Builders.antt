-- ===== src/Builders.antt =====
-- `IQBuilder` of zowpy/core/builders/iq_builder.py, and the nodes that the builders put together.
use zowpy.Prelude.{
  Text, codes, String, ◌≡◌, refl, sym, ap, ◌∙◌, Option, none, some, List, [], ◌∷◌, ◌++◌,
  append_assoc, append-nil,
}
use zowpy.Coder.Node.{Attributes, absent, Node, node, Nodes, no_nodes, child}
use zowpy.Nodes.{add_child}
pub mod Ids
pub mod Prekeys
pub mod Receipts
mod Examples

-- `children=[...]`
abbrev pub nodes_of : List Node → Nodes
nodes_of [] = no_nodes
nodes_of (n ∷ ns) = child n (nodes_of ns)

-- `add_children`
unfoldable pub add_children : Nodes → List Node → Nodes
unfolding add_child
add_children ns [] = ns
add_children ns (n ∷ more) = add_children (add_child ns n) more

abbrev pub attribute : String → Text → Option Text × Option Text
attribute key value = (some (codes key), some value)

-- The attribute, where the value is neither None nor empty.
abbrev pub optional : String → Option Text → Attributes
optional key none = []
optional key (some []) = []
optional key (some (c ∷ cs)) = attribute key (c ∷ cs) ∷ []

-- The id that was given, or a new one.
abbrev pub own_id : Text → Option Text → Text
own_id generated none = generated
own_id generated (some []) = generated
own_id generated (some (c ∷ cs)) = c ∷ cs

-- `build_base_iq`, with the id that `generate_iq_id` returns if it is called.
unfoldable pub build_base_iq : Text → Text → Text → Option Text → Option Text → Option Text → Node
build_base_iq generated xmlns iq_type iq_id to from_jid =
    node (codes "iq")
      ((attribute "id" (own_id generated iq_id)
          ∷ attribute "type" iq_type
          ∷ attribute "xmlns" xmlns
          ∷ [])
        ++ optional "to" to
        ++ optional "from" from_jid)
      no_nodes absent

add_child-nodes_of :
    (xs : List Node) (y : Node) → add_child (nodes_of xs) y ≡ nodes_of (xs ++ y ∷ [])
unfolding add_child
add_child-nodes_of [] y = refl
add_child-nodes_of (x ∷ xs) y = ap (child x) (add_child-nodes_of xs y)

-- Children are added in order.
pub add_children-nodes_of :
    (xs ys : List Node) → add_children (nodes_of xs) ys ≡ nodes_of (xs ++ ys)
unfolding add_children
add_children-nodes_of xs [] = ap nodes_of (sym (append-nil xs))
add_children-nodes_of xs (y ∷ ys) =
    ap (λ n. add_children n ys) (add_child-nodes_of xs y)
    ∙ add_children-nodes_of (xs ++ y ∷ []) ys
    ∙ ap nodes_of (append_assoc xs (y ∷ []) ys)
