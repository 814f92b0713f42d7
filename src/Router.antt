-- ===== src/Router.antt =====
-- zowpy/core/processors: `BaseProcessor` of base.py and `NodeRouter` of router.py. A processor is
-- an object that the router knows by its identity. What its coroutines answer is a function of the
-- node and the raw data, so processors that register others while a node is routed are left out.
use zowpy.Prelude.{
  leb, ◌==◌, if◌then◌else◌, Text, text_eq, ℕ, Bool, false, ◌||◌, Option, none, some, List, [], ◌∷◌,
  ◌++◌,
}
use zowpy.Coder.Node.{Node, node}
pub mod Order
pub mod Routing
pub mod Registry
pub mod Counts
pub mod Clearing
mod Examples

-- What `can_handle` and `process` do together: decline, return None or a result, or raise.
pub data Answer (R : Type 0) : Type 0 where
  declines : Answer R
  returns : Option R → Answer R
  raises : Answer R

pub record Processor (R : Type 0) : Type 0 where
  pub identity : ℕ
  pub class_name : Text
  pub priority : ℕ
  pub answer : Node → Option (List ℕ) → Answer R

-- The tags are the keys of `_tag_cache`. Its values are all the list `_processors` itself, which is
-- changed in place and never replaced by another list.
pub record Router (R : Type 0) : Type 0 where
  pub processors : List (Processor R)
  pub cached_tags : List Text

abbrev pub tag_of : Node → Text
tag_of (node tag attributes children payload) = tag

unfoldable pub has_tag : Text → List Text → Bool
has_tag tag [] = false
has_tag tag (t ∷ ts) = text_eq tag t || has_tag tag ts

module _ {R : Type 0} where
  -- `NodeRouter()`
  abbrev pub empty_router : Router R
  empty_router = record { processors = []; cached_tags = [] }

  -- `sort(key=…, reverse=True)`, which keeps the order of equal priorities.
  unfoldable pub insert : Processor R → List (Processor R) → List (Processor R)
  insert p [] = p ∷ []
  insert p (q ∷ qs) = if leb q.priority p.priority then p ∷ q ∷ qs else q ∷ insert p qs

  unfoldable pub sort : List (Processor R) → List (Processor R)
  unfolding insert
  sort [] = []
  sort (p ∷ ps) = insert p (sort ps)

  unfoldable pub register : Router R → Processor R → Router R
  unfolding sort
  register r p = record { processors = sort (r.processors ++ p ∷ []); cached_tags = [] }

  -- `in`, and `list.remove`, which removes the first one.
  unfoldable pub is_member : Processor R → List (Processor R) → Bool
  is_member p [] = false
  is_member p (q ∷ qs) = q.identity == p.identity || is_member p qs

  unfoldable pub remove : Processor R → List (Processor R) → List (Processor R)
  remove p [] = []
  remove p (q ∷ qs) = if q.identity == p.identity then qs else q ∷ remove p qs

  unfoldable pub unregister : Router R → Processor R → Router R
  unfolding is_member remove
  unregister r p =
      if is_member p r.processors
      then record { processors = remove p r.processors; cached_tags = [] }
      else r

  -- The loop of `route`: an exception is logged, and the loop goes on.
  unfoldable pub first_result : List (Processor R) → Node → Option (List ℕ) → Option R
  first_result [] n raw_data = none
  first_result (p ∷ ps) n raw_data = elim (p.answer n raw_data) [
    | returns (some result) ↦ some result
    | returns none ↦ first_result ps n raw_data
    | declines ↦ first_result ps n raw_data
    | raises ↦ first_result ps n raw_data
  ]

  -- The result, and the router after the call.
  unfoldable pub route : Router R → Node → Option (List ℕ) → Option R × Router R
  unfolding first_result has_tag
  route r n raw_data = (
    first_result r.processors n raw_data,
    if has_tag (tag_of n) r.cached_tags
        then r
        else record r { cached_tags = r.cached_tags ++ tag_of n ∷ [] },
  )
