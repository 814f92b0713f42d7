-- ===== src/Router/Registry.antt =====
-- `ProcessorRegistry` of zowpy/core/processors/registry.py.
use zowpy.Prelude.{if◌then◌else◌, Text, text_eq, Option, none, some, List, [], ◌∷◌}
use zowpy.Router.{register, unregister, Processor, Router}

-- The router, and the dict `_processors` in insertion order.
pub record Registry (R : Type 0) : Type 0 where
  pub router : Router R
  pub named : List (Text × Processor R)

module _ {R : Type 0} where
  -- `ProcessorRegistry(router)`
  abbrev pub registry : Router R → Registry R
  registry r = record { router = r; named = [] }

  unfoldable pub find_named : Text → List (Text × Processor R) → Option (Processor R)
  find_named name [] = none
  find_named name ((m, p) ∷ ps) = if text_eq name m then some p else find_named name ps

  unfoldable pub assign : Text → Processor R → List (Text × Processor R) → List (Text × Processor R)
  assign name p [] = (name, p) ∷ []
  assign name p ((m, q) ∷ ps) = if text_eq name m then (m, p) ∷ ps else (m, q) ∷ assign name p ps

  unfoldable pub delete : Text → List (Text × Processor R) → List (Text × Processor R)
  delete name [] = []
  delete name ((m, q) ∷ ps) = if text_eq name m then ps else (m, q) ∷ delete name ps

  unfoldable pub name_or_class : Option Text → Processor R → Text
  name_or_class none p = p.class_name
  name_or_class (some name) p = name

  unfoldable pub register_named : Registry R → Processor R → Option Text → Registry R
  unfolding assign name_or_class register
  register_named reg p name = record {
    router = register reg.router p;
    named = assign (name_or_class name p) p reg.named;
  }

  unfoldable pub unregister_named : Registry R → Text → Registry R
  unfolding find_named delete unregister
  unregister_named reg name = elim (find_named name reg.named) [
    | none ↦ reg
    | some p ↦ record { router = unregister reg.router p; named = delete name reg.named }
  ]

  unfoldable pub unregister_all : List Text → Registry R → Registry R
  unfolding unregister_named
  unregister_all [] reg = reg
  unregister_all (name ∷ names) reg = unregister_all names (unregister_named reg name)

  unfoldable pub names_of : List (Text × Processor R) → List Text
  names_of [] = []
  names_of ((m, p) ∷ ps) = m ∷ names_of ps

  unfoldable pub clear : Registry R → Registry R
  unfolding unregister_all names_of
  clear reg = unregister_all (names_of reg.named) reg
