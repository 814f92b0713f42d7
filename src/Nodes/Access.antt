-- ===== src/Nodes/Access.antt =====
-- Attributes and children of a node.
use zowpy.Prelude.{
  if◌then◌else◌, Bool-cases, Option-cases, get_elem?, Text, text_eq→eq, text_eq_refl, ◌≡◌, refl, ap,
  inl, inr, true, false, Option, none, some, List, [], ◌∷◌, ◌++◌, arith,
}
use zowpy.Coder.Node.{Attributes, Node, Nodes, no_nodes, child, missing}
use zowpy.Coder.Read.{key_eq, set_attribute}
use zowpy.Nodes.{get_attribute_value, tag_is, get_child, get_all_children, add_child}

key_eq→eq : (j k : Option Text) → key_eq j k ≡ true → j ≡ k
key_eq→eq none none h = refl
key_eq→eq none (some t) h = absurd (cc)
key_eq→eq (some s) none h = absurd (cc)
key_eq→eq (some s) (some t) h = ap some (text_eq→eq s t h)

key_eq_refl : (k : Option Text) → key_eq k k ≡ true
key_eq_refl none = refl
key_eq_refl (some s) = text_eq_refl s

get-set_self :
    (k v : Option Text) (attributes : Attributes)
    → get_attribute_value k (set_attribute k v attributes) ≡ v
unfolding get_attribute_value set_attribute
get-set_self k v [] = rw (key_eq_refl k) refl
get-set_self k v ((j, w) ∷ rest) = elim (Bool-cases (key_eq k j)) [
  | inl same ↦ rw (same, same) refl
  | inr differ ↦ rw (differ, differ) (get-set_self k v rest)
]

get-set_other :
    (i k v : Option Text) (attributes : Attributes)
    → key_eq i k ≡ false
    → get_attribute_value i (set_attribute k v attributes) ≡ get_attribute_value i attributes
unfolding get_attribute_value set_attribute
get-set_other i k v [] h = rw h refl
get-set_other i k v ((j, w) ∷ rest) h = elim (Bool-cases (key_eq k j)) [
  | inl same ↦ let other : key_eq i j ≡ false = rw (← key_eq→eq k j same) h in rw (same, other) refl
  | inr differ ↦ rw differ (elim (Bool-cases (key_eq i j)) [
    | inl here ↦ rw (here, get_attribute_value) refl
    | inr there ↦ rw (there, get_attribute_value) (get-set_other i k v rest h)
  ])
]

-- The attribute that was set is the one that is read, and every other attribute is as before.
pub get_attribute_value-set_attribute :
    (k v : Option Text) (attributes : Attributes)
    → (get_attribute_value k (set_attribute k v attributes) ≡ v)
      × ((i : Option Text)
          → key_eq i k ≡ false
          → get_attribute_value i (set_attribute k v attributes) ≡ get_attribute_value i attributes)
get_attribute_value-set_attribute k v attributes =
    (get-set_self k v attributes, λ i h. get-set_other i k v attributes h)

-- Where all children of a tag can be listed, the child of that tag is the first of them.
pub get_child-get_all_children :
    (tag : Text) (ns : Nodes) (found : List Node)
    → get_all_children tag ns ≡ some found
    → get_child tag ns ≡ some (get_elem? found 0)
unfolding get_child get_all_children
get_child-get_all_children tag no_nodes [] h = refl
get_child-get_all_children tag no_nodes (n ∷ ns) h = absurd (ground arith)
get_child-get_all_children tag (missing ns) found h = absurd (cc)
get_child-get_all_children tag (child n ns) found h =
    elim (Option-cases (get_all_children tag ns)) [
      | inl bad ↦ absurd (cc (rw bad at h))
      | inr (rest, good) ↦
          let tail = get_child-get_all_children tag ns rest good in
          elim (Bool-cases (tag_is tag n)) [
            | inl same ↦
                let whole : n ∷ rest ≡ found = cc (rw (good, same) at h) in rw (same, ← whole) refl
            | inr differ ↦
                let whole : rest ≡ found = cc (rw (good, differ) at h) in rw (differ, ← whole) tail
          ]
    ]

-- The children of a tag after one was added are those from before, with the new one last if it has
-- the tag.
pub get_all_children-add_child :
    (tag : Text) (ns : Nodes) (n : Node) (found : List Node)
    → get_all_children tag ns ≡ some found
    → get_all_children tag (add_child ns n) ≡ some (found ++ (if tag_is tag n then n ∷ [] else []))
unfolding get_all_children add_child
get_all_children-add_child tag no_nodes n [] h = elim (Bool-cases (tag_is tag n)) [
  | inl same ↦ rw same refl
  | inr differ ↦ rw differ refl
]
get_all_children-add_child tag no_nodes n (m ∷ ms) h = absurd (ground arith)
get_all_children-add_child tag (missing ns) n found h = absurd (cc)
get_all_children-add_child tag (child m ns) n found h =
    elim (Option-cases (get_all_children tag ns)) [
      | inl bad ↦ absurd (cc (rw bad at h))
      | inr (rest, good) ↦
          let more = get_all_children-add_child tag ns n rest good in
          elim (Bool-cases (tag_is tag m)) [
            | inl same ↦
                let whole : m ∷ rest ≡ found = cc (rw (good, same) at h) in
                rw (more, same, ← whole) refl
            | inr differ ↦
                let whole : rest ≡ found = cc (rw (good, differ) at h) in
                rw (more, differ, ← whole) refl
          ]
    ]
