-- ===== src/Router/Counts.antt =====
-- How often a processor stands in the list of the router and in the dict of the registry.
use zowpy.Prelude.{
  leb, ◌==◌, if◌then◌else◌, Bool-cases, Text, text_eq, text_eq_refl, ℕ, ◌+◌, ◌<◌, ◌≡◌, refl, inl,
  inr, true, none, some, List, [], ◌∷◌, ◌++◌, arith,
}
use zowpy.Router.{insert, sort, register, is_member, remove, Processor, Router}
use zowpy.Router.Registry.{find_named, assign, delete}

module _ {R : Type 0} where
  -- How often the processor of an identity stands in a list.
  unfoldable pub one : ℕ → Processor R → ℕ
  one i p = if p.identity == i then 1 else 0

  unfoldable pub count : ℕ → List (Processor R) → ℕ
  unfolding one
  count i [] = 0
  count i (p ∷ ps) = one i p + count i ps

  unfoldable pub count_named : ℕ → List (Text × Processor R) → ℕ
  unfolding one
  count_named i [] = 0
  count_named i ((m, p) ∷ ps) = one i p + count_named i ps

  count-append : (i : ℕ) (ps qs : List (Processor R)) → count i (ps ++ qs) ≡ count i ps + count i qs
  unfolding count
  count-append i [] qs = omega arith
  count-append i (p ∷ ps) qs = omega (arith, count-append i ps qs)

  count-insert :
      (i : ℕ) (p : Processor R) (ps : List (Processor R))
      → count i (insert p ps) ≡ one i p + count i ps
  unfolding count insert
  count-insert i p [] = refl
  count-insert i p (q ∷ qs) = elim (Bool-cases (leb q.priority p.priority)) [
    | inl e ↦ rw e refl
    | inr e ↦ rw e (omega (arith, count-insert i p qs))
  ]

  count-sort : (i : ℕ) (ps : List (Processor R)) → count i (sort ps) ≡ count i ps
  unfolding count sort
  count-sort i [] = refl
  count-sort i (p ∷ ps) = omega (arith, count-insert i p (sort ps), count-sort i ps)

  pub count-register :
      (i : ℕ) (r : Router R) (p : Processor R)
      → count i (register r p).processors ≡ count i r.processors + one i p
  unfolding register
  count-register i r p =
      let last : count i (p ∷ []) ≡ one i p + 0 = unfold count in refl in
      omega (arith, count-sort i (r.processors ++ p ∷ []), count-append i r.processors (p ∷ []))

  pub count-member :
      (p : Processor R) (ps : List (Processor R)) → 0 < count p.identity ps → is_member p ps ≡ true
  unfolding count is_member one
  count-member p [] h = absurd (omega arith)
  count-member p (q ∷ qs) h = elim (Bool-cases (q.identity == p.identity)) [
    | inl e ↦ rw e refl
    | inr e ↦ rw e (count-member p qs (ground arith))
  ]

  one-same : (i : ℕ) (p q : Processor R) → p.identity ≡ q.identity → one i p ≡ one i q
  unfolding one
  one-same i p q e = rw e refl

  pub count-remove :
      (i : ℕ) (p : Processor R) (ps : List (Processor R))
      → is_member p ps ≡ true
      → count i ps ≡ count i (remove p ps) + one i p
  unfolding count remove is_member
  count-remove i p [] h = absurd (cc)
  count-remove i p (q ∷ qs) h = elim (Bool-cases (q.identity == p.identity)) [
    | inl e ↦ rw e (omega (arith, one-same i q p (ground arith)))
    | inr e ↦ rw e (omega (arith, count-remove i p qs (ground arith)))
  ]

  pub count-assign_new :
      (i : ℕ) (name : Text) (p : Processor R) (ps : List (Text × Processor R))
      → find_named name ps ≡ none
      → count_named i (assign name p ps) ≡ count_named i ps + one i p
  unfolding count_named assign find_named
  count-assign_new i name p [] h = omega arith
  count-assign_new i name p ((m, q) ∷ ps) h = elim (Bool-cases (text_eq name m)) [
    | inl e ↦ absurd (ground arith)
    | inr e ↦ rw e (omega (arith, count-assign_new i name p ps (ground arith)))
  ]

  pub count-assign_old :
      (i : ℕ) (name : Text) (p old : Processor R) (ps : List (Text × Processor R))
      → find_named name ps ≡ some old
      → count_named i (assign name p ps) + one i old ≡ count_named i ps + one i p
  unfolding count_named assign find_named
  count-assign_old i name p old [] h = absurd (cc)
  count-assign_old i name p old ((m, q) ∷ ps) h = elim (Bool-cases (text_eq name m)) [
    | inl e ↦ let same : q ≡ old = ground arith in rw (e, same) (omega arith)
    | inr e ↦ rw e (omega (arith, count-assign_old i name p old ps (ground arith)))
  ]

  pub count-delete :
      (i : ℕ) (name : Text) (old : Processor R) (ps : List (Text × Processor R))
      → find_named name ps ≡ some old
      → count_named i ps ≡ count_named i (delete name ps) + one i old
  unfolding count_named delete find_named
  count-delete i name old [] h = absurd (cc)
  count-delete i name old ((m, q) ∷ ps) h = elim (Bool-cases (text_eq name m)) [
    | inl e ↦ let same : q ≡ old = ground arith in rw (e, same) (omega arith)
    | inr e ↦ rw e (omega (arith, count-delete i name old ps (ground arith)))
  ]

  pub find_named-assign :
      (name : Text) (p : Processor R) (ps : List (Text × Processor R))
      → find_named name (assign name p ps) ≡ some p
  unfolding find_named assign
  find_named-assign name p [] = rw (text_eq_refl name) refl
  find_named-assign name p ((m, q) ∷ ps) = elim (Bool-cases (text_eq name m)) [
    | inl e ↦ rw (e, e) refl
    | inr e ↦ rw (e, e) (find_named-assign name p ps)
  ]
