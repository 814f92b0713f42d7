-- ===== src/Router/Order.antt =====
-- The router's list is in order of priority, whatever is registered and unregistered.
use zowpy.Prelude.{
  leb, ◌==◌, leb→le, Bool-cases, All, ℕ, ◌≤◌, ◌≡◌, refl, inl, inr, Option, List, [], ◌∷◌, ◌++◌,
  arith,
}
use zowpy.Coder.Node.{Node}
use zowpy.Router.{
  tag_of, has_tag, empty_router, insert, sort, register, is_member, remove, unregister, route,
  Processor, Router,
}

module _ {R : Type 0} where
  abbrev pub AreBelow : ℕ → List (Processor R) → Type 0
  AreBelow n = All (λ q. q.priority ≤ n)

  -- Highest priority first.
  abbrev pub IsDescending : List (Processor R) → Type 0
  IsDescending [] = Unit
  IsDescending (p ∷ ps) = All (λ q. q.priority ≤ p.priority) ps × IsDescending ps

  insert-AreBelow :
      (n : ℕ) (p : Processor R) (ps : List (Processor R))
      → p.priority ≤ n
      → AreBelow n ps
      → AreBelow n (insert p ps)
  unfolding insert
  insert-AreBelow n p [] h k = (h, tt)
  insert-AreBelow n p (q ∷ qs) h k = elim (Bool-cases (leb q.priority p.priority)) [
    | inl e ↦ rw e (h, k)
    | inr e ↦ rw e (k.0, insert-AreBelow n p qs h k.1)
  ]

  AreBelow-le : (m n : ℕ) (ps : List (Processor R)) → m ≤ n → AreBelow m ps → AreBelow n ps
  AreBelow-le m n [] h k = tt
  AreBelow-le m n (p ∷ ps) h k = (omega (arith, k.0), AreBelow-le m n ps h k.1)

  insert-IsDescending :
      (p : Processor R) (ps : List (Processor R)) → IsDescending ps → IsDescending (insert p ps)
  unfolding insert
  insert-IsDescending p [] h = (tt, tt)
  insert-IsDescending p (q ∷ qs) h = elim (Bool-cases (leb q.priority p.priority)) [
    | inl e ↦
        rw e
          let low : q.priority ≤ p.priority = leb→le q.priority p.priority e in
            ((low, AreBelow-le q.priority p.priority qs low h.0), h)
    | inr e ↦
        rw e (insert-AreBelow q.priority p qs (ground arith) h.0, insert-IsDescending p qs h.1)
  ]

  sort-IsDescending : (ps : List (Processor R)) → IsDescending (sort ps)
  unfolding sort
  sort-IsDescending [] = tt
  sort-IsDescending (p ∷ ps) = insert-IsDescending p (sort ps) (sort-IsDescending ps)

  remove-AreBelow :
      (n : ℕ) (p : Processor R) (ps : List (Processor R)) → AreBelow n ps → AreBelow n (remove p ps)
  unfolding remove
  remove-AreBelow n p [] h = tt
  remove-AreBelow n p (q ∷ qs) h = elim (Bool-cases (q.identity == p.identity)) [
    | inl e ↦ rw e h.1
    | inr e ↦ rw e (h.0, remove-AreBelow n p qs h.1)
  ]

  remove-IsDescending :
      (p : Processor R) (ps : List (Processor R)) → IsDescending ps → IsDescending (remove p ps)
  unfolding remove
  remove-IsDescending p [] h = tt
  remove-IsDescending p (q ∷ qs) h = elim (Bool-cases (q.identity == p.identity)) [
    | inl e ↦ rw e h.1
    | inr e ↦ rw e (remove-AreBelow q.priority p qs h.0, remove-IsDescending p qs h.1)
  ]

  unregister-IsDescending :
      (r : Router R) (p : Processor R)
      → IsDescending r.processors
      → IsDescending (unregister r p).processors
  unfolding unregister
  unregister-IsDescending r p h = elim (Bool-cases (is_member p r.processors)) [
    | inl e ↦ rw e (remove-IsDescending p r.processors h)
    | inr e ↦ rw e h
  ]

  -- What one call does to a router.
  pub data Steps : Router R → Router R → Type 0 where
    registers : (r : Router R) (p : Processor R) → Steps r (register r p)
    unregisters : (r : Router R) (p : Processor R) → Steps r (unregister r p)
    routes : (r : Router R) (n : Node) (raw_data : Option (List ℕ)) → Steps r (route r n raw_data).1

  -- The routers that calls lead to, from an empty one.
  pub data IsReachable : Router R → Type 0 where
    starts : IsReachable empty_router
    continues : (r s : Router R) → IsReachable r → Steps r s → IsReachable s

  route-processors :
      (r : Router R) (n : Node) (raw_data : Option (List ℕ))
      → (route r n raw_data).1.processors ≡ r.processors
  unfolding route
  route-processors r n raw_data = elim (Bool-cases (has_tag (tag_of n) r.cached_tags)) [
    | inl e ↦ rw e refl
    | inr e ↦ rw e refl
  ]

  Steps-IsDescending :
      (r s : Router R) → Steps r s → IsDescending r.processors → IsDescending s.processors
  Steps-IsDescending r _ (registers _ p) h =
      unfold register in sort-IsDescending (r.processors ++ p ∷ [])
  Steps-IsDescending r _ (unregisters _ p) h = unregister-IsDescending r p h
  Steps-IsDescending r _ (routes _ n raw_data) h = rw (route-processors r n raw_data) h

  -- Every router that calls of `register`, `unregister` and `route` lead to has its processors in
  -- order of priority, highest first.
  pub IsReachable-IsDescending : (r : Router R) → IsReachable r → IsDescending r.processors
  IsReachable-IsDescending _ starts = tt
  IsReachable-IsDescending s (continues r _ h step) =
      Steps-IsDescending r s step (IsReachable-IsDescending r h)
