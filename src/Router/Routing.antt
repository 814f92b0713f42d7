-- ===== src/Router/Routing.antt =====
-- Which processor's result a routed node has.
use zowpy.Prelude.{
  All, ℕ, ◌<◌, ◌≡◌, refl, sym, ap, ◌∙◌, ◌↔◌, ◌⊎◌, inl, inr, Option, none, some, List, [], ◌∷◌, ◌++◌,
  arith,
}
use zowpy.Coder.Node.{Node}
use zowpy.Router.{first_result, route, declines, returns, raises, Answer, Processor, Router}
use zowpy.Router.Order.{AreBelow, IsDescending, IsReachable-IsDescending, IsReachable}

module _ {R : Type 0} (n : Node) (raw_data : Option (List ℕ)) where
  -- The processor answers the node with this result, and with no result.
  abbrev pub Gives : R → Processor R → Type 0
  Gives result p = p.answer n raw_data ≡ returns (some result)

  abbrev pub GivesNone : Processor R → Type 0
  GivesNone p = (result : R) → ¬ (Gives result p)

  -- `p` is in the list, gives the result, and those before it give none.
  pub record IsFirst (ps : List (Processor R)) (result : R) : Type 0 where
    pub before : List (Processor R)
    pub chosen : Processor R
    pub after : List (Processor R)
    pub split : ps ≡ before ++ chosen ∷ after
    pub gives : Gives result chosen
    pub others : All GivesNone before

  Answer-cases :
      (p : Processor R) (ps : List (Processor R)) (a : Answer R)
      → p.answer n raw_data ≡ a
      → ((result : R) × (Gives result p) × (first_result (p ∷ ps) n raw_data ≡ some result))
        ⊎ (GivesNone p × (first_result (p ∷ ps) n raw_data ≡ first_result ps n raw_data))
  unfolding first_result
  Answer-cases p ps declines e = inr ((λ result h. cc), rw e refl)
  Answer-cases p ps raises e = inr ((λ result h. cc), rw e refl)
  Answer-cases p ps (returns none) e = inr ((λ result h. cc), rw e refl)
  Answer-cases p ps (returns (some result)) e = inl (result, e, rw e refl)

  first_result-IsFirst :
      (ps : List (Processor R)) (result : R)
      → first_result ps n raw_data ≡ some result
      → IsFirst ps result
  first_result-IsFirst [] result h = absurd (unfold first_result in cc)
  first_result-IsFirst (p ∷ ps) result h = elim (Answer-cases p ps (p.answer n raw_data) refl) [
    | inl (other, gives, e) ↦ record {
      before = [];
      chosen = p;
      after = ps;
      split = refl;
      gives = gives ∙ ap returns (sym e ∙ h);
      others = tt;
    }
    | inr (none_here, e) ↦
        let rest = first_result-IsFirst ps result (sym e ∙ h) in
        record {
          before = p ∷ rest.before;
          chosen = rest.chosen;
          after = rest.after;
          split = ap (λ qs. p ∷ qs) rest.split;
          gives = rest.gives;
          others = (none_here, rest.others);
        }
  ]

  first_result-none :
      (ps : List (Processor R)) → first_result ps n raw_data ≡ none → All GivesNone ps
  first_result-none [] h = tt
  first_result-none (p ∷ ps) h = elim (Answer-cases p ps (p.answer n raw_data) refl) [
    | inl (result, gives, e) ↦ absurd (cc)
    | inr (none_here, e) ↦ (none_here, first_result-none ps (sym e ∙ h))
  ]

  none-first_result :
      (ps : List (Processor R)) → All GivesNone ps → first_result ps n raw_data ≡ none
  none-first_result [] h = unfold first_result in refl
  none-first_result (p ∷ ps) h = elim (Answer-cases p ps (p.answer n raw_data) refl) [
    | inl (result, gives, e) ↦ absurd (h.0 result gives)
    | inr (none_here, e) ↦ e ∙ none-first_result ps h.1
  ]

  below :
      (chosen : Processor R) (qs : List (Processor R))
      → AreBelow chosen.priority qs
      → All (λ q. chosen.priority < q.priority → GivesNone q) qs
  below chosen [] k = tt
  below chosen (q ∷ qs) k = ((λ l. absurd (omega (arith, k.0))), below chosen qs k.1)

  -- In a list in order, a processor after the chosen one has no higher priority.
  higher-GivesNone :
      (before after : List (Processor R)) (chosen : Processor R)
      → IsDescending (before ++ chosen ∷ after)
      → All GivesNone before
      → All (λ q. chosen.priority < q.priority → GivesNone q) (before ++ chosen ∷ after)
  higher-GivesNone [] after chosen order h =
      ((λ k. absurd (omega arith)), below chosen after order.0)
  higher-GivesNone (b ∷ bs) after chosen order h =
      ((λ k. h.0), higher-GivesNone bs after chosen order.1 h.1)

  -- The result of a routed node is that of a registered processor, and no processor of a higher
  -- priority gives a result for the node: it declines, returns None or raises.
  pub route-highest :
      (r : Router R) (result : R)
      → IsReachable r
      → (route r n raw_data).0 ≡ some result
      → (first : IsFirst r.processors result) × All
          (λ q. first.chosen.priority < q.priority → GivesNone q)
          r.processors
  unfolding route
  route-highest r result h e =
      let first = first_result-IsFirst r.processors result e in
      let order = IsReachable-IsDescending r h in
      (
        first,
        rw first.split (
            higher-GivesNone first.before first.after first.chosen (rw (← first.split) order)
              first.others),
      )

  -- A node is left without a result exactly if no registered processor gives one: the exception of
  -- one does not keep the node from the others.
  pub route-none_iff : (r : Router R) → ((route r n raw_data).0 ≡ none) ↔ All GivesNone r.processors
  unfolding route
  route-none_iff r = (first_result-none r.processors, none-first_result r.processors)
