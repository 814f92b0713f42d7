-- ===== src/Router/Clearing.antt =====
-- Whether the dict of the registry and the list of the router keep the same processors, which
-- `clear` relies on.
use zowpy.Prelude.{
  ==_refl, Option-cases, Text, text_eq_refl, ℕ, ◌+◌, ◌≡◌, refl, ◌∙◌, inl, inr, true, Option, none,
  some, List, [], ◌∷◌, arith,
}
use zowpy.Router.{empty_router, is_member, unregister, Processor}
use zowpy.Router.Registry.{
  registry, find_named, delete, name_or_class, register_named, unregister_named, unregister_all,
  names_of, clear, Registry,
}
use zowpy.Router.Counts.{
  one, count, count_named, count-register, count-member, count-remove, count-assign_new,
  count-assign_old, count-delete, find_named-assign,
}

module _ {R : Type 0} where
  -- The router has each processor as often as the dict, and `extra` times more.
  abbrev pub Holds : (ℕ → ℕ) → Registry R → Type 0
  Holds extra reg = (i : ℕ) → count i reg.router.processors ≡ count_named i reg.named + extra i

  unregister-Holds :
      (extra : ℕ → ℕ) (reg : Registry R) (name : Text)
      → Holds extra reg
      → Holds extra (unregister_named reg name)
  unfolding unregister_named unregister
  unregister-Holds extra reg name h i = elim (Option-cases (find_named name reg.named)) [
    | inl e ↦ rw (e, unregister_named) (h i)
    | inr (p, e) ↦
        let itself : one p.identity p ≡ 1 = unfold one in ground arith in
        let there : is_member p reg.router.processors ≡ true =
          count-member p reg.router.processors
            (omega (arith, h p.identity, count-delete p.identity name p reg.named e, itself)) in
        rw (e, unregister_named, there)
          (omega (
            arith,
            h i,
            count-delete i name p reg.named e,
            count-remove i p reg.router.processors there,
          ))
  ]

  unregister-named :
      (name : Text) (p : Processor R) (ps : List (Text × Processor R)) (reg : Registry R)
      → reg.named ≡ (name, p) ∷ ps
      → (unregister_named reg name).named ≡ ps
  unfolding unregister_named find_named delete
  unregister-named name p ps reg e =
      let found : find_named name reg.named ≡ some p = rw e (rw (text_eq_refl name) refl) in
      let deleted : delete name reg.named ≡ ps = rw e (rw (text_eq_refl name) refl) in
      rw (found, unregister_named) deleted

  unregister_all-Holds :
      (extra : ℕ → ℕ) (ps : List (Text × Processor R)) (reg : Registry R)
      → reg.named ≡ ps
      → Holds extra reg
      → ((unregister_all (names_of ps) reg).named ≡ [])
        × Holds extra (unregister_all (names_of ps) reg)
  unfolding unregister_all names_of
  unregister_all-Holds extra [] reg e h = (e, h)
  unregister_all-Holds extra ((m, p) ∷ ps) reg e h =
      unregister_all-Holds extra ps (unregister_named reg m) (unregister-named m p ps reg e)
        (unregister-Holds extra reg m h)

  clear-Holds :
      (extra : ℕ → ℕ) (reg : Registry R)
      → Holds extra reg
      → ((clear reg).named ≡ []) × ((i : ℕ) → count i (clear reg).router.processors ≡ extra i)
  unfolding clear
  clear-Holds extra reg h =
      let (none_named, rest) = unregister_all-Holds extra reg.named reg refl h in
      (none_named, λ i. rest i ∙ rw none_named (unfold count_named in omega arith))

  register_new-Holds :
      (extra : ℕ → ℕ) (reg : Registry R) (p : Processor R) (name : Option Text)
      → find_named (name_or_class name p) reg.named ≡ none
      → Holds extra reg
      → Holds extra (register_named reg p name)
  unfolding register_named
  register_new-Holds extra reg p name new h i = omega (
    arith,
    h i,
    count-register i reg.router p,
    count-assign_new i (name_or_class name p) p reg.named new,
  )

  register_old-Holds :
      (extra : ℕ → ℕ) (reg : Registry R) (p old : Processor R) (name : Option Text)
      → find_named (name_or_class name p) reg.named ≡ some old
      → Holds extra reg
      → Holds (λ i. extra i + one i old) (register_named reg p name)
  unfolding register_named
  register_old-Holds extra reg p old name there h i = omega (
    arith,
    h i,
    count-register i reg.router p,
    count-assign_old i (name_or_class name p) p old reg.named there,
  )

  count-empty : (ps : List (Processor R)) → ((i : ℕ) → count i ps ≡ 0) → ps ≡ []
  unfolding count one
  count-empty [] h = refl
  count-empty (p ∷ ps) h =
      let self = ==_refl p.identity in absurd (ground (arith, self, h p.identity))

  -- The registries that calls lead to in which no name was registered while it was taken.
  pub data IsFresh : Registry R → Type 0 where
    starts : IsFresh (registry empty_router)
    adds :
        (reg : Registry R) (p : Processor R) (name : Option Text)
        → IsFresh reg
        → find_named (name_or_class name p) reg.named ≡ none
        → IsFresh (register_named reg p name)
    takes : (reg : Registry R) (name : Text) → IsFresh reg → IsFresh (unregister_named reg name)

  IsFresh-Holds : (reg : Registry R) → IsFresh reg → Holds (λ i. 0) reg
  IsFresh-Holds _ starts = unfold count count_named in λ i. refl
  IsFresh-Holds _ (adds reg p name h new) =
      register_new-Holds (λ i. 0) reg p name new (IsFresh-Holds reg h)
  IsFresh-Holds _ (takes reg name h) = unregister-Holds (λ i. 0) reg name (IsFresh-Holds reg h)

  -- Where no name was registered while it was taken, `clear` empties the dict and leaves the router
  -- without processors.
  pub clear-empties :
      (reg : Registry R)
      → IsFresh reg
      → ((clear reg).named ≡ []) × ((clear reg).router.processors ≡ [])
  clear-empties reg h =
      let (none_named, counts) = clear-Holds (λ i. 0) reg (IsFresh-Holds reg h) in
      (none_named, count-empty (clear reg).router.processors counts)

  -- Where a processor is registered under a name and another under the same name, the first one is
  -- still in the router after `clear`, though the dict is empty.
  pub clear-keeps_replaced :
      (reg : Registry R) (p q : Processor R) (name : Text)
      → IsFresh reg
      → find_named name reg.named ≡ none
      → ((clear (register_named (register_named reg p (some name)) q (some name))).named ≡ [])
        × (is_member p
              (clear
                (register_named (register_named reg p (some name)) q (some name))).router.processors
            ≡ true)
  unfolding name_or_class
  clear-keeps_replaced reg p q name h new =
      let first = register_named reg p (some name) in
      let both = register_named first q (some name) in
      let there : find_named name first.named ≡ some p =
        unfold register_named in find_named-assign name p reg.named in
      let held = register_new-Holds (λ i. 0) reg p (some name) new (IsFresh-Holds reg h) in
      let (none_named, counts) =
        clear-Holds (λ i. 0 + one i p) both
          (register_old-Holds (λ i. 0) first q p (some name) there held) in
      let itself : one p.identity p ≡ 1 = unfold one in ground arith in
      (
        none_named,
        count-member p (clear both).router.processors (omega (arith, counts p.identity, itself)),
      )
