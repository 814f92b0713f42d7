-- ===== src/Python/Dict.antt =====
-- A `dict` with texts as keys, in insertion order: a list in which a key stands once at most.
use zowpy.Prelude.{
  if◌then◌else◌, Bool-cases, Text, text_eq, text_eq→eq, text_eq_refl, text_eq_ne, ◌≡◌, refl, sym,
  ap, ◌∙◌, ◌≢◌, inl, inr, Bool, true, false, Option, none, some, List, [], ◌∷◌,
}

abbrev has_key : Text → List Text → Bool
has_key i [] = false
has_key i (j ∷ ks) = let rest = has_key i ks in if text_eq i j then true else rest

false_ne_true : false ≢ true
false_ne_true e = cc

module _ {ℓ} {V : Type ℓ} where
  -- `d.get(k)`
  unfoldable pub lookup : Text → List (Text × V) → Option V
  lookup k [] = none
  lookup k ((j, v) ∷ d) = if text_eq k j then some v else lookup k d

  -- `d[k] = v`
  unfoldable pub store : Text → V → List (Text × V) → List (Text × V)
  store k v [] = (k, v) ∷ []
  store k v ((j, w) ∷ d) = if text_eq k j then (j, v) ∷ d else (j, w) ∷ store k v d

  -- `del d[k]`, and `d.pop(k, None)`
  unfoldable pub discard : Text → List (Text × V) → List (Text × V)
  discard k [] = []
  discard k ((j, w) ∷ d) = let rest = discard k d in if text_eq k j then rest else (j, w) ∷ rest

  abbrev pub keys : List (Text × V) → List Text
  keys [] = []
  keys ((j, w) ∷ d) = j ∷ keys d

  pub lookup-store : (k : Text) (v : V) (d : List (Text × V)) → lookup k (store k v d) ≡ some v
  unfolding lookup store
  lookup-store k v [] = rw (text_eq_refl k) refl
  lookup-store k v ((j, w) ∷ d) = elim (Bool-cases (text_eq k j)) [
    | inl same ↦ rw (same, lookup, same) refl
    | inr other ↦ rw (other, lookup, other) (lookup-store k v d)
  ]

  pub lookup-store_other :
      (i k : Text) (v : V) (d : List (Text × V))
      → text_eq i k ≡ false
      → lookup i (store k v d) ≡ lookup i d
  unfolding lookup store
  lookup-store_other i k v [] h = rw h refl
  lookup-store_other i k v ((j, w) ∷ d) h = elim (Bool-cases (text_eq k j)) [
    | inl same ↦
        let unlike : text_eq i j ≡ false = rw (← text_eq→eq k j same) h in
        rw (same, lookup, unlike) refl
    | inr other ↦
        rw (other, lookup)
          (ap (λ r. if text_eq i j then some w else r) (lookup-store_other i k v d h))
  ]

  pub lookup-discard : (k : Text) (d : List (Text × V)) → lookup k (discard k d) ≡ none
  unfolding lookup discard
  lookup-discard k [] = refl
  lookup-discard k ((j, w) ∷ d) = elim (Bool-cases (text_eq k j)) [
    | inl same ↦ rw same (lookup-discard k d)
    | inr other ↦ rw (other, lookup, other) (lookup-discard k d)
  ]

  pub lookup-discard_other :
      (i k : Text) (d : List (Text × V)) → text_eq i k ≡ false → lookup i (discard k d) ≡ lookup i d
  unfolding lookup discard
  lookup-discard_other i k [] h = refl
  lookup-discard_other i k ((j, w) ∷ d) h = elim (Bool-cases (text_eq k j)) [
    | inl same ↦
        let unlike : text_eq i j ≡ false = rw (← text_eq→eq k j same) h in
        rw (same, unlike) (lookup-discard_other i k d h)
    | inr other ↦
        rw (other, lookup)
          (ap (λ r. if text_eq i j then some w else r) (lookup-discard_other i k d h))
  ]

  abbrev pub is_there : Option V → Bool
  is_there none = false
  is_there (some v) = true

  -- No key stands twice.
  abbrev pub IsDict : List (Text × V) → Type 0
  IsDict [] = Unit
  IsDict ((j, w) ∷ d) = (is_there (lookup j d) ≡ false) × IsDict d

  -- `[k for k, v in d.items() if test(v)]`
  unfoldable pub keys_where : (V → Bool) → List (Text × V) → List Text
  keys_where test [] = []
  keys_where test ((j, w) ∷ d) = let rest = keys_where test d in if test w then j ∷ rest else rest

  unfoldable pub discard_all : List Text → List (Text × V) → List (Text × V)
  unfolding discard
  discard_all [] d = d
  discard_all (k ∷ ks) d = discard_all ks (discard k d)

  either_way : (b : Bool) (a : Option V) → (if b then a else a) ≡ a
  either_way true a = refl
  either_way false a = refl

  lookup-discard_all :
      (i : Text) (ks : List Text) (d : List (Text × V))
      → lookup i (discard_all ks d) ≡ (if has_key i ks then none else lookup i d)
  unfolding discard_all
  lookup-discard_all i [] d = refl
  lookup-discard_all i (k ∷ ks) d =
      lookup-discard_all i ks (discard k d) ∙ elim (Bool-cases (text_eq i k)) [
        | inl same ↦
            let gone : lookup i (discard k d) ≡ none =
              let e : i ≡ k = text_eq→eq i k same in rw e (lookup-discard k d) in
            rw (same, gone) (either_way (has_key i ks) none)
        | inr other ↦ rw (other, lookup-discard_other i k d other) refl
      ]

  -- A value that passes a test is no value.
  abbrev pub unless_test : (V → Bool) → Option V → Option V
  unless_test test none = none
  unless_test test (some v) = if test v then none else some v

  abbrev passes : (V → Bool) → Option V → Bool
  passes test none = false
  passes test (some v) = test v

  passes-not_there :
      (test : V → Bool) (found : Option V) → is_there found ≡ false → passes test found ≡ false
  passes-not_there test none h = refl
  passes-not_there test (some v) h = absurd cc

  has_key-keys_where :
      (test : V → Bool) (i : Text) (d : List (Text × V))
      → IsDict d
      → has_key i (keys_where test d) ≡ passes test (lookup i d)
  unfolding keys_where lookup
  has_key-keys_where test i [] h = refl
  has_key-keys_where test i ((j, w) ∷ d) h =
      let rest = has_key-keys_where test i d h.1 in
      elim (Bool-cases (text_eq i j)) [
        | inl same ↦
            let e : i ≡ j = text_eq→eq i j same in
            let none_later : has_key i (keys_where test d) ≡ false =
              rest ∙ passes-not_there test (lookup i d) (ap (λ k. is_there (lookup k d)) e ∙ h.0) in
            elim (Bool-cases (test w)) [
              | inl passed ↦ rw (same, passed, same) refl
              | inr failed ↦ rw (same, failed) none_later
            ]
        | inr other ↦ elim (Bool-cases (test w)) [
          | inl passed ↦ rw (other, passed, other) rest
          | inr failed ↦ rw (other, failed) rest
        ]
      ]

  unless-passes :
      (test : V → Bool) (found : Option V)
      → (if passes test found then none else found) ≡ unless_test test found
  unless-passes test none = refl
  unless-passes test (some v) = refl

  -- What is left when the keys of the values that pass a test are deleted.
  pub lookup-discard_where :
      (test : V → Bool) (i : Text) (d : List (Text × V))
      → IsDict d
      → lookup i (discard_all (keys_where test d) d) ≡ unless_test test (lookup i d)
  lookup-discard_where test i d h =
      lookup-discard_all i (keys_where test d) d
      ∙ ap (λ b. if b then none else lookup i d) (has_key-keys_where test i d h)
      ∙ unless-passes test (lookup i d)

  pub store-IsDict : (k : Text) (v : V) (d : List (Text × V)) → IsDict d → IsDict (store k v d)
  unfolding store
  store-IsDict k v [] h = (unfold lookup in refl, tt)
  store-IsDict k v ((j, w) ∷ d) h = elim (Bool-cases (text_eq k j)) [
    | inl same ↦ rw same h
    | inr other ↦
        let unlike : text_eq j k ≡ false =
          text_eq_ne j k (λ e. false_ne_true (sym other ∙ rw e (text_eq_refl k))) in
        rw other (ap is_there (lookup-store_other j k v d unlike) ∙ h.0, store-IsDict k v d h.1)
  ]
