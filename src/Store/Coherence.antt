-- ===== src/Store/Coherence.antt =====
-- What is in the cache is what the database has.
use zowpy.Prelude.{
  ltb, if◌then◌else◌, Bool-cases, Text, text_eq, text_eq→eq, ℕ, ◌≡◌, refl, sym, ap, ◌∙◌, ◌≢◌, inl,
  inr, false, Option, none, some, [], ◌∷◌,
}
use zowpy.Result.{Result-cases, Result, ok, err}
use zowpy.Python.Dict.{
  lookup, store, discard, lookup-store, lookup-store_other, lookup-discard, lookup-discard_other,
}
use zowpy.Store.{
  Rows, or_zero, or_new, new_store, cached, remember, after_loads, from_row, from_account,
  after_cache, get, to_json, write_row, set, delete_from, delete, Libraries, StateStore,
}

module _ {V : Type 0} (libraries : Libraries V) where
  -- What a row stands for, and what the database has under a key.
  unfoldable pub row_value : Option (Option Text) → Result (Option V)
  row_value none = ok none
  row_value (some none) = ok none
  row_value (some (some [])) = ok none
  row_value (some (some (c ∷ cs))) = libraries.loads (c ∷ cs)

  unfoldable pub account_value : Text → Option Rows → Result (Option V)
  unfolding row_value
  account_value key none = ok none
  account_value key (some rows) = row_value (lookup key rows)

  unfoldable pub IsCoherent : StateStore V → Type 0
  IsCoherent s =
      (key : Text) (value : Option V)
      → lookup key s.cache ≡ some value
      → account_value key s.account ≡ ok value

  cache_value :
      (s : StateStore V)
      → IsCoherent s
      → (key : Text) (value : Option V) → lookup key s.cache ≡ some value
      → account_value key s.account ≡ ok value
  unfolding IsCoherent
  cache_value s h = h

  -- A value is read again as it was written, and no value is written as an empty text.
  pub record IsLossless : Type 0 where
    pub reads_back : (v : V) (t : Text) → libraries.dumps v ≡ ok t → libraries.loads t ≡ ok (some v)
    pub some_text : (v : V) → libraries.dumps v ≢ ok []

  pub new_store-IsCoherent : (account : Option Rows) → IsCoherent (new_store V account)
  unfolding IsCoherent
  new_store-IsCoherent account key value h = absurd (unfold lookup in cc)

  remember-IsCoherent :
      (now : ℕ) (key : Text) (value : Option V) (s t : StateStore V)
      → ((j : Text) (w : Option V)
          → text_eq j key ≡ false
          → lookup j s.cache ≡ some w
          → account_value j t.account ≡ ok w)
      → account_value key t.account ≡ ok value
      → s.cache ≡ t.cache
      → IsCoherent (remember now key value t)
  unfolding IsCoherent remember
  remember-IsCoherent now key value s t others this same j w h = elim (Bool-cases (text_eq j key)) [
    | inl equal ↦
        let e : j ≡ key = text_eq→eq j key equal in
        let stored : some value ≡ some w =
          sym (lookup-store key value t.cache)
          ∙ ap (λ i. lookup i (store key value t.cache)) (sym e)
          ∙ h in
        let equal_values : value ≡ w = cc in rw e (this ∙ ap ok equal_values)
    | inr other ↦
        others j w other
          (ap (lookup j) same ∙ sym (lookup-store_other j key value t.cache other) ∙ h)
  ]

  after_loads-IsCoherent :
      (now : ℕ) (key : Text) (s : StateStore V) (r : Result (Option V))
      → IsCoherent s
      → account_value key s.account ≡ r
      → ((after_loads libraries now key s r).0 ≡ r)
        × IsCoherent (after_loads libraries now key s r).1
        × ((after_loads libraries now key s r).1.account ≡ s.account)
  unfolding after_loads
  after_loads-IsCoherent now key s (err e) h k = (refl, h, refl)
  after_loads-IsCoherent now key s (ok value) h k = (
    refl,
    remember-IsCoherent now key value s s (λ j w other. cache_value s h j w) k refl,
    unfold remember in refl,
  )

  from_row-IsCoherent :
      (now : ℕ) (key : Text) (s : StateStore V) (row : Option (Option Text))
      → IsCoherent s
      → account_value key s.account ≡ row_value row
      → ((from_row libraries now key s row).0 ≡ row_value row)
        × IsCoherent (from_row libraries now key s row).1
        × ((from_row libraries now key s row).1.account ≡ s.account)
  unfolding from_row row_value
  from_row-IsCoherent now key s none h e = (refl, h, refl)
  from_row-IsCoherent now key s (some none) h e = (refl, h, refl)
  from_row-IsCoherent now key s (some (some [])) h e = (refl, h, refl)
  from_row-IsCoherent now key s (some (some (c ∷ cs))) h e =
      after_loads-IsCoherent now key s (libraries.loads (c ∷ cs)) h e

  from_account-IsCoherent :
      (now : ℕ) (key : Text) (s : StateStore V) (account : Option Rows)
      → IsCoherent s
      → s.account ≡ account
      → ((from_account libraries now key s account).0 ≡ account_value key account)
        × IsCoherent (from_account libraries now key s account).1
        × ((from_account libraries now key s account).1.account ≡ s.account)
  unfolding from_account account_value
  from_account-IsCoherent now key s none h e = (refl, h, refl)
  from_account-IsCoherent now key s (some rows) h e =
      from_row-IsCoherent now key s (lookup key rows) h (rw e refl)

  cached-lookup :
      (now : ℕ) (key : Text) (s : StateStore V) (value : Option V)
      → cached now key s ≡ some value
      → lookup key s.cache ≡ some value
  unfolding cached
  cached-lookup now key s value h = elim (Bool-cases (ltb now (or_zero (lookup key s.cache_ttl)))) [
    | inl fresh ↦ rw fresh at h
    | inr stale ↦ absurd (let g = rw stale at h in cc)
  ]

  after_cache-IsCoherent :
      (now : ℕ) (key : Text) (s : StateStore V) (found : Option (Option V))
      → IsCoherent s
      → cached now key s ≡ found
      → ((after_cache libraries now key s found).0 ≡ account_value key s.account)
        × IsCoherent (after_cache libraries now key s found).1
        × ((after_cache libraries now key s found).1.account ≡ s.account)
  unfolding after_cache
  after_cache-IsCoherent now key s none h e = from_account-IsCoherent now key s s.account h refl
  after_cache-IsCoherent now key s (some value) h e =
      (sym (cache_value s h key value (cached-lookup now key s value e)), h, refl)

  -- A read gives what the database has, and leaves that as it is.
  pub get-IsCoherent :
      (now : ℕ) (key : Text) (s : StateStore V)
      → IsCoherent s
      → ((get libraries now key s).0 ≡ account_value key s.account)
        × IsCoherent (get libraries now key s).1
        × ((get libraries now key s).1.account ≡ s.account)
  unfolding get
  get-IsCoherent now key s h = after_cache-IsCoherent now key s (cached now key s) h refl

  -- What the database has after a write.
  unfoldable pub written : Text → Option Text → Option Rows → Option Rows
  written key json account = some (store key json (or_new account))

  account_value-written_other :
      (j key : Text) (json : Option Text) (account : Option Rows)
      → text_eq j key ≡ false
      → account_value j (written key json account) ≡ account_value j account
  unfolding account_value written
  account_value-written_other j key json none h =
      rw (lookup-store_other j key json [] h) (unfold lookup row_value in refl)
  account_value-written_other j key json (some rows) h =
      ap row_value (lookup-store_other j key json rows h)

  pub row_value-dumps :
      (v : V) (t : Text)
      → IsLossless
      → libraries.dumps v ≡ ok t
      → row_value (some (some t)) ≡ ok (some v)
  unfolding row_value
  row_value-dumps v [] lossless h = absurd (lossless.some_text v h)
  row_value-dumps v (c ∷ cs) lossless h = lossless.reads_back v (c ∷ cs) h

  row_value-json :
      (value : Option V) (json : Option Text)
      → IsLossless
      → to_json libraries value ≡ ok json
      → row_value (some json) ≡ ok value
  unfolding row_value
  row_value-json none none lossless h = refl
  row_value-json none (some t) lossless h = absurd cc
  row_value-json (some v) json lossless h = elim (Result-cases (libraries.dumps v)) [
    | inl (error, fails) ↦ absurd (let g = rw (fails, to_json) at h in cc)
    | inr (t, dumped) ↦
        let g : Result.ok (some t) ≡ ok json = rw (dumped, to_json) at h in
        let same : some t ≡ json = cc in rw (← same) (row_value-dumps v t lossless dumped)
  ]

  account_value-written :
      (key : Text) (value : Option V) (json : Option Text) (account : Option Rows)
      → IsLossless
      → to_json libraries value ≡ ok json
      → account_value key (written key json account) ≡ ok value
  unfolding account_value written
  account_value-written key value json account lossless h =
      ap row_value (lookup-store key json (or_new account)) ∙ row_value-json value json lossless h

  write_row-IsCoherent :
      (now : ℕ) (key : Text) (value : Option V) (s : StateStore V) (json : Result (Option Text))
      → IsLossless
      → to_json libraries value ≡ json
      → IsCoherent s
      → IsCoherent (write_row libraries now key value s json).1
  unfolding write_row IsCoherent written
  write_row-IsCoherent now key value s (err e) lossless k h = h
  write_row-IsCoherent now key value s (ok json) lossless k h =
      remember-IsCoherent now key value s (record s { account = written key json s.account })
        (λ j w other found. account_value-written_other j key json s.account other ∙ h j w found)
        (account_value-written key value json s.account lossless k) refl

  pub set-IsCoherent :
      (now : ℕ) (key : Text) (value : Option V) (s : StateStore V)
      → IsLossless
      → IsCoherent s
      → IsCoherent (set libraries now key value s).1
  unfolding set
  set-IsCoherent now key value s lossless h =
      write_row-IsCoherent now key value s (to_json libraries value) lossless refl h

  account_value-discard_other :
      (j key : Text) (rows : Rows)
      → text_eq j key ≡ false
      → account_value j (some (if libraries.deletes then discard key rows else rows))
        ≡ account_value j (some rows)
  unfolding account_value
  account_value-discard_other j key rows h = elim (Bool-cases libraries.deletes) [
    | inl deletes ↦ rw deletes (ap row_value (lookup-discard_other j key rows h))
    | inr ignored ↦ rw ignored refl
  ]

  delete_from-IsCoherent :
      (key : Text) (s : StateStore V) (account : Option Rows)
      → s.account ≡ account
      → IsCoherent s
      → IsCoherent (delete_from libraries key s account)
  unfolding delete_from
  delete_from-IsCoherent key s none e h = h
  delete_from-IsCoherent key s (some rows) e h =
      unfold IsCoherent in
      (λ j w found. elim (Bool-cases (text_eq j key)) [
        | inl equal ↦
            let same : j ≡ key = text_eq→eq j key equal in
            let gone : lookup j (discard key s.cache) ≡ none =
              rw same (lookup-discard key s.cache) in
            absurd (let no : none ≡ some w = sym gone ∙ found in cc)
        | inr other ↦
            account_value-discard_other j key rows other
            ∙ ap (account_value j) (sym e)
            ∙ cache_value s h j w (sym (lookup-discard_other j key s.cache other) ∙ found)
      ])

  pub delete-IsCoherent :
      (key : Text) (s : StateStore V) → IsCoherent s → IsCoherent (delete libraries key s)
  unfolding delete
  delete-IsCoherent key s h = delete_from-IsCoherent key s s.account refl h
