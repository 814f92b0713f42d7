-- ===== src/Store/ReadThrough.antt =====
-- The store answers as the database alone would.
use zowpy.Prelude.{if◌then◌else◌, Text, ℕ, ◌≡◌, refl, ap, ◌∙◌, Option, none, some, List, [], ◌∷◌}
use zowpy.Result.{Result, ok, err}
use zowpy.Python.Dict.{lookup, discard}
use zowpy.Store.{
  Rows, new_store, remember, clear_cache, get, to_json, write_row, set, delete_from, delete,
  Libraries, StateStore,
}
use zowpy.Store.Coherence.{
  account_value, IsCoherent, new_store-IsCoherent, get-IsCoherent, written, set-IsCoherent,
  delete-IsCoherent, IsLossless,
}

module _ (V : Type 0) where
  pub data StoreCall : Type 0 where
    reads : ℕ → Text → StoreCall
    writes : ℕ → Text → Option V → StoreCall
    deletes : Text → StoreCall
    clears : StoreCall

  -- What a call returns.
  pub data StoreReply : Type 0 where
    read : Result (Option V) → StoreReply
    wrote : Result {0} Unit → StoreReply
    done : StoreReply

module _ {V : Type 0} (libraries : Libraries V) where
  unfoldable pub store_step : StateStore V → StoreCall V → StoreReply V × StateStore V
  store_step s (reads now key) = let (value, t) = get libraries now key s in (read value, t)
  store_step s (writes now key value) =
      let (outcome, t) = set libraries now key value s in (wrote outcome, t)
  store_step s (deletes key) = (done, delete libraries key s)
  store_step s clears = (done, clear_cache s)

  unfoldable pub store_run : StateStore V → List (StoreCall V) → List (StoreReply V)
  unfolding store_step
  store_run s [] = []
  store_run s (c ∷ cs) = let (reply, t) = store_step s c in reply ∷ store_run t cs

  -- The specification: the rows of the account, and no cache.
  unfoldable pub wrote_row :
      Text → Result (Option Text) → Option Rows → Result {0} Unit × Option Rows
  wrote_row key (err e) account = (err e, account)
  wrote_row key (ok json) account = (ok tt, written libraries key json account)

  unfoldable pub deleted_row : Text → Option Rows → Option Rows
  deleted_row key none = none
  deleted_row key (some rows) = some (if libraries.deletes then discard key rows else rows)

  unfoldable pub row_step : Option Rows → StoreCall V → StoreReply V × Option Rows
  unfolding wrote_row deleted_row
  row_step account (reads now key) = (read (account_value libraries key account), account)
  row_step account (writes now key value) =
      let (outcome, after) = wrote_row key (to_json libraries value) account in
      (wrote outcome, after)
  row_step account (deletes key) = (done, deleted_row key account)
  row_step account clears = (done, account)

  unfoldable pub row_run : Option Rows → List (StoreCall V) → List (StoreReply V)
  unfolding row_step
  row_run account [] = []
  row_run account (c ∷ cs) = let (reply, after) = row_step account c in reply ∷ row_run after cs

  write_row-wrote_row :
      (now : ℕ) (key : Text) (value : Option V) (s : StateStore V) (json : Result (Option Text))
      → ((write_row libraries now key value s json).0 ≡ (wrote_row key json s.account).0)
        × ((write_row libraries now key value s json).1.account ≡ (wrote_row key json s.account).1)
  unfolding write_row wrote_row written remember
  write_row-wrote_row now key value s (err e) = (refl, refl)
  write_row-wrote_row now key value s (ok json) = (refl, refl)

  delete_from-deleted_row :
      (key : Text) (s : StateStore V) (account : Option Rows)
      → s.account ≡ account
      → (delete_from libraries key s account).account ≡ deleted_row key account
  unfolding delete_from deleted_row
  delete_from-deleted_row key s none e = e
  delete_from-deleted_row key s (some rows) e = refl

  clear_cache-IsCoherent : (s : StateStore V) → IsCoherent libraries (clear_cache s)
  unfolding IsCoherent clear_cache lookup
  clear_cache-IsCoherent s key value h = absurd cc

  -- A call answers as the database would, and leaves a coherent store.
  store_step-row_step :
      (s : StateStore V) (c : StoreCall V)
      → IsLossless libraries
      → IsCoherent libraries s
      → ((store_step s c).0 ≡ (row_step s.account c).0)
        × ((store_step s c).1.account ≡ (row_step s.account c).1)
        × IsCoherent libraries (store_step s c).1
  unfolding store_step row_step
  store_step-row_step s (reads now key) lossless h =
      let (value, coherent, same) = get-IsCoherent libraries now key s h in
      (ap read value, same, coherent)
  store_step-row_step s (writes now key value) lossless h =
      let (outcome, after) = write_row-wrote_row now key value s (to_json libraries value) in
      (
        unfold set in ap wrote outcome,
        unfold set in after,
        set-IsCoherent libraries now key value s lossless h,
      )
  store_step-row_step s (deletes key) lossless h = (
    refl,
    unfold delete in delete_from-deleted_row key s s.account refl,
    delete-IsCoherent libraries key s h,
  )
  store_step-row_step s clears lossless h =
      (refl, unfold clear_cache in refl, clear_cache-IsCoherent s)

  store_run-row_run_from :
      (s : StateStore V) (cs : List (StoreCall V))
      → IsLossless libraries
      → IsCoherent libraries s
      → store_run s cs ≡ row_run s.account cs
  unfolding store_run row_run
  store_run-row_run_from s [] lossless h = refl
  store_run-row_run_from s (c ∷ cs) lossless h =
      let (reply, after, coherent) = store_step-row_step s c lossless h in
      let rest : store_run (store_step s c).1 cs ≡ row_run (row_step s.account c).1 cs =
        store_run-row_run_from (store_step s c).1 cs lossless coherent
        ∙ ap (λ a. row_run a cs) after in
      rw (reply, rest) refl

  -- Where JSON reads back what it wrote, a new store over a database answers every sequence of calls
  -- as the rows of the database do without a cache, at whatever times the calls are made.
  pub store_run-row_run :
      (account : Option Rows) (cs : List (StoreCall V))
      → IsLossless libraries
      → store_run (new_store V account) cs ≡ row_run account cs
  store_run-row_run account cs lossless =
      store_run-row_run_from (new_store V account) cs lossless
        (new_store-IsCoherent libraries account)
