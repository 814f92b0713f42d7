-- ===== src/Store.antt =====
-- `AsyncStateStore` of zowpy/core/store.py: values in the database, read through a cache. Times are in
-- microseconds.
use zowpy.Prelude.{
  ltb, if◌then◌else◌, Text, codes, ℕ, ◌+◌, ◌*◌, ◌^◌, Bool, Option, none, some, List, [], ◌∷◌, ◌++◌,
}
use zowpy.Result.{attribute_error, Result, ok, err}
use zowpy.Python.Dict.{lookup, store, discard}
pub mod Coherence
pub mod ReadThrough
mod Examples

-- `json.dumps` and `json.loads`, how an identity or a session becomes bytes, and whether a call of `session.delete` has an effect though it is not
-- awaited. None is `none`.
pub record Libraries (V : Type 0) : Type 0 where
  pub dumps : V → Result Text
  pub loads : Text → Result (Option V)
  pub deletes : Bool
  pub serialize : V → Result (List ℕ)

-- The rows of an account: the values, which may be NULL, under their keys.
abbrev pub Rows : Type 0
Rows = List (Text × Option Text)

abbrev pub or_zero : Option ℕ → ℕ
or_zero none = 0
or_zero (some t) = t

abbrev pub or_new : Option Rows → Rows
or_new none = []
or_new (some rows) = rows

module _ (V : Type 0) where
  -- `account` is `none` while the database has no account with this number.
  pub record StateStore : Type 0 where
    pub cache : List (Text × Option V)
    pub cache_ttl : List (Text × ℕ)
    pub account : Option Rows

  abbrev pub default_ttl : ℕ
  default_ttl = 300 * 10 ^ 6

  -- `AsyncStateStore(account_id, session_maker)`
  abbrev pub new_store : Option Rows → StateStore
  new_store account = record { cache = []; cache_ttl = []; account = account }

module _ {V : Type 0} where
  -- The check of the cache, at the start of every read.
  unfoldable pub cached : ℕ → Text → StateStore V → Option (Option V)
  unfolding lookup
  cached now key s = if ltb now (or_zero (lookup key s.cache_ttl)) then lookup key s.cache else none

  -- The update of the cache, at the end of reads and writes.
  unfoldable pub remember : ℕ → Text → Option V → StateStore V → StateStore V
  unfolding store
  remember now key value s = record s {
    cache = store key value s.cache;
    cache_ttl = store key (now + default_ttl V) s.cache_ttl;
  }

  unfoldable pub clear_cache : StateStore V → StateStore V
  clear_cache s = record s { cache = []; cache_ttl = [] }

module _ {V : Type 0} (libraries : Libraries V) where
  unfoldable pub after_loads :
      ℕ → Text → StateStore V → Result (Option V) → Result (Option V) × StateStore V
  unfolding remember
  after_loads now key s (err e) = (err e, s)
  after_loads now key s (ok value) = (ok value, remember now key value s)

  -- `get` from its read of the database on: a value that is not there, NULL or empty is None, and is
  -- not put in the cache.
  unfoldable pub from_row :
      ℕ → Text → StateStore V → Option (Option Text) → Result (Option V) × StateStore V
  unfolding after_loads
  from_row now key s none = (ok none, s)
  from_row now key s (some none) = (ok none, s)
  from_row now key s (some (some [])) = (ok none, s)
  from_row now key s (some (some (c ∷ cs))) = after_loads now key s (libraries.loads (c ∷ cs))

  unfoldable pub from_account :
      ℕ → Text → StateStore V → Option Rows → Result (Option V) × StateStore V
  unfolding from_row lookup
  from_account now key s none = (ok none, s)
  from_account now key s (some rows) = from_row now key s (lookup key rows)

  unfoldable pub after_cache :
      ℕ → Text → StateStore V → Option (Option V) → Result (Option V) × StateStore V
  unfolding from_account
  after_cache now key s (some value) = (ok value, s)
  after_cache now key s none = from_account now key s s.account

  unfoldable pub get : ℕ → Text → StateStore V → Result (Option V) × StateStore V
  unfolding cached after_cache
  get now key s = after_cache now key s (cached now key s)

  -- `json.dumps(value) if value is not None else None`
  abbrev pub to_json : Option V → Result (Option Text)
  to_json none = ok none
  to_json (some v) = elim (libraries.dumps v) [ err e ↦ err e | ok t ↦ ok (some t) ]

  unfoldable pub write_row :
      ℕ → Text → Option V → StateStore V → Result (Option Text) → Result {0} Unit × StateStore V
  unfolding remember store
  write_row now key value s (err e) = (err e, s)
  write_row now key value s (ok json) = (
    ok tt,
    remember now key value (record s { account = some (store key json (or_new s.account)) }),
  )

  unfoldable pub set : ℕ → Text → Option V → StateStore V → Result {0} Unit × StateStore V
  unfolding write_row
  set now key value s = write_row now key value s (to_json value)

  -- `delete`: without an account the cache is left as it is.
  unfoldable pub delete_from : Text → StateStore V → Option Rows → StateStore V
  unfolding discard
  delete_from key s none = s
  delete_from key s (some rows) = record s {
    cache = discard key s.cache;
    cache_ttl = discard key s.cache_ttl;
    account = some (if libraries.deletes then discard key rows else rows);
  }

  unfoldable pub delete : Text → StateStore V → StateStore V
  unfolding delete_from
  delete key s = delete_from key s s.account

  -- The credentials, each under its key. `to_int` is `int` of a value.
  unfoldable pub get_username : ℕ → StateStore V → Result (Option V) × StateStore V
  unfolding get
  get_username now s = get now (codes "username") s

  unfoldable pub set_username : ℕ → V → StateStore V → Result {0} Unit × StateStore V
  unfolding set
  set_username now username s = set now (codes "username") (some username) s

  unfoldable pub get_password : ℕ → StateStore V → Result (Option V) × StateStore V
  unfolding get
  get_password now s = get now (codes "password") s

  unfoldable pub set_password : ℕ → V → StateStore V → Result {0} Unit × StateStore V
  unfolding set
  set_password now password s = set now (codes "password") (some password) s

  unfoldable pub int_of_value :
      (V → Result V) → Result (Option V) × StateStore V → Result (Option V) × StateStore V
  int_of_value to_int (err e, s) = (err e, s)
  int_of_value to_int (ok none, s) = (ok none, s)
  int_of_value to_int (ok (some v), s) = (elim (to_int v) [ err e ↦ err e | ok n ↦ ok (some n) ], s)

  unfoldable pub get_registration_id :
      (V → Result V) → ℕ → StateStore V → Result (Option V) × StateStore V
  unfolding get int_of_value
  get_registration_id to_int now s = int_of_value to_int (get now (codes "registration_id") s)

  unfoldable pub set_registration_id : ℕ → V → StateStore V → Result {0} Unit × StateStore V
  unfolding set
  set_registration_id now registration_id s =
      set now (codes "registration_id") (some registration_id) s

  unfoldable pub get_device_id :
      (V → Result V) → ℕ → StateStore V → Result (Option V) × StateStore V
  unfolding get int_of_value
  get_device_id to_int now s = int_of_value to_int (get now (codes "device_id") s)

  unfoldable pub set_device_id : ℕ → V → StateStore V → Result {0} Unit × StateStore V
  unfolding set
  set_device_id now device_id s = set now (codes "device_id") (some device_id) s

  -- `self.db_pool`, which is set nowhere: a read or write of an identity or a session that comes to
  -- it raises AttributeError.
  abbrev no_db_pool : Option (Option V) → Result (Option V)
  no_db_pool none = err attribute_error
  no_db_pool (some value) = ok value

  unfoldable pub get_identity : ℕ → StateStore V → Result (Option V)
  unfolding cached
  get_identity now s = no_db_pool (cached now (codes "identity") s)

  unfoldable pub get_session : ℕ → Text → StateStore V → Result (Option V)
  unfolding cached
  get_session now recipient_id s = no_db_pool (cached now (codes "session:" ++ recipient_id) s)

  -- `_serialize_identity` and `_serialize_session` call `serialize` or `bytes`.
  abbrev after_serialize : Result (List ℕ) → Result {0} Unit
  after_serialize (err e) = err e
  after_serialize (ok data_) = err attribute_error

  unfoldable pub store_identity : V → Result {0} Unit
  store_identity identity = after_serialize (libraries.serialize identity)

  unfoldable pub store_session : Text → V → Result {0} Unit
  store_session recipient_id session = after_serialize (libraries.serialize session)
