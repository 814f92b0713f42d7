-- ===== src/Iq.antt =====
-- `IQResponseProcessor` of zowpy/core/processors/iq_response.py: the callbacks that wait for answers.
-- Times are in microseconds. What a callback does is an argument of the call: whether it returns,
-- and what becomes of the table until it has.
use zowpy.Prelude.{
  ltb, if◌then◌else◌, length, Text, ℕ, ◌-◌, Bool, false, Option, none, some, List, [], ◌∷◌,
}
use zowpy.Python.Dict.{lookup, store, discard, is_there, keys_where, discard_all}
pub mod Dispatch
pub mod Waiting
pub mod Cleaning
pub mod Announced
mod Examples

-- A callback stands by its number. A timeout is not negative.
pub record IqCallback : Type 0 where
  pub callback : ℕ
  pub timeout : ℕ
  pub created_at : ℕ

abbrev pub Callbacks : Type 0
Callbacks = List (Text × IqCallback)

unfoldable pub is_expired : ℕ → IqCallback → Bool
is_expired now c = ltb c.timeout (now - c.created_at)

unfoldable pub register_callback : ℕ → Text → ℕ → ℕ → Callbacks → Callbacks
unfolding store
register_callback now iq_id callback timeout table =
    store iq_id (record { callback = callback; timeout = timeout; created_at = now }) table

unfoldable pub unregister_callback : Text → Callbacks → Callbacks
unfolding discard
unregister_callback iq_id table = discard iq_id table

unfoldable pub has_callback : Text → Callbacks → Bool
unfolding lookup
has_callback [] table = false
has_callback (c ∷ cs) table = is_there (lookup (c ∷ cs) table)

-- What a call of `process_iq_response` does: the value returned, the callback called, the table.
pub record Processed : Type 0 where
  pub returned : Bool
  pub called : Option ℕ
  pub callbacks : Callbacks

abbrev pub not_processed : Callbacks → Processed
not_processed table = record { returned = false; called = none; callbacks = table }

-- How a called callback ends: whether it returns, and the table then.
pub record CallbackEnd : Type 0 where
  pub works : Bool
  pub meanwhile : Callbacks → Callbacks

unfoldable pub answer_with : ℕ → CallbackEnd → Text → Callbacks → Option IqCallback → Processed
unfolding is_expired unregister_callback
answer_with now run iq_id table none = not_processed table
answer_with now run iq_id table (some info) =
    if is_expired now info then not_processed (unregister_callback iq_id table) else record {
      returned = run.works;
      called = some info.callback;
      callbacks = unregister_callback iq_id (run.meanwhile table);
    }

unfoldable pub process_iq_response : ℕ → CallbackEnd → Option Text → Callbacks → Processed
unfolding answer_with lookup
process_iq_response now run none table = not_processed table
process_iq_response now run (some []) table = not_processed table
process_iq_response now run (some (c ∷ cs)) table =
    answer_with now run (c ∷ cs) table (lookup (c ∷ cs) table)

-- A round of `_cleanup_expired_callbacks`.
unfoldable pub cleanup : ℕ → Callbacks → Callbacks
unfolding is_expired keys_where discard_all
cleanup now table = discard_all (keys_where (is_expired now) table) table

abbrev pub get_pending_count : Callbacks → ℕ
get_pending_count table = length table

-- `clear_all`, also at the end of `shutdown`.
abbrev pub clear_all : Callbacks → Callbacks
clear_all table = []
