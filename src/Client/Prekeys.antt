-- ===== src/Client/Prekeys.antt =====
-- The flush of prekeys: `_flush_prekeys`, `_on_keys_flushed` and `_on_sent_keys_error`. A prekey stands by
-- its id, and the pending retry by its prekeys and count.
use zowpy.Prelude.{
  leb, ◌==◌, if◌then◌else◌, Text, ℕ, ◌+◌, ◌*◌, ◌^◌, Bool, true, false, Option, none, some, List, [],
  ◌∷◌, ◌++◌,
}
use zowpy.Coder.Node.{Node}
use zowpy.Iq.{Callbacks, register_callback}
use zowpy.Iq.Dispatch.{is_text, process, IqProcessor, Effect, calls_callback}

-- `is_locked` is the state of `_keys_retry_lock`, `marked` what was given to `set_prekeys_as_sent`, and
-- `requests` the ids of the iqs that were sent.
pub record Keys : Type 0 where
  pub pending : Option (List ℕ × ℕ)
  pub is_locked : Bool
  pub marked : List ℕ
  pub callbacks : Callbacks
  pub requests : List Text

-- How a call ends: it returns, or waits for the lock.
pub data Ending : Type 0 where
  returns waits_for_lock : Ending

-- What follows a call that returned.
unfoldable pub then_do : (Keys → Keys) → Ending × Keys → Ending × Keys
then_do next (returns, s) = (returns, next s)
then_do next (waits_for_lock, s) = (waits_for_lock, s)

-- `async with self._keys_retry_lock`: an `asyncio.Lock` that is taken is waited for, also by the task
-- that holds it, and a body that waits keeps it.
unfoldable pub with_lock : (Keys → Ending × Keys) → Keys → Ending × Keys
unfolding then_do
with_lock body s =
    if s.is_locked
    then (waits_for_lock, s)
    else then_do (λ t. record t { is_locked = false }) (body (record s { is_locked = true }))

-- `self._pending_keys_retry = …`
abbrev pub set_pending : Option (List ℕ × ℕ) → Keys → Ending × Keys
set_pending pending s = (returns, record s { pending = pending })

abbrev pub flush_timeout : ℕ
flush_timeout = 30 * 10 ^ 6

-- `_flush_prekeys`, with the id of its iq and the number of its callback.
unfoldable pub flush_prekeys : ℕ → Text → ℕ → List ℕ → ℕ → Keys → Ending × Keys
unfolding register_callback then_do with_lock
flush_prekeys now iq_id callback prekeys retry_count s =
    then_do
      (λ t. record t {
        callbacks = register_callback now iq_id callback flush_timeout t.callbacks;
        requests = t.requests ++ iq_id ∷ [];
      })
      (with_lock (set_pending (some (prekeys, retry_count))) s)

-- `_on_keys_flushed`, which the callback `on_success` calls.
unfoldable pub on_keys_flushed : List ℕ → Keys → Ending × Keys
unfolding then_do with_lock
on_keys_flushed prekeys s =
    then_do (λ t. record t { marked = t.marked ++ prekeys }) (with_lock (set_pending none) s)

-- The end of a retry, after the sleep: what is still pending is flushed again.
unfoldable pub flush_pending : (Keys → Ending × Keys) → Keys → Option (List ℕ × ℕ) → Ending × Keys
flush_pending flush s none = (returns, s)
flush_pending flush s (some pending) = flush s

-- The body of the lock at a 503: after five attempts it gives up, and else it sleeps and takes the lock
-- again.
unfoldable pub retry_flush :
    (ℕ → Keys → Ending × Keys) → List ℕ → ℕ → Keys → Option (List ℕ × ℕ) → Ending × Keys
unfolding with_lock flush_pending
retry_flush flush prekeys retry_count s none = (returns, s)
retry_flush flush prekeys retry_count s (some pending) =
    if leb 5 (retry_count + 1)
    then set_pending none s
    else with_lock (λ t. flush_pending (flush (retry_count + 1)) t t.pending)
        (record s { pending = some (prekeys, retry_count + 1) })

-- `_on_sent_keys_error`, with the code of the error's child, and the time, the id and the callback that
-- another flush would have; a code `none` stands for no child.
unfoldable pub on_sent_keys_error :
    ℕ → Text → ℕ → Option (Option Text) → List ℕ → ℕ → Keys → Ending × Keys
unfolding flush_prekeys with_lock retry_flush
on_sent_keys_error now iq_id callback none prekeys retry_count s = with_lock (set_pending none) s
on_sent_keys_error now iq_id callback (some code) prekeys retry_count s =
    if is_text "503" code
    then with_lock
        (λ t.
          retry_flush (flush_prekeys now iq_id callback prekeys) prekeys retry_count t t.pending)
        s
    else with_lock (set_pending none) s

abbrev calls : ℕ → List Effect → Bool
calls callback [] = false
calls callback (calls_callback c ∷ effects) = callback == c
calls callback (effect ∷ effects) = calls callback effects

-- An iq arrives while the callback of a flush waits, and does what the processor does with it.
unfoldable pub answer_arrives : IqProcessor → ℕ → ℕ → List ℕ → Node → Keys → Keys
unfolding process on_keys_flushed
answer_arrives p now callback prekeys n s =
    let handled = process p now (record { works = true; meanwhile = λ t. t }) s.callbacks n in
    let after : Keys = record s { callbacks = handled.callbacks } in
    if calls callback handled.effects then (on_keys_flushed prekeys after).1 else after
