-- ===== src/Client/Flushed.antt =====
-- What becomes of prekeys that are flushed.
use zowpy.Prelude.{
  ltb, leb, if◌then◌else◌, ==_refl, Bool-cases, Option-cases, Text, ℕ, ◌+◌, ◌-◌, ◌≤◌, ◌≡◌, refl,
  ◌≢◌, inl, inr, Bool, true, false, ◌&&◌, Option, none, some, List, [], ◌∷◌, ◌++◌, arith,
}
use zowpy.Result.{ok}
use zowpy.Python.Dict.{discard, lookup-store}
use zowpy.Coder.Node.{Attributes, Payload, node, Nodes}
use zowpy.Iq.{
  Callbacks, is_expired, register_callback, unregister_callback, answer_with, process_iq_response,
  IqCallback,
}
use zowpy.Iq.Dispatch.{
  attribute_of, is_text, data_of, after_registry, asks_registry, process, IqProcessor,
  handled_by_registry, calls_callback,
}
use zowpy.Client.Prekeys.{
  then_do, with_lock, flush_timeout, flush_prekeys, on_keys_flushed, retry_flush,
  on_sent_keys_error, answer_arrives, Keys, returns, waits_for_lock,
}

process-taken :
    (p : IqProcessor) (start now callback : ℕ) (iq_id : Text) (table : Callbacks) (tag : Text)
    (attributes : Attributes) (children : Nodes) (payload : Payload)
    → attribute_of "id" attributes ≡ some iq_id
    → asks_registry p (data_of attributes) ≡ true
    → iq_id ≢ []
    → start ≤ now
    → now ≤ start + flush_timeout
    → process p now
        (record { works = true; meanwhile = λ t. t })
        (register_callback start iq_id callback flush_timeout table)
        (node tag attributes children payload)
      ≡ record {
        result = ok (record (data_of attributes) { extra = handled_by_registry });
        effects = calls_callback callback ∷ [];
        callbacks = discard iq_id (register_callback start iq_id callback flush_timeout table);
      }
unfolding process process_iq_response register_callback answer_with is_expired unregister_callback
    after_registry
process-taken p start now callback [] table tag attributes children payload h k l m n =
    absurd (l refl)
process-taken p start now callback (c ∷ cs) table tag attributes children payload h k l m n =
    let info : IqCallback = record {
      callback = callback;
      timeout = flush_timeout;
      created_at = start;
    } in
    let fresh : ltb flush_timeout (now - start) ≡ false = ground arith in
    rw (k, h, lookup-store (c ∷ cs) info table, fresh) refl

-- An answer with the id of a flush, of the type `result` or `error`, marks the prekeys as sent, when it
-- comes within 30 seconds and nothing holds the lock: an error does as much as a result.
pub answer_arrives-marked :
    (p : IqProcessor) (start now callback retry_count : ℕ) (iq_id : Text) (prekeys : List ℕ)
    (s : Keys) (tag : Text) (attributes : Attributes) (children : Nodes) (payload : Payload)
    → s.is_locked ≡ false
    → attribute_of "id" attributes ≡ some iq_id
    → asks_registry p (data_of attributes) ≡ true
    → iq_id ≢ []
    → start ≤ now
    → now ≤ start + flush_timeout
    → let flushed = (flush_prekeys start iq_id callback prekeys retry_count s).1 in
      let after =
        answer_arrives p now callback prekeys (node tag attributes children payload) flushed in
      (after.marked ≡ s.marked ++ prekeys) × (after.pending ≡ none)
unfolding answer_arrives flush_prekeys on_keys_flushed with_lock then_do
answer_arrives-marked p start now callback retry_count iq_id prekeys s tag attributes children
      payload free h k l m n =
    let taken =
      process-taken p start now callback iq_id s.callbacks tag attributes children payload h k l m
        n in
    rw (free, taken, ==_refl callback) (refl, refl)

-- A 503 while prekeys are pending, before the fifth attempt.
abbrev pub is_retried : Option (Option Text) → ℕ → Option (List ℕ × ℕ) → Bool
is_retried (some code) retry_count (some pending) = is_text "503" code && ltb retry_count 4
is_retried _ retry_count _ = false

-- With the lock free, `_on_sent_keys_error` sends no iq, whatever the error: at a 503 while prekeys are
-- pending, before the fifth attempt, it ends waiting for the lock that it has taken itself; in every
-- other case it returns, with the lock free.
pub on_sent_keys_error-ending :
    (now : ℕ) (iq_id : Text) (callback : ℕ) (code : Option (Option Text)) (prekeys : List ℕ)
    (retry_count : ℕ) (s : Keys)
    → s.is_locked ≡ false
    → let (ending, after) = on_sent_keys_error now iq_id callback code prekeys retry_count s in
      let retried = is_retried code retry_count s.pending in
      (ending ≡ (if retried then waits_for_lock else returns))
      × (after.is_locked ≡ retried)
      × (after.requests ≡ s.requests)
unfolding on_sent_keys_error retry_flush with_lock then_do
on_sent_keys_error-ending now iq_id callback none prekeys retry_count s free =
    rw free (refl, refl, refl)
on_sent_keys_error-ending now iq_id callback (some code) prekeys retry_count s free =
    elim (Bool-cases (is_text "503" code)) [
      | inr other ↦ elim (Option-cases s.pending) [
        | inl nothing ↦ rw (free, nothing) (rw other (refl, refl, refl))
        | inr (pending, there) ↦ rw (free, there) (rw other (refl, refl, refl))
      ]
      | inl retry ↦ elim (Option-cases s.pending) [
        | inl nothing ↦ rw (free, retry, nothing) (refl, refl, refl)
        | inr (pending, there) ↦ elim (Bool-cases (ltb retry_count 4)) [
          | inl early ↦
              let more : leb 5 (retry_count + 1) ≡ false = ground arith in
              rw (free, there) (rw (retry, early, more) (refl, refl, refl))
          | inr late ↦
              let enough : leb 5 (retry_count + 1) ≡ true = ground arith in
              rw (free, there) (rw (retry, late, enough) (refl, refl, refl))
        ]
      ]
    ]
