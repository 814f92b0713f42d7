-- ===== src/Iq/Waiting.antt =====
-- Callbacks are called once at most, and forgotten when they expire.
use zowpy.Prelude.{
  ltb, leb, if◌then◌else◌, Bool-cases, Text, text_eq, text_eq→eq, ℕ, ◌+◌, ◌-◌, ◌≤◌, ◌≡◌, refl, ◌∙◌,
  ◌≢◌, inl, inr, Bool, true, false, ◌&&◌, Option, none, some, [], ◌∷◌, arith,
}
use zowpy.Python.Dict.{
  lookup, store, discard, lookup-store, lookup-store_other, lookup-discard, lookup-discard_other,
}
use zowpy.Iq.{
  Callbacks, is_expired, register_callback, unregister_callback, has_callback, not_processed,
  answer_with, process_iq_response, IqCallback, CallbackEnd,
}

lookup-discard_any :
    (i k : Text) (table : Callbacks) → lookup i table ≡ none → lookup i (discard k table) ≡ none
lookup-discard_any i k table h = elim (Bool-cases (text_eq i k)) [
  | inl same ↦ let e : i ≡ k = text_eq→eq i k same in rw e (lookup-discard k table)
  | inr other ↦ lookup-discard_other i k table other ∙ h
]

has_callback-none :
    (iq_id : Text) (table : Callbacks)
    → lookup iq_id table ≡ none
    → has_callback iq_id table ≡ false
unfolding has_callback
has_callback-none [] table h = refl
has_callback-none (c ∷ cs) table h = rw h refl

answer_with-lookup :
    (now : ℕ) (run : CallbackEnd) (iq_id : Text) (table : Callbacks) (found : Option IqCallback)
    → lookup iq_id table ≡ found
    → lookup iq_id (answer_with now run iq_id table found).callbacks ≡ none
unfolding answer_with unregister_callback
answer_with-lookup now run iq_id table none h = h
answer_with-lookup now run iq_id table (some info) h = elim (Bool-cases (is_expired now info)) [
  | inl old ↦ rw old (lookup-discard iq_id table)
  | inr fresh ↦ rw fresh (lookup-discard iq_id (run.meanwhile table))
]

-- After an answer was processed no callback waits for its id, whatever the callback did to the
-- table, and until one is registered again the same answer calls nothing.
pub process_iq_response-once :
    (now later : ℕ) (run again : CallbackEnd) (iq_id : Text) (table : Callbacks)
    → let after = (process_iq_response now run (some iq_id) table).callbacks in
      (has_callback iq_id after ≡ false)
      × (process_iq_response later again (some iq_id) after ≡ not_processed after)
unfolding process_iq_response has_callback answer_with
process_iq_response-once now later run again [] table = (refl, refl)
process_iq_response-once now later run again (c ∷ cs) table =
    let gone = answer_with-lookup now run (c ∷ cs) table (lookup (c ∷ cs) table) refl in
    (rw gone refl, rw gone refl)

-- A callback that was registered is called by the answer that comes within its timeout, and is not
-- called by one that comes after it; other ids wait on as before, if the call leaves the table alone.
pub process_iq_response-register_callback :
    (start now timeout callback : ℕ) (works : Bool) (iq_id other : Text) (table : Callbacks)
    → iq_id ≢ []
    → text_eq other iq_id ≡ false
    → start ≤ now
    → let run : CallbackEnd = record { works = works; meanwhile = λ t. t } in
      let done =
        process_iq_response now run
          (some iq_id)
          (register_callback start iq_id callback timeout table) in
      (done.called ≡ (if leb now (start + timeout) then some callback else none))
      × (done.returned ≡ (leb now (start + timeout) && works))
      × (lookup other done.callbacks ≡ lookup other table)
unfolding process_iq_response register_callback answer_with is_expired unregister_callback
process_iq_response-register_callback start now timeout callback works [] other table h k l =
    absurd (h refl)
process_iq_response-register_callback start now timeout callback works (c ∷ cs) other table h k l =
    let iq_id = c ∷ cs in
    let info : IqCallback = record { callback = callback; timeout = timeout; created_at = start } in
    let kept : lookup other (discard iq_id (store iq_id info table)) ≡ lookup other table =
      lookup-discard_other other iq_id _ k ∙ lookup-store_other other iq_id info table k in
    elim (Bool-cases (leb now (start + timeout))) [
      | inl early ↦
          let fresh : ltb timeout (now - start) ≡ false = ground arith in
          rw (lookup-store iq_id info table, fresh, early) (refl, refl, kept)
      | inr late ↦
          let old : ltb timeout (now - start) ≡ true = ground arith in
          rw (lookup-store iq_id info table, old, late) (refl, refl, kept)
    ]
