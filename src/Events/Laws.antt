-- ===== src/Events/Laws.antt =====
-- What emitting an event starts, and what it leaves.
use zowpy.Prelude.{
  Bool-cases, All, Text, text_eq_ne, ℕ, ◌≡◌, refl, ◌∙◌, ◌≢◌, inl, inr, Bool, true, false, Option,
  none, some, List, [], ◌∷◌, ◌++◌, append_assoc, append-nil, arith,
}
use zowpy.Events.{
  handlers_of, append_handler, pop_event, on, once, off, listener_count, shutdown, started, emit,
  start_wait, Handler, Emitter,
}
use zowpy.Events.Tables.{
  handlers_of-pop_event, handlers_of-pop_event_ne, handlers_of-append_handler,
  handlers_of-remove_from, IsAbsent, remove_handler-append, remove_handler-absent,
}

-- One call of an operation that changes the emitter, from one state to the next.
pub data Steps (executor_takes : ℕ → Bool) : Emitter → Emitter → Type 0 where
  ons : (m : Emitter) (event : Text) (h : Handler) → Steps executor_takes m (on m event h)
  onces : (m : Emitter) (event : Text) (h : Handler) → Steps executor_takes m (once m event h)
  offs : (m : Emitter) (event : Text) (h : Option Handler) → Steps executor_takes m (off m event h)
  emits : (m : Emitter) (event : Text) → Steps executor_takes m (emit executor_takes m event).1
  shuts : (m : Emitter) → Steps executor_takes m (shutdown m)

-- Any sequence of calls.
pub data Runs (executor_takes : ℕ → Bool) : Emitter → Emitter → Type 0 where
  stays : (m : Emitter) → Runs executor_takes m m
  goes :
      (m n o : Emitter)
      → Runs executor_takes m n
      → Steps executor_takes n o
      → Runs executor_takes m o

module _ (executor_takes : ℕ → Bool) where
  emit-open :
      (m : Emitter) (event : Text)
      → m.is_shutdown ≡ false
      → emit executor_takes m event ≡ (
        started executor_takes (handlers_of event m.handlers ++ handlers_of event m.once_handlers),
        record m { once_handlers = pop_event event m.once_handlers },
      )
  unfolding emit
  emit-open m event h = rw h refl

  emit-closed :
      (m : Emitter) (event : Text) → m.is_shutdown ≡ true → emit executor_takes m event ≡ ([], m)
  unfolding emit
  emit-closed m event h = rw h refl

  started-append :
      (hs ks : List Handler)
      → started executor_takes (hs ++ ks) ≡ started executor_takes hs ++ started executor_takes ks
  unfolding started
  started-append [] ks = refl
  started-append (h ∷ hs) ks = ground (arith, started-append hs ks)

  -- A coroutine that is registered by `once` is started last by the next emission of its event, and
  -- is not started by the one after: that starts the handlers registered by `on` and no others.
  pub emit-once :
      (m : Emitter) (event : Text) (h : Handler)
      → m.is_shutdown ≡ false
      → h.is_coroutine ≡ true
      → ((emit executor_takes (once m event h) event).0 ≡ (emit executor_takes m event).0 ++ h ∷ [])
        × ((emit executor_takes (emit executor_takes (once m event h) event).1 event).0
            ≡ started executor_takes (handlers_of event m.handlers))
  unfolding once
  emit-once m event h live coroutine =
      let registered = once m event h in
      let base = handlers_of event m.handlers in
      let extra = handlers_of event m.once_handlers in
      let single : started executor_takes (h ∷ []) ≡ h ∷ [] = unfold started in rw coroutine refl in
      (
        rw (
          emit-open registered event live,
          emit-open m event live,
          handlers_of-append_handler event h m.once_handlers,
          started-append base (extra ++ h ∷ []),
          started-append extra (h ∷ []),
          single,
          started-append base extra,
          append_assoc (started executor_takes base) (started executor_takes extra) (h ∷ []),
        ),
        rw (
          emit-open registered event live,
          emit-open (record registered { once_handlers = pop_event event registered.once_handlers })
              event live,
          handlers_of-pop_event event (append_handler event h m.once_handlers),
          append-nil base,
        ),
      )

  -- Emitting an event leaves the listeners of every other event as they were.
  pub listener_count-emit_other :
      (m : Emitter) (other event : Text)
      → other ≢ event
      → listener_count (emit executor_takes m event).1 other ≡ listener_count m other
  unfolding listener_count
  listener_count-emit_other m other event differ = elim (Bool-cases m.is_shutdown) [
    | inl closed ↦ rw (emit-closed m event closed) refl
    | inr live ↦
        rw
          (
            emit-open m event live,
            handlers_of-pop_event_ne other event m.once_handlers (text_eq_ne other event differ),
          )
          refl
  ]

  Steps-is_shutdown :
      (m n : Emitter) → Steps executor_takes m n → m.is_shutdown ≡ true → n.is_shutdown ≡ true
  Steps-is_shutdown m _ (ons _ event h) closed = unfold on in closed
  Steps-is_shutdown m _ (onces _ event h) closed = unfold once in closed
  Steps-is_shutdown m _ (offs _ event none) closed = unfold off in closed
  Steps-is_shutdown m _ (offs _ event (some h)) closed = unfold off in closed
  Steps-is_shutdown m _ (emits _ event) closed = rw (emit-closed m event closed) closed
  Steps-is_shutdown m _ (shuts _) closed = unfold shutdown in rw closed refl

  Runs-is_shutdown :
      (m n : Emitter) → Runs executor_takes m n → m.is_shutdown ≡ true → n.is_shutdown ≡ true
  Runs-is_shutdown m _ (stays _) closed = closed
  Runs-is_shutdown m o (goes _ n _ run step) closed =
      Steps-is_shutdown n o step (Runs-is_shutdown m n run closed)

  shutdown-is_shutdown : (m : Emitter) → (shutdown m).is_shutdown ≡ true
  unfolding shutdown
  shutdown-is_shutdown m = elim (Bool-cases m.is_shutdown) [
    | inl closed ↦ rw closed refl
    | inr live ↦ rw live refl
  ]

  -- After `shutdown`, whatever is called, nothing is started any more.
  pub emit-after_shutdown :
      (m n : Emitter) (event : Text)
      → Runs executor_takes (shutdown m) n
      → (emit executor_takes n event).0 ≡ []
  emit-after_shutdown m n event run =
      rw (emit-closed n event (Runs-is_shutdown (shutdown m) n run (shutdown-is_shutdown m))) refl

  -- A handler that was not registered for the event and is registered by `on` and taken off again
  -- leaves the event's handlers as they were, those of `once` too.
  pub off-on :
      (m : Emitter) (event : Text) (h : Handler)
      → IsAbsent h (handlers_of event m.handlers)
      → IsAbsent h (handlers_of event m.once_handlers)
      → (handlers_of event (off (on m event h) event (some h)).handlers
          ≡ handlers_of event m.handlers)
        × (handlers_of event (off (on m event h) event (some h)).once_handlers
            ≡ handlers_of event m.once_handlers)
  unfolding off on
  off-on m event h fresh fresh_once = (
    handlers_of-remove_from event h (append_handler event h m.handlers)
        ∙ rw (handlers_of-append_handler event h m.handlers)
            (remove_handler-append h (handlers_of event m.handlers) fresh),
    handlers_of-remove_from event h m.once_handlers
        ∙ remove_handler-absent h (handlers_of event m.once_handlers) fresh_once,
  )

  -- `run_in_executor` needs an executor and a function: a call with one argument is a TypeError.
  module _ (needs_function : executor_takes 1 ≡ false) where
    started-AreCoroutines :
        (hs : List Handler) → All (λ h. h.is_coroutine ≡ true) (started executor_takes hs)
    unfolding started
    started-AreCoroutines [] = tt
    started-AreCoroutines (h ∷ hs) = elim (Bool-cases h.is_coroutine) [
      | inl yes_coroutine ↦ rw yes_coroutine (refl, started-AreCoroutines hs)
      | inr no_coroutine ↦ rw (no_coroutine, needs_function) (started-AreCoroutines hs)
    ]

    -- Only coroutines are ever started.
    pub emit-AreCoroutines :
        (m : Emitter) (event : Text)
        → All (λ h. h.is_coroutine ≡ true) (emit executor_takes m event).0
    emit-AreCoroutines m event = elim (Bool-cases m.is_shutdown) [
      | inl closed ↦ rw (emit-closed m event closed) tt
      | inr live ↦ rw (emit-open m event live) (started-AreCoroutines _)
    ]

    -- A `wait_for` never sees its event: the emission starts what it would start without the wait,
    -- and the handler of the wait is dropped with the other handlers of `once`.
    pub emit-start_wait :
        (m : Emitter) (event : Text) (identity : ℕ)
        → m.is_shutdown ≡ false
        → ((emit executor_takes (start_wait m event identity) event).0
            ≡ (emit executor_takes m event).0)
          × (handlers_of event
                (emit executor_takes (start_wait m event identity) event).1.once_handlers
              ≡ [])
    unfolding start_wait once
    emit-start_wait m event identity live =
        let h : Handler = record { identity = identity; is_coroutine = false } in
        let registered = once m event h in
        let base = handlers_of event m.handlers in
        let extra = handlers_of event m.once_handlers in
        let nothing : started executor_takes (h ∷ []) ≡ [] =
          unfold started in rw needs_function refl in
        (
          rw (
            emit-open registered event live,
            emit-open m event live,
            handlers_of-append_handler event h m.once_handlers,
            started-append base (extra ++ h ∷ []),
            started-append extra (h ∷ []),
            nothing,
            append-nil (started executor_takes extra),
            started-append base extra,
          ),
          rw (emit-open registered event live)
              (handlers_of-pop_event event (append_handler event h m.once_handlers)),
        )
