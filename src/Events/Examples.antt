-- ===== src/Events/Examples.antt =====
-- The theorems on events at concrete emitters.
use zowpy.Prelude.{ltb, Text, codes, ℕ, ◌≡◌, refl, Bool, true, false, [], ◌∷◌, ◌++◌}
use zowpy.Events.{handlers_of, on, once, shutdown, started, emit, Handler, Emitter}
use zowpy.Events.Laws.{emit-once, emit-after_shutdown, ons, stays, goes}

-- A stand-in for the executor, which needs two arguments at least.
two_or_more : ℕ → Bool
two_or_more n = ltb 1 n

abbrev printer : Handler
printer = record { identity = 1; is_coroutine = true }

abbrev waiter : Handler
waiter = record { identity = 2; is_coroutine = true }

abbrev message : Text
message = codes "message"

abbrev listening : Emitter
listening = record {
  handlers = (message, printer ∷ []) ∷ [];
  once_handlers = [];
  is_shutdown = false;
}

emit-once_example :
    ((emit two_or_more (once listening message waiter) message).0
      ≡ (emit two_or_more listening message).0 ++ waiter ∷ [])
    × ((emit two_or_more (emit two_or_more (once listening message waiter) message).1 message).0
        ≡ started two_or_more (handlers_of message listening.handlers))
emit-once_example = emit-once two_or_more listening message waiter refl refl

emit-after_shutdown_example :
    (emit two_or_more (on (shutdown listening) message waiter) message).0 ≡ []
emit-after_shutdown_example =
    emit-after_shutdown two_or_more listening (on (shutdown listening) message waiter) message (
      goes (shutdown listening) (shutdown listening) (on (shutdown listening) message waiter)
        (stays (shutdown listening)) (ons (shutdown listening) message waiter))
