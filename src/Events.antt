-- ===== src/Events.antt =====
-- `AsyncEventEmitter` of zowpy/core/events.py. The lock makes each call atomic.
use zowpy.Prelude.{
  ◌==◌, if◌then◌else◌, length, Text, text_eq, ℕ, ◌+◌, Bool, true, false, Option, none, some, List,
  [], ◌∷◌, ◌++◌,
}
pub mod Tables
pub mod Laws
mod Examples

-- A handler, with the test `asyncio.iscoroutinefunction`.
pub record Handler : Type 0 where
  pub identity : ℕ
  pub is_coroutine : Bool

-- A dict from events to lists of handlers.
abbrev pub Table : Type 0
Table = List (Text × List Handler)

pub record Emitter : Type 0 where
  pub handlers : Table
  pub once_handlers : Table
  pub is_shutdown : Bool

-- `AsyncEventEmitter()`
abbrev pub new_emitter : Emitter
new_emitter = record { handlers = []; once_handlers = []; is_shutdown = false }

-- `table.get(event, [])`
unfoldable pub handlers_of : Text → Table → List Handler
handlers_of event [] = []
handlers_of event ((e, hs) ∷ table) = if text_eq event e then hs else handlers_of event table

-- An empty list for a new event, and `append`.
unfoldable pub append_handler : Text → Handler → Table → Table
append_handler event h [] = (event, h ∷ []) ∷ []
append_handler event h ((e, hs) ∷ table) =
    if text_eq event e then (e, hs ++ h ∷ []) ∷ table else (e, hs) ∷ append_handler event h table

-- `table.pop(event, None)`, where an event is a key at most once.
unfoldable pub pop_event : Text → Table → Table
pop_event event [] = []
pop_event event ((e, hs) ∷ table) =
    let rest = pop_event event table in if text_eq event e then rest else (e, hs) ∷ rest

-- `list.remove`, whose ValueError is caught.
unfoldable pub remove_handler : Handler → List Handler → List Handler
remove_handler h [] = []
remove_handler h (k ∷ ks) = if k.identity == h.identity then ks else k ∷ remove_handler h ks

unfoldable pub remove_from : Text → Handler → Table → Table
unfolding remove_handler
remove_from event h [] = []
remove_from event h ((e, hs) ∷ table) =
    if text_eq event e
    then (e, remove_handler h hs) ∷ table
    else (e, hs) ∷ remove_from event h table

unfoldable pub on : Emitter → Text → Handler → Emitter
unfolding append_handler
on m event h = record m { handlers = append_handler event h m.handlers }

unfoldable pub once : Emitter → Text → Handler → Emitter
unfolding append_handler
once m event h = record m { once_handlers = append_handler event h m.once_handlers }

unfoldable pub off : Emitter → Text → Option Handler → Emitter
unfolding pop_event remove_from
off m event none = record m {
  handlers = pop_event event m.handlers;
  once_handlers = pop_event event m.once_handlers;
}
off m event (some h) = record m {
  handlers = remove_from event h m.handlers;
  once_handlers = remove_from event h m.once_handlers;
}

unfoldable pub listener_count : Emitter → Text → ℕ
unfolding handlers_of
listener_count m event =
    length (handlers_of event m.handlers) + length (handlers_of event m.once_handlers)

unfoldable pub shutdown : Emitter → Emitter
shutdown m =
    if m.is_shutdown then m else record { handlers = []; once_handlers = []; is_shutdown = true }

-- Whether `loop.run_in_executor` takes so many arguments is a parameter.
module _ (executor_takes : ℕ → Bool) where
  -- The handlers that are started. One that is no coroutine is given to the executor in a call with
  -- one argument, whose TypeError is logged.
  unfoldable pub started : List Handler → List Handler
  started [] = []
  started (h ∷ hs) =
      let rest = started hs in
      if h.is_coroutine then h ∷ rest else if executor_takes 1 then h ∷ rest else rest

  -- The handlers that `emit` starts, in order, and the emitter after it.
  unfoldable pub emit : Emitter → Text → List Handler × Emitter
  unfolding handlers_of started pop_event
  emit m event = if m.is_shutdown then ([], m) else (
    started (handlers_of event m.handlers ++ handlers_of event m.once_handlers),
    record m { once_handlers = pop_event event m.once_handlers },
  )

-- `wait_for` up to the wait: its handler is an inner `def`.
unfoldable pub start_wait : Emitter → Text → ℕ → Emitter
unfolding once
start_wait m event identity = once m event (record { identity = identity; is_coroutine = false })
