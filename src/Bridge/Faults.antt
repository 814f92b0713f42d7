-- ===== src/Bridge/Faults.antt =====
-- What the loops do when the connection breaks.
use zowpy.Prelude.{
  leb, Bool-cases, length, ℕ, ◌^◌, ◌≡◌, refl, ◌∙◌, ◌≢◌, inl, inr, Bool, true, false, ◌&&◌, ◌||◌,
  List, [], ◌∷◌, ◌++◌, arith,
}
use zowpy.Result.{value_error, cancelled, timeout, builtin_connection_error, Result, err}
use zowpy.Connection.{read_chunk, write, is_connected, Incoming, chunk, broken, Connection}
use zowpy.Noise.Stream.{
  reply_of, read_segment, resume_write, get_write_segment, cancel, Stream, Reply, returns, raises,
  waits,
}
use zowpy.Bridge.{
  start, give_up, after_read, read_step, unless_ended, read_loop, frame, after_round, after_get,
  write_step, write_loop, Emitted, disconnected, reconnect, Bridge,
}
use zowpy.Bridge.Delivery.{IsLive}

-- Nobody was told of anything: no event, and the stream is cancelled only if it was.
abbrev pub IsSilent : Bridge → Bridge → Type 0
IsSilent b c = (c.events ≡ b.events) × (c.stream.is_cancelled ≡ b.stream.is_cancelled)

-- An exception that is not the built-in ConnectionError ends a round silently.
after_round-IsSilent :
    (b : Bridge) (r : Result {0} Unit)
    → r ≢ err builtin_connection_error
    → IsSilent b (after_round b r).0
unfolding after_round
after_round-IsSilent b r h = ground arith

write-ne_builtin :
    (c : Connection) (bs : List ℕ) (works : Bool)
    → (write c bs works).0 ≢ err builtin_connection_error
unfolding write
write-ne_builtin c bs works = ground arith

get_write_segment-ne_builtin :
    (s : Stream) → (get_write_segment s).0 ≢ raises builtin_connection_error
unfolding get_write_segment resume_write reply_of
get_write_segment-ne_builtin s = ground arith

get_write_segment-is_cancelled :
    (s : Stream) → (get_write_segment s).1.is_cancelled ≡ s.is_cancelled
unfolding get_write_segment resume_write
get_write_segment-is_cancelled s = elim (Bool-cases (s.is_cancelled || s.is_closed)) [
  | inl over ↦ rw over refl
  | inr usable ↦ rw usable refl
]

after_get-IsSilent :
    (b : Bridge) (works : Bool) (got : Reply × Stream)
    → got.0 ≢ raises builtin_connection_error
    → got.1.is_cancelled ≡ b.stream.is_cancelled
    → IsSilent b (after_get b works got).0
unfolding after_get
after_get-IsSilent b works (raises e, stream) h same =
    let r = after_round-IsSilent (record b { stream = stream }) (err e) (λ q. h cc) in
    (r.0, r.1 ∙ same)
after_get-IsSilent b works (waits, stream) h same =
    let r = after_round-IsSilent (record b { stream = stream }) (err timeout) (cc) in
    (r.0, r.1 ∙ same)
after_get-IsSilent b works (returns [], stream) h same = (refl, same)
after_get-IsSilent b works (returns (byte ∷ bytes), stream) h same =
    elim (Bool-cases (leb (2 ^ 24) (length (byte ∷ bytes)))) [
      | inl large ↦
          let r = after_round-IsSilent (record b { stream = stream }) (err value_error) (cc) in
          rw large (r.0, r.1 ∙ same)
      | inr small ↦
          let sent = write b.connection (frame (byte ∷ bytes)) works in
          let r =
            after_round-IsSilent (record b { stream = stream; connection = sent.1 }) sent.0
              (write-ne_builtin b.connection (frame (byte ∷ bytes)) works) in
          rw small (r.0, r.1 ∙ same)
    ]

write_step-IsSilent : (b : Bridge) (works : Bool) → IsSilent b (write_step b works).0
unfolding write_step
write_step-IsSilent b works = elim (Bool-cases (b.is_running && is_connected b.connection)) [
  | inl up ↦ rw up (
      after_get-IsSilent b works (get_write_segment b.stream)
        (get_write_segment-ne_builtin b.stream) (get_write_segment-is_cancelled b.stream))
  | inr down ↦ rw down (refl, refl)
]

unless_ended-IsSilent :
    (loop : Bridge → Bridge) (b : Bridge) (r : Bridge × Bool)
    → ((c : Bridge) → IsSilent c (loop c))
    → IsSilent b r.0
    → IsSilent b (unless_ended loop r)
unfolding unless_ended
unless_ended-IsSilent loop b (c, true) h k = ((h c).0 ∙ k.0, (h c).1 ∙ k.1)
unless_ended-IsSilent loop b (c, false) h k = k

-- The writing loop never emits an event and never cancels the stream, whether its writes work or fail:
-- a failed write raises the ConnectionError of core/connection.py, which is not the built-in class
-- that the clause with the emission names.
pub write_loop-IsSilent : (works : List Bool) (b : Bridge) → IsSilent b (write_loop works b)
unfolding write_loop
write_loop-IsSilent [] b = (refl, refl)
write_loop-IsSilent (w ∷ works) b =
    unless_ended-IsSilent (write_loop works) b (write_step b w) (write_loop-IsSilent works)
      (write_step-IsSilent b w)

-- A socket at its end, or broken.
pub data Ends : Incoming → Emitted → Type 0 where
  at_end : Ends (chunk []) disconnected
  breaks : Ends broken reconnect

both_true : (a c : Bool) → (a && c) ≡ true → a ≡ true
both_true true c h = refl
both_true false c h = absurd cc

start-running : (b : Bridge) → b.is_running ≡ true → start b ≡ b
unfolding start
start-running b h = rw h refl

-- When the socket is at its end or broken, the reading loop of a running bridge emits one event and
-- ends, whatever comes after; the connection is down, the stream is cancelled, every read of it is
-- refused, and `start` does not start the bridge again.
pub read_loop-Ends :
    (b : Bridge) (incoming : Incoming) (more : List Incoming) (e : Emitted)
    → IsLive b
    → Ends incoming e
    → ((read_loop (incoming ∷ more) b).events ≡ b.events ++ e ∷ [])
      × (is_connected (read_loop (incoming ∷ more) b).connection ≡ false)
      × ((read_segment (read_loop (incoming ∷ more) b).stream).0 ≡ raises cancelled)
      × (start (read_loop (incoming ∷ more) b) ≡ read_loop (incoming ∷ more) b)
unfolding read_loop read_step unless_ended after_read give_up read_segment cancel read_chunk
read_loop-Ends b _ more _ live at_end =
    let running = both_true b.is_running (is_connected b.connection) live.up in
    rw (live.up, live.usable) (refl, (unfold is_connected in refl), refl, start-running _ running)
read_loop-Ends b _ more _ live breaks =
    let running = both_true b.is_running (is_connected b.connection) live.up in
    rw (live.up, live.usable) (refl, (unfold is_connected in refl), refl, start-running _ running)
