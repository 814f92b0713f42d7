-- ===== src/Noise/Channel.antt =====
-- What `AsyncSegmentedStream` promises: two first-in first-out queues, open or shut. Shut, every
-- read fails and every write is dropped, whatever was queued; `reset` opens it empty.
use zowpy.Prelude.{◌≡◌, refl, ap, Bool, true, false, Option, none, some, List, [], ◌∷◌, ◌++◌, map}
use zowpy.Result.{cancelled}
use zowpy.Noise.Stream.{
  Segment, new_stream, reply_of, rest_of, resume_read, read_segment, write_segment, resume_write,
  get_write_segment, put_read_segment, cancel, close, clear_queue, reset, step, run, Stream, Reply,
  returns, raises, waits, Call, reads, gets, cancels, closes, resets, writes, puts,
}

pub record Channel : Type 0 where
  pub inbox : List Segment
  pub outbox : List Segment

-- `none` is a channel that is shut.
abbrev pub Promise : Type 0
Promise = Option Channel

abbrev first : List Segment → Reply
first [] = waits
first (segment ∷ segments) = returns segment

abbrev others : List Segment → List Segment
others [] = []
others (segment ∷ segments) = segments

-- The step of the specification.
abbrev pub promised : Promise → Call → Option Reply × Promise
promised p resets = (none, some (record { inbox = []; outbox = [] }))
promised p cancels = (none, none)
promised p closes = (none, none)
promised none reads = (some (raises cancelled), none)
promised none gets = (some (raises cancelled), none)
promised none (writes segment) = (none, none)
promised none (puts segment) = (none, none)
promised (some c) reads = (some (first c.inbox), some (record c { inbox = others c.inbox }))
promised (some c) gets = (some (first c.outbox), some (record c { outbox = others c.outbox }))
promised (some c) (writes segment) = (none, some (record c { outbox = c.outbox ++ segment ∷ [] }))
promised (some c) (puts segment) = (none, some (record c { inbox = c.inbox ++ segment ∷ [] }))

pub promised_run : Promise → List Call → List (Option Reply)
promised_run p [] = []
promised_run p (c ∷ cs) = let (reply, q) = promised p c in reply ∷ promised_run q cs

-- The stream with these segments, open.
abbrev open_stream : Channel → Bool → Bool → Stream
open_stream c read_event write_event = record {
  read_queue = map some c.inbox;
  write_queue = map some c.outbox;
  is_cancelled = false;
  is_closed = false;
  read_event = read_event;
  write_event = write_event;
}

-- A stream that stands for an open channel holds its segments and no None; one that stands for a
-- shut channel is cancelled.
pub data Represents : Stream → Promise → Type 0 where
  is_open : (c : Channel) (r w : Bool) → Represents (open_stream c r w) (some c)
  is_shut : (s : Stream) → s.is_cancelled ≡ true → Represents s none

reply_of-map : (q : List Segment) → reply_of (map some q) ≡ first q
unfolding reply_of
reply_of-map [] = refl
reply_of-map (segment ∷ q) = refl

rest_of-map : (q : List Segment) → rest_of (map some q) ≡ map some (others q)
rest_of-map [] = refl
rest_of-map (segment ∷ q) = refl

map-last : (q : List Segment) (a : Segment) → map some (q ++ a ∷ []) ≡ map some q ++ some a ∷ []
map-last [] a = refl
map-last (b ∷ q) a = ap (λ l. some b ∷ l) (map-last q a)

clear_queue-empty : (q : List (Option Segment)) → clear_queue q ≡ []
unfolding clear_queue
clear_queue-empty [] = refl
clear_queue-empty (item ∷ q) = clear_queue-empty q

-- One call gives the promised reply, and leads to a stream that stands for the promised channel.
abbrev Keeps : Stream → Promise → Call → Type 0
Keeps s p c = ((step s c).0 ≡ (promised p c).0) × Represents (step s c).1 (promised p c).1

reads-Keeps : (c : Channel) (r w : Bool) → Keeps (open_stream c r w) (some c) reads
unfolding step read_segment resume_read
reads-Keeps c r w = (
  ap some (reply_of-map c.inbox),
  rw (rest_of-map c.inbox) (is_open (record c { inbox = others c.inbox }) r w),
)

gets-Keeps : (c : Channel) (r w : Bool) → Keeps (open_stream c r w) (some c) gets
unfolding step get_write_segment resume_write
gets-Keeps c r w = (
  ap some (reply_of-map c.outbox),
  rw (rest_of-map c.outbox) (is_open (record c { outbox = others c.outbox }) r w),
)

open-Keeps : (c : Channel) (r w : Bool) (call : Call) → Keeps (open_stream c r w) (some c) call
unfolding step write_segment put_read_segment cancel close reset
open-Keeps c r w reads = reads-Keeps c r w
open-Keeps c r w gets = gets-Keeps c r w
open-Keeps c r w cancels = (refl, is_shut _ refl)
open-Keeps c r w closes = (refl, is_shut _ refl)
open-Keeps c r w resets = (
  refl,
  rw (clear_queue-empty (map some c.inbox), clear_queue-empty (map some c.outbox))
      (is_open (record { inbox = []; outbox = [] }) false false),
)
open-Keeps c r w (writes a) =
    (refl, rw (← map-last c.outbox a) (is_open (record c { outbox = c.outbox ++ a ∷ [] }) r true))
open-Keeps c r w (puts a) =
    (refl, rw (← map-last c.inbox a) (is_open (record c { inbox = c.inbox ++ a ∷ [] }) true w))

shut-Keeps : (s : Stream) (call : Call) → s.is_cancelled ≡ true → Keeps s none call
unfolding step read_segment get_write_segment write_segment put_read_segment cancel close reset
shut-Keeps s reads h = rw h (refl, is_shut _ refl)
shut-Keeps s gets h = rw h (refl, is_shut _ refl)
shut-Keeps s cancels h = (refl, is_shut _ refl)
shut-Keeps s closes h = (refl, is_shut _ refl)
shut-Keeps s resets h = (
  refl,
  rw (clear_queue-empty s.read_queue, clear_queue-empty s.write_queue)
      (is_open (record { inbox = []; outbox = [] }) false false),
)
shut-Keeps s (writes a) h = rw h (refl, is_shut _ refl)
shut-Keeps s (puts a) h = rw h (refl, is_shut _ refl)

step-Keeps : (s : Stream) (p : Promise) (call : Call) → Represents s p → Keeps s p call
step-Keeps _ _ call (is_open c r w) = open-Keeps c r w call
step-Keeps _ _ call (is_shut s h) = shut-Keeps s call h

run-promised_from :
    (s : Stream) (p : Promise) (calls : List Call)
    → Represents s p
    → run s calls ≡ promised_run p calls
unfolding run promised_run
run-promised_from s p [] h = refl
run-promised_from s p (c ∷ cs) h =
    let (same, next) = step-Keeps s p c h in
    rw (same, run-promised_from (step s c).1 (promised p c).1 cs next) refl

-- A new stream answers every sequence of calls as its specification does: as two queues, which
-- `cancel` and `close` shut and `reset` empties and opens.
pub run-promised :
    (calls : List Call)
    → run new_stream calls ≡ promised_run (some (record { inbox = []; outbox = [] })) calls
run-promised calls =
    run-promised_from new_stream _ calls (is_open (record { inbox = []; outbox = [] }) false false)
