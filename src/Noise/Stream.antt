-- ===== src/Noise/Stream.antt =====
-- `AsyncSegmentedStream` of zowpy/noise/stream.py. A coroutine runs alone between two of its awaits
-- that wait. The queues have no bound, so `put` never waits; `get` waits on an empty queue. `none`
-- in a queue is the None by which `cancel` wakes a reader.
use zowpy.Prelude.{
  if◌then◌else◌, ℕ, Bool, true, false, ◌||◌, Option, none, some, List, [], ◌∷◌, ◌++◌,
}
use zowpy.Result.{Error, cancelled, timeout}

abbrev pub Segment : Type 0
Segment = List ℕ

pub record Stream : Type 0 where
  pub read_queue : List (Option Segment)
  pub write_queue : List (Option Segment)
  pub is_cancelled : Bool
  pub is_closed : Bool
  pub read_event : Bool
  pub write_event : Bool

-- `AsyncSegmentedStream()`
abbrev pub new_stream : Stream
new_stream = record {
  read_queue = [];
  write_queue = [];
  is_cancelled = false;
  is_closed = false;
  read_event = false;
  write_event = false;
}

-- What a call of `read_segment` comes to: a result, an exception, or a wait in `get`.
pub data Reply : Type 0 where
  returns : Segment → Reply
  raises : Error → Reply
  waits : Reply

-- What `get` gives at the head of the queue, and the None it may give.
unfoldable pub reply_of : List (Option Segment) → Reply
reply_of [] = waits
reply_of (none ∷ queue) = raises cancelled
reply_of (some segment ∷ queue) = returns segment

abbrev pub rest_of : List (Option Segment) → List (Option Segment)
rest_of [] = []
rest_of (item ∷ queue) = queue

-- `read_segment` from its await of `get` on, also when it is woken there.
unfoldable pub resume_read : Stream → Reply × Stream
unfolding reply_of
resume_read s = (reply_of s.read_queue, record s { read_queue = rest_of s.read_queue })

unfoldable pub read_segment : Stream → Reply × Stream
unfolding resume_read
read_segment s = if s.is_cancelled || s.is_closed then (raises cancelled, s) else resume_read s

-- The `except` clause of a read or a write whose wait timed out.
unfoldable pub time_out : Stream → Error
time_out s = if s.is_cancelled then cancelled else timeout

unfoldable pub write_segment : Stream → Segment → Stream
write_segment s segment =
    if s.is_cancelled || s.is_closed
    then s
    else record s { write_queue = s.write_queue ++ some segment ∷ []; write_event = true }

unfoldable pub resume_write : Stream → Reply × Stream
unfolding reply_of
resume_write s = (reply_of s.write_queue, record s { write_queue = rest_of s.write_queue })

unfoldable pub get_write_segment : Stream → Reply × Stream
unfolding resume_write
get_write_segment s =
    if s.is_cancelled || s.is_closed then (raises cancelled, s) else resume_write s

unfoldable pub put_read_segment : Stream → Segment → Stream
put_read_segment s segment =
    if s.is_cancelled || s.is_closed
    then s
    else record s { read_queue = s.read_queue ++ some segment ∷ []; read_event = true }

unfoldable pub cancel : Stream → Stream
cancel s = record s {
  is_cancelled = true;
  read_queue = s.read_queue ++ none ∷ [];
  write_queue = s.write_queue ++ none ∷ [];
}

unfoldable pub close : Stream → Stream
unfolding cancel
close s = cancel (record s { is_closed = true })

-- The loops of `reset`, which end with an empty queue.
unfoldable pub clear_queue : List (Option Segment) → List (Option Segment)
clear_queue [] = []
clear_queue (item ∷ queue) = clear_queue queue

unfoldable pub reset : Stream → Stream
unfolding clear_queue
reset s = record {
  read_queue = clear_queue s.read_queue;
  write_queue = clear_queue s.write_queue;
  is_cancelled = false;
  is_closed = false;
  read_event = false;
  write_event = false;
}

-- The calls that a client of the stream makes.
pub data Call : Type 0 where
  reads gets cancels closes resets : Call
  writes puts : Segment → Call

unfoldable pub step : Stream → Call → Option Reply × Stream
unfolding read_segment get_write_segment write_segment put_read_segment cancel close reset
step s reads = let (reply, t) = read_segment s in (some reply, t)
step s gets = let (reply, t) = get_write_segment s in (some reply, t)
step s cancels = (none, cancel s)
step s closes = (none, close s)
step s resets = (none, reset s)
step s (writes segment) = (none, write_segment s segment)
step s (puts segment) = (none, put_read_segment s segment)

-- What a client sees of a sequence of calls.
unfoldable pub run : Stream → List Call → List (Option Reply)
unfolding step
run s [] = []
run s (c ∷ cs) = let (reply, t) = step s c in reply ∷ run t cs
