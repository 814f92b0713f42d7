-- ===== src/Bridge.antt =====
-- `TCPStreamBridge` of zowpy/core/bridge.py: segments in and out of the bytes of a connection.
use zowpy.Prelude.{
  ltb, leb, if◌then◌else◌, length, take, drop, ℕ, zero, suc, ◌+◌, ◌*◌, ◌^◌, Bool, true, false, ◌&&◌,
  List, [], ◌∷◌, ◌++◌,
}
use zowpy.Result.{value_error, cancelled, timeout, builtin_connection_error, Result, ok, err}
use zowpy.Connection.{size_bytes, read_chunk, write, is_connected, Incoming, Connection}
use zowpy.Noise.Stream.{
  Segment, get_write_segment, put_read_segment, cancel, Stream, Reply, returns, raises, waits,
}
pub mod Framing
pub mod Reassembly
pub mod Delivery
pub mod EndToEnd
pub mod Faults
mod Examples

-- `struct.unpack('>I', b'\x00' + size_bytes)[0]`
unfoldable pub size_of : ℕ → ℕ → ℕ → ℕ
size_of a b c = a * 2 ^ 16 + b * 2 ^ 8 + c

-- The inner loop of `_tcp_to_stream_loop`: the segments of a buffer, and what is left. The check for
-- a size of 2 ^ 24 or more never holds for three bytes.
unfoldable pub extract : ℕ → List ℕ → List Segment × List ℕ
unfolding size_of
extract zero buffer = ([], buffer)
extract (suc f) (a ∷ b ∷ c ∷ bytes) =
    let size = size_of a b c in
    let rest = extract f (drop size bytes) in
    if leb (2 ^ 24) size
    then ([], [])
    else if ltb (length bytes) size
    then ([], a ∷ b ∷ c ∷ bytes)
    else (take size bytes ∷ rest.0, rest.1)
extract (suc f) buffer = ([], buffer)

-- Each round takes three bytes at least.
unfoldable pub extract_all : List ℕ → List Segment × List ℕ
unfolding extract
extract_all buffer = extract (length buffer) buffer

-- Which events the bridge emitted. It has an emitter.
pub data Emitted : Type 0 where
  disconnected reconnect : Emitted

pub record Bridge : Type 0 where
  pub is_running : Bool
  pub connection : Connection
  pub stream : Stream
  pub buffer : List ℕ
  pub events : List Emitted

-- `TCPStreamBridge(connection, stream, events)`
abbrev pub new_bridge : Connection → Stream → Bridge
new_bridge connection stream = record {
  is_running = false;
  connection = connection;
  stream = stream;
  buffer = [];
  events = [];
}

-- `start`, which makes the tasks of the two loops; the reading loop begins with an empty buffer.
unfoldable pub start : Bridge → Bridge
start b = if b.is_running then b else record b { is_running = true; buffer = [] }

-- `stop`, which ends the tasks.
unfoldable pub stop : Bridge → Bridge
stop b = record b { is_running = false }

unfoldable pub put_all : Stream → List Segment → Stream
unfolding put_read_segment
put_all s [] = s
put_all s (segment ∷ segments) = put_all (put_read_segment s segment) segments

-- The end of the reading loop: the stream is cancelled and an event emitted.
unfoldable pub give_up : Bridge → Emitted → Bridge
unfolding cancel
give_up b e = record b { stream = cancel b.stream; events = b.events ++ e ∷ [] }

-- A round of `_tcp_to_stream_loop` after `read_chunk`; `true` if the loop goes on. The clause
-- `except ConnectionError` is about the built-in class; a failed read is caught by
-- `except Exception`, which does the same.
unfoldable pub after_read : Bridge → Result (List ℕ) × Connection → Bridge × Bool
unfolding give_up extract_all put_all
after_read b (err e, connection) = (give_up (record b { connection = connection }) reconnect, false)
after_read b (ok [], connection) =
    (give_up (record b { connection = connection }) disconnected, false)
after_read b (ok (byte ∷ bytes), connection) =
    let (segments, rest) = extract_all (b.buffer ++ (byte ∷ bytes)) in
    (record b { connection = connection; stream = put_all b.stream segments; buffer = rest }, true)

unfoldable pub read_step : Bridge → Incoming → Bridge × Bool
unfolding is_connected read_chunk after_read
read_step b incoming =
    if b.is_running && is_connected b.connection
    then after_read b (read_chunk b.connection incoming)
    else (b, false)

-- A loop goes on after a round, or ends with it.
unfoldable pub unless_ended : (Bridge → Bridge) → Bridge × Bool → Bridge
unless_ended loop (b, true) = loop b
unless_ended loop (b, false) = b

-- The loop, over what the socket gives in each round.
unfoldable pub read_loop : List Incoming → Bridge → Bridge
unfolding read_step unless_ended
read_loop [] b = b
read_loop (incoming ∷ more) b = unless_ended (read_loop more) (read_step b incoming)

-- `size_bytes + data`
unfoldable pub frame : Segment → List ℕ
unfolding size_bytes
frame segment = size_bytes (length segment) ++ segment

-- The end of a round of `_stream_to_tcp_loop`, by its `except` clauses; `true` if the loop goes on. The
-- third clause names the built-in ConnectionError, since bridge.py imports no other; the clause for
-- every other exception sleeps and goes on.
unfoldable pub after_round : Bridge → Result {0} Unit → Bridge × Bool
after_round b (ok done) = (b, true)
after_round b (err timeout) = (b, b.is_running)
after_round b (err cancelled) = (b, false)
after_round b (err builtin_connection_error) =
    (record b { events = b.events ++ disconnected ∷ [] }, false)
after_round b (err e) = (b, true)

-- A round after `get_write_segment`, while nothing else runs; `works` tells whether the socket takes
-- the bytes. A wait times out, an empty segment is passed over, and one that is too large is a
-- ValueError.
unfoldable pub after_get : Bridge → Bool → Reply × Stream → Bridge × Bool
unfolding frame write after_round
after_get b works (raises e, stream) = after_round (record b { stream = stream }) (err e)
after_get b works (waits, stream) = after_round (record b { stream = stream }) (err timeout)
after_get b works (returns [], stream) = (record b { stream = stream }, true)
after_get b works (returns (byte ∷ bytes), stream) =
    if leb (2 ^ 24) (length (byte ∷ bytes))
    then after_round (record b { stream = stream }) (err value_error)
    else (let (result, connection) = write b.connection (frame (byte ∷ bytes)) works in
        after_round (record b { stream = stream; connection = connection }) result)

unfoldable pub write_step : Bridge → Bool → Bridge × Bool
unfolding is_connected get_write_segment after_get
write_step b works =
    if b.is_running && is_connected b.connection
    then after_get b works (get_write_segment b.stream)
    else (b, false)

unfoldable pub write_loop : List Bool → Bridge → Bridge
unfolding write_step unless_ended
write_loop [] b = b
write_loop (works ∷ more) b = unless_ended (write_loop more) (write_step b works)
