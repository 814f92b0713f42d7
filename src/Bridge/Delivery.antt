-- ===== src/Bridge/Delivery.antt =====
-- The two loops of the bridge, and the way from the sender's transport to the receiver's.
use zowpy.Prelude.{
  leb, length, replicate, All, AreBytes, ℕ, ◌^◌, ◌<◌, ◌≡◌, refl, sym, ap, ◌∙◌, true, false, not,
  ◌&&◌, ◌||◌, Option, some, List, [], ◌∷◌, ◌++◌, map, append_assoc, append-nil, arith,
}
use zowpy.Connection.{read_chunk, write, is_connected, chunk, Connection}
use zowpy.Noise.Stream.{
  Segment, reply_of, rest_of, resume_write, get_write_segment, put_read_segment, Stream, returns,
}
use zowpy.Bridge.{
  extract_all, put_all, after_read, read_step, unless_ended, read_loop, frame, after_get,
  write_step, write_loop, Bridge,
}
use zowpy.Bridge.Reassembly.{joined, frames, AreShort, feed_all, feed_all-frames}
use zowpy.Result.{ok}

-- A bridge that runs over a connection that is up.
pub record IsLive (b : Bridge) : Type 0 where
  pub up : (b.is_running && is_connected b.connection) ≡ true
  pub usable : (not b.connection.connected || not b.connection.has_streams) ≡ false

pub record IsStreamOpen (s : Stream) : Type 0 where
  pub not_shut : (s.is_cancelled || s.is_closed) ≡ false

abbrev pub AreChunks : List (List ℕ) → Type 0
AreChunks = All (λ c. (0 < length c) × AreBytes c)

-- Segments that the writing loop sends: not empty, and short enough.
abbrev pub AreSendable : List Segment → Type 0
AreSendable = All (λ segment. (0 < length segment) × (length segment < 2 ^ 24))

put_read_segment-open :
    (s : Stream) (segment : Segment)
    → IsStreamOpen s
    → put_read_segment s segment
      ≡ record s { read_queue = s.read_queue ++ some segment ∷ []; read_event = true }
unfolding put_read_segment
put_read_segment-open s segment h = rw h.not_shut refl

get_write_segment-open :
    (s : Stream) (segment : Segment) (queue : List (Option Segment))
    → IsStreamOpen s
    → s.write_queue ≡ some segment ∷ queue
    → get_write_segment s ≡ (returns segment, record s { write_queue = queue })
unfolding get_write_segment resume_write reply_of
get_write_segment-open s segment queue h e =
    rw h.not_shut (ap (λ q. (reply_of q, record s { write_queue = rest_of q })) e)

read_chunk-live :
    (c : Connection) (byte : ℕ) (bytes : List ℕ)
    → (not c.connected || not c.has_streams) ≡ false
    → read_chunk c (chunk (byte ∷ bytes)) ≡ (ok (byte ∷ bytes), c)
unfolding read_chunk
read_chunk-live c byte bytes h = rw h refl

write-live :
    (c : Connection) (bytes : List ℕ)
    → (not c.connected || not c.has_streams) ≡ false
    → write c bytes true ≡ (ok tt, record c { written = c.written ++ bytes })
unfolding write
write-live c bytes h = rw h refl

put_all-append :
    (s : Stream) (xs ys : List Segment) → put_all s (xs ++ ys) ≡ put_all (put_all s xs) ys
unfolding put_all
put_all-append s [] ys = refl
put_all-append s (x ∷ xs) ys = put_all-append (put_read_segment s x) xs ys

put_all-open :
    (s : Stream) (xs : List Segment)
    → IsStreamOpen s
    → ((put_all s xs).read_queue ≡ s.read_queue ++ map some xs) × IsStreamOpen (put_all s xs)
unfolding put_all
put_all-open s [] h = (sym (append-nil s.read_queue), h)
put_all-open s (x ∷ xs) h =
    let t : Stream = record s { read_queue = s.read_queue ++ some x ∷ []; read_event = true } in
    let (queue, still) = put_all-open t xs (record { not_shut = h.not_shut }) in
    rw (put_read_segment-open s x h, put_all)
      (queue ∙ append_assoc s.read_queue (some x ∷ []) (map some xs), still)

read_step-chunk :
    (b : Bridge) (byte : ℕ) (bytes : List ℕ)
    → IsLive b
    → read_step b (chunk (byte ∷ bytes)) ≡ (
      record b {
        stream = put_all b.stream (extract_all (b.buffer ++ (byte ∷ bytes))).0;
        buffer = (extract_all (b.buffer ++ (byte ∷ bytes))).1;
      },
      true,
    )
unfolding read_step after_read
read_step-chunk b byte bytes h = rw (h.up, read_chunk-live b.connection byte bytes h.usable) refl

read_loop-feed_all :
    (b : Bridge) (cs : List (List ℕ))
    → IsLive b
    → AreChunks cs
    → read_loop (map chunk cs) b ≡ record b {
      stream = put_all b.stream (feed_all b.buffer cs).0;
      buffer = (feed_all b.buffer cs).1;
    }
unfolding read_loop feed_all unless_ended put_all
read_loop-feed_all b [] h k = refl
read_loop-feed_all b ([] ∷ cs) h k = absurd (omega (arith, k.0.0))
read_loop-feed_all b ((byte ∷ bytes) ∷ cs) h k =
    let found = extract_all (b.buffer ++ (byte ∷ bytes)) in
    let c : Bridge = record b { stream = put_all b.stream found.0; buffer = found.1 } in
    rw (read_step-chunk b byte bytes h, read_loop)
      (read_loop-feed_all c cs (record { up = h.up; usable = h.usable }) k.1
        ∙ ap (λ s. record b { stream = s; buffer = (feed_all found.1 cs).1 })
            (sym (put_all-append b.stream found.0 (feed_all found.1 cs).0)))

bytes_of : (cs : List (List ℕ)) → AreChunks cs → All AreBytes cs
bytes_of [] h = tt
bytes_of (c ∷ cs) h = (h.0.1, bytes_of cs h.1)

pub short_of : (segments : List Segment) → AreSendable segments → AreShort segments
short_of [] h = tt
short_of (s ∷ segments) h = (h.0.1, short_of segments h.1)

-- While the bridge runs, what a peer frames arrives in the read queue of an open stream, in order, however its bytes are
-- cut into chunks.
pub read_loop-frames :
    (b : Bridge) (segments : List Segment) (cs : List (List ℕ))
    → IsLive b
    → IsStreamOpen b.stream
    → b.buffer ≡ []
    → AreShort segments
    → AreChunks cs
    → joined cs ≡ frames segments
    → ((read_loop (map chunk cs) b).stream.read_queue ≡ b.stream.read_queue ++ map some segments)
      × ((read_loop (map chunk cs) b).buffer ≡ [])
      × IsStreamOpen (read_loop (map chunk cs) b).stream
read_loop-frames b segments cs live is_open empty short chunks same =
    let fed = feed_all-frames segments cs short (bytes_of cs chunks) same in
    let (queue, still) = put_all-open b.stream segments is_open in
    rw (read_loop-feed_all b cs live chunks, empty, fed) (queue, refl, still)

write_step-sends :
    (b : Bridge) (segment : Segment) (queue : List (Option Segment))
    → IsLive b
    → IsStreamOpen b.stream
    → b.stream.write_queue ≡ some segment ∷ queue
    → 0 < length segment
    → length segment < 2 ^ 24
    → write_step b true ≡ (
      record b {
        stream = record (b.stream) { write_queue = queue };
        connection = record (b.connection) { written = b.connection.written ++ frame segment };
      },
      true,
    )
unfolding write_step after_get
write_step-sends b [] queue live is_open same some_bytes short = absurd (omega arith)
write_step-sends b (byte ∷ bytes) queue live is_open same some_bytes short =
    let small : leb (2 ^ 24) (length (byte ∷ bytes)) ≡ false = ground arith in
    rw
      (
        live.up,
        get_write_segment-open b.stream (byte ∷ bytes) queue is_open same,
        small,
        write-live b.connection (frame (byte ∷ bytes)) live.usable,
      )
      refl

pub write_loop-frames :
    (b : Bridge) (segments : List Segment)
    → IsLive b
    → IsStreamOpen b.stream
    → b.stream.write_queue ≡ map some segments
    → AreSendable segments
    → (write_loop (replicate (length segments) true) b).connection.written
      ≡ b.connection.written ++ frames segments
unfolding write_loop unless_ended
write_loop-frames b [] live is_open queue h = sym (append-nil b.connection.written)
write_loop-frames b (s ∷ segments) live is_open queue h =
    let c : Bridge = record b {
      stream = record (b.stream) { write_queue = map some segments };
      connection = record (b.connection) { written = b.connection.written ++ frame s };
    } in
    rw (write_step-sends b s (map some segments) live is_open queue h.0.0 h.0.1) (
      write_loop-frames c segments
        (record { up = (unfold is_connected in live.up); usable = live.usable })
        (record { not_shut = is_open.not_shut }) refl h.1
      ∙ append_assoc b.connection.written (frame s) (frames segments))
