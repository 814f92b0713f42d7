-- ===== src/Bridge/EndToEnd.antt =====
-- From the transport of a sender over its bridge, the network and the bridge of a receiver to the
-- receiver's transport.
use zowpy.Prelude.{
  length, replicate, ℕ, ◌≡◌, refl, sym, ap, ◌∙◌, true, some, List, [], ◌++◌, map, arith,
}
use zowpy.Connection.{chunk}
use zowpy.Noise.Stream.{Segment, returns}
use zowpy.Noise.Transport.{Ciphers, ArePaired, Transport}
use zowpy.Noise.EndToEnd.{
  send_all, recv_all, ciphertexts, length-ciphertexts, send_all-IsOpen, send_all-write_queue,
  recv_all-ciphertexts, IsOpen,
}
use zowpy.Bridge.{read_loop, write_loop, Bridge}
use zowpy.Bridge.Reassembly.{joined, frames}
use zowpy.Bridge.Delivery.{
  AreChunks, AreSendable, short_of, read_loop-frames, write_loop-frames, IsLive, IsStreamOpen,
}

module _ (ciphers : Ciphers) where
  -- A sender over an open stream with nothing queued, and a running bridge whose loop takes its stream.
  pub record IsSender (t : Transport ciphers) (ps : List Segment) (b : Bridge) : Type 0 where
    pub is_open : IsOpen ciphers t
    pub idle : t.stream.write_queue ≡ []
    pub same_stream : b.stream ≡ (send_all ciphers t ps).stream
    pub live : IsLive b
    pub fresh : b.connection.written ≡ []
    pub sendable : AreSendable (ciphertexts ciphers t.send_cipherstate ps)

  -- A receiver over an open stream with nothing queued, and its running bridge.
  pub record IsReceiver (u : Transport ciphers) (b : Bridge) : Type 0 where
    pub is_open : IsOpen ciphers u
    pub idle : u.stream.read_queue ≡ []
    pub same_stream : b.stream ≡ u.stream
    pub live : IsLive b
    pub fresh : b.buffer ≡ []

  IsOpen-IsStreamOpen : (t : Transport ciphers) → IsOpen ciphers t → IsStreamOpen t.stream
  IsOpen-IsStreamOpen t h = record { not_shut = rw (h.not_cancelled, h.not_closed) refl }

  -- The bytes that the sender's bridge writes.
  written-frames :
      (t : Transport ciphers) (ps : List Segment) (b : Bridge)
      → IsSender t ps b
      → (write_loop (replicate (length ps) true) b).connection.written
        ≡ frames (ciphertexts ciphers t.send_cipherstate ps)
  written-frames t ps b h =
      let cs = ciphertexts ciphers t.send_cipherstate ps in
      let size = length-ciphertexts ciphers t.send_cipherstate ps in
      let queue : b.stream.write_queue ≡ map some cs =
        ap (λ s. s.write_queue) h.same_stream
        ∙ send_all-write_queue ciphers t ps h.is_open
        ∙ ap (λ q. q ++ map some cs) h.idle in
      let stream_open : IsStreamOpen b.stream =
        rw h.same_stream
          (IsOpen-IsStreamOpen (send_all ciphers t ps) (send_all-IsOpen ciphers t ps h.is_open)) in
      ap (λ n. (write_loop (replicate n true) b).connection.written) (sym size)
      ∙ write_loop-frames b cs h.live stream_open queue h.sendable
      ∙ ap (λ w. w ++ frames cs) h.fresh

  -- What a sender sends over its transport and bridge arrives at the transport of the receiver, in
  -- order, however the network cuts the bytes into chunks. The cipher states are paired, both bridges
  -- run, both connections and streams are open and idle, and no ciphertext is empty or has 2 ^ 24
  -- bytes.
  pub recv_all-network :
      (In : ciphers.CipherState → ciphers.CipherState → Type 0) (paired : ArePaired ciphers In)
      (t u : Transport ciphers) (ps : List Segment) (out into : Bridge) (cs : List (List ℕ))
      → IsSender t ps out
      → IsReceiver u into
      → In t.send_cipherstate u.recv_cipherstate
      → AreChunks cs
      → joined cs ≡ (write_loop (replicate (length ps) true) out).connection.written
      → recv_all ciphers (record u { stream = (read_loop (map chunk cs) into).stream }) (length ps)
        ≡ map returns ps
  recv_all-network In paired t u ps out into cs sender receiver both chunks network =
      let sent = ciphertexts ciphers t.send_cipherstate ps in
      let bytes = network ∙ written-frames t ps out sender in
      let into_open : IsStreamOpen into.stream =
        rw receiver.same_stream (IsOpen-IsStreamOpen u receiver.is_open) in
      let (queue, _, still) =
        read_loop-frames into sent cs receiver.live into_open receiver.fresh
          (short_of sent sender.sendable) chunks bytes in
      recv_all-ciphertexts ciphers In paired
        (record u { stream = (read_loop (map chunk cs) into).stream }) t.send_cipherstate ps
        (record {
          not_cancelled = (let shut = still.not_shut in ground arith);
          not_closed = (let shut = still.not_shut in ground arith);
        })
        both
        (queue
          ∙ ap (λ s. s.read_queue ++ map some sent) receiver.same_stream
          ∙ ap (λ q. q ++ map some sent) receiver.idle)
