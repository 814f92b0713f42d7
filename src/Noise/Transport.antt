-- ===== src/Noise/Transport.antt =====
-- `AsyncWANoiseTransport` of zowpy/noise/transport.py. The cipher states of dissononce are a
-- parameter.
use zowpy.Prelude.{◌≡◌}
use zowpy.Result.{Result, ok, err}
use zowpy.Noise.Stream.{Segment, read_segment, write_segment, Stream, Reply, returns, raises, waits}

-- `CipherState`: `encrypt_with_ad(b'', …)` and `decrypt_with_ad(b'', …)` with the state after them.
pub record Ciphers : Type 1 where
  pub CipherState : Type 0
  pub encrypt : CipherState → Segment → Segment × CipherState
  pub decrypt : CipherState → Segment → Result Segment × CipherState

-- The states of the two ends of a channel: what one encrypts the other decrypts, after which they
-- are such states again.
pub record ArePaired (ciphers : Ciphers) (In : ciphers.CipherState → ciphers.CipherState → Type 0)
    : Type 0 where
  pub decrypts :
      (s r : ciphers.CipherState) (plain : Segment)
      → In s r
      → (ciphers.decrypt r (ciphers.encrypt s plain).0).0 ≡ ok plain
  pub goes_on :
      (s r : ciphers.CipherState) (plain : Segment)
      → In s r
      → In (ciphers.encrypt s plain).1 (ciphers.decrypt r (ciphers.encrypt s plain).0).1

module _ (ciphers : Ciphers) where
  pub record Transport : Type 0 where
    pub stream : Stream
    pub send_cipherstate : ciphers.CipherState
    pub recv_cipherstate : ciphers.CipherState

  unfoldable pub send : Transport → Segment → Transport
  unfolding write_segment
  send t plaintext =
      let (ciphertext, state) = ciphers.encrypt t.send_cipherstate plaintext in
      record t { send_cipherstate = state; stream = write_segment t.stream ciphertext }

  -- `recv` once its read of the stream has come to a reply.
  unfoldable pub decrypt_reply : Transport → Reply → Reply × Transport
  decrypt_reply t (returns ciphertext) =
      let (plaintext, state) = ciphers.decrypt t.recv_cipherstate ciphertext in
      (
        elim plaintext [ ok plain ↦ returns plain | err e ↦ raises e ],
        record t { recv_cipherstate = state },
      )
  decrypt_reply t (raises e) = (raises e, t)
  decrypt_reply t waits = (waits, t)

  unfoldable pub recv : Transport → Reply × Transport
  unfolding read_segment decrypt_reply
  recv t =
      let (reply, stream) = read_segment t.stream in
      decrypt_reply (record t { stream = stream }) reply
