-- ===== src/Noise/EndToEnd.antt =====
-- What one end of a transport sends is what the other end receives.
use zowpy.Prelude.{
  length, ℕ, zero, suc, ◌≡◌, refl, sym, ap, ◌∙◌, false, some, List, [], ◌∷◌, ◌++◌, map,
  append_assoc, append-nil,
}
use zowpy.Noise.Stream.{Segment, reply_of, resume_read, read_segment, write_segment, Reply, returns}
use zowpy.Noise.Transport.{send, decrypt_reply, recv, Ciphers, ArePaired, Transport}

module _ (ciphers : Ciphers) where
  unfoldable pub send_all : Transport ciphers → List Segment → Transport ciphers
  send_all t [] = t
  send_all t (p ∷ ps) = send_all (send ciphers t p) ps

  pub recv_all : Transport ciphers → ℕ → List Reply
  recv_all t zero = []
  recv_all t (suc n) = let (reply, u) = recv ciphers t in reply ∷ recv_all u n

  unfoldable pub ciphertexts : ciphers.CipherState → List Segment → List Segment
  ciphertexts s [] = []
  ciphertexts s (p ∷ ps) =
      let (ciphertext, state) = ciphers.encrypt s p in ciphertext ∷ ciphertexts state ps

  pub length-ciphertexts :
      (s : ciphers.CipherState) (ps : List Segment) → length (ciphertexts s ps) ≡ length ps
  unfolding ciphertexts
  length-ciphertexts s [] = refl
  length-ciphertexts s (p ∷ ps) = ap suc (length-ciphertexts (ciphers.encrypt s p).1 ps)

  -- A transport over an open stream.
  pub record IsOpen (t : Transport ciphers) : Type 0 where
    pub not_cancelled : t.stream.is_cancelled ≡ false
    pub not_closed : t.stream.is_closed ≡ false

  send-write_queue :
      (t : Transport ciphers) (p : Segment)
      → IsOpen t
      → (send ciphers t p).stream.write_queue
        ≡ t.stream.write_queue ++ some (ciphers.encrypt t.send_cipherstate p).0 ∷ []
  unfolding send write_segment
  send-write_queue t p h = rw (h.not_cancelled, h.not_closed) refl

  pub send-IsOpen : (t : Transport ciphers) (p : Segment) → IsOpen t → IsOpen (send ciphers t p)
  unfolding send write_segment
  send-IsOpen t p h = record {
    not_cancelled = rw (h.not_cancelled, h.not_closed) refl;
    not_closed = rw (h.not_cancelled, h.not_closed) refl;
  }

  pub send_all-IsOpen :
      (t : Transport ciphers) (ps : List Segment) → IsOpen t → IsOpen (send_all t ps)
  unfolding send_all
  send_all-IsOpen t [] h = h
  send_all-IsOpen t (p ∷ ps) h = send_all-IsOpen (send ciphers t p) ps (send-IsOpen t p h)

  pub send_all-write_queue :
      (t : Transport ciphers) (ps : List Segment)
      → IsOpen t
      → (send_all t ps).stream.write_queue
        ≡ t.stream.write_queue ++ map some (ciphertexts t.send_cipherstate ps)
  unfolding send_all ciphertexts send
  send_all-write_queue t [] h = sym (append-nil t.stream.write_queue)
  send_all-write_queue t (p ∷ ps) h =
      let (ciphertext, state) = ciphers.encrypt t.send_cipherstate p in
      send_all-write_queue (send ciphers t p) ps (send-IsOpen t p h)
      ∙ rw (send-write_queue t p h) (
          append_assoc t.stream.write_queue (some ciphertext ∷ [])
            (map some (ciphertexts state ps)))

  module _ (In : ciphers.CipherState → ciphers.CipherState → Type 0)
      (paired : ArePaired ciphers In) where
    pub recv_all-ciphertexts :
        (u : Transport ciphers) (s : ciphers.CipherState) (ps : List Segment)
        → IsOpen u
        → In s u.recv_cipherstate
        → u.stream.read_queue ≡ map some (ciphertexts s ps)
        → recv_all u (length ps) ≡ map returns ps
    unfolding recv_all ciphertexts recv read_segment resume_read reply_of decrypt_reply
    recv_all-ciphertexts u s [] h both queue = refl
    recv_all-ciphertexts u s (p ∷ ps) h both queue =
        let (ciphertext, state) = ciphers.encrypt s p in
        rw (h.not_cancelled, h.not_closed, queue, paired.decrypts s u.recv_cipherstate p both)
          (ap (λ l. returns p ∷ l)
            (recv_all-ciphertexts
              (record u {
                stream = record (u.stream) {
                  read_queue = map some (ciphertexts state ps);
                  is_cancelled = false;
                  is_closed = false;
                };
                recv_cipherstate = (ciphers.decrypt u.recv_cipherstate ciphertext).1;
              })
              state ps (record { not_cancelled = refl; not_closed = refl })
              (paired.goes_on s u.recv_cipherstate p both) refl))

    -- Over open streams, when the segments that one transport queues for writing are those that
    -- wait to be read at the other, the other receives the plaintexts that were sent, in order.
    pub recv_all-send_all :
        (t u : Transport ciphers) (ps : List Segment)
        → IsOpen t
        → IsOpen u
        → In t.send_cipherstate u.recv_cipherstate
        → t.stream.write_queue ≡ []
        → u.stream.read_queue ≡ (send_all t ps).stream.write_queue
        → recv_all u (length ps) ≡ map returns ps
    recv_all-send_all t u ps open_t open_u both empty queue =
        recv_all-ciphertexts u t.send_cipherstate ps open_u both (
          queue
          ∙ send_all-write_queue t ps open_t
          ∙ ap (λ q. q ++ map some (ciphertexts t.send_cipherstate ps)) empty)
