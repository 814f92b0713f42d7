-- ===== src/Noise/HandshakeEnds.antt =====
-- How handshakes end.
use zowpy.Prelude.{
  length, take, drop, ℕ, zero, suc, ◌+◌, ◌-◌, ◌≤◌, ◌≡◌, refl, sym, ap, ◌∙◌, Bool, true, false,
  Option, none, some, [], ◌∷◌, ◌++◌, arith,
}
use zowpy.Noise.Stream.{Segment, write_segment, Stream}
use zowpy.Noise.Handshake.{
  split_two, split_three, hello_bytes, finish_message, ik_hello, xx_hello, CertMan, Left,
  server_hello_of, perform_ik, after_check, after_hello, finish_xx, after_answer, begin_xx,
  perform_xx, xx_fallback, wrap, after_ik, perform, Hello, Noise, IkEnd, agreed, new_static,
  stopped,
}
use zowpy.Result.{Error, decrypt_error, decode_error, handshake_failed, Result, ok, err}

take-drop : (n : ℕ) (xs : Segment) → take n xs ++ drop n xs ≡ xs
take-drop zero xs = refl
take-drop (suc n) [] = refl
take-drop (suc n) (x ∷ xs) = ap (λ l. x ∷ l) (take-drop n xs)

take_all : (n : ℕ) (xs : Segment) → length xs ≤ n → take n xs ≡ xs
take_all zero [] h = refl
take_all zero (x ∷ xs) h = absurd (omega arith)
take_all (suc n) [] h = refl
take_all (suc n) (x ∷ xs) h = ap (λ l. x ∷ l) (take_all n xs (omega arith))

length-drop : (n : ℕ) (xs : Segment) → length (drop n xs) ≡ length xs - n
length-drop zero xs = omega arith
length-drop (suc n) [] = omega arith
length-drop (suc n) (x ∷ xs) = omega (arith, length-drop n xs)

drop_none : (n : ℕ) → drop {A = ℕ} n [] ≡ []
drop_none zero = refl
drop_none (suc n) = refl

drop-drop : (m n : ℕ) (xs : Segment) → drop n (drop m xs) ≡ drop (m + n) xs
drop-drop zero n xs = let e : 0 + n ≡ n = omega arith in rw e refl
drop-drop (suc m) n [] = let e : suc m + n ≡ suc (m + n) = omega arith in rw e (drop_none n)
drop-drop (suc m) n (x ∷ xs) =
    let e : suc m + n ≡ suc (m + n) = omega arith in rw e (drop-drop m n xs)

-- What is sent in the first message of IK, and in the finish of XX, is the message that was written,
-- in parts: put together again they are that message, whatever its length.
pub hello_bytes-sent :
    (buffer : Segment)
    → ((h : Hello) × ((ik_hello buffer).client_hello ≡ some h) × (hello_bytes h ≡ buffer))
      × ((h : Hello) × ((finish_message buffer).client_finish ≡ some h) × (hello_bytes h ≡ buffer))
unfolding ik_hello finish_message split_two split_three
hello_bytes-sent buffer =
    let n = length buffer in
    let tail = drop 32 buffer in
    let last : take n (drop (32 + 48) buffer) ≡ drop 48 tail =
      take_all n (drop (32 + 48) buffer) (omega (arith, length-drop (32 + 48) buffer))
      ∙ sym (drop-drop 32 48 buffer) in
    let static_last : take (n - 48) (drop 48 buffer) ≡ drop 48 buffer =
      take_all (n - 48) (drop 48 buffer) (omega (arith, length-drop 48 buffer)) in
    (
      (
        _,
        refl,
        ap (λ l. take 32 buffer ++ (take 48 tail ++ l)) last
            ∙ ap (λ l. take 32 buffer ++ l) (take-drop 48 tail)
            ∙ take-drop 32 buffer,
      ),
      (_, refl, ap (λ l. take 48 buffer ++ l) static_last ∙ take-drop 48 buffer),
    )

module _ (noise : Noise) where
  -- The exception of a check.
  abbrev pub raised : Result Bool → Option Error
  raised (err e) = some e
  raised (ok valid) = none

  after_check-raised :
      (v w : Result Bool) (write_error : Error → Error) (payload : Segment)
      (state : noise.HandshakeState) (stream : Stream)
      → raised v ≡ raised w
      → after_check noise v write_error payload state stream
        ≡ after_check noise w write_error payload state stream
  unfolding after_check
  after_check-raised (err e) (err f) write_error payload state stream h =
      let same : e ≡ f = cc in rw same refl
  after_check-raised (err e) (ok w) write_error payload state stream h = absurd cc
  after_check-raised (ok v) (err f) write_error payload state stream h = absurd cc
  after_check-raised (ok v) (ok w) write_error payload state stream h = refl

  module _ (v w : CertMan noise)
      (h : (key : Option noise.Key) (bytes : Segment)
        → raised (v key bytes) ≡ raised (w key bytes)) where
    after_hello-any :
        (write_error : Error → Error) (payload : Segment) (stream : Stream)
        (r : Result (Segment × Option noise.Ciphers) × noise.HandshakeState)
        → after_hello noise v write_error payload stream r
          ≡ after_hello noise w write_error payload stream r
    unfolding after_hello
    after_hello-any write_error payload stream (err e, state) = refl
    after_hello-any write_error payload stream (ok out, state) =
        let key = noise.remote_static state in
        after_check-raised (v key out.0) (w key out.0) write_error payload state stream
          (h key out.0)

    after_answer-any :
        (payload : Segment) (state : noise.HandshakeState) (stream : Stream) (r : Result Hello)
        → after_answer noise v payload state stream r ≡ after_answer noise w payload state stream r
    unfolding after_answer finish_xx
    after_answer-any payload state stream (err e) = refl
    after_answer-any payload state stream (ok hello) =
        after_hello-any (λ e. handshake_failed) payload stream _

    after_ik-any :
        (payload : Segment) (r : IkEnd noise.Ciphers × Left noise)
        → after_ik noise v payload r ≡ after_ik noise w payload r
    unfolding after_ik xx_fallback finish_xx
    after_ik-any payload (agreed pair, left) = refl
    after_ik-any payload (stopped e, left) = refl
    after_ik-any payload (new_static hello, (state, stream)) =
        after_hello-any (λ e. e) payload stream _

    begin_xx-any :
        (payload : Segment) (stream : Stream) (answer : Result Segment)
        (r : Result (Segment × Option noise.Ciphers) × noise.HandshakeState)
        → begin_xx noise v payload stream answer r ≡ begin_xx noise w payload stream answer r
    unfolding begin_xx
    begin_xx-any payload stream answer (err e, state) = refl
    begin_xx-any payload stream answer (ok out, state) =
        after_answer-any payload state (write_segment stream (noise.serialize (xx_hello out.0)))
          (server_hello_of noise handshake_failed answer)

  -- Whether the server's certificate is valid has no effect: two checks that raise the same
  -- exceptions give the same result of a handshake and the same messages, whatever they return.
  pub perform-any_certificate :
      (v w : CertMan noise) (rs : Option noise.Key) (payload : Segment) (stream : Stream)
      (answer : Result Segment)
      → ((key : Option noise.Key) (bytes : Segment) → raised (v key bytes) ≡ raised (w key bytes))
      → perform noise v rs payload stream answer ≡ perform noise w rs payload stream answer
  unfolding perform
  perform-any_certificate v w none payload stream answer h = ap (wrap noise) (
      unfold perform_xx in
      begin_xx-any v w h payload stream answer (noise.write_message noise.initialize_xx []))
  perform-any_certificate v w (some rs) payload stream answer h =
      ap (wrap noise) (after_ik-any v w h payload (perform_ik noise rs payload stream answer))

  escapes : Error → Bool
  escapes decrypt_error = true
  escapes decode_error = true
  escapes _ = false

  error_of : Result (Option noise.Ciphers) → Bool
  unfolding escapes
  error_of (ok pair) = false
  error_of (err e) = escapes e
