-- ===== src/Noise/Handshake.antt =====
-- `AsyncWAHandshake` of zowpy/noise/handshake.py and `ByteUtil` of zowpy/noise/util: which messages go
-- out and how each failure ends. The handshake states of dissononce, the protobuf messages and the
-- check of certificates are parameters, and so is the one segment that the server answers.
use zowpy.Prelude.{
  if◌then◌else◌, length, take, drop, ℕ, ◌+◌, ◌-◌, Bool, true, false, Option, none, some, [], ◌++◌,
}
use zowpy.Result.{Error, decrypt_error, decode_error, handshake_failed, Result, ok, err}
use zowpy.Noise.Stream.{Segment, write_segment, Stream}

-- `ByteUtil.split` with two and with three lengths.
unfoldable pub split_two : Segment → ℕ → ℕ → Segment × Segment
split_two input first_len second_len =
    (take first_len input, take second_len (drop first_len input))

unfoldable pub split_three : Segment → ℕ → ℕ → ℕ → Segment × Segment × Segment
split_three input first_len second_len third_len = (
  take first_len input,
  take second_len (drop first_len input),
  take third_len (drop (first_len + second_len) input),
)

-- The parts of a hello or a finish; a part that is not set reads as empty bytes.
pub record Hello : Type 0 where
  pub ephemeral : Option Segment
  pub static_key : Option Segment
  pub payload : Option Segment

pub record Message : Type 0 where
  pub client_hello : Option Hello
  pub server_hello : Option Hello
  pub client_finish : Option Hello

abbrev pub no_message : Message
no_message = record { client_hello = none; server_hello = none; client_finish = none }

abbrev pub or_empty : Option Segment → Segment
or_empty none = []
or_empty (some segment) = segment

-- `server_hello.ephemeral + server_hello.static + server_hello.payload`
abbrev pub hello_bytes : Hello → Segment
hello_bytes h = or_empty h.ephemeral ++ (or_empty h.static_key ++ or_empty h.payload)

-- `client_finish`, with 48 bytes of the static key.
unfoldable pub finish_message : Segment → Message
unfolding split_two
finish_message buffer =
    let (static_part, payload_part) = split_two buffer 48 (length buffer - 48) in
    record no_message {
      client_finish =
          some (record {
            ephemeral = none;
            static_key = some static_part;
            payload = some payload_part;
          });
    }

unfoldable pub ik_hello : Segment → Message
unfolding split_three
ik_hello buffer =
    let (ephemeral_part, static_part, payload_part) = split_three buffer 32 48 (length buffer) in
    record no_message {
      client_hello = some (record {
        ephemeral = some ephemeral_part;
        static_key = some static_part;
        payload = some payload_part;
      });
    }

abbrev pub xx_hello : Segment → Message
xx_hello buffer = record no_message {
  client_hello = some (record { ephemeral = some buffer; static_key = none; payload = none });
}

abbrev pub has_static : Hello → Bool
has_static h = elim h.static_key [ none ↦ false | some segment ↦ true ]

-- What the handshake calls. A read or a write gives the bytes in its buffer and, at the end of the
-- pattern, the pair of cipher states.
pub record Noise : Type 1 where
  pub HandshakeState : Type 0
  pub Ciphers : Type 0
  pub Key : Type 0
  pub initialize_ik : Key → HandshakeState
  pub initialize_xx : HandshakeState
  pub switch_xx_fallback : HandshakeState → HandshakeState
  pub write_message : HandshakeState → Segment → Result (Segment × Option Ciphers) × HandshakeState
  pub read_message : HandshakeState → Segment → Result (Segment × Option Ciphers) × HandshakeState
  pub remote_static : HandshakeState → Option Key
  pub serialize : Message → Segment
  pub parse : Segment → Option Message

-- `_perform_ik_handshake` may end with NewRemoteStaticException, which holds the server's hello.
pub data IkEnd (A : Type 0) : Type 0 where
  agreed : Option A → IkEnd A
  new_static : Hello → IkEnd A
  stopped : Error → IkEnd A

module _ (noise : Noise) where
  -- `AsyncCertMan().is_valid(rs, payload)`, which may raise.
  abbrev pub CertMan : Type 0
  CertMan = Option noise.Key → Segment → Result Bool

  -- The handshake state and the stream after a call, which an exception leaves too.
  abbrev pub Left : Type 0
  Left = noise.HandshakeState × Stream

  -- The answer, parsed: the server's hello, or the exception.
  unfoldable pub server_hello_of : Error → Result Segment → Result Hello
  server_hello_of parse_error (err e) = err e
  server_hello_of parse_error (ok segment) = elim (noise.parse segment) [
    | none ↦ err parse_error
    | some message ↦ elim message.server_hello [
      | none ↦ err handshake_failed
      | some hello ↦ ok hello
    ]
  ]

  -- The end of IK: the server's hello with a new static key, or read as the last message.
  unfoldable pub end_ik : noise.HandshakeState → Stream → Result Hello → IkEnd noise.Ciphers × Left
  end_ik state stream (err e) = (stopped e, (state, stream))
  end_ik state stream (ok hello) =
      if has_static hello
      then (new_static hello, (state, stream))
      else (let (result, next) = noise.read_message state (hello_bytes hello) in
          elim result [
            | err e ↦ (stopped e, (next, stream))
            | ok out ↦ (agreed out.1, (next, stream))
          ])

  -- `_perform_ik_handshake`. A message that cannot be parsed is raised as it is.
  unfoldable pub perform_ik :
      noise.Key → Segment → Stream → Result Segment → IkEnd noise.Ciphers × Left
  unfolding ik_hello server_hello_of end_ik write_segment
  perform_ik rs payload stream answer =
      let (result, state) = noise.write_message (noise.initialize_ik rs) payload in
      elim result [
        | err e ↦ (stopped e, (state, stream))
        | ok out ↦
            end_ik state (write_segment stream (noise.serialize (ik_hello out.0)))
              (server_hello_of decode_error answer)
      ]

  -- The finish. `write_error` is what becomes of an exception of its write.
  unfoldable pub send_finish :
      (Error → Error)
      → Stream
      → Result (Segment × Option noise.Ciphers) × noise.HandshakeState
      → Result (Option noise.Ciphers) × Left
  unfolding finish_message write_segment
  send_finish write_error stream (err e, state) = (err (write_error e), (state, stream))
  send_finish write_error stream (ok out, state) =
      (ok out.1, (state, write_segment stream (noise.serialize (finish_message out.0))))

  -- The finish after the check of the certificate. What it returns is only logged.
  unfoldable pub after_check :
      Result Bool
      → (Error → Error)
      → Segment
      → noise.HandshakeState
      → Stream
      → Result (Option noise.Ciphers) × Left
  unfolding send_finish
  after_check (err e) write_error payload state stream = (err e, (state, stream))
  after_check (ok valid) write_error payload state stream =
      send_finish write_error stream (noise.write_message state payload)

  -- The end of XX and of the fallback, from the server's hello as it was read: check the
  -- certificate, and send the finish.
  unfoldable pub after_hello :
      CertMan
      → (Error → Error)
      → Segment
      → Stream
      → Result (Segment × Option noise.Ciphers) × noise.HandshakeState
      → Result (Option noise.Ciphers) × Left
  unfolding after_check
  after_hello is_valid write_error payload stream (err e, state) = (err e, (state, stream))
  after_hello is_valid write_error payload stream (ok out, state) =
      after_check (is_valid (noise.remote_static state) out.0) write_error payload state stream

  unfoldable pub finish_xx :
      CertMan
      → (Error → Error)
      → Segment
      → noise.HandshakeState
      → Stream
      → Hello
      → Result (Option noise.Ciphers) × Left
  unfolding after_hello
  finish_xx is_valid write_error payload state stream hello =
      after_hello is_valid write_error payload stream (noise.read_message state (hello_bytes hello))

  unfoldable pub after_answer :
      CertMan
      → Segment
      → noise.HandshakeState
      → Stream
      → Result Hello
      → Result (Option noise.Ciphers) × Left
  unfolding finish_xx
  after_answer is_valid payload state stream (err e) = (err e, (state, stream))
  after_answer is_valid payload state stream (ok hello) =
      finish_xx is_valid (λ e. handshake_failed) payload state stream hello

  -- `_perform_xx_handshake`, from its first message on. A failed parse and a failed last write become
  -- HandshakeFailedException.
  unfoldable pub begin_xx :
      CertMan
      → Segment
      → Stream
      → Result Segment
      → Result (Segment × Option noise.Ciphers) × noise.HandshakeState
      → Result (Option noise.Ciphers) × Left
  unfolding server_hello_of after_answer write_segment
  begin_xx is_valid payload stream answer (err e, state) = (err e, (state, stream))
  begin_xx is_valid payload stream answer (ok out, state) =
      after_answer is_valid payload state (write_segment stream (noise.serialize (xx_hello out.0)))
        (server_hello_of handshake_failed answer)

  unfoldable pub perform_xx :
      CertMan → Segment → Stream → Result Segment → Result (Option noise.Ciphers) × Left
  unfolding begin_xx
  perform_xx is_valid payload stream answer =
      begin_xx is_valid payload stream answer (noise.write_message noise.initialize_xx [])

  -- `_switch_handshake_xx_fallback`
  unfoldable pub xx_fallback :
      CertMan
      → Segment
      → noise.HandshakeState
      → Stream
      → Hello
      → Result (Option noise.Ciphers) × Left
  unfolding finish_xx
  xx_fallback is_valid payload state stream hello =
      finish_xx is_valid (λ e. e) payload (noise.switch_xx_fallback state) stream hello

  -- The two `except` clauses of `perform`.
  unfoldable pub wrap_error : Error → Error
  wrap_error decrypt_error = handshake_failed
  wrap_error decode_error = handshake_failed
  wrap_error e = e

  unfoldable pub wrap : Result (Option noise.Ciphers) × Left → Result (Option noise.Ciphers) × Left
  unfolding wrap_error
  wrap (ok pair, left) = (ok pair, left)
  wrap (err e, left) = (err (wrap_error e), left)

  unfoldable pub after_ik :
      CertMan → Segment → IkEnd noise.Ciphers × Left → Result (Option noise.Ciphers) × Left
  unfolding xx_fallback
  after_ik is_valid payload (agreed pair, left) = (ok pair, left)
  after_ik is_valid payload (stopped e, left) = (err e, left)
  after_ik is_valid payload (new_static hello, (state, stream)) =
      xx_fallback is_valid payload state stream hello

  -- `perform`: IK where the server's static key is known, else XX.
  unfoldable pub perform :
      CertMan
      → Option noise.Key
      → Segment
      → Stream
      → Result Segment
      → Result (Option noise.Ciphers) × Left
  unfolding wrap after_ik perform_ik perform_xx
  perform is_valid none payload stream answer = wrap (perform_xx is_valid payload stream answer)
  perform is_valid (some rs) payload stream answer =
      wrap (after_ik is_valid payload (perform_ik rs payload stream answer))
