-- ===== src/Noise/Protocol.antt =====
-- `AsyncWANoiseProtocol` of zowpy/noise/protocol.py.
use zowpy.Prelude.{Bool, true, false, Option, none, some}
use zowpy.Result.{runtime_error, handshake_failed, Result, ok, err}
use zowpy.Noise.Stream.{Segment, Stream, Reply, returns, raises, waits}
use zowpy.Noise.Transport.{send, recv, Ciphers, Transport}

module _ (ciphers : Ciphers) (Key : Type 0) where
  pub record Protocol : Type 0 where
    pub rs : Option Key
    pub transport : Option (Transport ciphers)

  -- `AsyncWANoiseProtocol()`
  abbrev pub new_protocol : Protocol
  new_protocol = record { rs = none; transport = none }

  abbrev pub is_ready : Protocol → Bool
  is_ready p = elim p.transport [ none ↦ false | some t ↦ true ]

  -- How `handshake.perform` ended, with `handshake.rs` and the stream.
  pub record Performed : Type 0 where
    pub result : Result (Option (ciphers.CipherState × ciphers.CipherState))
    pub remote : Option Key
    pub stream : Stream

  -- `start`. An exception leaves the protocol as it was.
  unfoldable pub start : Protocol → Performed → Result (Transport ciphers) × Protocol
  start p performed = elim performed.result [
    | err e ↦ (err e, p)
    | ok none ↦ (err handshake_failed, p)
    | ok (some pair) ↦
        let t : Transport ciphers = record {
          stream = performed.stream;
          send_cipherstate = pair.0;
          recv_cipherstate = pair.1;
        } in
        (ok t, record { rs = performed.remote; transport = some t })
  ]

  unfoldable pub reset_protocol : Protocol → Protocol
  reset_protocol p = record p { transport = none; rs = none }

  unfoldable pub send_data : Protocol → Segment → Result {0} Unit × Protocol
  unfolding send
  send_data p data_ = elim p.transport [
    | none ↦ (err runtime_error, p)
    | some t ↦ (ok tt, record p { transport = some (send ciphers t data_) })
  ]

  -- What `receive` returns, where it does not wait: bytes, or None for an exception.
  pub data Received : Type 0 where
    got : Option Segment → Received
    waiting : Received

  unfoldable pub received_of : Reply → Received
  received_of (returns segment) = got (some segment)
  received_of (raises e) = got none
  received_of waits = waiting

  unfoldable pub receive : Protocol → Received × Protocol
  unfolding recv received_of
  receive p = elim p.transport [
    | none ↦ (got none, p)
    | some t ↦
        let (reply, u) = recv ciphers t in (received_of reply, record p { transport = some u })
  ]
