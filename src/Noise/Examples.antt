-- ===== src/Noise/Examples.antt =====
-- The theorems on streams, transports and handshakes at concrete inputs.
use zowpy.Prelude.{replicate, ℕ, suc, ◌≡◌, refl, true, Option, none, some, List, [], ◌∷◌}
use zowpy.Result.{decrypt_error, cancelled, ok, err}
use zowpy.Noise.Stream.{
  Segment, new_stream, cancel, run, raises, waits, Call, reads, gets, cancels, resets, writes, puts,
}
use zowpy.Noise.Wakeups.{wake, wake-cancel}
use zowpy.Noise.Channel.{promised_run, run-promised}
use zowpy.Noise.Handshake.{no_message, CertMan, perform, Noise}
use zowpy.Noise.Certificate.{check_key, check_leaf, is_valid, Certificates}
use zowpy.Noise.HandshakeEnds.{raised, perform-any_certificate}

abbrev some_calls : List Call
some_calls = puts (1 ∷ []) ∷ reads ∷ cancels ∷ reads ∷ resets ∷ writes (2 ∷ []) ∷ gets ∷ []

run-promised_example :
    run new_stream some_calls ≡ promised_run (some (record { inbox = []; outbox = [] })) some_calls
run-promised_example = run-promised some_calls

wake-cancel_example : wake 3 (cancel new_stream) ≡ raises cancelled ∷ replicate 2 waits
wake-cancel_example = wake-cancel 2 new_stream refl

-- States that count the messages; the server's key is 9, and every answer has a hello.
abbrev counting : Noise
counting = record {
  HandshakeState = ℕ;
  Ciphers = ℕ;
  Key = ℕ;
  initialize_ik = λ key. key;
  initialize_xx = 0;
  switch_xx_fallback = λ state. state;
  write_message = λ state payload. (ok (payload, some state), suc state);
  read_message = λ state message. (err decrypt_error, suc state);
  remote_static = λ state. some 9;
  serialize = λ message. 1 ∷ [];
  parse = λ segment. some (record no_message {
    server_hello = some (record { ephemeral = some segment; static_key = none; payload = none });
  });
}

-- The same, where every message can be read.
abbrev reading : Noise
reading = record counting { read_message = λ state message. (ok (message, none), suc state) }

-- A certificate for the time from 10 to 20, with the server's key.
abbrev certificates : Certificates
certificates = record {
  parse_chain = λ bytes. some (record { has_leaf = true; details = bytes });
  parse_details = λ bytes. some (record { not_before = 10; not_after = 20; key = 9 ∷ [] });
}

-- The check of that key, and one that finds another key.
abbrev valid : CertMan reading
valid key bytes = is_valid certificates (λ k. k ∷ []) 15000000 key bytes

abbrev invalid : CertMan reading
invalid key bytes = is_valid certificates (λ k. suc k ∷ []) 15000000 key bytes

raised-valid :
    (key : Option ℕ) (bytes : Segment)
    → raised reading (valid key bytes) ≡ raised reading (invalid key bytes)
unfolding is_valid check_leaf check_key
raised-valid none bytes = refl
raised-valid (some key) bytes = refl

perform-any_certificate_example :
    perform reading valid none (3 ∷ []) new_stream (ok (4 ∷ []))
    ≡ perform reading invalid none (3 ∷ []) new_stream (ok (4 ∷ []))
perform-any_certificate_example =
    perform-any_certificate reading valid invalid none (3 ∷ []) new_stream (ok (4 ∷ []))
      raised-valid
