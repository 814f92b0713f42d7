-- ===== src/Bridge/Examples.antt =====
-- The theorems on the bridge at concrete inputs.
use zowpy.Prelude.{
  drop, replicate, ℕ, suc, ◌%◌, ◌≡◌, refl, ap, true, false, List, [], ◌∷◌, map, arith,
}
use zowpy.Result.{cancelled, ok}
use zowpy.Connection.{new_connection, size_bytes, write, is_connected, chunk, broken, Connection}
use zowpy.Noise.Stream.{
  Segment, new_stream, reply_of, read_segment, write_segment, resume_write, get_write_segment,
  returns, raises,
}
use zowpy.Noise.Transport.{send, Ciphers, ArePaired, Transport}
use zowpy.Noise.EndToEnd.{send_all, recv_all, ciphertexts, IsOpen}
use zowpy.Bridge.{
  start, unless_ended, read_loop, frame, after_get, write_step, write_loop, reconnect, Bridge,
}
use zowpy.Bridge.Reassembly.{joined}
use zowpy.Bridge.Delivery.{AreChunks, IsLive}
use zowpy.Bridge.EndToEnd.{recv_all-network, IsSender, IsReceiver}
use zowpy.Bridge.Faults.{IsSilent, write_loop-IsSilent, read_loop-Ends, breaks}

abbrev live_connection : Connection
live_connection = record new_connection { has_streams = true; connected = true }

abbrev idle_bridge : Bridge
idle_bridge = record {
  is_running = true;
  connection = live_connection;
  stream = new_stream;
  buffer = [];
  events = [];
}

idle_bridge-IsLive : IsLive idle_bridge
unfolding is_connected
idle_bridge-IsLive = record { up = refl; usable = refl }

abbrev two_segments : List Segment
two_segments = (5 ∷ 6 ∷ []) ∷ (7 ∷ []) ∷ []

read_loop-Ends_example :
    ((read_loop (broken ∷ chunk (1 ∷ []) ∷ []) idle_bridge).events ≡ reconnect ∷ [])
    × (is_connected (read_loop (broken ∷ chunk (1 ∷ []) ∷ []) idle_bridge).connection ≡ false)
    × ((read_segment (read_loop (broken ∷ chunk (1 ∷ []) ∷ []) idle_bridge).stream).0
        ≡ raises cancelled)
    × (start (read_loop (broken ∷ chunk (1 ∷ []) ∷ []) idle_bridge)
        ≡ read_loop (broken ∷ chunk (1 ∷ []) ∷ []) idle_bridge)
read_loop-Ends_example =
    read_loop-Ends idle_bridge broken (chunk (1 ∷ []) ∷ []) reconnect idle_bridge-IsLive breaks

-- A cipher that puts the low byte of a counter before the plaintext and takes off one byte.
abbrev counted : Ciphers
counted = record {
  CipherState = ℕ;
  encrypt = λ n plain. (n % 256 ∷ plain, suc n);
  decrypt = λ n segment. (ok (drop 1 segment), suc n);
}

counted-ArePaired : ArePaired counted (λ s r. s ≡ r)
counted-ArePaired = record {
  decrypts = λ s r plain same. refl;
  goes_on = λ s r plain same. ap suc same;
}

abbrev start_transport : Transport counted
start_transport = record { stream = new_stream; send_cipherstate = 1; recv_cipherstate = 1 }

abbrev sender_bridge : Bridge
sender_bridge = record idle_bridge {
  stream = (send_all counted start_transport two_segments).stream;
}

write_loop-IsSilent_example : IsSilent sender_bridge (write_loop (false ∷ true ∷ []) sender_bridge)
write_loop-IsSilent_example = write_loop-IsSilent (false ∷ true ∷ []) sender_bridge

sender_bridge-IsLive : IsLive sender_bridge
unfolding is_connected
sender_bridge-IsLive = record { up = refl; usable = refl }

start_transport-IsOpen : IsOpen counted start_transport
start_transport-IsOpen = record { not_cancelled = refl; not_closed = refl }

abbrev network_chunks : List (List ℕ)
network_chunks = (0 ∷ 0 ∷ []) ∷ (3 ∷ 1 ∷ 5 ∷ 6 ∷ 0 ∷ []) ∷ (0 ∷ 2 ∷ 2 ∷ 7 ∷ []) ∷ []

network_chunks-AreChunks : AreChunks network_chunks
network_chunks-AreChunks = ground arith

network_chunks-written :
    joined network_chunks ≡ (write_loop (replicate 2 true) sender_bridge).connection.written
unfolding write_loop write_step unless_ended after_get get_write_segment resume_write reply_of write
    frame size_bytes is_connected send_all send write_segment
network_chunks-written = refl

sender_bridge-IsSender : IsSender counted start_transport two_segments sender_bridge
unfolding ciphertexts
sender_bridge-IsSender = record {
  is_open = start_transport-IsOpen;
  idle = refl;
  same_stream = refl;
  live = sender_bridge-IsLive;
  fresh = refl;
  sendable = ((omega arith, omega arith), ((omega arith, omega arith), tt));
}

idle_bridge-IsReceiver : IsReceiver counted start_transport idle_bridge
idle_bridge-IsReceiver = record {
  is_open = start_transport-IsOpen;
  idle = refl;
  same_stream = refl;
  live = idle_bridge-IsLive;
  fresh = refl;
}

recv_all-network_example :
    recv_all counted
      (record start_transport {
        stream = (read_loop (map chunk network_chunks) idle_bridge).stream;
      })
      2
    ≡ map returns two_segments
recv_all-network_example =
    recv_all-network counted (λ s r. s ≡ r) counted-ArePaired start_transport start_transport
      two_segments sender_bridge idle_bridge network_chunks sender_bridge-IsSender
      idle_bridge-IsReceiver refl network_chunks-AreChunks network_chunks-written
