-- ===== src/Connection.antt =====
-- `AsyncConnection` of zowpy/core/connection.py. The socket is outside: what it does in a call is an
-- argument of the call.
use zowpy.Prelude.{
  if◌then◌else◌, length, Text, codes, text_eq, ℕ, ◌/◌, ◌%◌, ◌^◌, Bool, true, false, not, ◌&&◌, ◌||◌,
  Option, none, some, List, [], ◌∷◌, ◌++◌,
}
use zowpy.Result.{connection_error, Result, ok, err}

-- What a read of the socket comes to, and what a write with `drain` does.
pub data Incoming : Type 0 where
  chunk : List ℕ → Incoming
  broken : Incoming

-- `written` are the bytes given to the writer; `is_closing` is the writer's own flag.
pub record Connection : Type 0 where
  pub has_streams : Bool
  pub connected : Bool
  pub header_sent : Bool
  pub is_closing : Bool
  pub written : List ℕ

-- `AsyncConnection(endpoint, proxy)`
abbrev pub new_connection : Connection
new_connection = record {
  has_streams = false;
  connected = false;
  header_sent = false;
  is_closing = false;
  written = [];
}

-- How `open_connection`, or the connection by a proxy, ends.
pub data Opening : Type 0 where
  opens times_out fails : Opening

-- `connect`: both kinds of failure become a ConnectionError.
unfoldable pub connect : Connection → Opening → Result {0} Unit × Connection
connect c opens = (ok tt, record c { has_streams = true; is_closing = false; connected = true })
connect c times_out = (err connection_error, c)
connect c fails = (err connection_error, c)

-- `proxy.get("type", "socks5")`, and which method serves it.
pub data ProxyRoute : Type 0 where
  socks5_route http_route : ProxyRoute

unfoldable pub connect_via_proxy : Option Text → Result ProxyRoute
connect_via_proxy none = ok socks5_route
connect_via_proxy (some kind) =
    if text_eq kind (codes "socks5")
    then ok socks5_route
    else if text_eq kind (codes "http")
    then ok http_route
    else err connection_error

abbrev pub wa_header : List ℕ
wa_header = 87 ∷ 65 ∷ 6 ∷ 3 ∷ []

abbrev pub edge_header : List ℕ
edge_header = 69 ∷ 68 ∷ 0 ∷ 1 ∷ []

-- `struct.pack('>I', n)[1:]`, where `n` is below 2 ^ 32.
unfoldable pub size_bytes : ℕ → List ℕ
size_bytes n = n / 2 ^ 16 % 2 ^ 8 ∷ n / 2 ^ 8 % 2 ^ 8 ∷ n % 2 ^ 8 ∷ []

-- What comes before the last header: nothing for None and for empty routing information.
unfoldable pub routing_bytes : Option (List ℕ) → List ℕ
unfolding size_bytes
routing_bytes none = []
routing_bytes (some []) = []
routing_bytes (some (b ∷ info)) = edge_header ++ (size_bytes (length (b ∷ info)) ++ (b ∷ info))

abbrev pub has_no_routing : Option (List ℕ) → Bool
has_no_routing none = true
has_no_routing (some []) = true
has_no_routing (some (b ∷ info)) = false

-- `send_header`. The socket takes what a `drain` sends, or breaks and loses it: the first argument
-- tells it of the routing information, the second of the last header.
unfoldable pub send_header :
    Connection → Option (List ℕ) → Bool → Bool → Result {0} Unit × Connection
unfolding routing_bytes
send_header c info sends_routing sends_header =
    if c.header_sent
    then (ok tt, c)
    else if not c.has_streams || not (sends_routing || has_no_routing info)
    then (err connection_error, c)
    else if sends_header
    then (
      ok tt,
      record c { written = c.written ++ (routing_bytes info ++ wa_header); header_sent = true },
    )
    else (err connection_error, record c { written = c.written ++ routing_bytes info })

unfoldable pub read_chunk : Connection → Incoming → Result (List ℕ) × Connection
read_chunk c incoming =
    if not c.connected || not c.has_streams then (err connection_error, c) else elim incoming [
      | chunk [] ↦ (ok [], record c { connected = false })
      | chunk (b ∷ bs) ↦ (ok (b ∷ bs), c)
      | broken ↦ (err connection_error, record c { connected = false })
    ]

unfoldable pub write : Connection → List ℕ → Bool → Result {0} Unit × Connection
write c bytes works =
    if not c.connected || not c.has_streams
    then (err connection_error, c)
    else if works
    then (ok tt, record c { written = c.written ++ bytes })
    else (err connection_error, record c { connected = false })

-- `disconnect`; a failure to close is logged.
unfoldable pub disconnect : Connection → Connection
disconnect c = record c { connected = false; is_closing = c.is_closing || c.has_streams }

unfoldable pub is_connected : Connection → Bool
is_connected c = c.connected && c.has_streams && not c.is_closing
