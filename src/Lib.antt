-- ===== src/Lib.antt =====
-- A model of zowpy, an asynchronous client library for WhatsApp in Python, and theorems about it.
--
-- Parts and files (paths from the repository's root):
-- - Prelude, Result, Python: numbers, lists and texts (a text is its list of code points, below 256
--   where `int` reads it), exceptions as values, and the Python built-ins that the code uses.
-- - Coder: zowpy/utils/coder.py with zowpy/utils/token_dict.py and the node type of
--   zowpy/protocol/structs.py. `WriteEncoder` turns a tree of nodes into bytes: Coder.Write, over the
--   number widths of Coder.Ints and the packed texts of Coder.Packing. A method is what it appends
--   to `data` and the exception that it ends with. `ReadDecoder` is Coder.Read: a method takes bytes
--   off the front of `data`, or raises. The encoder's list takes any number; one that is no byte, as
--   of a character or a device above 255, is refused where the decoder makes it a `bytearray`.
--   Coder.Dictionary is `TokenDictionary`, over any word lists. Coder.RoundTrip has what the decoder
--   reads of what the encoder wrote.
-- - Sync: zowpy/protocol/historysync/lthash.py and hash_state.py, with `expand` of
--   zowpy/utils/tools.py. Sync.Words has the 16-bit words, Sync.LtHash the generator, Sync.Expansion
--   and Sync.Laws the theorems. HMAC-SHA256 is a parameter of which only the size of its outputs is
--   used, base64 one of which nothing is used. A negative difference of words is written with 2^16
--   added before the remainder.
-- - Phone: zowpy/utils/phone.py. Phone.Codes has the code of a number over any set of codes,
--   Phone.Country the fields of a country's entry. A dict's key that is not there is `none`.
-- - Router: zowpy/core/processors/base.py, router.py and registry.py. Router has `NodeRouter`,
--   Router.Registry `ProcessorRegistry`. The processors hand on what they make of a node of the
--   coder; what they answer is a parameter. A call is atomic: calls of other tasks that run while
--   a processor waits are not modelled.
-- - Events: zowpy/core/events.py. Events.Tables has its dicts of handlers, Events.Laws the theorems.
--   What `emit` hands to the loop is its result. Whether `run_in_executor` accepts a call is a
--   parameter.
-- - Sessions: zowpy/core/session_jid.py and `jidDecode` of zowpy/utils/tools.py. Sessions.Decoding
--   has the decoding of jids, Sessions.Distinct and Sessions.Missing the two filters. A set is a list
--   that only membership is asked of.
-- - Nodes: the methods of `ProtocolNode` in zowpy/protocol/structs.py, on the nodes of the coder:
--   dicts in Nodes.Dicts, attributes and children in Nodes.Access. `set_attribute` is the coder's.
-- - Noise: zowpy/noise. Noise.Stream is stream.py, with what it promises in Noise.Channel; a wait in
--   `get` is a reply of its own, and Noise.Wakeups has what ends it. Noise.Transport is transport.py,
--   Noise.Protocol protocol.py. Noise.Handshake is handshake.py with `ByteUtil.split` of util, and
--   Noise.Certificate certman/certman.py: a handshake takes the one segment that the server answers,
--   and what becomes of the stream and the handshake's state is in its result. Noise.EndToEnd,
--   Noise.HandshakeEnds and Noise.Lifecycle have theorems. The cipher and handshake states of
--   dissononce and the protobuf messages are parameters.
-- - Connection: zowpy/core/connection.py. What the socket does in a call is an argument of the call.
-- - Bridge: zowpy/core/bridge.py, on Connection and Noise.Stream. A loop is a function of what the
--   socket does in its rounds; a round runs alone. Bridge.Framing, Bridge.Reassembly and
--   Bridge.Delivery have the lemmas on segments and chunks, Bridge.EndToEnd the way from transport
--   to transport, and Bridge.Faults what happens when a connection breaks.
-- - Iq: zowpy/core/processors/iq_response.py in Iq, iq.py in Iq.Dispatch, with theorems in Iq.Waiting,
--   Iq.Cleaning and Iq.Announced. A callback is a number; what it does to the table while it runs is
--   an argument. Iq.Dispatch gives what is done with an iq as a list of effects.
-- - Client: parts of zowpy/core/client.py. Client.Sent has the queue of sent messages and Client.Window
--   its theorems, Client.Pings the pings that wait, Client.Prekeys the flush of prekeys, on Iq, with
--   its theorems in Client.Flushed. A wait for a lock that is held is an ending of its own. Client.Queue
--   has the queue of received nodes, with the steps of `heapq`: Client.Kept what stays in it,
--   Client.Heap and Client.Urgent its order, and Client.Waiting what becomes of nodes of one priority.
-- - Store: zowpy/core/store.py. Store has the operations on the cache and the rows of the account,
--   Store.Coherence their invariant, Store.ReadThrough what they promise. JSON is a parameter, and
--   so is whether a deletion that is not awaited has an effect.
-- - Jids: zowpy/utils/jid.py, with the correction of group jids of zowpy/core/client.py; Jids.Digits
--   has the theorems. `replace` is `without_from`.
-- - Builders: zowpy/core/builders/iq_builder.py, with prekey_builder.py in Builders.Prekeys and
--   receipt_builder.py in Builders.Receipts. Builders.Ids has the bytes of ids, Builders.Ids.Digits and
--   Builders.Ids.Values what they are; Builders.Prekeys.Flush, Upload, Published, Sendable and Carried
--   follow the keys from the records to what the other side decodes. An id that is generated is an
--   argument, and ids of keys are not negative.
-- - Processors: zowpy/core/processors, with the entities that they read and the client's wiring:
--   receipt.py, ack.py and presence.py in Processors.Receipts, notification.py in
--   Processors.Notifications, group.py in Processors.Groups, stream_error.py and failure.py in
--   Processors.Streams, ib.py in Processors.Ib. A processor gives what it returns and the list of what
--   it does. Processors.Routed puts them behind Router, Processors.Sent and Processors.Acknowledged
--   have what they send. The processors of messages and of iqs are parameters there; decoding UTF-8 is
--   one as well.
--
-- Fuel: the encoder's `write_string_fuel` takes a unit for each jid inside a jid, and is given one
-- more than the length of the text; the decoder takes a unit for each string inside a jid and each
-- node inside a node, and is given one more than the length of the data. Both are shown to be
-- enough, so `out_of_fuel` never stands for a run of the program. The bridge's `extract` takes a unit
-- for each segment and is given the length of the buffer, of which a segment takes three bytes. The
-- loops of the queue of received nodes take a unit for each step in the heap: more than the position,
-- or as much as its length, is shown to be enough. `format_hex` takes a unit for each digit and is given
-- one more than the number, and its digits are shown to be the number.
--
-- Not modelled: the exchanges with proxies, the rest of the client in zowpy/core/client.py, the
-- processor and the builders of messages, the handlers, and the databases; the network, cryptography
-- and protobuf, which enter as parameters where a modelled part uses them (`zlib.decompress` is a
-- parameter of `get_protocol_node`); logging; the limit of Python's call stack; the copies of other
-- libraries in zowpy/axolotl and zowpy/consonance.
pub mod Prelude
pub mod Result
pub mod Python
pub mod Bridge
pub mod Builders
pub mod Client
pub mod Coder
pub mod Connection
pub mod Events
pub mod Iq
pub mod Jids
pub mod Nodes
pub mod Noise
pub mod Phone
pub mod Processors
pub mod Router
pub mod Sessions
pub mod Store
pub mod Sync
