-- ===== src/Coder.antt =====
-- zowpy/utils/coder.py, zowpy/utils/token_dict.py and the node type of zowpy/protocol/structs.py:
-- the binary encoding of protocol nodes.
pub mod Node
pub mod Dictionary
pub mod Ints
pub mod Packing
pub mod Write
pub mod Read
pub mod RoundTrip
mod Examples
