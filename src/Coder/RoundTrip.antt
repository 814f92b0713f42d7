-- ===== src/Coder/RoundTrip.antt =====
-- What the decoder of zowpy/utils/coder.py reads of what its encoder wrote.
pub mod Plain
pub mod Strings
pub mod Jids
pub mod Devices
pub mod Attributes
pub mod Contents
pub mod Nodes
pub mod Trees
pub mod Carry
pub mod Faults
