-- ===== src/Noise.antt =====
-- zowpy/noise: the segmented stream, the encrypted transport over it, and the protocol object.
pub mod Stream
pub mod Channel
pub mod Wakeups
pub mod Transport
pub mod EndToEnd
pub mod Handshake
pub mod Certificate
pub mod HandshakeEnds
pub mod Protocol
pub mod Lifecycle
mod Examples
