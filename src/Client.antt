-- ===== src/Client.antt =====
-- Parts of `WhatsAppClient` of zowpy/core/client.py: the queue of sent messages, the pings that wait for
-- an answer, the flush of prekeys, and the queue of received nodes.
pub mod Sent
pub mod Window
pub mod Pings
pub mod Prekeys
pub mod Flushed
pub mod Queue
pub mod Kept
pub mod Waiting
pub mod Heap
pub mod Urgent
mod Examples
