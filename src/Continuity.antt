-- ===== src/Continuity.antt =====
-- internal/continuity: redundant carriers between a gateway and its relay.
pub mod Window
pub mod Wire
pub mod Limits
pub mod Receiver
pub mod Sender
pub mod Link
pub mod Datagrams
pub mod Paths
mod Examples
mod Streams
mod Transfers
