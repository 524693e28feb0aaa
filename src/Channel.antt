-- ===== src/Channel.antt =====
-- packages/channel: the comparison of keys, the frame codec and the record layer.
pub mod Keys
pub mod Frame
pub mod ByteQueue
pub mod Record
pub mod Handshake
pub mod SecureChannel
mod Examples
mod Runs
