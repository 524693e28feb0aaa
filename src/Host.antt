-- ===== src/Host.antt =====
-- packages/host: the ring of raw output.
pub mod Ring
pub mod Session
mod Examples
