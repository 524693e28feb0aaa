-- ===== src/Protocol.antt =====
-- protocol/: the binary PTY frame, the version check and the negotiation of capabilities.
pub mod PtyFrame
pub mod PtyPayloads
pub mod Version
pub mod Capabilities
mod Examples
