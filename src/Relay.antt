-- ===== src/Relay.antt =====
-- packages/relay-core: the framing of the coordination messages and the cell that bridges.
pub mod OuterFrame
pub mod Connection
pub mod HostProof
pub mod Cell
mod Examples
