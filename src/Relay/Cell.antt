-- ===== src/Relay/Cell.antt =====
-- packages/relay-core/src/cell.ts: the blind relay, as a state with one function for each method.
pub mod State
pub mod Registration
pub mod Bridging
pub mod Events
pub mod Invariant
pub mod Safety
pub mod Tickets
pub mod Admission
