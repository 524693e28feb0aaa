-- ===== src/Sdk.antt =====
-- packages/sdk: the controller's view of a session.
pub mod Events
mod Examples
