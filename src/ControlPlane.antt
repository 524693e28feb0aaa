-- ===== src/ControlPlane.antt =====
-- apps/control-plane: the key-value store of the short-lived state, and what stands on it.
pub mod Redis
pub mod RateLimit
pub mod RelayCoordination
pub mod CliAuth
mod Examples
