-- ===== src/Share.antt =====
-- internal/usecase/share: the use cases over the ports that they define.
pub mod Ports
pub mod Service
pub mod Setup
pub mod Contract
pub mod Coherence
pub mod Lookup
pub mod Races
pub mod Rivals
pub mod Resolve
pub mod Manage
pub mod Revoke
pub mod Create
pub mod Again
pub mod Counts
