-- ===== src/Sync.antt =====
-- src/ntulearn_skill/sync: synchronization of one local library with its remote source.
pub mod Models
pub mod State
pub mod Freshness
pub mod Jobs
pub mod Lifecycle
pub mod Discovery
pub mod Observability
