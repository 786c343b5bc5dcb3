-- ===== src/Core.antt =====
-- The value types of src/ntulearn_skill/core that the other parts share.
pub mod Models
pub mod Identifiers
