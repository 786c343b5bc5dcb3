-- ===== src/Storage.antt =====
-- src/ntulearn_skill/storage: the repositories.
pub mod Courses
