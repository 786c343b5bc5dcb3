-- ===== src/Client.antt =====
-- src/ntulearn_skill/client: the contracts with a remote source.
pub mod Contracts
pub mod Errors
pub mod Records
pub mod Stream
