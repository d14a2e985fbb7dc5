-- ===== src/Witnesses.antt =====
-- Tests, and one concrete case of each theorem that has hypotheses.
pub mod Samples
pub mod Domain
pub mod Configuration
pub mod Services
pub mod Profiles
pub mod CacheFiles
pub mod Transfers
