-- ===== src/Tests.antt =====
-- Runs on concrete inputs, and the theorems at inputs that meet their hypotheses.
pub mod Attention
pub mod D512
pub mod Scores
pub mod Fp8ds
pub mod Dcp
pub mod TopK
pub mod Indexer
pub mod Decode
pub mod Prune
