-- ===== src/Dcp.antt =====
-- The sharding of keys over the ranks of a decode-context-parallel group: the scripts
-- validate_dcp_reassembly.py, validate_perf2_prefill.py, validate_perf2_decode.py and
-- validate_lse_recombine.py of 8node-nvfp4/, which mirror the in-container patch. Rank `r` of `n` owns
-- the positions p with p % n = r and keeps them at p / n.
pub mod Shard
pub mod Prefill
pub mod TopK
pub mod Recombine
