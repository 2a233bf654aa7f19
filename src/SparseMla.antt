-- ===== src/SparseMla.antt =====
-- kernels/sparse_mla_kernels.py: the portable sparse MLA attention kernels.
pub mod Finish
pub mod Accumulate
pub mod Fp8ds
pub mod D512
pub mod Scores
