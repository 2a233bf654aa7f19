-- ===== src/Sm12x.antt =====
-- kernels/sm12x_sparse_mla_attn.py: the attention entry points of the sm12x backend.
pub mod Prefill
pub mod KvCache
pub mod Decode
