-- ===== src/Dcp/Shard.antt =====
-- Owners and local positions: `reassemble`, `owned_writeback` of 8node-nvfp4/
-- validate_dcp_reassembly.py and `_own` of validate_perf2_prefill.py. Tensors are functions of their
-- coordinates; positions are int64 with -1 for none.
pub mod Laws
use glm_5_2_gb.Common.{
  ℕ, ◌+◌, ◌-◌, ◌*◌, ◌/◌, ◌%◌, Bool, List, [], ◌∷◌, map, ◌==◌, ltb, if◌then◌else◌,
}
use glm_5_2_gb.Common.Int.{ℤ, pos, negsuc}

module _ {V : Type 0} where
  -- `torch.stack(local_per_rank).permute(1, 0, 2).reshape(num_rows, N * Lmax)`
  unfoldable pub gathered : (ℕ → ℕ → ℕ → V) → ℕ → ℕ → ℕ → V
  gathered local_per_rank l_max row k = local_per_rank (k / l_max) row (k % l_max)

  -- `.view(num_rows, N, Lmax).transpose(1, 2).reshape(num_rows, Lmax * N)`
  unfoldable pub reassemble : (ℕ → ℕ → ℕ → V) → ℕ → ℕ → ℕ → ℕ → V
  unfolding gathered
  reassemble local_per_rank n l_max row j =
      gathered local_per_rank l_max row (j % n * l_max + j / n)

  -- The local logits of rank `r`: column c is global position c * n + r, and -inf from `s` on.
  unfoldable pub local_columns : (ℕ → ℕ → V) → V → ℕ → ℕ → ℕ → ℕ → ℕ → V
  local_columns value neg n s r row c = if ltb (c * n + r) s then value row (c * n + r) else neg

-- `(S + N - 1) // N`
unfoldable pub l_max_of : ℕ → ℕ → ℕ
l_max_of n s = (s + n - 1) / n

-- `owned -> p // N, else -1`: a negative position stays -1.
unfoldable pub owned_writeback : ℕ → ℕ → ℤ → ℤ
owned_writeback n r (pos p) = if p % n == r then pos (p / n) else negsuc 0
owned_writeback n r (negsuc p) = negsuc 0

-- `_own(c, r, N)`: how many of the positions below `c` rank `r` owns.
unfoldable pub own : ℕ → ℕ → ℕ → ℕ
own c r n = c / n + (if ltb r (c % n) then 1 else 0)
