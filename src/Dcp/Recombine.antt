-- ===== src/Dcp/Recombine.antt =====
-- The merge of two shards' partial results by their lse, of 8node-nvfp4/validate_lse_recombine.py, for
-- one query and head; the script states it as the mathematics of vLLM's recombination over ranks.
pub mod Laws
use glm_5_2_gb.Common.{Option, some, ◌>>=◌}
use glm_5_2_gb.Float.{Arith}
use glm_5_2_gb.Softmax.{Logit, Row}
use glm_5_2_gb.SparseMla.Finish.{maximum, exp_diff, add_log}

-- None for a NaN: two shards that saw no key.
unfoldable pub recombine :
    (a : Arith) → Row a → Logit a.S → Row a → Logit a.S → Option (Row a × Logit a.S)
recombine a out_a lse_a out_b lse_b = do
  let m = maximum a lse_a lse_b
  wa ← exp_diff a lse_a m
  wb ← exp_diff a lse_b m
  let total = a.add_W wa wb
  some (λ d. a.quot (a.add_E (a.act wa (out_a d)) (a.act wb (out_b d))) total, add_log a m total)
