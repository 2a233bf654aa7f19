-- ===== src/Tests/Dcp.antt =====
-- Five positions over two ranks.
use glm_5_2_gb.Common.{
  ℕ, zero, suc, ◌+◌, ◌*◌, ◌<◌, ◌≡◌, ◌↔◌, map, some, arith, ltb, if◌then◌else◌, get_elem?,
}
use glm_5_2_gb.Dcp.Shard.{reassemble, local_columns, l_max_of, own}
use glm_5_2_gb.Dcp.Shard.Laws.{reassemble_lem, lt-own_iff}
use glm_5_2_gb.Dcp.Prefill.{build_reassembly_index, all_rows, global_rows, sum_range}
use glm_5_2_gb.Dcp.Prefill.Laws.{build_reassembly_index_lem, sum_own_lem}

abbrev logit : ℕ → ℕ → ℕ
logit row j = row * 10 + j + 1

reassemble_example :
    reassemble (local_columns logit 0 2 5) 2 (l_max_of 2 5) 1 4 ≡ (if ltb 4 5 then logit 1 4 else 0)
unfolding l_max_of
reassemble_example = reassemble_lem logit 0 2 5 1 4 (omega arith) (omega arith)

own_example : (2 < own 5 0 2) ↔ (2 * 2 + 0 < 5)
own_example = lt-own_iff 5 0 2 2 (omega arith)

sum_own_example : sum_range (λ r. own 5 r 2) 2 0 ≡ 5
sum_own_example = sum_own_lem 5 2 (omega arith)

-- Two requests, of 5 and of 3 keys.
abbrev glens : ℕ → ℕ
glens zero = 5
glens (suc q) = 3

abbrev key : ℕ → ℕ → ℕ
key q p = q * 10 + p

build_reassembly_index_example :
    map
      (get_elem? (all_rows 2 2 (λ r q. own (glens q) r 2) key))
      (build_reassembly_index 2 2 (λ r q. own (glens q) r 2))
    ≡ map some (global_rows 2 glens key)
build_reassembly_index_example = build_reassembly_index_lem 2 2 glens key (omega arith)
