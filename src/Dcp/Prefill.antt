-- ===== src/Dcp/Prefill.antt =====
-- `build_reassembly_index` of 8node-nvfp4/validate_dcp_reassembly.py: the permutation from the keys
-- as `all_gatherv` concatenates them (by rank, then by request, then by local position) to the global
-- order (by request, then by position). `counts r q` is L[r, q], the number of keys of request `q`
-- that rank `r` owns.
pub mod Laws
use glm_5_2_gb.Common.{ℕ, zero, suc, ◌+◌, ◌-◌, ◌*◌, ◌/◌, ◌%◌, List, [], ◌∷◌, ◌++◌, tabulate}

-- The sum of `f i`, ..., `f (i + n - 1)`.
abbrev pub sum_range : (ℕ → ℕ) → ℕ → ℕ → ℕ
sum_range f zero i = 0
sum_range f (suc n) i = f i + sum_range f n (suc i)

-- The concatenation of `f i`, ..., `f (i + n - 1)`.
module _ {ℓ} {A : Type ℓ} where
  abbrev pub concat_range : (ℕ → List A) → ℕ → ℕ → List A
  concat_range f zero i = []
  concat_range f (suc n) i = f i ++ concat_range f n (suc i)

module _ (n reqs : ℕ) (counts : ℕ → ℕ → ℕ) where
  -- `L.sum(dim=1)`, then `cumsum` over the ranks before
  unfoldable pub rank_base : ℕ → ℕ
  rank_base owner = sum_range (λ r. sum_range (counts r) reqs 0) owner 0

  -- `cumsum(L[:, :-1], dim=1)`
  unfoldable pub req_off : ℕ → ℕ → ℕ
  req_off owner q = sum_range (counts owner) q 0

  -- `L[:, q].sum()`
  unfoldable pub glen : ℕ → ℕ
  glen q = sum_range (λ r. counts r q) n 0

  unfoldable pub part : ℕ → List ℕ
  unfolding rank_base req_off glen
  part q = tabulate (λ p. rank_base (p % n) + req_off (p % n) q + p / n) (glen q) 0

  -- `torch.cat(parts)`; a request with no keys has an empty part.
  unfoldable pub build_reassembly_index : List ℕ
  unfolding part
  build_reassembly_index = concat_range part reqs 0

-- What the harness gathers: rank by rank, each request's owned keys in ascending order, where `key q p`
-- is the row of key `p` of request `q`.
module _ {V : Type 0} (n reqs : ℕ) (counts : ℕ → ℕ → ℕ) (key : ℕ → ℕ → V) where
  unfoldable pub owned_rows : ℕ → ℕ → List V
  owned_rows r q = tabulate (λ c. key q (c * n + r)) (counts r q) 0

  unfoldable pub rank_rows : ℕ → List V
  unfolding owned_rows
  rank_rows r = concat_range (owned_rows r) reqs 0

  unfoldable pub all_rows : List V
  unfolding rank_rows
  all_rows = concat_range rank_rows n 0

-- The keys in global order.
unfoldable pub global_rows : {V : Type 0} → ℕ → (ℕ → ℕ) → (ℕ → ℕ → V) → List V
global_rows reqs glens key = concat_range (λ q. tabulate (key q) (glens q) 0) reqs 0
