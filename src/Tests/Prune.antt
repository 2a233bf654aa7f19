-- ===== src/Tests/Prune.antt =====
-- Pruning a layer of three experts to the first and the last.
use glm_5_2_gb.Common.{
  ◌%◌, ◌++◌, true, ℕ, ◌*◌, ◌<◌, ◌≡◌, refl, arith, Option, none, some, Gives, List, [], ◌∷◌, length,
  get_or, All, Ordered, ◌==◌, if◌then◌else◌, Bool-cases, inl, inr,
}
use glm_5_2_gb.Prune.{
  Name, expert, gate_weight, other, Tensor, lookup, row_slice, header_from, payload, read_tensor,
  build_shard,
}
use mathlib.Core.List.{Perm}
use glm_5_2_gb.Common.Permutations.{range}
use glm_5_2_gb.Common.Sort.{insert, into}
use glm_5_2_gb.Prune.Bias.{bias_keeplist, bias_le, bias_order, number_order, bias_keeplist_lem}
use glm_5_2_gb.Prune.Rows.{row, row_slice_lem}
use glm_5_2_gb.Prune.Files.{read-write}
use glm_5_2_gb.Prune.Origin.{IsReady, origin, source}
use glm_5_2_gb.Prune.Build.{lookup-build_shard}

-- Three rows of two bytes.
abbrev gate_bytes : List ℕ
gate_bytes = 10 ∷ 11 ∷ 20 ∷ 21 ∷ 30 ∷ 31 ∷ []

row_slice_example :
    Gives
      (λ sliced.
        (sliced.1 ≡ 2 ∷ 4 ∷ [])
        × (length sliced.0 ≡ 2 * 2)
        × ((j : ℕ) → j < 2 → row 2 j sliced.0 ≡ row 2 (get_or (2 ∷ 0 ∷ []) j 0) gate_bytes))
      (row_slice gate_bytes (3 ∷ 4 ∷ []) (2 ∷ 0 ∷ []))
row_slice_example =
    row_slice_lem 2 3 gate_bytes refl (4 ∷ []) (2 ∷ 0 ∷ []) (omega arith)
      (omega arith, (omega arith, tt))

abbrev tensor : List ℕ → List ℕ → Tensor
tensor shape bytes = record { dtype = 0; shape = shape; bytes = bytes }

-- Layer 3's gate and experts, and a norm.
abbrev shard : List (Name × Tensor)
shard =
    (gate_weight 3, tensor (3 ∷ 1 ∷ []) gate_bytes)
    ∷ (expert 3 0 0, tensor (1 ∷ []) (5 ∷ []))
    ∷ (expert 3 1 0, tensor (1 ∷ []) (6 ∷ []))
    ∷ (expert 3 2 0, tensor (1 ∷ []) (7 ∷ 8 ∷ []))
    ∷ (other 9, tensor [] [])
    ∷ []

read-write_example :
    read_tensor (header_from 0 shard) (payload shard) (expert 3 2 0) ≡ lookup shard (expert 3 2 0)
read-write_example = read-write shard (expert 3 2 0)

abbrev keep : ℕ → Option (List ℕ)
keep l = if l == 3 then some (0 ∷ 2 ∷ []) else none

some-inj : {i k : List ℕ} → some i ≡ some k → i ≡ k
some-inj h = cc

none-some : {k : List ℕ} → ¬ (none ≡ some k)
none-some h = cc

keep-ascending : (l : ℕ) (ks : List ℕ) → keep l ≡ some ks → Ordered (λ k k'. k < k') ks
keep-ascending l ks h = elim (Bool-cases (l == 3)) [
  | inl e ↦
      let kept : 0 ∷ 2 ∷ [] ≡ ks = some-inj (rw e at h) in rw (← kept) ((omega arith, tt), (tt, tt))
  | inr e ↦ absurd (none-some (rw e at h))
]

shard-IsReady : All (IsReady keep) shard
unfolding IsReady
shard-IsReady = (
  record {
    rows = 3;
    rest = 1 ∷ [];
    row_bytes = 2;
    shape-eq = refl;
    some_rows = omega arith;
    size = refl;
  },
  ((0 ∷ 2 ∷ [], refl), ((0 ∷ 2 ∷ [], refl), ((0 ∷ 2 ∷ [], refl), (tt, tt)))),
)

lookup-build_shard_example :
    (out : List (Name × Tensor)) × (build_shard keep shard ≡ some out)
    × ((m : Name) → lookup out m ≡ source (origin keep m) shard)
lookup-build_shard_example = lookup-build_shard keep keep-ascending shard shard-IsReady

-- Biases 0, 2, 4, 1, 3 and 0.
abbrev bias : ℕ → ℕ
bias i = 2 * i % 5

bias_keeplist_example :
    (length (bias_keeplist bias 6 3) ≡ 3)
    × Ordered (λ k k'. k < k') (bias_keeplist bias 6 3)
    × ((dropped : List ℕ) × Perm (bias_keeplist bias 6 3 ++ dropped) (range 6)
        × All (λ k. All (λ d. bias_le bias k d ≡ true) dropped) (bias_keeplist bias 6 3))
bias_keeplist_example = bias_keeplist_lem bias 6 3 (omega arith)

bias_keeplist_run : bias_keeplist bias 6 3 ≡ 0 ∷ 3 ∷ 5 ∷ []
unfolding bias_keeplist bias_order number_order bias_le insert into
bias_keeplist_run = refl
