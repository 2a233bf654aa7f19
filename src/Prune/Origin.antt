-- ===== src/Prune/Origin.antt =====
-- What a pruned shard should hold: by a tensor's name, the source tensor and what is kept of it.
use glm_5_2_gb.Common.{
  ℕ, ◌*◌, ◌/◌, ◌<◌, ◌≡◌, refl, sym, ap, ◌∙◌, arith, true, false, Option, none, some, ◌>>=◌, List,
  [], ◌∷◌, length, get_or, ltb, ◌==◌, if◌then◌else◌,
}
use native.Mathlib.Nat.{mul-div_cancel}
use glm_5_2_gb.Prune.{
  Name, expert, gate_weight, gate_bias, other, Tensor, lookup, join_rows, row_slice,
}
use glm_5_2_gb.Prune.Files.{map_option}

omega_false : (n : ℕ) → 0 < n → (n == 0) ≡ false
omega_false n h = ground arith

equal_true : (m n : ℕ) → m ≡ n → (m == n) ≡ true
equal_true m n h = ground arith

-- A gate's rows, of which those of the kept experts are kept.
pub record IsRows (t : Tensor) : Type 0 where
  pub rows : ℕ
  pub rest : List ℕ
  pub row_bytes : ℕ
  pub shape-eq : t.shape ≡ rows ∷ rest
  pub some_rows : 0 < rows
  pub size : length t.bytes ≡ row_bytes * rows

abbrev pub first_dim : List ℕ → ℕ
first_dim [] = 0
first_dim (rows ∷ rest) = rows

abbrev pub with_first : ℕ → List ℕ → List ℕ
with_first n [] = []
with_first n (rows ∷ rest) = n ∷ rest

unfoldable pub keep_rows : List ℕ → Tensor → Tensor
keep_rows ks t = record {
  dtype = t.dtype;
  shape = with_first (length ks) t.shape;
  bytes = join_rows (length t.bytes / first_dim t.shape) t.bytes ks;
}

pub row_slice-eq :
    (ks : List ℕ) (t : Tensor)
    → IsRows t
    → row_slice t.bytes t.shape ks ≡ some ((keep_rows ks t).bytes, (keep_rows ks t).shape)
unfolding row_slice keep_rows
row_slice-eq ks t h =
    let quotient : length t.bytes / h.rows ≡ h.row_bytes =
      ap (λ n. n / h.rows) h.size ∙ mul-div_cancel h.row_bytes h.some_rows in
    let positive : (h.rows == 0) ≡ false = omega_false h.rows h.some_rows in
    let whole : (h.row_bytes * h.rows == length t.bytes) ≡ true = equal_true _ _ (sym h.size) in
    rw (h.shape-eq, positive, quotient, whole) refl

-- What `build` needs of a tensor: a keep list for the layer of an expert, and rows to slice.
unfoldable pub IsReady : (ℕ → Option (List ℕ)) → Name × Tensor → Type 0
IsReady keep (expert l e rest, t) = (ks : List ℕ) × (keep l ≡ some ks)
IsReady keep (gate_weight l, t) = IsRows t
IsReady keep (gate_bias l, t) = IsRows t
IsReady keep (other s, t) = Unit

-- Where a tensor of the pruned shard comes from: a source name, and what is done to the tensor.
unfoldable pub gate_change : Option (List ℕ) → Tensor → Tensor
gate_change (some ks) t = keep_rows ks t
gate_change none t = t

unfoldable pub origin : (ℕ → Option (List ℕ)) → Name → Option (Name × (Tensor → Tensor))
origin keep (expert l j rest) = keep l >>= λ ks.
    if ltb j (length ks) then some (expert l (get_or ks j 0) rest, λ t. t) else none
origin keep (gate_weight l) = some (gate_weight l, gate_change (keep l))
origin keep (gate_bias l) = some (gate_bias l, gate_change (keep l))
origin keep (other s) = some (other s, λ t. t)

-- What of a list of tensors is read at an output name.
abbrev pub source : Option (Name × (Tensor → Tensor)) → List (Name × Tensor) → Option Tensor
source o ts = o >>= λ p. map_option p.1 (lookup ts p.0)
