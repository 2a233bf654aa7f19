-- ===== src/Prune.antt =====
-- prune/awq_surgery.py: pruning the experts of a checkpoint. A byte is a number. A name is what the
-- three patterns of the script split it into; `other` stands for every name that none matches, and the
-- rest of an expert's name for its suffix. A tensor is its dtype, shape and bytes. Reading and writing
-- files, JSON and hashes are not modelled.
pub mod Rows
pub mod Files
pub mod Keep
pub mod Bias
pub mod Renumber
pub mod Origin
pub mod Pieces
pub mod Build
use glm_5_2_gb.Common.{
  ℕ, zero, suc, ◌+◌, ◌-◌, ◌*◌, ◌/◌, Bool, true, false, ◌&&◌, ◌||◌, Option, none, some, ◌>>=◌, List,
  [], ◌∷◌, ◌++◌, length, take, drop, ◌==◌, if◌then◌else◌,
}
use glm_5_2_gb.Common.Permutations.{range}

pub data Name : Type 0 where
  expert : ℕ → ℕ → ℕ → Name
  gate_weight : ℕ → Name
  gate_bias : ℕ → Name
  other : ℕ → Name

unfoldable pub same_name : Name → Name → Bool
same_name (expert l e r) (expert l' e' r') = (l == l') && (e == e') && (r == r')
same_name (gate_weight l) (gate_weight l') = l == l'
same_name (gate_bias l) (gate_bias l') = l == l'
same_name (other s) (other s') = s == s'
same_name _ _ = false

pub record Tensor : Type 0 where
  pub dtype : ℕ
  pub shape : List ℕ
  pub bytes : List ℕ

abbrev pub or_else : {A : Type 0} → Option A → Option A → Option A
or_else none y = y
or_else (some x) y = some x

-- A dictionary built in order: the last value of a key wins.
unfoldable pub lookup : {A : Type 0} → List (Name × A) → Name → Option A
unfolding same_name
lookup [] name = none
lookup ((n, x) ∷ xs) name = or_else (lookup xs name) (if same_name n name then some x else none)

-- `buf[s:e]`
abbrev pub slice : ℕ → ℕ → List ℕ → List ℕ
slice s e buf = take (e - s) (drop s buf)

-- `b"".join(buf[i*rb:(i+1)*rb] for i in keep)`
unfoldable pub join_rows : ℕ → List ℕ → List ℕ → List ℕ
join_rows rb buf [] = []
join_rows rb buf (i ∷ keep) = slice (i * rb) ((i + 1) * rb) buf ++ join_rows rb buf keep

-- None where the script raises: no rows, or a size that is not a multiple of the rows.
unfoldable pub row_slice : List ℕ → List ℕ → List ℕ → Option (List ℕ × List ℕ)
unfolding join_rows
row_slice buf [] keep = none
row_slice buf (rows ∷ shape) keep =
    let rb = length buf / rows in
    if rows == 0
    then none
    else if rb * rows == length buf
    then some (join_rows rb buf keep, length keep ∷ shape)
    else none

pub record HeaderEntry : Type 0 where
  pub dtype : ℕ
  pub shape : List ℕ
  pub start : ℕ
  pub end : ℕ

-- `write_safetensors`: the header's entries and the data.
unfoldable pub header_from : ℕ → List (Name × Tensor) → List (Name × HeaderEntry)
header_from off [] = []
header_from off ((n, t) ∷ ts) =
    (n, record { dtype = t.dtype; shape = t.shape; start = off; end = off + length t.bytes })
    ∷ header_from (off + length t.bytes) ts

unfoldable pub payload : List (Name × Tensor) → List ℕ
payload [] = []
payload ((n, t) ∷ ts) = t.bytes ++ payload ts

-- `read_tensor_bytes`
unfoldable pub read_tensor : List (Name × HeaderEntry) → List ℕ → Name → Option Tensor
unfolding lookup
read_tensor header buf name = lookup header name >>= λ m.
    some (record { dtype = m.dtype; shape = m.shape; bytes = slice m.start m.end buf })

-- `e in drop`
unfoldable pub is_in : ℕ → List ℕ → Bool
is_in e [] = false
is_in e (o ∷ drops) = (e == o) || is_in e drops

-- `[e for e in es if e not in drop]`
unfoldable pub undropped : List ℕ → List ℕ → List ℕ
unfolding is_in
undropped drops [] = []
undropped drops (e ∷ es) = if is_in e drops then undropped drops es else e ∷ undropped drops es

unfoldable pub fixed_drop_keeplist : ℕ → List ℕ → List ℕ
unfolding undropped
fixed_drop_keeplist num_experts drops = undropped drops (range num_experts)

-- `{o: j for j, o in enumerate(keep)}`, from `j` on
unfoldable pub old2new : ℕ → List ℕ → ℕ → Option ℕ
old2new j [] e = none
old2new j (o ∷ keep) e = or_else (old2new (suc j) keep e) (if o == e then some j else none)

pub data Fate : Type 0 where
  rename : Name → Fate
  discard : Fate
  slice_rows : ℕ → Fate
  untouched : Fate

-- By an expert's new number, and by a layer's keep list.
unfoldable pub expert_fate : ℕ → ℕ → Option ℕ → Fate
expert_fate l rest (some j) = rename (expert l j rest)
expert_fate l rest none = discard

unfoldable pub gate_fate : ℕ → Option (List ℕ) → Fate
gate_fate l (some ks) = slice_rows l
gate_fate l none = untouched

-- None where the script raises: an expert of a layer that has no keep list. A gate's slice carries its
-- layer, which the loop of `build` reads off the name again.
unfoldable pub fate : (ℕ → Option (List ℕ)) → Name → Option Fate
unfolding old2new expert_fate gate_fate
fate keep (expert l e rest) = keep l >>= λ ks. some (expert_fate l rest (old2new 0 ks e))
fate keep (gate_weight l) = some (gate_fate l (keep l))
fate keep (gate_bias l) = some (gate_fate l (keep l))
fate keep (other s) = some untouched

-- The tensor that `build` writes for one tensor of a shard, if it writes one.
unfoldable pub rewritten :
    (ℕ → Option (List ℕ)) → Name × Tensor → Fate → Option (List (Name × Tensor))
unfolding row_slice
rewritten keep (n, t) (rename new_name) = some ((new_name, t) ∷ [])
rewritten keep (n, t) discard = some []
rewritten keep (n, t) (slice_rows l) = do
  ks ← keep l
  (buf, shape) ← row_slice t.bytes t.shape ks
  some ((n, record { dtype = t.dtype; shape = shape; bytes = buf }) ∷ [])
rewritten keep (n, t) untouched = some ((n, t) ∷ [])

-- `out_t` of `build`, for one shard
unfoldable pub build_shard :
    (ℕ → Option (List ℕ)) → List (Name × Tensor) → Option (List (Name × Tensor))
unfolding fate rewritten
build_shard keep [] = some []
build_shard keep ((n, t) ∷ ts) = do
  act ← fate keep n
  out ← rewritten keep (n, t) act
  rest ← build_shard keep ts
  some (out ++ rest)
