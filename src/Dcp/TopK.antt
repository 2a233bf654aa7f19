-- ===== src/Dcp/TopK.antt =====
-- The exact top-k over shards: 8node-nvfp4/validate_perf2_decode.py and validate_perf2_prefill.py,
-- whose functions mirror the patch of the sparse indexer, for one row of a tensor. A score is -inf, or
-- a number of which only the order counts (equal floats are one number). A global position is an
-- int64, or none for -1. `torch.argsort` is a parameter of which `IsStable` states what is documented.
pub mod Order
pub mod Select
pub mod Gather
pub mod Columns
pub mod Union
pub mod Strides
pub mod Exact
use mathlib.Core.List.{Perm}
use glm_5_2_gb.Common.{
  ℕ, zero, suc, ◌+◌, ◌-◌, ◌*◌, ◌%◌, ◌^◌, ◌≤◌, min, Bool, true, false, ◌&&◌, ◌≡◌, Option, none, some,
  List, [], ◌∷◌, ◌++◌, map, length, take, replicate, get_or, tabulate, Ordered, ltb, leb, ◌==◌,
  if◌then◌else◌,
}
use glm_5_2_gb.Softmax.{Logit, neg_inf, fin}

abbrev pub Score : Type 0
Score = Logit ℕ

-- `s > t`
unfoldable pub is_above : Score → Score → Bool
is_above neg_inf t = false
is_above (fin m) neg_inf = true
is_above (fin m) (fin n) = ltb n m

-- A stable sort's indices: a permutation in which an index precedes another only if its key does, or
-- if neither key precedes the other and it is the smaller index.
pub record IsStable {K : Type 0} (precedes : K → K → Bool) (default : K) (keys : List K)
    (indices : List ℕ) : Type 0 where
  pub permutes : Perm indices (tabulate (λ i. i) (length keys) 0)
  pub sorted :
      Ordered
        (λ i j.
          (precedes (get_or keys j default) (get_or keys i default) ≡ false)
          × (precedes (get_or keys i default) (get_or keys j default) ≡ false → i ≤ j))
        indices

-- `torch.argsort(keys, dim=1, stable=True)` of int64 keys, and of scores with `descending=True`.
pub record Argsort : Type 0 where
  pub ascending : List ℕ → List ℕ
  pub descending : List Score → List ℕ
  pub ascending-IsStable : (keys : List ℕ) → IsStable ltb 0 keys (ascending keys)
  pub descending-IsStable : (keys : List Score) → IsStable is_above neg_inf keys (descending keys)

-- `torch.gather(xs, 1, indices)`
unfoldable pub gather : {A : Type 0} → A → List A → List ℕ → List A
gather default xs indices = map (λ i. get_or xs i default) indices

-- `torch.where(gpos >= 0, gpos, 1 << 62)`
unfoldable pub pos_key : Option ℕ → ℕ
pos_key none = 2 ^ 62
pos_key (some p) = p

-- `torch.where(vsel == NEG, -1, gsel)`
unfoldable pub demote_pos : Score → Option ℕ → Option ℕ
demote_pos neg_inf p = none
demote_pos (fin s) p = p

abbrev pub zip_with : {A B C : Type 0} → (A → B → C) → List A → List B → List C
zip_with f [] ys = []
zip_with f (x ∷ xs) [] = []
zip_with f (x ∷ xs) (y ∷ ys) = f x y ∷ zip_with f xs ys

abbrev pub concat_map : {A : Type 0} → (ℕ → List A) → List ℕ → List A
concat_map f [] = []
concat_map f (r ∷ rs) = f r ++ concat_map f rs

-- `xs[r::n]`
unfoldable pub stride : {A : Type 0} → ℕ → ℕ → List A → List A
stride n r [] = []
stride n zero (x ∷ xs) = x ∷ stride n (n - 1) xs
stride n (suc r) (x ∷ xs) = stride n r xs

-- Pad to `k` lanes with invalid ones.
unfoldable pub pad : ℕ → List Score × List (Option ℕ) → List Score × List (Option ℕ)
pad k (vs, ps) =
    if leb k (length vs)
    then (vs, ps)
    else (vs ++ replicate (k - length vs) neg_inf, ps ++ replicate (k - length vs) none)

-- `torch.where(test, glogits, NEG)` and `torch.where(test, col, -1)`, for columns from `i` on
unfoldable pub mask_scores : (ℕ → Bool) → ℕ → List Score → List Score
mask_scores test i [] = []
mask_scores test i (s ∷ scores) = (if test i then s else neg_inf) ∷ mask_scores test (suc i) scores

unfoldable pub mask_cols : (ℕ → Bool) → ℕ → ℕ → List (Option ℕ)
mask_cols test n i = tabulate (λ c. if test c then some c else none) n i

module _ (a : Argsort) where
  unfoldable pub strict_topk : List Score → List (Option ℕ) → ℕ → List Score × List (Option ℕ)
  unfolding gather demote_pos pos_key
  strict_topk scores gpos k =
      let poskey = map pos_key gpos in
      let o1 = a.ascending poskey in
      let sc1 = gather neg_inf scores o1 in
      let o2 = a.descending sc1 in
      let order = gather 0 o1 o2 in
      let sel = take (min k (length scores)) order in
      let vsel = gather neg_inf scores sel in
      let gsel = gather none gpos sel in (vsel, zip_with demote_pos vsel gsel)

  -- Decode: each rank's candidates of its own columns, gathered in the order of `ranks`.
  unfoldable pub local_candidates : List Score → ℕ → ℕ → ℕ → List Score × List (Option ℕ)
  unfolding stride
  local_candidates glogits n k r =
      let loc = stride n r glogits in
      let gpos_r = tabulate (λ c. some (c * n + r)) (length loc) 0 in
      pad k (strict_topk loc gpos_r k)

  unfoldable pub approach2 : List Score → ℕ → ℕ → List ℕ → List (Option ℕ)
  approach2 glogits n k ranks =
      let allsc = concat_map (λ r. (local_candidates glogits n k r).0) ranks in
      let allpos = concat_map (λ r. (local_candidates glogits n k r).1) ranks in
      (strict_topk allsc allpos k).1

  -- The reference: the top-k of the whole row, padded with -1.
  unfoldable pub brute : List Score → ℕ → List (Option ℕ)
  brute glogits k =
      let gpos = tabulate some (length glogits) 0 in (pad k (strict_topk glogits gpos k)).1

  -- Prefill: a query attends to the keys below `ke`, and a rank masks what is not its own.
  unfoldable pub causal_candidates : List Score → ℕ → ℕ → ℕ → ℕ → List Score × List (Option ℕ)
  unfolding mask_scores mask_cols
  causal_candidates glogits ke n k r =
      let owned = λ (col : ℕ). (col % n == r) && ltb col ke in
      pad k (strict_topk (mask_scores owned 0 glogits) (mask_cols owned (length glogits) 0) k)

  unfoldable pub candidate_union : List Score → ℕ → ℕ → ℕ → List ℕ → List (Option ℕ)
  candidate_union glogits ke n k ranks =
      let allsc = concat_map (λ r. (causal_candidates glogits ke n k r).0) ranks in
      let allpos = concat_map (λ r. (causal_candidates glogits ke n k r).1) ranks in
      (pad k (strict_topk allsc allpos k)).1

  unfoldable pub causal_brute : List Score → ℕ → ℕ → List (Option ℕ)
  causal_brute glogits ke k =
      let valid = λ (col : ℕ). ltb col ke in
      (pad k (strict_topk (mask_scores valid 0 glogits) (mask_cols valid (length glogits) 0) k)).1
