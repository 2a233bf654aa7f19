-- ===== src/Tests/Indexer.antt =====
-- The indexer's top-k on a few keys and two heads, over exact numbers, by a sort of the whole row.
use native.Mathlib.Nat.{add_assoc, zero-add, mul_assoc, add-mul, zero-mul, mul-zero}
use glm_5_2_gb.Common.{
  ℕ, zero, suc, ◌+◌, ◌-◌, ◌*◌, ◌%◌, Gives, ◌≤◌, true, false, ◌&&◌, ◌≡◌, refl, ◌∙◌, arith, some,
  List, [], ◌∷◌, length, tabulate, take, drop, take-append-drop, length-take, length-tabulate, All,
  Ordered, ltb, leb, if◌then◌else◌,
}
use glm_5_2_gb.Common.Permutations.{range, length-perm}
use glm_5_2_gb.Softmax.{Logit, neg_inf, fin}
use glm_5_2_gb.Indexer.{
  Values, IsExactSum, is_above, IsTopk, Topk, head_score, total, mqa_topk_indices,
}
use glm_5_2_gb.Indexer.Counts.{All-weaken, All-right}
use glm_5_2_gb.Indexer.TopK.{IsBestRow}
use glm_5_2_gb.Indexer.Logits.{mqa_topk_indices_lem}
use glm_5_2_gb.Prenorm.{prenorm_gemm, prenorm_gemm_torch, recovered}
use glm_5_2_gb.Prenorm.Splits.{prenorm_gemm_lem}
use glm_5_2_gb.Indexer.Triton.{mqa_logits_sm12x, mqa_logits_sm12x_lem}
use glm_5_2_gb.Common.Int.{pos}
use glm_5_2_gb.Indexer.Paged.{ByteCasts, PagedCache, PagedView, view_packed, paged_topk_indices}
use glm_5_2_gb.Indexer.Paged.Scores.{position_logit}
use glm_5_2_gb.Indexer.Paged.Best.{paged_topk_indices_lem}
use glm_5_2_gb.Indexer.Torch.{paged_logits_sm12x, paged_logits_sm12x_lem}
use glm_5_2_gb.Tests.TopK.{IsWeak, argsort, argsort-IsStable}

-- Numbers less 4 at a `relu`
unfoldable numbers : Values
numbers = record {
  V = ℕ;
  zero_V = 0;
  add = λ x y. x + y;
  mul = λ x y. x * y;
  relu = λ x. x - 4;
  above = λ x y. ltb y x;
}

numbers-IsExactSum : IsExactSum numbers
unfolding numbers
numbers-IsExactSum = record {
  add_assoc = add_assoc;
  zero-add = zero-add;
  add-zero = λ (x : ℕ). omega arith;
  mul_assoc = mul_assoc;
  add-mul = add-mul;
  zero-mul = zero-mul;
  mul-zero = mul-zero;
  above-split = λ (d k y : ℕ) h h'. ground arith;
}

number_above-IsWeak : IsWeak (is_above numbers)
unfolding numbers is_above
number_above-IsWeak = record { asymm = λ x y h. ground arith; co_trans = λ x y z h k. ground arith }

module _ {A : Type 0} (R : A → A → Type 0) where
  Ordered-split :
      (k : ℕ) (xs : List A) → Ordered R xs → All (λ x. All (R x) (drop k xs)) (take k xs)
  Ordered-split zero xs h = tt
  Ordered-split (suc k) [] h = tt
  Ordered-split (suc k) (x ∷ xs) h = (
    All-right (R x) (take k xs) (drop k xs) (rw (take-append-drop k xs) h.0),
    Ordered-split k xs h.1,
  )

sorted : List (Logit numbers.V) → List ℕ
sorted xs = argsort (is_above numbers) neg_inf number_above-IsWeak xs

sorted-IsTopk :
    (k : ℕ) (xs : List (Logit numbers.V)) → k ≤ length xs → IsTopk numbers k xs (take k (sorted xs))
unfolding sorted
sorted-IsTopk k xs h =
    let stable = argsort-IsStable (is_above numbers) neg_inf number_above-IsWeak xs in
    let size =
      length-perm (sorted xs) (range (length xs)) stable.permutes
      ∙ length-tabulate (λ i. i) (length xs) 0 in
    record {
      size = omega (arith, length-take k (sorted xs));
      left = drop k (sorted xs);
      permutes = rw (take-append-drop k (sorted xs)) stable.permutes;
      best =
          All-weaken _ _ (take k (sorted xs))
            (λ i below. All-weaken _ _ (drop k (sorted xs)) (λ j r. r.0) below)
            (Ordered-split _ k (sorted xs) stable.sorted);
    }

by_sort : Topk numbers
by_sort = record { topk = λ k xs. take k (sorted xs); topk-IsTopk = sorted-IsTopk }

abbrev query : ℕ → ℕ → numbers.V
unfolding numbers
query head d = head + d

abbrev keys : ℕ → ℕ → numbers.V
unfolding numbers
keys key d = 3 - key + d

abbrev scales : ℕ → numbers.V
unfolding numbers
scales key = 2

abbrev head_weights : ℕ → numbers.V
unfolding numbers
head_weights head = 1 + head

mqa_logits_sm12x_lem_example :
    let logit =
      total numbers (λ h. head_score numbers 2 query keys scales head_weights 1 3 2 h 2) 2 0 in
    mqa_logits_sm12x numbers 2 query keys scales head_weights 1 3 2 true true 1 3 (λ key. neg_inf) 2
    ≡ (if true then (if leb 1 2 && ltb 2 3 then fin logit else neg_inf) else fin logit)
mqa_logits_sm12x_lem_example =
    mqa_logits_sm12x_lem numbers-IsExactSum 2 query keys scales head_weights 1 3 2 true true 1 3
      (λ key. neg_inf) 2 (omega arith)

-- Three places for the two keys that the bounds leave.
mqa_topk_indices_lem_example :
    let r = mqa_topk_indices numbers 2 query keys scales head_weights 1 3 2 by_sort true 3 1 3 [] in
    (r.0 ≡ true)
    × IsBestRow numbers
        (λ key.
          let logit =
            total numbers
              (λ h. head_score numbers 2 query keys scales head_weights 1 3 2 h key)
              2
              0 in
          if leb 1 key && ltb key 3 then fin logit else neg_inf)
        3
        3
        r.1
mqa_topk_indices_lem_example =
    mqa_topk_indices_lem numbers-IsExactSum 2 query keys scales head_weights 1 3 2 by_sort 3 1 3 []

-- Three terms in two splits, of two and of one.
prenorm_gemm_lem_example :
    let r =
      recovered numbers
        (λ n. n)
        3
        2
        2
        (query 1)
        keys
        (if false
          then prenorm_gemm_torch numbers (λ n. n) 3 2 2 (query 1) keys true
          else prenorm_gemm numbers (λ n. n) 3 2 2 (query 1) keys true keys scales) in
    (r.0 1 ≡ total numbers (λ k. numbers.mul (query 1 k) (keys 1 k)) 3 0)
    × (r.1 ≡ total numbers (λ k. numbers.mul (query 1 k) (query 1 k)) 3 0)
prenorm_gemm_lem_example =
    prenorm_gemm_lem numbers-IsExactSum (λ n. n) 3 2 2 (query 1) keys false true keys scales 1
      (omega arith) (omega arith)

unfoldable number_casts : ByteCasts numbers
unfolding numbers
number_casts = record { fp8 = λ b. b; f32 = λ b0 b1 b2 b3. b0 + b1 + b2 + b3 }

-- Blocks of two slots, and a table that names them in reverse.
unfoldable cache : PagedCache
cache = record {
  byte = λ p. p % 5;
  storage_offset = 8;
  block_stride = 12;
  block_size = 2;
  head_dim_with_scale = 6;
}

abbrev table : ℕ → ℕ
table block_rank = 3 - block_rank

-- Windows of two positions, of which the last is cut off by the length.
paged_topk_indices_lem_example :
    Gives
      (λ kv.
        Gives
          (λ r.
            (r.0 ≡ true)
            × IsBestRow numbers
                (position_logit kv cache.block_size 2 2 query head_weights 4 table)
                2
                5
                r.1)
          (paged_topk_indices numbers number_casts cache true 2 2 query head_weights 4 table by_sort
            (some (some (pos 2)))
            2
            5
            (λ local. neg_inf)
            []))
      (view_packed numbers number_casts cache 2)
unfolding cache
paged_topk_indices_lem_example =
    paged_topk_indices_lem numbers-IsExactSum number_casts cache 2 2 query head_weights 4 table
      by_sort (some (some (pos 2))) 2 5 (λ local. neg_inf) [] refl refl refl

abbrev packed : PagedView numbers
unfolding numbers
packed = record { values = λ block slot d. block + slot + d; scale = λ block slot. 1 + slot }

paged_logits_sm12x_lem_example :
    paged_logits_sm12x numbers packed 2 2 2 query head_weights 4 table false 5 (λ local. neg_inf)
    ≡ some (tabulate (position_logit packed 2 2 2 query head_weights 4 table) 5 0)
paged_logits_sm12x_lem_example =
    paged_logits_sm12x_lem numbers-IsExactSum packed 2 2 2 query head_weights 4 table false 5
      (λ local. neg_inf) (omega arith)
