-- ===== src/Dcp/TopK/Exact.antt =====
-- The union of the ranks' top-k selects what one rank with all the columns selects, in the same order.
use native.Mathlib.Nat.{mod-eq_of_lt}
use mathlib.Core.List.{append-nil, Perm}
use glm_5_2_gb.Common.{
  ℕ, zero, suc, ◌+◌, ◌*◌, ◌%◌, ◌^◌, ◌≤◌, ◌<◌, Bool, true, ◌≡◌, refl, sym, ap, ◌∙◌, arith, Option,
  none, some, List, [], ◌∷◌, ◌++◌, map, length, tabulate, length-tabulate, All, ltb, if◌then◌else◌,
  Bool-cases, inl, inr,
}
use glm_5_2_gb.Common.Permutations.{range, length-perm}
use glm_5_2_gb.Dcp.TopK.{
  Score, Argsort, concat_map, stride, pad, strict_topk, mask_scores, mask_cols, causal_candidates,
  candidate_union, causal_brute, local_candidates, approach2, brute,
}
use glm_5_2_gb.Dcp.TopK.Order.{Lane, demote, best_lanes}
use glm_5_2_gb.Dcp.TopK.Select.{IsInRange, lanes_of}
use glm_5_2_gb.Dcp.TopK.Gather.{split, pad-strict_topk}
use glm_5_2_gb.Dcp.TopK.Union.{
  IsGood, lanes-IsGood, best-concat_map, pad-gathered, pad-gathered_self,
}
use glm_5_2_gb.Dcp.TopK.Strides.{strided, strided-IsInRange, best-strided}
use glm_5_2_gb.Dcp.TopK.Columns.{masked, owned, best-owned, best-ranks}

length-mask_scores :
    (test : ℕ → Bool) (i : ℕ) (scores : List Score)
    → length (mask_scores test i scores) ≡ length scores
unfolding mask_scores
length-mask_scores test i [] = refl
length-mask_scores test i (s ∷ scores) = ap suc (length-mask_scores test (suc i) scores)

length-mask_cols : (test : ℕ → Bool) (m : ℕ) → length (mask_cols test m 0) ≡ m
unfolding mask_cols
length-mask_cols test m = length-tabulate _ m 0

-- Columns below 2^62 have positions in range.
cols-IsInRange :
    (f : ℕ → Option ℕ)
    → ((c : ℕ) → c < 2 ^ 62 → IsInRange (f c))
    → (m i : ℕ) → i + m ≤ 2 ^ 62
    → All IsInRange (tabulate f m i)
cols-IsInRange f h zero i le = tt
cols-IsInRange f h (suc m) i le = (h i (omega arith), cols-IsInRange f h m (suc i) (omega arith))

mask_cols-IsInRange : (test : ℕ → Bool) (m : ℕ) → m ≤ 2 ^ 62 → All IsInRange (mask_cols test m 0)
unfolding mask_cols
mask_cols-IsInRange test m le =
    cols-IsInRange (λ c. if test c then some c else none)
      (λ c h. elim (Bool-cases (test c)) [ inl e ↦ rw e h | inr e ↦ rw e tt ]) m 0 (omega arith)

module _ (a : Argsort) (glogits : List Score) (k : ℕ) (fits : length glogits ≤ 2 ^ 62) where
  -- The selection from masked columns.
  select_masked :
      (test : ℕ → Bool)
      → pad k (strict_topk a (mask_scores test 0 glogits) (mask_cols test (length glogits) 0) k)
        ≡ split (best_lanes k (masked test 0 glogits))
  unfolding masked
  select_masked test =
      pad-strict_topk a (mask_scores test 0 glogits) (mask_cols test (length glogits) 0)
        (length-mask_cols test (length glogits) ∙ sym (length-mask_scores test 0 glogits))
        (mask_cols-IsInRange test (length glogits) fits) k

  masked-IsGood : (test : ℕ → Bool) → All IsGood (masked test 0 glogits)
  unfolding masked
  masked-IsGood test = lanes-IsGood _ _ (mask_cols-IsInRange test (length glogits) fits)

  -- A query's row of at most 2^62 columns, of which it attends to those below any bound, sharded
  -- over any positive number of ranks whose candidates are gathered in any order: with a stable
  -- sort, the union of the ranks' top-k selects the positions that the reference on the whole row
  -- selects, in the same order, ties and short rows included.
  pub candidate_union-eq :
      (ke n : ℕ) (ranks : List ℕ)
      → 0 < n
      → Perm ranks (range n)
      → candidate_union a glogits ke n k ranks ≡ causal_brute a glogits ke k
  unfolding candidate_union causal_brute causal_candidates
  candidate_union-eq ke n ranks some_rank all =
      let valid = λ (col : ℕ). ltb col ke in
      ap (λ p. p.1)
        (pad-gathered a k (λ r. causal_candidates a glogits ke n k r)
          (λ r. masked (owned n valid r) 0 glogits) (λ r. select_masked (owned n valid r))
          (λ r. masked-IsGood (owned n valid r)) ranks)
      ∙ ap (λ xs. map (λ (l : Lane). l.1) xs)
          (best-ranks k (λ r. masked (owned n valid r) 0 glogits) ranks (range n) all
            ∙ rw (append-nil, append-nil) at (best-owned k n some_rank valid 0 glogits []))
      ∙ sym (ap (λ p. p.1) (select_masked valid))

  -- All the columns, unmasked.
  mask_scores-true : (i : ℕ) (scores : List Score) → mask_scores (λ c. true) i scores ≡ scores
  unfolding mask_scores
  mask_scores-true i [] = refl
  mask_scores-true i (s ∷ scores) = ap (λ r. s ∷ r) (mask_scores-true (suc i) scores)

  lanes_of_row :
      map demote (lanes_of glogits (tabulate some (length glogits) 0))
      ≡ masked (λ c. true) 0 glogits
  unfolding masked mask_cols
  lanes_of_row =
      ap (λ xs. map demote (lanes_of xs (tabulate some (length glogits) 0)))
        (sym (mask_scores-true 0 glogits))

  brute_lem : brute a glogits k ≡ map (λ l. l.1) (best_lanes k (masked (λ c. true) 0 glogits))
  unfolding brute
  brute_lem =
      ap (λ p. p.1)
        (pad-strict_topk a glogits (tabulate some (length glogits) 0)
          (length-tabulate some (length glogits) 0)
          (cols-IsInRange some (λ c h. h) (length glogits) 0 (omega arith)) k)
      ∙ ap (λ xs. map (λ (l : Lane). l.1) (best_lanes k xs)) lanes_of_row

  module _ (n : ℕ) (some_rank : 0 < n) where
    gpos-IsInRange :
        (r : ℕ) → All IsInRange (tabulate (λ c. some (c * n + r)) (length (stride n r glogits)) 0)
    gpos-IsInRange r =
        let place : r + 0 ≡ r = omega arith in
        rw place at (strided-IsInRange n r 0 glogits some_rank (omega arith))

    strided-eq :
        (r : ℕ)
        → map demote (
            lanes_of
              (stride n r glogits)
              (tabulate (λ c. some (c * n + r)) (length (stride n r glogits)) 0))
          ≡ strided n r 0 glogits
    unfolding strided
    strided-eq r =
        let place : r ≡ r + 0 = omega arith in
        let rows = stride n r glogits in
        ap (λ q. map demote (lanes_of rows (tabulate (λ c. some (c * n + q)) (length rows) 0)))
          place

    strided-IsGood : (r : ℕ) → All IsGood (strided n r 0 glogits)
    strided-IsGood r = rw (← strided-eq r) (lanes-IsGood _ _ (gpos-IsInRange r))

    local_candidates-eq :
        (r : ℕ) → local_candidates a glogits n k r ≡ split (best_lanes k (strided n r 0 glogits))
    unfolding local_candidates
    local_candidates-eq r =
        pad-strict_topk a (stride n r glogits)
          (tabulate (λ c. some (c * n + r)) (length (stride n r glogits)) 0)
          (length-tabulate _ (length (stride n r glogits)) 0) (gpos-IsInRange r) k
        ∙ ap (λ xs. split (best_lanes k xs)) (strided-eq r)

    ranks_own :
        (m j : ℕ)
        → j + m ≤ n
        → All
            (λ r.
              (zs : List Lane)
              → best_lanes k (strided n r 0 glogits ++ zs)
                ≡ best_lanes k (masked (owned n (λ c. true) r) 0 glogits ++ zs))
            (tabulate (λ r. r) m j)
    ranks_own zero j h = tt
    ranks_own (suc m) j h = (
      λ zs.
          best-strided n k j some_rank j 0 glogits zs (omega arith)
            (ap (λ i. i % n) (omega arith) ∙ mod-eq_of_lt (omega arith)),
      ranks_own m (suc j) (omega arith),
    )

    all_ranks :
        (ranks : List ℕ)
        → Perm ranks (range n)
        → best_lanes k (concat_map (λ r. strided n r 0 glogits) ranks)
          ≡ best_lanes k (masked (λ c. true) 0 glogits)
    all_ranks ranks all =
        best-ranks k (λ r. strided n r 0 glogits) ranks (range n) all
        ∙ rw (append-nil, append-nil) at
            (best-concat_map k (λ r. strided n r 0 glogits)
                (λ r. masked (owned n (λ c. true) r) 0 glogits) (range n) []
                (ranks_own n 0 (omega arith))
              ∙ best-owned k n some_rank (λ c. true) 0 glogits [])

  -- A row of at most 2^62 columns, sharded over any positive number of ranks whose candidates are
  -- gathered in any order: with a stable sort, the strict top-k of the ranks' top-k selects the
  -- positions that the reference on the whole row selects, in the same order, ties and short rows
  -- included.
  pub approach2-eq :
      (n : ℕ) (ranks : List ℕ)
      → 0 < n
      → Perm ranks (range n)
      → approach2 a glogits n k ranks ≡ brute a glogits k
  unfolding approach2
  approach2-eq n [] some_rank all =
      let none_gathered : 0 ≡ n = length-perm [] (range n) all ∙ length-tabulate _ n 0 in
      absurd (omega arith)
  approach2-eq n (r ∷ rs) some_rank all =
      let part = λ (q : ℕ). local_candidates a glogits n k q in
      let lanes = λ (q : ℕ). strided n q 0 glogits in
      let good = strided-IsGood n some_rank in
      let eq = local_candidates-eq n some_rank in
      ap (λ p. p.1)
        (sym (pad-gathered_self a k part lanes eq good r rs)
          ∙ pad-gathered a k part lanes eq good (r ∷ rs))
      ∙ ap (λ xs. map (λ (l : Lane). l.1) xs) (all_ranks n some_rank (r ∷ rs) all)
      ∙ sym brute_lem
