-- ===== src/Prenorm/Splits.antt =====
-- The splits of a row add up to the whole product, whichever way they are computed.
use native.Mathlib.Nat.{mul_comm, add-mul}
use native.Mathlib.Decide.{dec_le}
use mathlib.Core.Path.{fun_ext}
use glm_5_2_gb.Common.{
  ℕ, zero, suc, ◌+◌, ◌-◌, ◌*◌, ◌<◌, ◌≤◌, min, max, Bool, true, false, ◌&&◌, ◌≡◌, refl, sym, ap, ◌∙◌,
  arith, ltb, lt→ltb, ◌==◌, for_range, if◌then◌else◌,
}
use glm_5_2_gb.SparseMla.Accumulate.{cdiv}
use glm_5_2_gb.SparseMla.D512.Stores.{in_block, grid, grid-tile_store, blocks-all}
use glm_5_2_gb.Sm12x.KvCache.Fused.{tiles-cover}
use glm_5_2_gb.Indexer.{Values, IsExactSum, total}
use glm_5_2_gb.Indexer.Totals.{total-add, total-on, total-pad, total-shift, covering-total}
use glm_5_2_gb.Prenorm.{
  split_loop, split_product, prenorm_gemm_triton, prenorm_gemm_torch, prenorm_gemm, recovered,
}

module _ {v : Values} (laws : IsExactSum v) where
  -- The pieces of `n` terms, `width` to a piece.
  abbrev piece : (ℕ → v.V) → ℕ → ℕ → ℕ → v.V
  piece f width n s = total v f (min (s * width + width) n - s * width) (s * width)

  pieces-total :
      (f : ℕ → v.V) (width n m b last : ℕ)
      → b + m ≡ last
      → total v (piece f width n) m b
        ≡ total v f (min (last * width) n - min (b * width) n) (min (b * width) n)
  unfolding total
  pieces-total f width n zero b last e =
      let same : last ≡ b = omega arith in
      let nothing : min (b * width) n - min (b * width) n ≡ 0 = omega arith in
      rw (same, nothing) refl
  pieces-total f width n (suc m) b last e =
      let next : suc b * width ≡ b * width + width = omega arith in
      let places : suc b + m ≡ last = omega arith in
      let later : suc b * width + m * width ≡ last * width =
        sym (add-mul (suc b) m width) ∙ ap (λ k. k * width) places in
      let one : ℕ = min (b * width + width) n - b * width in
      let rest : ℕ = min (last * width) n - min (suc b * width) n in
      ap (v.add (piece f width n b)) (pieces-total f width n m (suc b) last (omega arith))
      ∙ elim (dec_le (b * width) n) [
        | yes h ↦
            let here : min (b * width) n ≡ b * width = omega arith in
            let all : one + rest ≡ min (last * width) n - b * width = omega arith in
            total-add laws f one rest (b * width) (min (suc b * width) n) (omega arith)
            ∙ ap (λ k. total v f k (b * width)) all
            ∙ rw here refl
        | no h ↦
            let here : min (b * width) n ≡ n = omega arith in
            let after : min (suc b * width) n ≡ n = omega arith in
            let end : min (last * width) n ≡ n = omega arith in
            let none_left : one ≡ 0 = omega arith in
            let nothing : n - n ≡ 0 = omega arith in
            rw (none_left, here, after, end, nothing) (laws.zero-add v.zero_V)
      ]

  -- All of them.
  all_pieces :
      (f : ℕ → v.V) (width n m : ℕ) → n ≤ m * width → total v (piece f width n) m 0 ≡ total v f n 0
  all_pieces f width n m cover =
      let first : min (0 * width) n ≡ 0 = omega arith in
      let all : min (m * width) n - 0 ≡ n = omega arith in
      pieces-total f width n m 0 m (omega arith) ∙ rw (first, all) refl

some_blocks : (n width blocks col : ℕ) → col < n → n ≤ blocks * width → 0 < blocks
some_blocks n width zero col inside cover = absurd (omega arith)
some_blocks n width (suc blocks) col inside cover = omega arith

module _ {v : Values} (laws : IsExactSum v) (next_power_of_2 : ℕ → ℕ) (num_k num_n num_split : ℕ)
    (x : ℕ → v.V) (fn : ℕ → ℕ → v.V) where
  abbrev width : ℕ
  width = cdiv num_k num_split

  split_loop-eq :
      (left right : ℕ → v.V) (s : ℕ)
      → split_loop v next_power_of_2 num_k num_n num_split x fn left right s
        ≡ piece laws (λ k. v.mul (left k) (right k)) width num_k s
  unfolding split_loop
  split_loop-eq left right s =
      let begin : ℕ = s * width in
      let bound : ℕ = min (begin + width) num_k - begin in
      let wide : width ≤ cdiv width 64 * 64 = tiles-cover width 64 (omega arith) in
      covering-total laws
        (λ offset.
          let k = begin + offset in
          v.mul (if ltb k (min (begin + width) num_k) then left k else v.zero_V)
            (if ltb k (min (begin + width) num_k) then right k else v.zero_V))
        (λ offset. v.mul (left (begin + offset)) (right (begin + offset))) 64 (cdiv width 64) bound
        (omega arith)
        (λ offset h. rw (lt→ltb (begin + offset) (min (begin + width) num_k) (omega arith)) refl)
        (λ offset h.
          let past : ltb (begin + offset) (min (begin + width) num_k) ≡ false = ground arith in
          rw past (laws.mul-zero v.zero_V))
      ∙ total-shift laws (λ k. v.mul (left k) (right k)) begin bound 0 begin (omega arith)

  -- All the splits of a row.
  all_splits :
      (left right : ℕ → v.V) (stored : ℕ → v.V)
      → 0 < num_split
      → ((s : ℕ)
          → s < num_split
          → stored s ≡ split_loop v next_power_of_2 num_k num_n num_split x fn left right s)
      → total v stored num_split 0 ≡ total v (λ k. v.mul (left k) (right k)) num_k 0
  all_splits left right stored some_split same =
      let cover = tiles-cover num_k num_split some_split in
      let swapped : cdiv num_k num_split * num_split ≡ num_split * width =
        mul_comm (cdiv num_k num_split) num_split in
      total-on laws stored (piece laws (λ k. v.mul (left k) (right k)) width num_k) num_split 0
        (λ s _ h. same s (omega arith) ∙ split_loop-eq left right s)
      ∙ all_pieces laws (λ k. v.mul (left k) (right k)) width num_k num_split (omega arith)

  -- A sum of which only the first term is not zero.
  first_split :
      (product : v.V)
      → 0 < num_split
      → total v (λ s. if s == 0 then product else v.zero_V) num_split 0 ≡ product
  unfolding total
  first_split product some_split =
      total-pad laws (λ s. if s == 0 then product else v.zero_V) (λ s. product) num_split 1
        some_split (λ s h. ground arith) (λ s h. ground arith)
      ∙ laws.add-zero product

  -- The first block of columns stores the sums of squares of its split, and the others nothing.
  kept_sums :
      (new : ℕ → v.V) (i n b : ℕ) (stored : ℕ → v.V)
      → for_range n
          (suc b)
          (λ pid_n mem s. if (pid_n == 0) && in_block 1 num_split i s then new s else mem s)
          stored
        ≡ stored
  unfolding for_range
  kept_sums new i zero b stored = refl
  kept_sums new i (suc n) b stored =
      let same : (λ s. if (suc b == 0) && in_block 1 num_split i s then new s else stored s)
          ≡ stored =
        fun_ext (λ s. ground arith) in
      rw same (kept_sums new i n (suc b) stored)

  stored_sums :
      (new : ℕ → v.V) (i n : ℕ) (stored : ℕ → v.V)
      → 0 < n
      → for_range n 0
          (λ pid_n mem s. if (pid_n == 0) && in_block 1 num_split i s then new s else mem s)
          stored
        ≡ (λ s. if in_block 1 num_split i s then new s else stored s)
  unfolding for_range
  stored_sums new i zero stored some_blocks = elim some_blocks [ ]
  stored_sums new i (suc n) stored some_blocks =
      kept_sums new i n 0 (λ s. if in_block 1 num_split i s then new s else stored s)

  -- With exact arithmetic, at least one split, and for each column: what a consumer recovers by
  -- summing over the splits is the row's product with the column and the sum of its squares, by
  -- the Triton kernel in blocks of 64 terms of a split, and by the fallback, called by itself or
  -- for outputs that are not split.
  pub prenorm_gemm_lem :
      (fallback is_split : Bool) (out : ℕ → ℕ → v.V) (sqrsum : ℕ → v.V) (col : ℕ)
      → 0 < num_split
      → col < num_n
      → let r = recovered v next_power_of_2 num_k num_n num_split x fn (
          if fallback
          then prenorm_gemm_torch v next_power_of_2 num_k num_n num_split x fn is_split
          else prenorm_gemm v next_power_of_2 num_k num_n num_split x fn is_split out sqrsum) in
        (r.0 col ≡ total v (λ k. v.mul (x k) (fn col k)) num_k 0)
        × (r.1 ≡ total v (λ k. v.mul (x k) (x k)) num_k 0)
  unfolding prenorm_gemm recovered prenorm_gemm_triton prenorm_gemm_torch grid split_product
  prenorm_gemm_lem true false out sqrsum col some_split inside = (refl, refl)
  prenorm_gemm_lem false false out sqrsum col some_split inside = (refl, refl)
  prenorm_gemm_lem true true out sqrsum col some_split inside =
      (first_split _ some_split, first_split _ some_split)
  prenorm_gemm_lem false true out sqrsum col some_split inside =
      let block_n : ℕ = min (max (next_power_of_2 num_n) 16) 32 in
      let some_block : 0 < block_n = omega arith in
      let cover = tiles-cover num_n block_n some_block in
      let blocks : ℕ = cdiv num_n block_n in
      (
        all_splits x (fn col) _ some_split (λ s h.
            grid-tile_store 1 num_split block_n num_n
              (λ pid_s col' old.
                split_product v next_power_of_2 num_k num_n num_split x fn pid_s col')
              num_split blocks out (omega arith) some_block (omega arith) cover s col
            ∙ rw (lt→ltb s num_split h, lt→ltb col num_n inside) refl),
        all_splits x x _ some_split (λ s h.
            blocks-all 1 num_split
              (λ s' _. split_loop v next_power_of_2 num_k num_n num_split x fn x x s') _
              (λ i mem s'.
                ap (λ f. f s')
                  (stored_sums _ i blocks mem (some_blocks num_n block_n blocks col inside cover)))
              (omega arith) num_split (omega arith) sqrsum s
            ∙ rw (lt→ltb s num_split h) refl),
      )
