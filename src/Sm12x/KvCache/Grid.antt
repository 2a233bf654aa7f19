-- ===== src/Sm12x/KvCache/Grid.antt =====
-- A grid over blocks of heads: each real head is stored by the program of its block, and by no other.
use glm_5_2_gb.Common.{
  ℕ, zero, suc, ◌+◌, ◌-◌, ◌*◌, ◌<◌, ◌≤◌, true, ◌&&◌, ◌≡◌, refl, ap, ◌∙◌, arith, ltb, leb,
  if◌then◌else◌, for_range, Bool-cases, inl, inr,
}
use glm_5_2_gb.Float.{Arith}
use glm_5_2_gb.Softmax.{State, Row}
use glm_5_2_gb.SparseMla.Accumulate.{cdiv, store_state, store_heads, load_queries}
use glm_5_2_gb.SparseMla.Accumulate.Lanes.{window_lem, load_queries-eq}
use glm_5_2_gb.Sm12x.KvCache.Fused.{tiles-cover}

ranges-join :
    {A : Type 0} (f : A → A) (x : A) (low mid high head num_heads : ℕ)
    → low ≤ mid
    → mid ≤ high
    → let y = if leb low head && ltb head mid && ltb head num_heads then f x else x in
      (if leb mid head && ltb head high && ltb head num_heads then f y else y)
      ≡ (if leb low head && ltb head high && ltb head num_heads then f x else x)
ranges-join f x low mid high head num_heads h h' = ground arith

module _ (a : Arith) (dim block_d : ℕ) (scale : a.S) (head_block num_heads : ℕ) (q : ℕ → Row a)
    (run : Row a → State a) (lanes : (ℕ → Row a) → ℕ → State a)
    (lanes-eq : (queries : ℕ → Row a) (lane : ℕ) → lanes queries lane ≡ run (queries lane)) where
  -- A program that runs its lanes from no stored state.
  abbrev program : ℕ → (ℕ → State a) → ℕ → State a
  program b sts =
      store_heads a dim block_d scale num_heads sts head_block b
        (lanes (load_queries a dim block_d scale num_heads q head_block b))

  -- What a head's program stores.
  abbrev stored : ℕ → State a → State a
  stored head st = store_state a dim block_d st (run (q head))

  program-eq :
      (b : ℕ) (sts : ℕ → State a) (head : ℕ)
      → program b sts head ≡ (
          if leb (b * head_block) head
            && ltb head (b * head_block + head_block)
            && ltb head num_heads
          then stored head (sts head)
          else sts head)
  unfolding store_heads
  program-eq b sts head =
      elim (Bool-cases (
        leb (b * head_block) head
        && ltb head (b * head_block + head_block)
        && ltb head num_heads)) [
          | inr e ↦ rw e refl
          | inl e ↦
              let lane : ℕ = head - b * head_block in
              let (low, real) =
                window_lem (b * head_block) head (b * head_block + head_block) num_heads e in
              let place : b * head_block + lane ≡ head = omega arith in
              rw e (
                ap (store_state a dim block_d (sts head)) (
                  lanes-eq (load_queries a dim block_d scale num_heads q head_block b) lane
                  ∙ ap run (
                      load_queries-eq a dim block_d scale num_heads q head_block b lane head place
                        real)))
        ]

  grid-eq :
      (n i : ℕ) (sts : ℕ → State a) (head : ℕ)
      → for_range n i program sts head ≡ (
          if leb (i * head_block) head && ltb head ((i + n) * head_block) && ltb head num_heads
          then stored head (sts head)
          else sts head)
  unfolding for_range
  grid-eq zero i sts head =
      let same : (i + zero) * head_block ≡ i * head_block =
        ap (λ k. k * head_block) (omega arith) in
      rw same (ground arith)
  grid-eq (suc n) i sts head =
      let next : suc i * head_block ≡ i * head_block + head_block = omega arith in
      let last : (suc i + n) * head_block ≡ (i + suc n) * head_block =
        ap (λ k. k * head_block) (omega arith) in
      let room : i * head_block + head_block ≤ (i + suc n) * head_block = omega arith in
      rw (next, last) at (grid-eq n (suc i) (program i sts) head)
      ∙ rw (program-eq i sts head) (
          ranges-join (stored head) (sts head) (i * head_block) (i * head_block + head_block)
            ((i + suc n) * head_block) head num_heads (omega arith) room)

  -- The whole grid, for a real head.
  pub grid-stored :
      (sts : ℕ → State a) (head : ℕ)
      → head < num_heads
      → 0 < head_block
      → for_range (cdiv num_heads head_block) 0 program sts head ≡ stored head (sts head)
  grid-stored sts head real some_heads =
      let blocks = cdiv num_heads head_block in
      let cover : num_heads ≤ blocks * head_block = tiles-cover num_heads head_block some_heads in
      let from_zero : 0 * head_block ≡ 0 = omega arith in
      let total : (0 + blocks) * head_block ≡ blocks * head_block =
        ap (λ k. k * head_block) (omega arith) in
      let inside : (leb (0 * head_block) head
            && ltb head ((0 + blocks) * head_block)
            && ltb head num_heads)
          ≡ true =
        rw (from_zero, total) (ground arith) in
      grid-eq blocks 0 sts head ∙ rw inside refl
