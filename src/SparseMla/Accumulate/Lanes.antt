-- ===== src/SparseMla/Accumulate/Lanes.antt =====
-- A program for a block of heads: its lanes run in step, each as the kernel for one head.
use glm_5_2_gb.Common.{
  ℕ, zero, suc, ◌+◌, ◌-◌, ◌*◌, ◌<◌, ◌≤◌, true, ◌&&◌, ◌≡◌, refl, ap, ◌∙◌, arith, ltb, leb, lt→ltb,
  if◌then◌else◌, for_range, Bool-cases, inl, inr,
}
use mathlib.Core.Path.{ap₂}
use glm_5_2_gb.Float.{Arith}
use glm_5_2_gb.Softmax.{State, Row}
use glm_5_2_gb.SparseMla.Accumulate.{store_state, mask_row, load_heads, load_queries, store_heads}

-- A head of a block and of the layer.
pub window_lem :
    (first head end num_heads : ℕ)
    → (leb first head && ltb head end && ltb head num_heads) ≡ true
    → (first ≤ head) × (head < num_heads)
window_lem first head end num_heads e = ground arith

module _ {A : Type 0} (body : ℕ → (ℕ → A) → ℕ → A) (one : ℕ → A → A) (lane : ℕ)
    (same : (i : ℕ) (lanes : ℕ → A) → body i lanes lane ≡ one i (lanes lane)) where
  pub lanes-eq :
      (n i : ℕ) (lanes : ℕ → A) → for_range n i body lanes lane ≡ for_range n i one (lanes lane)
  unfolding for_range
  lanes-eq zero i lanes = refl
  lanes-eq (suc n) i lanes = lanes-eq n (suc i) _ ∙ ap (for_range n (suc i) one) (same i lanes)

module _ (a : Arith) (head_dim block_d : ℕ) (scale : a.S) where
  pub load_queries-eq :
      (num_heads : ℕ) (q : ℕ → Row a) (head_block b lane head : ℕ)
      → b * head_block + lane ≡ head
      → head < num_heads
      → load_queries a head_dim block_d scale num_heads q head_block b lane ≡ q head
  unfolding load_queries
  load_queries-eq num_heads q head_block b lane head e h = rw (e, lt→ltb head num_heads h) refl

  pub load_heads-eq :
      (num_heads : ℕ) (sts : ℕ → State a) (head_block b lane head : ℕ)
      → b * head_block + lane ≡ head
      → head < num_heads
      → load_heads a head_dim block_d scale num_heads sts head_block b lane
        ≡ record (sts head) { acc = mask_row a head_dim (sts head).acc }
  unfolding load_heads
  load_heads-eq num_heads sts head_block b lane head e h = rw (e, lt→ltb head num_heads h) refl

  -- What one head's kernel does to its state: load, run, store.
  unfoldable pub run_head : ℕ → (Row a → ℕ → State a → State a) → Row a → State a → State a
  run_head n one q st =
      store_state a head_dim block_d st
        (for_range n 0 (one q) (record st { acc = mask_row a head_dim st.acc }))

  -- A program writes the real heads of its block.
  pub block-eq :
      (body : (ℕ → Row a) → ℕ → (ℕ → State a) → ℕ → State a) (one : Row a → ℕ → State a → State a)
      → ((queries : ℕ → Row a) (lane i : ℕ) (lanes : ℕ → State a)
          → body queries i lanes lane ≡ one (queries lane) i (lanes lane))
      → (n num_heads : ℕ) (q : ℕ → Row a) (head_block b : ℕ) (sts : ℕ → State a) (head : ℕ)
      → store_heads a head_dim block_d scale num_heads sts head_block b
          (for_range n 0
            (body (load_queries a head_dim block_d scale num_heads q head_block b))
            (load_heads a head_dim block_d scale num_heads sts head_block b))
          head
        ≡ (if leb (b * head_block) head
              && ltb head (b * head_block + head_block)
              && ltb head num_heads
            then run_head n one (q head) (sts head)
            else sts head)
  unfolding store_heads run_head
  block-eq body one same n num_heads q head_block b sts head =
      elim (Bool-cases (
        leb (b * head_block) head
        && ltb head (b * head_block + head_block)
        && ltb head num_heads)) [
          | inr e ↦ rw e refl
          | inl e ↦
              let lane : ℕ = head - b * head_block in
              let queries = load_queries a head_dim block_d scale num_heads q head_block b in
              let (low, real) =
                window_lem (b * head_block) head (b * head_block + head_block) num_heads e in
              let place : b * head_block + lane ≡ head = omega arith in
              rw e (
                ap (store_state a head_dim block_d (sts head)) (
                  lanes-eq (body queries) (one (queries lane)) lane (same queries lane) n 0 _
                  ∙ ap₂ (λ qs st. for_range n 0 (one qs) st)
                      (load_queries-eq num_heads q head_block b lane head place real)
                      (load_heads-eq num_heads sts head_block b lane head place real)))
        ]
