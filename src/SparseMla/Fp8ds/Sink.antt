-- ===== src/SparseMla/Fp8ds/Sink.antt =====
-- The fp8_ds_mla kernels that finish with a sink in the same pass.
use glm_5_2_gb.Common.{
  ℕ, ◌+◌, ◌-◌, ◌*◌, ◌<◌, ◌≤◌, true, ◌&&◌, ◌≡◌, refl, sym, ap, ◌∙◌, [], Option, none, some, ◌>>=◌,
  Gives, Gives-bind, arith, ltb, leb, lt→ltb, if◌then◌else◌, Bool-cases, inl, inr,
}
use mathlib.Core.Path.{fun_ext}
use glm_5_2_gb.Float.{Arith, IsExact}
use glm_5_2_gb.Softmax.{Logit, State, Row, Candidates, blank}
use glm_5_2_gb.Softmax.Laws.{Holds, blank-Holds}
use glm_5_2_gb.SparseMla.Accumulate.{local_eff, load_queries, visit}
use glm_5_2_gb.SparseMla.Accumulate.Loop.{visits-Holds}
use glm_5_2_gb.SparseMla.Accumulate.Lanes.{lanes-eq, load_queries-eq}
use glm_5_2_gb.SparseMla.Fp8ds.Laws.{window_candidates}
use glm_5_2_gb.SparseMla.Finish.{finish_attention_state_with_sink}
use glm_5_2_gb.SparseMla.Finish.Laws.{IsAttention, finish_with_sink-IsAttention}
use glm_5_2_gb.SparseMla.Fp8ds.{
  Layout, Casts, load_sink, finish_lane, store_outputs, paged_with_sink, paged_row,
  paged_multihead_body,
}

bind-congr :
    {A B : Type 0} (m : Option A) (f g : A → Option B)
    → ((x : A) → f x ≡ g x)
    → (m >>= f) ≡ (m >>= g)
bind-congr none f g same = refl
bind-congr (some x) f g same = same x

module _ {a : Arith} (laws : IsExact a) (casts : Casts a) (l : Layout) (k_cache : ℕ → ℕ)
    (head_dim block_d : ℕ) (scale : a.S) where
  open laws use {act-zero}

  -- The row of a state with no weight is not read, as in the finishing kernel of its own.
  finish_lane-eq :
      (st : State a) (sink : Logit a.S)
      → finish_lane a casts l k_cache head_dim block_d scale st sink
        ≡ finish_attention_state_with_sink a st sink
  unfolding finish_lane finish_attention_state_with_sink
  finish_lane-eq st sink = elim (Bool-cases (a.pos st.denom)) [
    | inl e ↦ rw e refl
    | inr e ↦ rw e (
        bind-congr _ _ _
          λ v. ap some (fun_ext λ d. ap (a.act _) (act-zero (st.acc d) ∙ sym (act-zero a.zero_E))))
  ]

  load_sink-eq :
      (num_heads : ℕ) (sink : ℕ → Logit a.S) (head_block b lane head : ℕ)
      → b * head_block + lane ≡ head
      → head < num_heads
      → load_sink a casts l k_cache head_dim block_d scale num_heads sink head_block b lane
        ≡ sink head
  unfolding load_sink
  load_sink-eq num_heads sink head_block b lane head e h = rw (e, lt→ltb head num_heads h) refl

  -- The output of a real head of the block is the lane's, finished: the attention over what its state
  -- stands for.
  pub stored-IsAttention :
      {xs : Candidates a} (num_heads : ℕ) (outs : ℕ → Row a) (head_block b : ℕ)
      (lanes : ℕ → State a) (sink : ℕ → Logit a.S) (head : ℕ)
      → head_dim ≤ block_d
      → b * head_block ≤ head
      → head < b * head_block + head_block
      → head < num_heads
      → Holds a head_dim xs (lanes (head - b * head_block))
      → Gives (IsAttention a head_dim xs (sink head)) (
          store_outputs a casts l k_cache head_dim block_d scale num_heads outs head_block b
            (λ lane.
              finish_lane a casts l k_cache head_dim block_d scale (lanes lane) (
                load_sink a casts l k_cache head_dim block_d scale num_heads sink head_block b
                  lane))
            head)
  unfolding store_outputs
  stored-IsAttention {xs} num_heads outs head_block b lanes sink head fits low high real h =
      let lane : ℕ = head - b * head_block in
      let inside : (leb (b * head_block) head
            && ltb head (b * head_block + head_block)
            && ltb head num_heads)
          ≡ true =
        ground arith in
      let place : b * head_block + lane ≡ head = omega arith in
      let stored : Row a → Option (Row a) =
        λ final. some (λ d. if ltb d head_dim && ltb d block_d then final d else outs head d) in
      rw
        (
          inside,
          load_sink-eq num_heads sink head_block b lane head place real,
          finish_lane-eq (lanes lane) (sink head),
        )
        (Gives-bind {A = Row a} (IsAttention a head_dim xs (sink head)) _ stored
          (finish_with_sink-IsAttention laws (lanes lane) (sink head) h)
          λ r p d k.
            let wide : d < block_d = omega arith in
            rw (lt→ltb d head_dim k, lt→ltb d block_d wide) (p d k))

  -- For a real head of the block, rows no wider than the block, and a window no longer than the
  -- sequence, the kernel by pages with a sink gives no NaN, and the attention with the head's sink
  -- over the rows of the window's positions from the offset on.
  pub paged_with_sink-IsAttention :
      (head_block num_heads : ℕ) (q : ℕ → Row a) (block_table : ℕ → ℕ)
      (seq_len gather_len num_candidates offset : ℕ) (sink : ℕ → Logit a.S) (b : ℕ)
      (outs : ℕ → Row a) (head : ℕ)
      → head_dim ≤ block_d
      → gather_len ≤ seq_len
      → b * head_block ≤ head
      → head < b * head_block + head_block
      → head < num_heads
      → Gives
          (IsAttention a head_dim
            (window_candidates a casts l k_cache head_dim scale
              (q head)
              block_table
              (seq_len + offset - gather_len)
              (local_eff num_candidates gather_len offset))
            (sink head))
          (paged_with_sink a casts l k_cache head_dim block_d scale head_block num_heads q
            block_table seq_len gather_len num_candidates offset sink b outs head)
  unfolding paged_with_sink paged_multihead_body window_candidates
  paged_with_sink-IsAttention head_block num_heads q block_table seq_len gather_len num_candidates
        offset sink b outs head fits inside low high real =
      let lane : ℕ = head - b * head_block in
      let place : b * head_block + lane ≡ head = omega arith in
      let query =
        load_queries-eq a head_dim block_d scale num_heads q head_block b lane head place real in
      stored-IsAttention num_heads outs head_block b _ sink head fits low high real (
        rw
          (
            lanes-eq _
                (λ i st.
                  visit a head_dim block_d scale
                    (load_queries a head_dim block_d scale num_heads q head_block b lane)
                    (paged_row a casts l k_cache block_table (seq_len - gather_len + (offset + i)))
                    st)
                lane (λ i lanes. refl) (local_eff num_candidates gather_len offset) 0
                (λ lane. blank a),
            query,
          )
          (visits-Holds laws head_dim block_d scale (q head)
            (λ i. paged_row a casts l k_cache block_table (seq_len + offset - gather_len + i))
            (λ i. true) _ fits
            (λ i st'.
              ap
                (λ p.
                  visit a head_dim block_d scale (q head)
                    (paged_row a casts l k_cache block_table p) st')
                (omega arith))
            _ [] (blank a) (blank-Holds laws)))
