-- ===== src/Sm12x/Prefill/Laws.antt =====
-- The prefill gives the reference attention over the candidates that the indices select.
use glm_5_2_gb.Common.{
  ℕ, ◌<◌, ◌≤◌, min, true, false, ◌≡◌, ◌⊎◌, inl, inr, refl, ap, ◌∙◌, arith, Option, [], Gives,
  Bool-cases, lt→ltb,
}
use glm_5_2_gb.Common.Int.{ℤ}
use glm_5_2_gb.Float.{Arith, IsExact}
use glm_5_2_gb.Softmax.{Logit, neg_inf, State, Row, Candidates, blank, log_sum_exp, max_logit}
use glm_5_2_gb.Softmax.Laws.{Holds, blank-Holds}
use glm_5_2_gb.SparseMla.Finish.{finish_attention_state, add_log}
use glm_5_2_gb.SparseMla.Finish.Laws.{IsAttention, finish_with_sink-IsAttention, finish_state_lem}
use glm_5_2_gb.SparseMla.Accumulate.{local_eff, accumulate_indexed_chunk}
use glm_5_2_gb.SparseMla.Accumulate.Chunk.{indexed_candidates, indexed-Holds}
use glm_5_2_gb.SparseMla.Accumulate.Heads.{single, accumulate_indexed_chunk-eq}
use glm_5_2_gb.Sm12x.Prefill.{value_dim, safe_lse, sink_of, lens_of, flash_mla_sparse_fwd}

local_eff-zero : (n len : ℕ) → local_eff n len 0 ≡ min n len
unfolding local_eff
local_eff-zero n len = omega arith

module _ {a : Arith} (laws : IsExact a) where
  clamp_lem :
      {dim : ℕ} {xs : Candidates a} (st : State a)
      → Holds a dim xs st
      → a.pos st.denom ≡ true
      → a.clamp_min st.denom ≡ st.denom
  clamp_lem st h e = elim h.floor [
    | inl none_seen ↦
        let e' : a.pos a.zero_W ≡ true = rw (← h.settled none_seen) e in cc laws.pos-zero
    | inr (w, d) ↦ rw d (laws.clamp-one_add w)
  ]

  -- The guards of the host's lse, and its clamp, change nothing.
  pub safe_lse_lem :
      {dim : ℕ} {xs : Candidates a} (st : State a)
      → Holds a dim xs st
      → safe_lse a st ≡ log_sum_exp a xs
  unfolding safe_lse finish_attention_state
  safe_lse_lem st h = same (Bool-cases (a.pos st.denom)) ∙ (finish_state_lem laws st h).1
    where
      same :
          (a.pos st.denom ≡ true) ⊎ (a.pos st.denom ≡ false)
          → safe_lse a st ≡ (finish_attention_state a st).1
      same (inl e) = rw e (ap (add_log a st.max_score) (clamp_lem st h e))
      same (inr e) = rw e refl

  pub Holds-narrow :
      {dim dim' : ℕ} {xs : Candidates a} {st : State a}
      → dim' ≤ dim
      → Holds a dim xs st
      → Holds a dim' xs st
  Holds-narrow le h = record {
    represents = record {
      weight = h.represents.weight;
      values = λ d k. h.represents.values d (omega arith);
    };
    settled = h.settled;
    peak = h.peak;
    floor = h.floor;
  }

  -- A real head's state after the accumulation from the blank states.
  head-Holds :
      (head_dim block_d : ℕ)
      → head_dim ≤ block_d
      → (scale : a.S) (num_heads num_kv_rows : ℕ) (q kv : ℕ → Row a) (indices : ℕ → ℤ)
        (valid_len n head : ℕ)
      → head < num_heads
      → Holds a head_dim
          (indexed_candidates a head_dim scale num_kv_rows (q head) kv indices (min n valid_len))
          (accumulate_indexed_chunk a head_dim block_d scale num_heads num_kv_rows q kv indices
            valid_len n 0
            (λ _. blank a)
            head)
  unfolding single
  head-Holds head_dim block_d fits scale num_heads num_kv_rows q kv indices valid_len n head real =
      rw
        (
          accumulate_indexed_chunk-eq a head_dim block_d scale num_kv_rows kv indices num_heads q
              valid_len n 0 (λ _. blank a) head,
          lt→ltb head num_heads real,
          ← local_eff-zero n valid_len,
        )
        (indexed-Holds laws head_dim block_d fits scale num_kv_rows (q head) kv indices valid_len n
          0 [] (blank a) (blank-Holds laws))

  -- For every real head, every cache and every index list, with a query of 512 to 1024 dimensions
  -- and any vLLM next_power_of_2 that is at least its argument: the sparse prefill gives no NaN,
  -- its 512 output dimensions are the softmax attention with the head's sink over the candidates
  -- that the indices name below the valid length, and max_logits and lse are those candidates'
  -- maximum and logsumexp.
  pub flash_mla_sparse_fwd_lem :
      (next_power_of_2 : ℕ → ℕ)
      → ((n : ℕ) → n ≤ next_power_of_2 n)
      → (h_q d_qk s_kv topk : ℕ) (q kv : ℕ → Row a) (indices : ℕ → ℤ) (sm_scale : a.S)
        (attn_sink : Option (ℕ → Logit a.S)) (topk_length : Option ℕ) (head : ℕ)
      → head < h_q
      → value_dim ≤ d_qk
      → d_qk ≤ 1024
      → let xs =
          indexed_candidates a d_qk sm_scale s_kv
            (q head)
            kv
            indices
            (min topk (lens_of a topk_length topk)) in
        let r =
          flash_mla_sparse_fwd a next_power_of_2 h_q d_qk s_kv topk q kv indices sm_scale attn_sink
            topk_length in
        Gives (IsAttention a value_dim xs (sink_of a attn_sink head)) (r.out head)
        × (r.max_logits head ≡ max_logit a xs neg_inf)
        × (r.lse head ≡ log_sum_exp a xs)
  unfolding flash_mla_sparse_fwd
  flash_mla_sparse_fwd_lem np np_le h_q d_qk s_kv topk q kv indices sm_scale attn_sink topk_length
        head real wide narrow =
      let block_d = min 1024 (np d_qk) in
      let fits : d_qk ≤ block_d = omega (arith, np_le d_qk) in
      let holds =
        head-Holds d_qk block_d fits sm_scale h_q s_kv q kv indices (lens_of a topk_length topk)
          topk head real in
      (
        finish_with_sink-IsAttention laws _ (sink_of a attn_sink head) (Holds-narrow wide holds),
        holds.peak,
        safe_lse_lem _ holds,
      )
