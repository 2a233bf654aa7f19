-- ===== src/Sm12x/Prefill.antt =====
-- `flash_mla_sparse_fwd_triton` of kernels/sm12x_sparse_mla_attn.py: the BF16 sparse prefill, for one
-- query token. `next_power_of_2` is vLLM's: a parameter, of which only n <= next_power_of_2(n) is used.
pub mod Laws
use glm_5_2_gb.Common.{ℕ, Bool, true, false, min, Option, none, some, if◌then◌else◌}
use glm_5_2_gb.Common.Int.{ℤ}
use glm_5_2_gb.Float.{Arith}
use glm_5_2_gb.Softmax.{Logit, neg_inf, fin, State, Row, blank}
use glm_5_2_gb.SparseMla.Finish.{add_log, finish_attention_state_with_sink}
use glm_5_2_gb.SparseMla.Accumulate.{accumulate_indexed_chunk}

-- `_DV`
abbrev pub value_dim : ℕ
value_dim = 512

-- The result for one query token: by head, the output (none for a NaN), the largest logit, the lse.
pub record Attended (a : Arith) : Type 0 where
  pub out : ℕ → Option (Row a)
  pub max_logits : ℕ → Logit a.S
  pub lse : ℕ → Logit a.S

module _ (a : Arith) where
  -- `torch.where(denom > 0, torch.log(denom.clamp_min(1e-30)) + safe_max, -inf)`
  unfoldable pub safe_lse : State a → Logit a.S
  safe_lse st =
      let safe_max = if a.pos st.denom then st.max_score else fin a.zero_S in
      if a.pos st.denom then add_log a safe_max (a.clamp_min st.denom) else neg_inf

  -- `attn_sink`, or -inf for every head
  unfoldable pub sink_of : Option (ℕ → Logit a.S) → ℕ → Logit a.S
  sink_of none head = neg_inf
  sink_of (some attn_sink) head = attn_sink head

  -- `topk_length`, or the full width
  unfoldable pub lens_of : Option ℕ → ℕ → ℕ
  lens_of none topk = topk
  lens_of (some topk_length) topk = topk_length

  unfoldable pub flash_mla_sparse_fwd :
      (ℕ → ℕ)
      → (h_q d_qk s_kv topk : ℕ) → (ℕ → Row a)
      → (ℕ → Row a)
      → (ℕ → ℤ)
      → a.S
      → Option (ℕ → Logit a.S)
      → Option ℕ
      → Attended a
  unfolding safe_lse sink_of lens_of
  flash_mla_sparse_fwd next_power_of_2 h_q d_qk s_kv topk q kv indices sm_scale attn_sink
        topk_length =
      let block_d = min 1024 (next_power_of_2 d_qk) in
      let lens = lens_of topk_length topk in
      let sts =
        accumulate_indexed_chunk a d_qk block_d sm_scale h_q s_kv q kv indices lens topk 0
          (λ head. blank a) in
      record {
        out = λ head. finish_attention_state_with_sink a (sts head) (sink_of attn_sink head);
        max_logits = λ head. (sts head).max_score;
        lse = λ head. safe_lse (sts head);
      }
