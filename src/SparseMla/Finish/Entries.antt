-- ===== src/SparseMla/Finish/Entries.antt =====
-- The entry points of kernels/sparse_mla_kernels.py that finish or merge, for one token and all its
-- heads: a grid of heads and of blocks of dimensions. A row in memory is `none` if a NaN was stored in it.
-- What the entry points assert of shapes is what the functions' types and `num_heads` say.
use glm_5_2_gb.Common.{
  ℕ, zero, suc, ◌*◌, ◌<◌, ◌≤◌, min, true, ◌≡◌, refl, ◌∙◌, Option, some, ◌>>=◌, Gives, Gives-bind,
  arith, ltb, lt→ltb, ◌==◌, for_range, if◌then◌else◌, ◌++◌,
}
use glm_5_2_gb.Float.{Arith, IsExact}
use glm_5_2_gb.Softmax.{Logit, neg_inf, State, Row, Candidates, weight_sum, exp_logit, log_sum_exp}
use glm_5_2_gb.Softmax.Laws.{Holds}
use glm_5_2_gb.SparseMla.Accumulate.{cdiv}
use glm_5_2_gb.SparseMla.D512.Stores.{in_block, blocks-all}
use glm_5_2_gb.Sm12x.KvCache.Fused.{tiles-cover}
use glm_5_2_gb.SparseMla.Finish.{
  finish_attention_state, finish_attention_state_with_sink, finish_two_attention_states_with_sink,
  merge_two_subsets_with_sink, merge_single_subset_with_sink,
}
use glm_5_2_gb.SparseMla.Finish.Laws.{IsAttention, finish_state_lem, finish_with_sink-IsAttention}
use glm_5_2_gb.SparseMla.Finish.Merge.{finish_two-IsAttention, merge_two-IsAttention}
use glm_5_2_gb.SparseMla.Finish.Single.{merge_single-IsAttention}

module _ (a : Arith) (next_power_of_2 : ℕ → ℕ) (num_heads head_dim : ℕ) where
  -- The programs of a head: each stores its block of dimensions, below `head_dim`.
  unfoldable pub store_blocks : Row a → Row a → Row a
  unfolding in_block cdiv
  store_blocks final =
      let block_d = min 128 (next_power_of_2 head_dim) in
      for_range (cdiv head_dim block_d) 0
        (λ b row d. if in_block block_d head_dim b d then final d else row d)

  unfoldable pub store_final : Option (Row a) → Row a → ℕ → Option (Row a)
  unfolding store_blocks
  store_final final old head =
      if ltb head num_heads then (do r ← final; some (store_blocks r old)) else some old

  unfoldable pub merge_two_entry :
      (ℕ → Row a)
      → (ℕ → Logit a.S)
      → (ℕ → Row a)
      → (ℕ → Logit a.S)
      → (ℕ → Logit a.S)
      → (ℕ → Row a)
      → ℕ
      → Option (Row a)
  unfolding store_final
  merge_two_entry subset0_output subset0_lse subset1_output subset1_lse attn_sink output head =
      store_final
        (merge_two_subsets_with_sink a (subset0_output head) (subset0_lse head)
          (subset1_output head) (subset1_lse head) (attn_sink head))
        (output head) head

  unfoldable pub merge_single_entry :
      (ℕ → Row a) → (ℕ → Logit a.S) → (ℕ → Logit a.S) → (ℕ → Row a) → ℕ → Option (Row a)
  unfolding store_final
  merge_single_entry subset_output subset_lse attn_sink output head =
      store_final
        (merge_single_subset_with_sink a (subset_output head) (subset_lse head) (attn_sink head))
        (output head) head

  -- The first block of a head stores its lse too.
  unfoldable pub finish_gathered_entry :
      (ℕ → State a) → (ℕ → Row a) → (ℕ → Logit a.S) → ℕ → Row a × Logit a.S
  unfolding store_blocks cdiv finish_attention_state
  finish_gathered_entry sts output lse head =
      let block_d = min 128 (next_power_of_2 head_dim) in
      let (subset_output, subset_lse) = finish_attention_state a (sts head) in
      if ltb head num_heads
      then (
        store_blocks subset_output (output head),
        for_range (cdiv head_dim block_d) 0 (λ b l. if b == 0 then subset_lse else l) (lse head),
      )
      else (output head, lse head)

  unfoldable pub finish_two_entry :
      (ℕ → State a) → (ℕ → State a) → (ℕ → Logit a.S) → (ℕ → Row a) → ℕ → Option (Row a)
  unfolding store_final
  finish_two_entry sts0 sts1 attn_sink output head =
      store_final (finish_two_attention_states_with_sink a (sts0 head) (sts1 head) (attn_sink head))
        (output head) head

  unfoldable pub finish_with_sink_entry :
      (ℕ → State a) → (ℕ → Logit a.S) → (ℕ → Row a) → ℕ → Option (Row a)
  unfolding store_final
  finish_with_sink_entry sts attn_sink output head =
      store_final (finish_attention_state_with_sink a (sts head) (attn_sink head)) (output head)
        head

module _ {a : Arith} (laws : IsExact a) (next_power_of_2 : ℕ → ℕ)
    (above : (n : ℕ) → n ≤ next_power_of_2 n) (num_heads head_dim : ℕ)
    (some_dims : 0 < head_dim) where
  some_tiles : (block_d n : ℕ) → head_dim ≤ n * block_d → 0 < n
  some_tiles block_d zero h = absurd (omega arith)
  some_tiles block_d (suc n) h = omega arith

  store_blocks-eq :
      (final row : Row a) (d : ℕ)
      → store_blocks a next_power_of_2 num_heads head_dim final row d
        ≡ (if ltb d head_dim then final d else row d)
  unfolding store_blocks
  store_blocks-eq final row d =
      let block_d : ℕ = min 128 (next_power_of_2 head_dim) in
      let wide : head_dim ≤ next_power_of_2 head_dim = above head_dim in
      let some_width : 0 < block_d = omega arith in
      blocks-all block_d head_dim (λ d' _. final d') _ (λ b row' d'. refl) some_width
        (cdiv head_dim block_d) (tiles-cover head_dim block_d some_width) row d

  store_final-IsAttention :
      (xs : Candidates a) (sink : Logit a.S) (final : Option (Row a)) (old : Row a) (head : ℕ)
      → head < num_heads
      → Gives (IsAttention a head_dim xs sink) final
      → Gives
          (IsAttention a head_dim xs sink)
          (store_final a next_power_of_2 num_heads head_dim final old head)
  unfolding store_final
  store_final-IsAttention xs sink final old head real h = rw (lt→ltb head num_heads real) (
      Gives-bind {A = Row a} (IsAttention a head_dim xs sink) final
        (λ r. some (store_blocks a next_power_of_2 num_heads head_dim r old)) h
        (λ r p d k. store_blocks-eq r old d ∙ rw (lt→ltb d head_dim k) (p d k)))

  -- With at least one dimension and any vLLM next_power_of_2 that is at least its argument: at
  -- each head, two finished subsets and their lse merge into the attention over both with the
  -- head's sink, if there is a candidate or a finite sink.
  pub merge_two_entry-IsAttention :
      (out0 out1 : ℕ → Row a) (lse0 lse1 attn_sink : ℕ → Logit a.S) (output : ℕ → Row a) (head : ℕ)
      (xs ys : Candidates a)
      → head < num_heads
      → IsAttention a head_dim xs neg_inf (out0 head)
      → IsAttention a head_dim ys neg_inf (out1 head)
      → lse0 head ≡ log_sum_exp a xs
      → lse1 head ≡ log_sum_exp a ys
      → a.pos (a.add_W (weight_sum a (xs ++ ys)) (exp_logit a (attn_sink head))) ≡ true
      → Gives (IsAttention a head_dim (xs ++ ys) (attn_sink head)) (
          merge_two_entry a next_power_of_2 num_heads head_dim out0 lse0 out1 lse1 attn_sink output
            head)
  unfolding merge_two_entry
  merge_two_entry-IsAttention out0 out1 lse0 lse1 attn_sink output head xs ys real p0 p1 l0 l1 h =
      store_final-IsAttention (xs ++ ys) (attn_sink head) _ (output head) head real (
        merge_two-IsAttention laws xs ys (out0 head) (out1 head) (lse0 head) (lse1 head)
          (attn_sink head) p0 p1 l0 l1 h)

  -- With at least one dimension and any vLLM next_power_of_2 that is at least its argument: at
  -- each head, a finished subset and its lse give the attention with the head's sink, if there is
  -- a candidate or a finite sink.
  pub merge_single_entry-IsAttention :
      (out : ℕ → Row a) (lse attn_sink : ℕ → Logit a.S) (output : ℕ → Row a) (head : ℕ)
      (xs : Candidates a)
      → head < num_heads
      → IsAttention a head_dim xs neg_inf (out head)
      → lse head ≡ log_sum_exp a xs
      → a.pos (a.add_W (weight_sum a xs) (exp_logit a (attn_sink head))) ≡ true
      → Gives
          (IsAttention a head_dim xs (attn_sink head))
          (merge_single_entry a next_power_of_2 num_heads head_dim out lse attn_sink output head)
  unfolding merge_single_entry
  merge_single_entry-IsAttention out lse attn_sink output head xs real p l h =
      store_final-IsAttention xs (attn_sink head) _ (output head) head real
        (merge_single-IsAttention laws xs (out head) (lse head) (attn_sink head) p l h)

  -- With at least one dimension and any vLLM next_power_of_2 that is at least its argument: from
  -- two states for each head that stand for candidates, the entry point for two states and sinks
  -- gives each head no NaN, and the attention with its sink over the candidates of both.
  pub finish_two_entry-IsAttention :
      (sts0 sts1 : ℕ → State a) (attn_sink : ℕ → Logit a.S) (output : ℕ → Row a) (head : ℕ)
      (xs ys : Candidates a)
      → head < num_heads
      → Holds a head_dim xs (sts0 head)
      → Holds a head_dim ys (sts1 head)
      → Gives
          (IsAttention a head_dim (xs ++ ys) (attn_sink head))
          (finish_two_entry a next_power_of_2 num_heads head_dim sts0 sts1 attn_sink output head)
  unfolding finish_two_entry
  finish_two_entry-IsAttention sts0 sts1 attn_sink output head xs ys real h0 h1 =
      store_final-IsAttention (xs ++ ys) (attn_sink head) _ (output head) head real
        (finish_two-IsAttention laws (sts0 head) (sts1 head) (attn_sink head) h0 h1)

  -- With at least one dimension and any vLLM next_power_of_2 that is at least its argument: from
  -- states that stand for candidates, the finishing entry point with sinks gives each of its heads
  -- no NaN and the attention over the head's candidates with its sink, also for no candidates and
  -- for a sink of -inf.
  pub finish_with_sink_entry-IsAttention :
      (sts : ℕ → State a) (attn_sink : ℕ → Logit a.S) (output : ℕ → Row a) (head : ℕ)
      (xs : Candidates a)
      → head < num_heads
      → Holds a head_dim xs (sts head)
      → Gives
          (IsAttention a head_dim xs (attn_sink head))
          (finish_with_sink_entry a next_power_of_2 num_heads head_dim sts attn_sink output head)
  unfolding finish_with_sink_entry
  finish_with_sink_entry-IsAttention sts attn_sink output head xs real h =
      store_final-IsAttention xs (attn_sink head) _ (output head) head real
        (finish_with_sink-IsAttention laws (sts head) (attn_sink head) h)

  kept_lse :
      (l : Logit a.S) (n b : ℕ) → for_range n (suc b) (λ b' l'. if b' == 0 then l else l') l ≡ l
  unfolding for_range
  kept_lse l zero b = refl
  kept_lse l (suc n) b =
      let same : (if suc b == 0 then l else l) ≡ l = ground arith in rw same (kept_lse l n (suc b))

  stored_lse :
      (l old : Logit a.S) (n : ℕ) → 0 < n → for_range n 0 (λ b l'. if b == 0 then l else l') old ≡ l
  unfolding for_range
  stored_lse l old zero some_blocks = elim some_blocks [ ]
  stored_lse l old (suc n) some_blocks = kept_lse l n 0

  -- With at least one dimension and any vLLM next_power_of_2 that is at least its argument: from
  -- states that stand for candidates, the entry point without a sink leaves, at each of its heads,
  -- the attention over the head's candidates and their logsumexp.
  pub finish_gathered_entry_lem :
      (sts : ℕ → State a) (output : ℕ → Row a) (lse : ℕ → Logit a.S) (head : ℕ) (xs : Candidates a)
      → head < num_heads
      → Holds a head_dim xs (sts head)
      → let (out, l) =
          finish_gathered_entry a next_power_of_2 num_heads head_dim sts output lse head in
        IsAttention a head_dim xs neg_inf out × (l ≡ log_sum_exp a xs)
  unfolding finish_gathered_entry
  finish_gathered_entry_lem sts output lse head xs real h =
      let block_d : ℕ = min 128 (next_power_of_2 head_dim) in
      let wide : head_dim ≤ next_power_of_2 head_dim = above head_dim in
      let cover = tiles-cover head_dim block_d (omega arith) in
      let (finished, l) = finish_state_lem laws (sts head) h in
      rw (lt→ltb head num_heads real) (
        (λ d k.
            store_blocks-eq (finish_attention_state a (sts head)).0 (output head) d
            ∙ rw (lt→ltb d head_dim k) (finished d k)),
        stored_lse _ (lse head) (cdiv head_dim block_d)
              (some_tiles block_d (cdiv head_dim block_d) cover)
            ∙ l,
      )
