-- ===== src/SparseMla/Scores/Finished.antt =====
-- The entry points on materialized scores: every choice of kernel gives the attention.
use glm_5_2_gb.Common.{
  ℕ, ◌<◌, ◌≤◌, min, Bool, true, false, ◌&&◌, ◌≡◌, ◌⊎◌, inl, inr, refl, ◌∙◌, Option, none, some,
  Gives, arith, ltb, leb, lt→ltb, if◌then◌else◌, Bool-cases,
}
use glm_5_2_gb.Float.{Arith, IsExact}
use glm_5_2_gb.Softmax.{Logit, Row, Candidates, weight_sum, exp_logit, attention}
use glm_5_2_gb.SparseMla.Accumulate.{cdiv}
use glm_5_2_gb.SparseMla.Accumulate.Loop.{candidates}
use glm_5_2_gb.SparseMla.D512.Stores.{grid, grid-tile_store}
use glm_5_2_gb.Sm12x.KvCache.Fused.{tiles-cover}
use glm_5_2_gb.SparseMla.Scores.Online.{online_output-eq}
use glm_5_2_gb.SparseMla.Scores.Blocks.{block_output-eq}
use glm_5_2_gb.SparseMla.Scores.{
  FinishOptions, HeadCounts, is_value_block, is_candidate_block, active_heads, options_ok,
  smallest_block_d_covering, online_output, block_output, finish_scores, finish_scores_by_values,
  finish_scores_by_candidates, launch_by_candidates, launch_by_heads, launch, finish_materialized,
}

covering_positive : (hd : ℕ) → 0 < smallest_block_d_covering hd
unfolding smallest_block_d_covering
covering_positive hd = ground arith

value_block_positive : (v : ℕ) → is_value_block (some v) ≡ true → 0 < v
unfolding is_value_block
value_block_positive v h = ground arith

candidate_block_positive : (k : ℕ) → is_candidate_block (some k) ≡ true → 0 < k
unfolding is_candidate_block
candidate_block_positive k h = ground arith

-- What the assertions on the options say of the blocks.
options_blocks :
    (o : FinishOptions) (counts : HeadCounts)
    → options_ok o counts ≡ true
    → (0 < o.head_block_size)
      × (is_value_block o.value_block_size ≡ true)
      × (is_candidate_block o.candidate_block_size ≡ true)
unfolding options_ok
options_blocks o counts h = ground arith

module _ {a : Arith} (laws : IsExact a) (nan : a.W) (head_dim num_candidates : ℕ)
    (scores : ℕ → ℕ → a.S) (kv : ℕ → Row a) (valid_tokens : ℕ → Bool)
    (attn_sink : ℕ → Logit a.S) where
  open a use {S, W, E, pos, add_W, zero_E}

  abbrev all : ℕ → Candidates a
  all head = candidates a valid_tokens (scores head) kv num_candidates 0

  abbrev IsWeighted : ℕ → Type 0
  IsWeighted head = pos (add_W (weight_sum a (all head)) (exp_logit a (attn_sink head))) ≡ true

  module _ (heads : ℕ) (output : ℕ → Row a) (head d : ℕ) (real : head < heads)
      (inside : d < head_dim) where
    abbrev expected : E
    expected = attention a (all head) (attn_sink head) d

    candidate_blocks-eq :
        (block_k block_d : ℕ)
        → 0 < block_k
        → 0 < block_d
        → IsWeighted head
        → grid heads
            (cdiv head_dim block_d)
            (finish_scores_by_candidates a nan head_dim num_candidates scores kv valid_tokens
              attn_sink heads block_k block_d)
            output
            head
            d
          ≡ expected
    unfolding finish_scores_by_candidates
    candidate_blocks-eq block_k block_d some_width some_dims weighted =
        grid-tile_store 1 heads block_d head_dim
          (block_output a nan head_dim num_candidates scores kv valid_tokens attn_sink block_k)
          heads (cdiv head_dim block_d) output (omega arith) some_dims (omega arith)
          (tiles-cover head_dim block_d some_dims) head d
        ∙ rw (lt→ltb head heads real, lt→ltb d head_dim inside)
            (block_output-eq laws nan head_dim num_candidates scores kv valid_tokens attn_sink
              block_k head some_width d (output head d) weighted inside)

    candidates-eq :
        (value_block_size : Option ℕ) (block_k : ℕ)
        → is_value_block value_block_size ≡ true
        → 0 < block_k
        → IsWeighted head
        → launch_by_candidates a nan head_dim num_candidates scores kv valid_tokens attn_sink
            value_block_size heads block_k output head d
          ≡ expected
    unfolding launch_by_candidates
    candidates-eq none block_k ok some_width weighted =
        candidate_blocks-eq block_k (smallest_block_d_covering head_dim) some_width
          (covering_positive head_dim) weighted
    candidates-eq (some v) block_k ok some_width weighted =
        let positive = value_block_positive v ok in
        let positive' = covering_positive head_dim in
        candidate_blocks-eq block_k (min v (smallest_block_d_covering head_dim)) some_width
          (omega arith) weighted

    values-eq :
        (v : ℕ)
        → 0 < v
        → grid heads
            (cdiv head_dim v)
            (finish_scores_by_values a nan head_dim num_candidates scores kv valid_tokens attn_sink
              heads v)
            output
            head
            d
          ≡ expected
    unfolding finish_scores_by_values
    values-eq v some_dims =
        grid-tile_store 1 heads v head_dim
          (online_output a nan head_dim num_candidates scores kv valid_tokens attn_sink) heads
          (cdiv head_dim v) output (omega arith) some_dims (omega arith)
          (tiles-cover head_dim v some_dims) head d
        ∙ rw (lt→ltb head heads real, lt→ltb d head_dim inside)
            (online_output-eq laws head_dim scores kv valid_tokens attn_sink num_candidates nan head
              d (output head d) inside)

    heads-eq :
        (next_power_of_2 : ℕ → ℕ) (head_block : ℕ)
        → head_dim ≤ next_power_of_2 head_dim
        → head_dim ≤ 1024
        → 0 < head_block
        → launch_by_heads a nan head_dim num_candidates scores kv valid_tokens attn_sink
            next_power_of_2 heads head_block output head d
          ≡ expected
    unfolding launch_by_heads finish_scores
    heads-eq next_power_of_2 head_block covers narrow some_heads =
        grid-tile_store head_block heads (min 1024 (next_power_of_2 head_dim)) head_dim
          (online_output a nan head_dim num_candidates scores kv valid_tokens attn_sink)
          (cdiv heads head_block) 1 output some_heads (omega arith)
          (tiles-cover heads head_block some_heads) (omega arith) head d
        ∙ rw (lt→ltb head heads real, lt→ltb d head_dim inside)
            (online_output-eq laws head_dim scores kv valid_tokens attn_sink num_candidates nan head
              d (output head d) inside)

    launch-eq :
        (next_power_of_2 : ℕ → ℕ) (n : Option ℕ) (head_block : ℕ) (v k : Option ℕ)
        → head_dim ≤ next_power_of_2 head_dim
        → head_dim ≤ 1024
        → 0 < head_block
        → is_value_block v ≡ true
        → is_candidate_block k ≡ true
        → (k ≡ none) ⊎ IsWeighted head
        → launch a nan head_dim num_candidates scores kv valid_tokens attn_sink next_power_of_2
            (record {
              num_heads = n;
              head_block_size = head_block;
              value_block_size = v;
              candidate_block_size = k;
            })
            heads
            output
            head
            d
          ≡ expected
    unfolding launch
    launch-eq next_power_of_2 n head_block v (some k) covers narrow some_heads v_ok k_ok (inl e) =
        cc
    launch-eq next_power_of_2 n head_block v (some k) covers narrow some_heads v_ok k_ok (inr w) =
        candidates-eq v k v_ok (candidate_block_positive k k_ok) w
    launch-eq next_power_of_2 n head_block none none covers narrow some_heads v_ok k_ok w =
        heads-eq next_power_of_2 head_block covers narrow some_heads
    launch-eq next_power_of_2 n head_block (some v) none covers narrow some_heads v_ok k_ok w =
        elim (Bool-cases (ltb v head_dim)) [
          | inl e ↦ rw e (values-eq v (value_block_positive v v_ok))
          | inr e ↦ rw e (heads-eq next_power_of_2 head_block covers narrow some_heads)
        ]

  -- For at most 1024 dimensions, any accepted options and any vLLM next_power_of_2 that is at
  -- least its argument, whatever a NaN is, and where blocks of candidates are not chosen or there
  -- is a valid candidate or a finite sink: an output head gets the attention with its sink over
  -- the valid candidates of its scores, the same whichever of the three kernels is chosen, or,
  -- past the active heads, zeros.
  pub finish_materialized_lem :
      (next_power_of_2 : ℕ → ℕ) (o : FinishOptions) (counts : HeadCounts) (output : ℕ → Row a)
      (head : ℕ)
      → head_dim ≤ next_power_of_2 head_dim
      → head_dim ≤ 1024
      → options_ok o counts ≡ true
      → head < counts.of_output
      → (o.candidate_block_size ≡ none) ⊎ IsWeighted head
      → Gives
          (λ r.
            (d : ℕ)
            → d < head_dim
            → r head d ≡ (
                if ltb head (active_heads o counts)
                then attention a (all head) (attn_sink head) d
                else zero_E))
          (finish_materialized a nan head_dim num_candidates scores kv valid_tokens attn_sink
            next_power_of_2 o counts output)
  unfolding finish_materialized
  finish_materialized_lem next_power_of_2 o counts output head covers narrow ok stored weighted =
      let (some_heads, v_ok, k_ok) = options_blocks o counts ok in
      let heads = active_heads o counts in
      rw ok (λ d inside. elim (Bool-cases (ltb head heads)) [
        | inl e ↦
            let kept : (leb heads head && ltb head counts.of_output) ≡ false = ground arith in
            rw (e, kept)
              (launch-eq heads output head d (ground arith) inside next_power_of_2 o.num_heads
                o.head_block_size o.value_block_size o.candidate_block_size covers narrow some_heads
                v_ok k_ok weighted)
        | inr e ↦
            let cleared : (leb heads head && ltb head counts.of_output) ≡ true = ground arith in
            rw (e, cleared) refl
      ])
