-- ===== src/SparseMla/Scores/Blocks.antt =====
-- The kernel that takes the candidates by blocks: a pass for the maximum, and a pass for the sums.
use glm_5_2_gb.Common.{
  ℕ, zero, suc, ◌+◌, ◌*◌, ◌<◌, Bool, true, false, ◌&&◌, ◌≡◌, inl, inr, refl, sym, ap, ◌∙◌, [], ◌∷◌,
  ◌++◌, arith, ltb, lt→ltb, if◌then◌else◌, for_range, Bool-cases, fun_ext,
}
use mathlib.Core.Path.{ap₂}
use mathlib.Core.List.{append_assoc, append-nil}
use glm_5_2_gb.Float.{Arith, IsExact}
use glm_5_2_gb.Softmax.{
  Logit, neg_inf, fin, Row, Candidates, weight_sum, value_sum, exp_logit, exp_below, attention,
  max_logit, next_max,
}
use glm_5_2_gb.Softmax.Laws.{weight_sum-append, value_sum-append, exp-exp_below}
use glm_5_2_gb.SparseMla.Accumulate.{cdiv}
use glm_5_2_gb.SparseMla.Accumulate.Loop.{candidates}
use glm_5_2_gb.SparseMla.Accumulate.Chunk.{candidates-add}
use glm_5_2_gb.SparseMla.Finish.{maximum, exp_or}
use glm_5_2_gb.SparseMla.D512.Named.{exp_or-eq}
use glm_5_2_gb.SparseMla.Scores.Online.{quot_of_scaled, max_logit-is_fin}
use glm_5_2_gb.Sm12x.KvCache.{tile_sum, tile_dot}
use glm_5_2_gb.Sm12x.KvCache.Candidates.{candidates-cut}
use glm_5_2_gb.Sm12x.KvCache.Fused.{tiles-cover}
use glm_5_2_gb.Sm12x.KvCache.Maximum.{max_logit-eq, max_logit-append}
use glm_5_2_gb.Sm12x.KvCache.Sums.{p, tile_max-eq, tile_sum-eq, tile_dot-eq}
use glm_5_2_gb.SparseMla.Scores.{
  block_valid, block_score, block_max, block_weight, block_denom, block_output,
}

module _ (a : Arith) (valid : ℕ → Bool) (score : ℕ → a.S) (row : ℕ → Row a) (width : ℕ) where
  -- What each block keeps of the candidates so far, a loop over blocks keeps of all.
  blocks-keep :
      {X : Type 0} (P : Candidates a → X → Type 0) (body : ℕ → X → X)
      → ((i : ℕ) (xs : Candidates a) (x : X)
          → P xs x
          → P (xs ++ candidates a valid score row width (i * width)) (body i x))
      → (n k : ℕ) (xs : Candidates a) (x : X) → P xs x
      → P (xs ++ candidates a valid score row (n * width) (k * width)) (for_range n k body x)
  unfolding for_range candidates
  blocks-keep P body keep zero k xs x h =
      let none_left : zero * width ≡ 0 = omega arith in rw (none_left, append-nil) h
  blocks-keep P body keep (suc n) k xs x h =
      let more : suc n * width ≡ width + n * width = omega arith in
      let next : k * width + width ≡ suc k * width = omega arith in
      rw
        (
          more,
          ← candidates-add a valid score row width (n * width) (k * width) (suc k * width) next,
          ← append_assoc,
        )
        (blocks-keep P body keep n (suc k) (xs ++ candidates a valid score row width (k * width))
          (body k x) (keep k xs x h))

  -- From the first block on.
  pub all_blocks-keep :
      {X : Type 0} (P : Candidates a → X → Type 0) (body : ℕ → X → X)
      → ((i : ℕ) (xs : Candidates a) (x : X)
          → P xs x
          → P (xs ++ candidates a valid score row width (i * width)) (body i x))
      → (n : ℕ) (x : X) → P [] x
      → P (candidates a valid score row (n * width) 0) (for_range n 0 body x)
  all_blocks-keep P body keep n x h =
      let from_zero : 0 * width ≡ 0 = omega arith in
      rw from_zero at (blocks-keep P body keep n 0 [] x h)

module _ {a : Arith} (laws : IsExact a) (nan : a.W) (head_dim num_candidates : ℕ)
    (scores : ℕ → ℕ → a.S) (kv : ℕ → Row a) (valid_tokens : ℕ → Bool) (attn_sink : ℕ → Logit a.S)
    (block_k head : ℕ) (some_width : 0 < block_k) where
  open a use {S, W, E, exp, pos, zero_W, one_W, add_W, mul_W, zero_E, add_E, act, quot}
  open laws use {
    mul-add_W, add_W_comm, add_W_assoc, zero-add_W, act-add_E, act-zero_E, pos-zero, zero-add_E,
    add_E_comm,
  }

  abbrev valid : ℕ → Bool
  valid j = valid_tokens j && ltb j num_candidates

  abbrev in_order : ℕ → ℕ → Candidates a
  in_order n i = candidates a valid (scores head) kv n i

  abbrev all : Candidates a
  all = candidates a valid_tokens (scores head) kv num_candidates 0

  abbrev code_score : ℕ → Logit S
  code_score = block_score a nan head_dim num_candidates scores kv valid_tokens attn_sink head

  abbrev code_valid : ℕ → Bool
  code_valid = block_valid a nan head_dim num_candidates scores kv valid_tokens attn_sink

  code_valid-eq : (j : ℕ) → code_valid j ≡ valid j
  unfolding block_valid
  code_valid-eq j = elim (Bool-cases (ltb j num_candidates)) [
    | inl e ↦ rw e (sym (and-true (valid_tokens j)))
    | inr e ↦ rw e (sym (and-false (valid_tokens j)))
  ]
    where
      and-true : (b : Bool) → (b && true) ≡ b
      and-true true = refl
      and-true false = refl

      and-false : (b : Bool) → (b && false) ≡ false
      and-false true = refl
      and-false false = refl

  scored : (j : ℕ) → code_score j ≡ (if valid j then fin (scores head j) else neg_inf)
  unfolding block_score
  scored j = ap (λ b. if b then fin (scores head j) else neg_inf) (code_valid-eq j)

  blocks-all : in_order (cdiv num_candidates block_k * block_k) 0 ≡ all
  blocks-all =
      candidates-cut a valid_tokens (scores head) kv num_candidates
        (cdiv num_candidates block_k * block_k) 0 num_candidates
        (tiles-cover num_candidates block_k some_width) (omega arith)

  abbrev code_max : Logit S
  code_max = block_max a nan head_dim num_candidates scores kv valid_tokens attn_sink block_k head

  code_max-eq : code_max ≡ max_logit a all (attn_sink head)
  unfolding block_max max_logit
  code_max-eq =
      all_blocks-keep a valid (scores head) kv block_k (λ xs m. m ≡ max_logit a xs (attn_sink head))
        _
        (λ i xs m e.
          let here = in_order block_k (i * block_k) in
          ap₂ (maximum a) e
            (tile_max-eq laws valid (scores head) code_score scored kv kv block_k (i * block_k))
          ∙ sym (
              max_logit-append laws xs here (attn_sink head)
              ∙ max_logit-eq laws here (max_logit a xs (attn_sink head))))
        (cdiv num_candidates block_k) (attn_sink head) refl
      ∙ ap (λ xs. max_logit a xs (attn_sink head)) blocks-all

  -- With some weight the maximum is a number.
  finite_max :
      (xs : Candidates a) (sink : Logit S)
      → pos (add_W (weight_sum a xs) (exp_logit a sink)) ≡ true
      → (t : S) × (max_logit a xs sink ≡ fin t)
  unfolding max_logit weight_sum exp_logit
  finite_max [] neg_inf h =
      let nothing : pos (add_W zero_W zero_W) ≡ false = rw (zero-add_W zero_W) pos-zero in cc
  finite_max [] (fin k) h = (k, refl)
  finite_max ((s, r) ∷ xs) sink h = max_logit-is_fin laws sink xs (next_max a sink s)

  abbrev code_row : ℕ → Row a
  code_row j d = if code_valid j && ltb d head_dim then kv j d else zero_E

  code_row-eq : (j d : ℕ) → valid j ≡ true → d < head_dim → code_row j d ≡ kv j d
  code_row-eq j d v h = rw (code_valid-eq j, v, lt→ltb d head_dim h) refl

  module _ (t : S) (top : code_max ≡ fin t) where
    abbrev weight : ℕ → W
    weight j = p laws valid (scores head) code_score scored kv code_row t j

    abbrev code_weight : ℕ → W
    code_weight =
        block_weight a nan head_dim num_candidates scores kv valid_tokens attn_sink block_k head

    -- Where a candidate is not valid, exp(-inf - ...) is the 0 that a guard would give.
    code_weight-eq : (j : ℕ) → code_weight j ≡ weight j
    unfolding block_weight p exp_below
    code_weight-eq j =
        ap (exp_or a nan (code_score j)) top
        ∙ exp_or-eq a nan (code_score j) t
        ∙ elim (Bool-cases (valid j)) [ inl e ↦ rw e refl | inr e ↦ rw (scored j, e) refl ]

    code_denom-eq :
        mul_W
          (exp t)
          (block_denom a nan head_dim num_candidates scores kv valid_tokens attn_sink block_k head)
        ≡ add_W (weight_sum a all) (exp_logit a (attn_sink head))
    unfolding block_denom weight_sum
    code_denom-eq =
        let sink = exp_logit a (attn_sink head) in
        all_blocks-keep a valid (scores head) kv block_k
          (λ xs w. mul_W (exp t) w ≡ add_W (weight_sum a xs) sink) _
          (λ i xs w e.
            let here = in_order block_k (i * block_k) in
            ap (λ f. mul_W (exp t) (add_W w (tile_sum a block_k (i * block_k) f)))
              (fun_ext code_weight-eq)
            ∙ mul-add_W (exp t) w (tile_sum a block_k (i * block_k) weight)
            ∙ ap₂ add_W e (
                tile_sum-eq laws valid (scores head) code_score scored kv code_row t block_k
                  (i * block_k))
            ∙ add_W_assoc (weight_sum a xs) sink (weight_sum a here)
            ∙ ap (add_W (weight_sum a xs)) (add_W_comm sink (weight_sum a here))
            ∙ sym (add_W_assoc (weight_sum a xs) (weight_sum a here) sink)
            ∙ ap (λ x. add_W x sink) (sym (weight_sum-append laws xs here)))
          (cdiv num_candidates block_k) _
          (ap (λ m. mul_W (exp t) (exp_or a nan (attn_sink head) m)) top
            ∙ ap (mul_W (exp t)) (exp_or-eq a nan (attn_sink head) t)
            ∙ exp-exp_below laws (attn_sink head) t
            ∙ sym (zero-add_W sink))
        ∙ ap (λ xs. add_W (weight_sum a xs) sink) blocks-all

    code_value-eq :
        (d : ℕ)
        → d < head_dim
        → act (exp t) (
            for_range
              (cdiv num_candidates block_k)
              0
              (λ i acc.
                add_E acc (tile_dot a block_k (i * block_k) code_weight (λ j. code_row j d)))
              zero_E)
          ≡ value_sum a all d
    unfolding value_sum
    code_value-eq d h =
        all_blocks-keep a valid (scores head) kv block_k (λ xs e. act (exp t) e ≡ value_sum a xs d)
          _
          (λ i xs e eq.
            let here = in_order block_k (i * block_k) in
            ap (λ f. act (exp t) (add_E e (tile_dot a block_k (i * block_k) f (λ j. code_row j d))))
              (fun_ext code_weight-eq)
            ∙ act-add_E (exp t) e (tile_dot a block_k (i * block_k) weight (λ j. code_row j d))
            ∙ ap₂ add_E eq (
                tile_dot-eq laws valid (scores head) code_score scored kv code_row head_dim
                  code_row-eq t block_k (i * block_k) d h)
            ∙ sym (value_sum-append laws xs here d))
          (cdiv num_candidates block_k) zero_E (act-zero_E (exp t))
        ∙ ap (λ xs. value_sum a xs d) blocks-all

  -- By blocks: the attention over the valid candidates, if there is one or the sink is finite.
  pub block_output-eq :
      (d : ℕ) (old : E)
      → pos (add_W (weight_sum a all) (exp_logit a (attn_sink head))) ≡ true
      → d < head_dim
      → block_output a nan head_dim num_candidates scores kv valid_tokens attn_sink block_k head d
          old
        ≡ attention a all (attn_sink head) d
  unfolding block_output
  block_output-eq d old some_weight h =
      let (t, e) = finite_max all (attn_sink head) some_weight in
      let top = code_max-eq ∙ e in
      quot_of_scaled laws all (attn_sink head) t _ _ d (code_denom-eq t top)
        (code_value-eq t top d h) some_weight
