-- ===== src/Indexer/Paged/Scores.antt =====
-- Blocks of dimensions and of heads change no logit: both kernels give what the cache's row scores.
use mathlib.Core.Path.{ap₂}
use glm_5_2_gb.Common.{
  ℕ, ◌+◌, ◌-◌, ◌*◌, ◌/◌, ◌<◌, ◌≤◌, Bool, true, false, ◌&&◌, ◌≡◌, inl, inr, refl, ap, ◌∙◌, arith,
  ltb, leb, lt→ltb, if◌then◌else◌, Bool-cases,
}
use glm_5_2_gb.Softmax.{Logit, neg_inf, fin}
use glm_5_2_gb.SparseMla.Accumulate.{cdiv}
use glm_5_2_gb.SparseMla.D512.Stores.{in_block}
use glm_5_2_gb.Sm12x.KvCache.Fused.{tiles-cover}
use glm_5_2_gb.Indexer.Totals.{covering-total, loop-total}
use glm_5_2_gb.Indexer.{Values, IsExactSum, total, dot}
use glm_5_2_gb.Indexer.Paged.{
  PagedView, in_context, load_k, load_scale, score_loop, paged_logit, rowwise_weighted,
  rowwise_logit,
}

module _ {v : Values} (kv : PagedView v) (block_size head_dim num_heads : ℕ) (q : ℕ → ℕ → v.V)
    (weights : ℕ → v.V) (context_len : ℕ) (block_table : ℕ → ℕ) where
  -- The logit of a position of the cache, by itself: the block that the table names, and the slot.
  unfoldable pub position_logit : ℕ → Logit v.V
  unfolding dot total
  position_logit position =
      let block = block_table (position / block_size) in
      let slot = position - position / block_size * block_size in
      let scored = λ (h : ℕ).
        v.mul (v.relu (v.mul (dot v head_dim (q h) (kv.values block slot)) (kv.scale block slot)))
          (weights h) in
      if ltb position context_len then fin (total v scored num_heads 0) else neg_inf

  module _ (laws : IsExactSum v) (token_start logits_width : ℕ) where
    abbrev inside : ℕ → Bool
    inside =
        in_context v kv block_size head_dim num_heads q weights context_len block_table token_start
          logits_width

    abbrev looped : (ℕ → v.V) → ℕ → v.V
    looped =
        score_loop v kv block_size head_dim num_heads q weights context_len block_table token_start
          logits_width

    abbrev loaded : ℕ → ℕ → v.V
    loaded =
        load_k v kv block_size head_dim num_heads q weights context_len block_table token_start
          logits_width

    abbrev generic : ℕ → Logit v.V
    generic =
        paged_logit v kv block_size head_dim num_heads q weights context_len block_table token_start
          logits_width

    abbrev rowwise : ℕ → ℕ → Logit v.V
    rowwise =
        rowwise_logit v kv block_size head_dim num_heads q weights context_len block_table
          token_start logits_width

    abbrev block_of : ℕ → ℕ
    block_of local = block_table ((token_start + local) / block_size)

    abbrev slot_of : ℕ → ℕ
    slot_of local = token_start + local - (token_start + local) / block_size * block_size

    score_loop-eq :
        (q_row q' : ℕ → v.V) (local : ℕ)
        → inside local ≡ true
        → ((d : ℕ) → d < head_dim → q_row d ≡ q' d)
        → looped q_row local ≡ dot v head_dim q' (kv.values (block_of local) (slot_of local))
    unfolding score_loop dot load_k
    score_loop-eq q_row q' local here same =
        covering-total laws (λ d. v.mul (q_row d) (loaded local d))
          (λ d. v.mul (q' d) (kv.values (block_of local) (slot_of local) d)) 64 (cdiv head_dim 64)
          head_dim (tiles-cover head_dim 64 (omega arith))
          (λ d h. ap₂ v.mul (same d h) (rw (here, lt→ltb d head_dim h) refl))
          (λ d h.
            let past : ltb d head_dim ≡ false = ground arith in
            rw (here, past) (laws.mul-zero (q_row d)))

    abbrev scale : ℕ → v.V
    scale =
        load_scale v kv block_size head_dim num_heads q weights context_len block_table token_start
          logits_width

    load_scale-eq :
        (local : ℕ) → inside local ≡ true → scale local ≡ kv.scale (block_of local) (slot_of local)
    unfolding load_scale
    load_scale-eq local here = rw here refl

    -- The score of a head at a position.
    abbrev scored : ℕ → ℕ → v.V
    scored local h =
        v.mul
          (v.relu (
            v.mul (dot v head_dim (q h) (kv.values (block_of local) (slot_of local)))
              (kv.scale (block_of local) (slot_of local))))
          (weights h)

    inside-context :
        (local : ℕ) → local < logits_width → inside local ≡ ltb (token_start + local) context_len
    unfolding in_context
    inside-context local h = ground arith

    rowwise_weighted-eq :
        (local h : ℕ)
        → inside local ≡ true
        → h < num_heads
        → rowwise_weighted v kv block_size head_dim num_heads q weights context_len block_table
            token_start logits_width local h
          ≡ scored local h
    unfolding rowwise_weighted
    rowwise_weighted-eq local h here valid =
        let one =
          score_loop-eq (λ d. if ltb h num_heads && ltb d head_dim then q h d else v.zero_V) (q h)
            local here (λ d b. rw (lt→ltb h num_heads valid, lt→ltb d head_dim b) refl) in
        ap₂ v.mul (ap v.relu (ap₂ v.mul one (load_scale-eq local here)))
          (rw (lt→ltb h num_heads valid) refl)

    rowwise_weighted-past :
        (local h : ℕ)
        → num_heads ≤ h
        → rowwise_weighted v kv block_size head_dim num_heads q weights context_len block_table
            token_start logits_width local h
          ≡ v.zero_V
    unfolding rowwise_weighted
    rowwise_weighted-past local h past =
        let no : ltb h num_heads ≡ false = ground arith in
        ap (v.mul _) (ap (λ b. if b then weights h else v.zero_V) no) ∙ laws.mul-zero _

    pub rowwise_logit-eq :
        (pid_n local : ℕ)
        → local < logits_width
        → in_block 128 logits_width pid_n local ≡ true
        → rowwise pid_n local ≡ position_logit (token_start + local)
    unfolding rowwise_logit position_logit in_block
    rowwise_logit-eq pid_n local h mine =
        elim (Bool-cases (ltb (token_start + local) context_len)) [
          | inl e ↦
              let here : inside local ≡ true = inside-context local h ∙ e in
              let early : leb context_len (token_start + pid_n * 128) ≡ false = ground arith in
              let sum =
                covering-total laws
                  (rowwise_weighted v kv block_size head_dim num_heads q weights context_len
                    block_table token_start logits_width local)
                  (scored local) 8 (cdiv num_heads 8) num_heads
                  (tiles-cover num_heads 8 (omega arith))
                  (λ j valid. rowwise_weighted-eq local j here valid)
                  (rowwise_weighted-past local) in
              rw (early, here, e) (ap fin sum)
          | inr e ↦
              let here : inside local ≡ false = inside-context local h ∙ e in
              rw (here, e) (ground arith)
        ]

    pub paged_logit-eq :
        (local : ℕ) → local < logits_width → generic local ≡ position_logit (token_start + local)
    unfolding paged_logit position_logit
    paged_logit-eq local h = elim (Bool-cases (ltb (token_start + local) context_len)) [
      | inl e ↦
          let here : inside local ≡ true = inside-context local h ∙ e in
          ap₂ (λ (b : Bool) (x : v.V). if b then fin x else neg_inf) (inside-context local h)
            (loop-total laws
              (λ j.
                let q_row = λ (d : ℕ). if ltb d head_dim then q j d else v.zero_V in
                v.mul (v.relu (v.mul (looped q_row local) (scale local))) (weights j))
              (scored local) num_heads
              (λ j.
                let one =
                  score_loop-eq (λ d. if ltb d head_dim then q j d else v.zero_V) (q j) local here
                    (λ d b. rw (lt→ltb d head_dim b) refl) in
                ap (λ w. v.mul (v.relu w) (weights j)) (ap₂ v.mul one (load_scale-eq local here))))
      | inr e ↦ let here : inside local ≡ false = inside-context local h ∙ e in rw (here, e) refl
    ]
