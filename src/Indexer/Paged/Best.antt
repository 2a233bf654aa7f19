-- ===== src/Indexer/Paged/Best.antt =====
-- The running top-k over windows is one of all the positions, and no assertion fails.
use native.Mathlib.Nat.{le-div_iff_mul-le}
use glm_5_2_gb.Common.{
  ℕ, zero, suc, ◌+◌, ◌-◌, ◌*◌, ◌%◌, ◌<◌, ◌≤◌, min, Bool, true, ◌||◌, ◌≡◌, inl, inr, refl, ap,
  Option, none, some, List, ◌>>=◌, tabulate, arith, ◌==◌, for_range, Bool-cases, Gives, Gives-bind,
  ==_iff, ◌⊎◌,
}
use glm_5_2_gb.Common.Int.{ℤ, pos, negsuc}
use glm_5_2_gb.Softmax.{Logit}
use glm_5_2_gb.SparseMla.Accumulate.{cdiv}
use glm_5_2_gb.Sm12x.KvCache.Fused.{tiles-cover}
use glm_5_2_gb.Indexer.{Values, IsExactSum, Lane, Topk, merge_topk, no_lanes}
use glm_5_2_gb.Indexer.TopK.{IsBestRow, rounds-IsBestRow, nothing-IsBestRow}
use glm_5_2_gb.Indexer.Paged.{
  PagedView, PagedCache, ByteCasts, is_float32_view, view_packed, paged_topk_chunk_size,
  paged_round, paged_topk_loop, paged_topk_indices,
}
use glm_5_2_gb.Indexer.Paged.Scores.{position_logit}
use glm_5_2_gb.Indexer.Paged.Rows.{paged_logits-eq}

paged_chunk_positive : (configured : Option (Option ℤ)) → 0 < paged_topk_chunk_size configured
unfolding paged_topk_chunk_size
paged_chunk_positive none = omega arith
paged_chunk_positive (some none) = omega arith
paged_chunk_positive (some (some (pos n))) = omega arith
paged_chunk_positive (some (some (negsuc n))) = omega arith

-- A round of the loop starts inside.
starts_inside : (n d b : ℕ) → 0 < d → b < cdiv n d → b * d ≤ n
unfolding cdiv
starts_inside n d b some_d h =
    let whole : suc b * d ≤ n + d - 1 = (le-div_iff_mul-le some_d).0 (omega arith) in omega arith

module _ {A : Type 0} (body : ℕ → A → Option A) (pure : ℕ → A → A) where
  -- A loop whose rounds succeed.
  pub succeeding_rounds :
      (n b : ℕ) (x : A)
      → ((b' : ℕ) (y : A) → b' < b + n → body b' y ≡ some (pure b' y))
      → for_range n b (λ b' r. r >>= body b') (some x) ≡ some (for_range n b pure x)
  unfolding for_range
  succeeding_rounds zero b x one = refl
  succeeding_rounds (suc n) b x one =
      rw (one b x (omega arith))
        (succeeding_rounds n (suc b) (pure b x) (λ b' y h. one b' y (omega arith)))

module _ {v : Values} (kv : PagedView v) (block_size head_dim num_heads : ℕ) (q : ℕ → ℕ → v.V)
    (weights : ℕ → v.V) (context_len : ℕ) (block_table : ℕ → ℕ) (laws : IsExactSum v) (t : Topk v)
    (topk_tokens max_model_len chunk_size : ℕ) (empty : ℕ → Logit v.V) where
  abbrev at_position : ℕ → Logit v.V
  at_position = position_logit kv block_size head_dim num_heads q weights context_len block_table

  abbrev merge_round : ℕ → List (Lane v) → List (Lane v)
  merge_round b lanes =
      merge_topk v t topk_tokens
        (tabulate at_position (min (b * chunk_size + chunk_size) max_model_len - b * chunk_size)
          (b * chunk_size))
        (b * chunk_size) lanes

  paged_round-eq :
      (b : ℕ) (lanes : List (Lane v))
      → b * chunk_size ≤ max_model_len
      → paged_round v kv block_size head_dim num_heads q weights context_len block_table t
          topk_tokens max_model_len chunk_size empty b lanes
        ≡ some (merge_round b lanes)
  unfolding paged_round
  paged_round-eq b lanes inside =
      let width : min chunk_size (max_model_len - b * chunk_size)
          ≡ min (b * chunk_size + chunk_size) max_model_len - b * chunk_size =
        omega arith in
      rw
        (paged_logits-eq kv block_size head_dim num_heads q weights context_len block_table laws
          (b * chunk_size) (min chunk_size (max_model_len - b * chunk_size)) max_model_len empty
          (omega arith))
        (ap
          (λ n. some (
            merge_topk v t topk_tokens (tabulate at_position n (b * chunk_size)) (b * chunk_size)
              lanes))
          width)

  paged_topk_loop-IsBestRow :
      0 < chunk_size
      → Gives (IsBestRow v at_position topk_tokens max_model_len) (
          paged_topk_loop v kv block_size head_dim num_heads q weights context_len block_table t
            topk_tokens max_model_len chunk_size empty)
  unfolding paged_topk_loop
  paged_topk_loop-IsBestRow some_chunk =
      let rounds : ℕ = cdiv max_model_len chunk_size in
      rw
        (succeeding_rounds
          (paged_round v kv block_size head_dim num_heads q weights context_len block_table t
            topk_tokens max_model_len chunk_size empty)
          merge_round rounds 0 (no_lanes v topk_tokens)
          (λ b lanes h.
            paged_round-eq b lanes
              (starts_inside max_model_len chunk_size b some_chunk (omega arith))))
        (rounds-IsBestRow v at_position laws t topk_tokens max_model_len chunk_size merge_round
          (λ b lanes. refl) rounds (tiles-cover max_model_len chunk_size some_chunk))

module _ {v : Values} (laws : IsExactSum v) (casts : ByteCasts v) (c : PagedCache)
    (head_dim num_heads : ℕ) (q : ℕ → ℕ → v.V) (weights : ℕ → v.V) (context_len : ℕ)
    (block_table : ℕ → ℕ) (t : Topk v) where
  abbrev IsWritten : PagedView v → ℕ → ℕ → Bool × List (Option ℕ) → Type 0
  IsWritten kv topk_tokens max_model_len r =
      (r.0 ≡ true)
      × IsBestRow v
          (position_logit kv c.block_size head_dim num_heads q weights context_len block_table)
          topk_tokens max_model_len r.1

  view_packed_succeeds :
      c.head_dim_with_scale ≡ head_dim + 4
      → c.block_stride % 4 ≡ 0
      → (c.storage_offset + c.block_size * head_dim) % 4 ≡ 0
      → (kv : PagedView v) × (view_packed v casts c head_dim ≡ some kv)
  unfolding view_packed is_float32_view
  view_packed_succeeds scaled strides start =
      let room : c.head_dim_with_scale - head_dim ≡ 4 = omega arith in
      rw (room, strides, start) (_, refl)

  with_view :
      (configured : Option (Option ℤ)) (topk_tokens max_model_len : ℕ) (empty : ℕ → Logit v.V)
      (topk_indices : List (Option ℕ)) (kv : PagedView v)
      → c.head_dim_with_scale ≡ head_dim + 4
      → view_packed v casts c head_dim ≡ some kv
      → Gives (IsWritten kv topk_tokens max_model_len) (
          paged_topk_indices v casts c true head_dim num_heads q weights context_len block_table t
            configured topk_tokens max_model_len empty topk_indices)
  unfolding paged_topk_indices
  with_view configured topk_tokens max_model_len empty topk_indices kv scaled viewed =
      let same : (c.head_dim_with_scale == head_dim + 4) ≡ true =
        (==_iff c.head_dim_with_scale (head_dim + 4)).1 scaled in
      elim (Bool-cases ((topk_tokens == 0) || (max_model_len == 0))) [
        | inl e ↦
            let nothing : (topk_tokens ≡ 0) ⊎ (max_model_len ≡ 0) =
              ground (arith, ==_iff topk_tokens 0, ==_iff max_model_len 0) in
            rw (same, e) (refl, nothing-IsBestRow v _ laws t topk_tokens max_model_len nothing)
        | inr e ↦
            rw (same, e, viewed)
              (Gives-bind (IsWritten kv topk_tokens max_model_len) _ (λ out. some (true, out))
                (paged_topk_loop-IsBestRow kv c.block_size head_dim num_heads q weights context_len
                  block_table laws t topk_tokens max_model_len (paged_topk_chunk_size configured)
                  empty (paged_chunk_positive configured))
                (λ out best. (refl, best)))
      ]

  -- With the fallback enabled (its switch on, on the platform that it tests for, with a query of
  -- four dimensions and no scale, and a uint8 cache) and an int32 output, for a cache of one head
  -- whose rows are head_dim values and 4 bytes of scale, where the stride of a block and the place
  -- in the storage of the first scale are multiples of 4, any configured chunk size, any lengths
  -- and heads, and with exact arithmetic on weakly ordered logits: no assertion and no view of the
  -- cache fails, and the paged top-k, in windows and by whichever of the two kernels, writes
  -- places that name the best of all the positions below max_model_len and below the context's
  -- length by their logits, each once, where none that is left out has a larger logit and no place
  -- is empty while one is left out.
  pub paged_topk_indices_lem :
      (configured : Option (Option ℤ)) (topk_tokens max_model_len : ℕ) (empty : ℕ → Logit v.V)
      (topk_indices : List (Option ℕ))
      → c.head_dim_with_scale ≡ head_dim + 4
      → c.block_stride % 4 ≡ 0
      → (c.storage_offset + c.block_size * head_dim) % 4 ≡ 0
      → Gives
          (λ kv.
            Gives
              (λ r.
                (r.0 ≡ true)
                × IsBestRow v
                    (position_logit kv c.block_size head_dim num_heads q weights context_len
                      block_table)
                    topk_tokens
                    max_model_len
                    r.1)
              (paged_topk_indices v casts c true head_dim num_heads q weights context_len
                block_table t configured topk_tokens max_model_len empty topk_indices))
          (view_packed v casts c head_dim)
  paged_topk_indices_lem configured topk_tokens max_model_len empty topk_indices scaled strides
        start =
      let (kv, viewed) = view_packed_succeeds scaled strides start in
      rw viewed (with_view configured topk_tokens max_model_len empty topk_indices kv scaled viewed)
