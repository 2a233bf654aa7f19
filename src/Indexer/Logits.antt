-- ===== src/Indexer/Logits.antt =====
-- Chunks of heads and of keys change no logit, and the running top-k is one of the whole row.
use glm_5_2_gb.Common.{
  ℕ, zero, suc, ◌+◌, ◌-◌, ◌*◌, ◌<◌, min, Bool, true, ◌&&◌, ◌≡◌, inl, inr, refl, sym, ap, fun_ext,
  ◌∙◌, arith, Option, List, tabulate, ltb, leb, ◌==◌, lt→ltb, for_range, if◌then◌else◌, Bool-cases,
  ==_iff,
}
use native.Mathlib.Decide.{dec_le}
use glm_5_2_gb.Softmax.{neg_inf, fin}
use glm_5_2_gb.SparseMla.Accumulate.{cdiv}
use glm_5_2_gb.SparseMla.D512.Stores.{in_block, blocks-all}
use glm_5_2_gb.Sm12x.KvCache.Fused.{tiles-cover}
use glm_5_2_gb.Indexer.Totals.{total-add}
use glm_5_2_gb.Indexer.TopK.{IsBestRow, rounds-IsBestRow}
use glm_5_2_gb.Indexer.{
  Values, IsExactSum, Topk, head_chunk_size, k_chunk_size, total, head_score, chunk_score,
  add_heads, clean, add_keys, mqa_logits, topk_round, mqa_topk, mqa_topk_indices, merge_topk,
}

pub head_chunk_positive : (m n h : ℕ) → 0 < head_chunk_size m n h
unfolding head_chunk_size
head_chunk_positive m n h = omega arith

pub k_chunk_positive : (m n h : ℕ) → 0 < k_chunk_size m n h
unfolding k_chunk_size
k_chunk_positive m n h = omega arith

module _ {v : Values} (laws : IsExactSum v) (head_dim : ℕ) (q : ℕ → ℕ → v.V)
    (k_values : ℕ → ℕ → v.V) (k_scales : ℕ → v.V) (weights : ℕ → v.V)
    (seq_len seq_len_kv num_heads : ℕ) where
  open v use {V, zero_V}

  abbrev scored : ℕ → ℕ → V
  scored key h =
      head_score v head_dim q k_values k_scales weights seq_len seq_len_kv num_heads h key

  abbrev sum : ℕ → ℕ → ℕ → V
  sum key n i = total v (scored key) n i

  -- All the heads' scores of a key, summed in order.
  abbrev all_scores : ℕ → V
  all_scores key = sum key num_heads 0

  abbrev chunked : ℕ → ℕ → ℕ → V
  chunked = chunk_score v head_dim q k_values k_scales weights seq_len seq_len_kv num_heads

  chunk_score-eq : (key n head : ℕ) → chunked key n head ≡ sum key n head
  unfolding chunk_score total
  chunk_score-eq key n head = elim (Bool-cases (n == 1)) [
    | inl e ↦ let one : n ≡ 1 = ground (arith, ==_iff n 1) in rw one (sym (laws.add-zero _))
    | inr e ↦ rw e refl
  ]

  -- One chunk of heads after the heads before it.
  next_heads :
      (key hc b : ℕ)
      → v.add
          (sum key (min (b * hc) num_heads) 0)
          (chunked key (min (b * hc + hc) num_heads - b * hc) (b * hc))
        ≡ sum key (min (suc b * hc) num_heads) 0
  unfolding total
  next_heads key hc b = elim (dec_le (b * hc) num_heads) [
    | yes h ↦
        let here : min (b * hc) num_heads ≡ b * hc = omega arith in
        let next : b * hc + (min (b * hc + hc) num_heads - b * hc) ≡ min (suc b * hc) num_heads =
          omega arith in
        rw (here, chunk_score-eq key (min (b * hc + hc) num_heads - b * hc) (b * hc), ← next)
          (total-add laws (scored key) (b * hc) (min (b * hc + hc) num_heads - b * hc) 0 (b * hc)
            (omega arith))
    | no h ↦
        let here : min (b * hc) num_heads ≡ num_heads = omega arith in
        let none_left : min (b * hc + hc) num_heads - b * hc ≡ 0 = omega arith in
        let next : min (suc b * hc) num_heads ≡ num_heads = omega arith in
        rw (here, none_left, chunk_score-eq key 0 (b * hc), next) (laws.add-zero (all_scores key))
  ]

  heads-loop :
      (key hc n b last : ℕ) (logit : V)
      → b + n ≡ last
      → logit ≡ sum key (min (b * hc) num_heads) 0
      → for_range n b
          (λ b' x. v.add x (chunked key (min (b' * hc + hc) num_heads - b' * hc) (b' * hc)))
          logit
        ≡ sum key (min (last * hc) num_heads) 0
  unfolding for_range
  heads-loop key hc zero b last logit e h = let same : last ≡ b = omega arith in rw same h
  heads-loop key hc (suc n) b last logit e h = heads-loop key hc n (suc b) last _ (omega arith) (
      ap (λ x. v.add x (chunked key (min (b * hc + hc) num_heads - b * hc) (b * hc))) h
      ∙ next_heads key hc b)

  -- Before the first chunk of heads, and after the last one.
  no_heads : (key hc : ℕ) → zero_V ≡ sum key (min (0 * hc) num_heads) 0
  unfolding total
  no_heads key hc = let first : min (0 * hc) num_heads ≡ 0 = omega arith in rw first refl

  all_heads :
      (key hc : ℕ) → 0 < hc → sum key (min (cdiv num_heads hc * hc) num_heads) 0 ≡ all_scores key
  all_heads key hc some_heads =
      let cover = tiles-cover num_heads hc some_heads in ap (λ n. sum key n 0) (omega arith)

  add_heads-eq :
      (key hc : ℕ)
      → 0 < hc
      → add_heads v head_dim q k_values k_scales weights seq_len seq_len_kv num_heads hc key
        ≡ all_scores key
  unfolding add_heads
  add_heads-eq key hc some_heads =
      heads-loop key hc (cdiv num_heads hc) 0 (cdiv num_heads hc) zero_V (omega arith)
        (no_heads key hc)
      ∙ all_heads key hc some_heads

  -- The chunks of keys add a chunk of heads to every key, once.
  add_keys-eq :
      (head_start n k_chunk : ℕ) (row : ℕ → V) (key : ℕ)
      → 0 < k_chunk
      → key < seq_len_kv
      → add_keys v head_dim q k_values k_scales weights seq_len seq_len_kv num_heads head_start n
          k_chunk row key
        ≡ v.add (row key) (chunked key n head_start)
  unfolding add_keys in_block
  add_keys-eq head_start n k_chunk row key some_keys inside =
      blocks-all k_chunk seq_len_kv (λ key' x. v.add x (chunked key' n head_start)) _
        (λ b mem key'. ground arith) some_keys (cdiv seq_len_kv k_chunk)
        (tiles-cover seq_len_kv k_chunk some_keys) row key
      ∙ rw (lt→ltb key seq_len_kv inside) refl

  abbrev head_chunk : ℕ
  head_chunk = head_chunk_size seq_len seq_len_kv num_heads

  abbrev add_chunk : ℕ → (ℕ → V) → ℕ → V
  add_chunk b =
      let n = min (b * head_chunk + head_chunk) num_heads - b * head_chunk in
      add_keys v head_dim q k_values k_scales weights seq_len seq_len_kv num_heads (b * head_chunk)
        n (k_chunk_size seq_len seq_len_kv n)

  logits-loop :
      (key n b last : ℕ) (row : ℕ → V)
      → key < seq_len_kv
      → b + n ≡ last
      → row key ≡ sum key (min (b * head_chunk) num_heads) 0
      → for_range n b add_chunk row key ≡ sum key (min (last * head_chunk) num_heads) 0
  unfolding for_range
  logits-loop key zero b last row inside e h = let same : last ≡ b = omega arith in rw same h
  logits-loop key (suc n) b last row inside e h =
      let m : ℕ = min (b * head_chunk + head_chunk) num_heads - b * head_chunk in
      logits-loop key n (suc b) last (add_chunk b row) inside (omega arith) (
        add_keys-eq (b * head_chunk) m (k_chunk_size seq_len seq_len_kv m) row key
          (k_chunk_positive seq_len seq_len_kv m) inside
        ∙ ap (λ x. v.add x (chunked key m (b * head_chunk))) h
        ∙ next_heads key head_chunk b)

  -- Chunks of heads and of keys give each key its logit, once.
  pub mqa_logits_lem :
      (clean_logits : Bool) (ks ke key : ℕ)
      → key < seq_len_kv
      → let logit =
          total v
            (λ h.
              head_score v head_dim q k_values k_scales weights seq_len seq_len_kv num_heads h key)
            num_heads
            0 in
        mqa_logits v head_dim q k_values k_scales weights seq_len seq_len_kv num_heads clean_logits
          ks ke key
        ≡ (if clean_logits
            then (if leb ks key && ltb key ke then fin logit else neg_inf)
            else fin logit)
  unfolding mqa_logits clean
  mqa_logits_lem clean_logits ks ke key inside =
      let summed =
        logits-loop key (cdiv num_heads head_chunk) 0 (cdiv num_heads head_chunk) (λ key'. zero_V)
          inside (omega arith) (no_heads key head_chunk)
        ∙ all_heads key head_chunk (head_chunk_positive seq_len seq_len_kv num_heads) in
      rw summed refl

  -- The running top-k is one of the whole row.
  mqa_topk_lem :
      (t : Topk v) (topk_tokens ks ke : ℕ)
      → IsBestRow v
          (λ key.
            let logit =
              total v
                (λ h.
                  head_score v head_dim q k_values k_scales weights seq_len seq_len_kv num_heads h
                    key)
                num_heads
                0 in
            if leb ks key && ltb key ke then fin logit else neg_inf)
          topk_tokens
          seq_len_kv
          (mqa_topk v head_dim q k_values k_scales weights seq_len seq_len_kv num_heads t
            topk_tokens ks ke)
  unfolding mqa_topk topk_round clean
  mqa_topk_lem t topk_tokens ks ke =
      let k_chunk = k_chunk_size seq_len seq_len_kv head_chunk in
      rounds-IsBestRow v _ laws t topk_tokens seq_len_kv k_chunk _
        (λ b lanes.
          ap
            (λ (logits : ℕ → V).
              merge_topk v t topk_tokens
                (tabulate (λ key. if leb ks key && ltb key ke then fin (logits key) else neg_inf)
                  (min (b * k_chunk + k_chunk) seq_len_kv - b * k_chunk) (b * k_chunk))
                (b * k_chunk) lanes)
            (fun_ext (λ key.
              add_heads-eq key head_chunk (head_chunk_positive seq_len seq_len_kv num_heads))))
        (cdiv seq_len_kv k_chunk)
        (tiles-cover seq_len_kv k_chunk (k_chunk_positive seq_len seq_len_kv head_chunk))

  -- With exact arithmetic on weakly ordered logits, for any sizes and where the platform has the
  -- fallback: the entry point reports that it wrote the indices, and they are, by the running
  -- top-k over chunks of heads and of keys, topk_tokens places that name the best keys of the
  -- whole row within the bounds, each once, where none that is left out has a larger logit and no
  -- place is empty while one is left out.
  pub mqa_topk_indices_lem :
      (t : Topk v) (topk_tokens ks ke : ℕ) (topk_indices : List (Option ℕ))
      → let r =
          mqa_topk_indices v head_dim q k_values k_scales weights seq_len seq_len_kv num_heads t
            true topk_tokens ks ke topk_indices in
        (r.0 ≡ true)
        × IsBestRow v
            (λ key.
              let logit =
                total v
                  (λ h.
                    head_score v head_dim q k_values k_scales weights seq_len seq_len_kv num_heads h
                      key)
                  num_heads
                  0 in
              if leb ks key && ltb key ke then fin logit else neg_inf)
            topk_tokens
            seq_len_kv
            r.1
  unfolding mqa_topk_indices
  mqa_topk_indices_lem t topk_tokens ks ke topk_indices = (refl, mqa_topk_lem t topk_tokens ks ke)
