-- ===== src/Sm12x/KvCache/Fused.antt =====
-- The fused kernel's loop adds the candidates that the indices name below the valid length.
use glm_5_2_gb.Common.{
  ℕ, zero, suc, ◌+◌, ◌-◌, ◌*◌, ◌/◌, ◌<◌, ◌≤◌, min, Bool, true, ◌&&◌, ◌≡◌, refl, ap, ◌∙◌, [], ◌++◌,
  arith, ltb, lt→ltb, ltb→lt, le→not_ltb, if◌then◌else◌, for_range, Bool-cases, inl, inr,
}
use mathlib.Core.Path.{ap₂}
use mathlib.Core.List.{append_assoc, append-nil}
use native.Mathlib.Nat.{lt-div-mul-add}
use glm_5_2_gb.Common.Int.{ℤ}
use glm_5_2_gb.Float.{Arith, IsExact}
use glm_5_2_gb.Softmax.{neg_inf, fin, State, Row, Candidates, blank}
use glm_5_2_gb.Softmax.Laws.{Holds, blank-Holds}
use glm_5_2_gb.SparseMla.Accumulate.{row_of, is_nonneg, is_below, cdiv, mask_row, dot}
use glm_5_2_gb.SparseMla.Accumulate.Loop.{candidates, score_of, mask_row-inside, dot-pad}
use glm_5_2_gb.SparseMla.Accumulate.Chunk.{candidates-add, indexed_candidates}
use glm_5_2_gb.Sm12x.KvCache.{
  Entry, EntryCasts, tile_slot, nope_row, rope_row, entry_row, fused_valid, kv_nope, kv_rope,
  fused_score, fused_tile,
}
use glm_5_2_gb.Sm12x.KvCache.Tile.{tile_update-Holds}
use glm_5_2_gb.Sm12x.KvCache.Candidates.{
  candidates-cut, candidates-same, dot-split, dot-same, fused_valid-eq, tile_slot-eq,
}

-- The tiles cover every candidate.
pub tiles-cover : (n b : ℕ) → 0 < b → n ≤ cdiv n b * b
unfolding cdiv
tiles-cover n b h = let last : n + b - 1 < (n + b - 1) / b * b + b = lt-div-mul-add h in omega arith

module _ {a : Arith} (laws : IsExact a) (casts : EntryCasts a) (e : Entry) (cache : ℕ → ℕ)
    (stride_cache_s : ℕ) where
  open a use {S, E, add_S, mul_S, zero_E}

  abbrev entry : ℕ → Row a
  entry slot = entry_row a casts e cache stride_cache_s slot

  entry-nope :
      (slot d : ℕ) → d < e.nope_dim → nope_row a casts e cache stride_cache_s slot d ≡ entry slot d
  unfolding entry_row
  entry-nope slot d h = rw (lt→ltb d e.nope_dim h) refl

  entry-rope :
      (slot d : ℕ) → rope_row a casts e cache stride_cache_s slot d ≡ entry slot (e.nope_dim + d)
  unfolding entry_row
  entry-rope slot d =
      let back : e.nope_dim + d - e.nope_dim ≡ d = omega arith in
      rw (le→not_ltb (e.nope_dim + d) e.nope_dim (omega arith), back) refl

  -- A masked block of at least the dimensions gives the product of the whole rows.
  part :
      (dim block : ℕ) (q r kv : Row a)
      → dim ≤ block
      → ((d : ℕ) → r d ≡ mask_row a dim kv d)
      → dot a block (mask_row a dim q) r ≡ dot a dim q kv
  part dim block q r kv fits same =
      dot-same laws block (mask_row a dim q) r (mask_row a dim kv) (λ d h. same d)
      ∙ dot-pad laws dim q kv (block - dim) block (omega arith)

  module _ (scale : S) (block_n block_nope block_rope total_slots : ℕ) (indices : ℕ → ℤ)
      (num_candidates valid_len : ℕ) (nope_fits : e.nope_dim ≤ block_nope)
      (rope_fits : e.rope_dim ≤ block_rope) where
    abbrev valid : ℕ → Bool
    valid j = fused_valid total_slots indices num_candidates valid_len j

    abbrev slot : ℕ → ℤ
    slot j = tile_slot num_candidates indices j

    abbrev nope : ℕ → Row a
    nope j =
        kv_nope a casts e cache stride_cache_s scale block_n block_nope block_rope total_slots
          indices num_candidates valid_len j

    abbrev rope : ℕ → Row a
    rope j =
        kv_rope a casts e cache stride_cache_s scale block_n block_nope block_rope total_slots
          indices num_candidates valid_len j

    nope-eq :
        (j d : ℕ) → valid j ≡ true → nope j d ≡ mask_row a e.nope_dim (entry (row_of (slot j))) d
    unfolding kv_nope mask_row
    nope-eq j d v = elim (Bool-cases (ltb d e.nope_dim)) [
      | inl h ↦ rw (v, h) (entry-nope (row_of (slot j)) d (ltb→lt d e.nope_dim h))
      | inr h ↦ rw (v, h) refl
    ]

    rope-eq :
        (j d : ℕ)
        → valid j ≡ true
        → rope j d ≡ mask_row a e.rope_dim (λ d'. entry (row_of (slot j)) (e.nope_dim + d')) d
    unfolding kv_rope mask_row
    rope-eq j d v = elim (Bool-cases (ltb d e.rope_dim)) [
      | inl h ↦ rw (v, h) (entry-rope (row_of (slot j)) d)
      | inr h ↦ rw (v, h) refl
    ]

    abbrev score : Row a → ℤ → S
    score q s = score_of a (e.nope_dim + e.rope_dim) scale q (entry (row_of s))

    fused_score-eq :
        (q : Row a) (j : ℕ)
        → fused_score a casts e cache stride_cache_s scale block_n block_nope block_rope total_slots
            indices num_candidates valid_len q j
          ≡ (if valid j then fin (score q (slot j)) else neg_inf)
    unfolding fused_score score_of
    fused_score-eq q j = elim (Bool-cases (valid j)) [
      | inl v ↦ rw v (
          ap (λ s. fin (mul_S s scale))
            (ap₂ add_S
                (part e.nope_dim block_nope q (nope j) (entry (row_of (slot j))) nope_fits
                  (λ d. nope-eq j d v))
                (part e.rope_dim block_rope (λ d. q (e.nope_dim + d)) (rope j)
                  (λ d. entry (row_of (slot j)) (e.nope_dim + d)) rope_fits (λ d. rope-eq j d v))
              ∙ dot-split laws q (entry (row_of (slot j))) e.nope_dim e.rope_dim))
      | inr v ↦ rw v refl
    ]

    -- What the tiles add, and that is what the indices name.
    abbrev cands : Row a → ℕ → ℕ → Candidates a
    cands q n i = candidates a valid (λ j. score q (slot j)) (λ j. entry (row_of (slot j))) n i

    abbrev tile : Row a → ℕ → State a → State a
    tile q k st =
        fused_tile a casts e cache stride_cache_s scale block_n block_nope block_rope total_slots
          indices num_candidates valid_len q k st

    tile-Holds :
        (q : Row a) (k : ℕ) (xs : Candidates a) (st : State a)
        → Holds a e.nope_dim xs st
        → Holds a e.nope_dim (xs ++ cands q block_n (k * block_n)) (tile q k st)
    unfolding fused_tile
    tile-Holds q k xs st h =
        tile_update-Holds laws valid (λ j. score q (slot j)) _ (fused_score-eq q)
          (λ j. entry (row_of (slot j))) nope e.nope_dim
          (λ j d v inside. nope-eq j d v ∙ mask_row-inside laws (entry (row_of (slot j))) inside)
          block_n (k * block_n) xs st h

    tiles-Holds :
        (q : Row a) (n k : ℕ) (xs : Candidates a) (st : State a)
        → Holds a e.nope_dim xs st
        → Holds a e.nope_dim (xs ++ cands q (n * block_n) (k * block_n)) (for_range n k (tile q) st)
    unfolding for_range candidates
    tiles-Holds q zero k xs st h =
        let none : zero * block_n ≡ 0 = omega arith in rw (none, append-nil) h
    tiles-Holds q (suc n) k xs st h =
        let more : suc n * block_n ≡ block_n + n * block_n = omega arith in
        let next : k * block_n + block_n ≡ suc k * block_n = omega arith in
        rw
          (
            more,
            ← candidates-add a valid (λ j. score q (slot j)) (λ j. entry (row_of (slot j))) block_n
                (n * block_n) (k * block_n) (suc k * block_n) next,
            ← append_assoc,
          )
          (tiles-Holds q n (suc k) (xs ++ cands q block_n (k * block_n)) (tile q k st)
            (tile-Holds q k xs st h))

    cands-indexed :
        (q : Row a) (n : ℕ)
        → num_candidates ≤ n
        → cands q n 0
          ≡ indexed_candidates a
              (e.nope_dim + e.rope_dim)
              scale
              total_slots
              q
              entry
              indices
              (min num_candidates valid_len)
    unfolding indexed_candidates
    cands-indexed q n h =
        candidates-same a valid
          (λ j.
            is_nonneg (indices j)
            && is_below (indices j) total_slots
            && ltb j (min num_candidates valid_len))
          slot indices (score q) (λ s. entry (row_of s))
          (fused_valid-eq total_slots indices num_candidates valid_len)
          (tile_slot-eq total_slots indices num_candidates valid_len) n 0
        ∙ candidates-cut a (λ j. is_nonneg (indices j) && is_below (indices j) total_slots) _ _
            (min num_candidates valid_len) n 0 (min num_candidates valid_len) (omega arith)
            (omega arith)

    -- All the tiles of the kernel, from the blank state.
    pub fused_tiles-Holds :
        (q : Row a)
        → 0 < block_n
        → Holds a e.nope_dim
            (indexed_candidates a
              (e.nope_dim + e.rope_dim)
              scale
              total_slots
              q
              entry
              indices
              (min num_candidates valid_len))
            (for_range (cdiv num_candidates block_n) 0 (tile q) (blank a))
    fused_tiles-Holds q some_width =
        let tiles = cdiv num_candidates block_n in
        let from_zero : 0 * block_n ≡ 0 = omega arith in
        rw (← cands-indexed q (tiles * block_n) (tiles-cover num_candidates block_n some_width))
          (rw from_zero at (tiles-Holds q tiles 0 [] (blank a) (blank-Holds laws)))
