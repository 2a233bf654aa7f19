-- ===== src/Tests/Decode.antt =====
-- The FP8 sparse decode on a cache of four slots, in the tropical arithmetic.
use native.Mathlib.Nat.{le_refl}
use glm_5_2_gb.Common.{
  ℕ, zero, suc, ◌<◌, Bool, [], ◌++◌, if◌then◌else◌, ◌+◌, ◌*◌, ◌%◌, min, true, false, ◌≡◌, refl,
  none, some, Gives, arith,
}
use glm_5_2_gb.Common.Int.{ℤ, pos, negsuc}
use glm_5_2_gb.Float.Tropical.{tropical, tropical-IsExact}
use glm_5_2_gb.Softmax.{Row, neg_inf, fin, blank, log_sum_exp}
use glm_5_2_gb.SparseMla.Accumulate.Chunk.{indexed_candidates}
use glm_5_2_gb.SparseMla.Finish.Laws.{IsAttention}
use glm_5_2_gb.Sm12x.Prefill.{value_dim, sink_of, lens_of}
use glm_5_2_gb.Softmax.Laws.{Holds, blank-Holds}
use glm_5_2_gb.SparseMla.Accumulate.Loop.{candidates}
use glm_5_2_gb.SparseMla.Finish.{maximum}
use glm_5_2_gb.Sm12x.KvCache.Tile.{tile_update-Holds}
use glm_5_2_gb.Sm12x.KvCache.{tile_update, tile_max, EntryCasts, fp8ds_entry, entry_row}
use glm_5_2_gb.Sm12x.Decode.{flash_mla_with_kvcache}
use glm_5_2_gb.Sm12x.Decode.Laws.{flash_mla_with_kvcache_lem, flash_mla_with_kvcache_paths}

abbrev casts : EntryCasts tropical
casts = record {
  fp8 = λ b. some (pos b);
  f32 = λ bits. some (pos bits);
  bf16 = λ low high. some (pos (low + 256 * high));
}

abbrev cache : ℕ → ℕ
cache i = i % 7

abbrev query : ℕ → Row tropical
query head d = some (pos 1)

-- Slot 3, padding, slot 1, an index out of range, then padding.
abbrev picks : ℕ → ℤ
picks zero = pos 3
picks (suc zero) = negsuc 0
picks (suc (suc zero)) = pos 1
picks (suc (suc (suc zero))) = pos 9
picks i = negsuc 0

-- What the memory holds that the gather kernel writes.
abbrev empty : ℕ → Row tropical
empty k d = some (pos 5)

flash_mla_with_kvcache_example :
    let xs =
      indexed_candidates tropical 576
        (pos 1)
        4
        (query 0)
        (entry_row tropical casts fp8ds_entry cache 656)
        picks
        (min 5 (lens_of tropical (some 4) 5)) in
    let r =
      flash_mla_with_kvcache tropical casts
        (λ n. n)
        true
        empty
        1
        query
        cache
        656
        4
        5
        picks
        (pos 1)
        none
        (some 4) in
    Gives (IsAttention tropical value_dim xs (sink_of tropical none 0)) (r.out 0)
    × (r.lse 0 ≡ log_sum_exp tropical xs)
flash_mla_with_kvcache_example =
    flash_mla_with_kvcache_lem tropical-IsExact casts (λ n. n) le_refl 1 query cache 656 4 5 picks
      (pos 1) empty true none (some 4) 0 (omega arith)

flash_mla_with_kvcache_paths_example :
    let run = λ (fused_enabled : Bool).
      flash_mla_with_kvcache tropical casts
        (λ n. n)
        fused_enabled
        empty
        1
        query
        cache
        656
        4
        5
        picks
        (pos 1)
        none
        (some 4) in
    Gives
      (λ o. Gives (λ o'. (d : ℕ) → d < value_dim → o d ≡ o' d) ((run false).out 0))
      ((run true).out 0)
    × ((run true).lse 0 ≡ (run false).lse 0)
flash_mla_with_kvcache_paths_example =
    flash_mla_with_kvcache_paths tropical-IsExact casts (λ n. n) le_refl 1 query cache 656 4 5 picks
      (pos 1) empty none (some 4) 0 (omega arith)

-- Three of four candidates valid, one of the largest score not.
abbrev scores : ℕ → ℤ
scores j = pos (3 * j % 5)

abbrev is_real : ℕ → Bool
is_real zero = true
is_real (suc zero) = true
is_real (suc (suc zero)) = true
is_real j = false

abbrev values : ℕ → Row tropical
values j d = some (pos (j + d))

tile_update_example : Holds tropical 2 ([] ++ candidates tropical is_real scores values 4 0) (
    tile_update tropical 4 0 is_real
      (λ j. if is_real j then fin (scores j) else neg_inf)
      values
      (blank tropical))
tile_update_example =
    tile_update-Holds tropical-IsExact is_real scores _ (λ j. refl) values values 2
      (λ j d v h. refl) 4 0 [] (blank tropical) (blank-Holds tropical-IsExact)

-- The largest score of the valid ones is 3, of the second.
tile_update_run :
    (tile_update tropical 4 0 is_real
      (λ j. if is_real j then fin (scores j) else neg_inf)
      values
      (blank tropical)).max_score
    ≡ fin (pos 3)
unfolding tile_update tile_max maximum blank
tile_update_run = refl
