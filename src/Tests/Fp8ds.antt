-- ===== src/Tests/Fp8ds.antt =====
-- The fp8_ds_mla kernels on a cache with pages of two tokens, in the tropical arithmetic.
use native.Mathlib.Nat.{le_refl}
use glm_5_2_gb.Common.{
  ℕ, zero, suc, ◌+◌, ◌-◌, ◌*◌, ◌%◌, ◌<◌, true, ◌≡◌, refl, some, [], ◌++◌, Gives, arith,
}
use glm_5_2_gb.Common.Int.{ℤ, pos, negsuc}
use glm_5_2_gb.Float.Tropical.{tropical, tropical-IsExact}
use glm_5_2_gb.Softmax.{Logit, fin, Row, blank}
use glm_5_2_gb.Softmax.Laws.{Holds, blank-Holds}
use glm_5_2_gb.SparseMla.Accumulate.{local_eff}
use glm_5_2_gb.SparseMla.Finish.Laws.{IsAttention}
use glm_5_2_gb.SparseMla.Fp8ds.{Layout, Casts, token_scale_ptr}
use glm_5_2_gb.SparseMla.Fp8ds.Laws.{slot_candidates, window_candidates}
use glm_5_2_gb.SparseMla.Fp8ds.Entries.{
  token_layout, is_head_block, decode_head_block_size, global_slots_entry,
  global_slots_multihead_entry, paged_entry, paged_multihead_entry, active_or_out_heads,
  paged_with_sink_entry, global_paged_with_sink_entry,
}
use glm_5_2_gb.SparseMla.Fp8ds.Entries.Slots.{global_slots_entries, paged_entries}
use glm_5_2_gb.SparseMla.Fp8ds.Entries.Sinks.{
  decode_head_block_size_lem, paged_with_sink_entry-IsAttention,
  global_paged_with_sink_entry-IsAttention,
}
use glm_5_2_gb.SparseMla.Fp8ds.Entries.Passes.{passes_agree}
use glm_5_2_gb.SparseMla.Finish.Entries.{finish_two_entry}
use glm_5_2_gb.SparseMla.Fp8ds.Pages.{token_scale, token_ptrs_unique}
use glm_5_2_gb.SparseMla.Fp8ds.Global.Laws.{compressed_candidates, swa_candidates}

-- Two tokens to a page: 2 fp8 bytes and one bf16 of data, and one scale byte, each.
abbrev layout : Layout
layout = record {
  cache_block_size = 2;
  token_data_size = 4;
  block_stride = 10;
  fp8_dim = 2;
  scale_dim = 1;
  quant_block = 2;
}

abbrev casts : Casts tropical
casts = record {
  fp8 = λ b. some (pos b);
  exp2_less_127 = λ b. some (pos b);
  bf16 = λ low high. some (pos (low + 256 * high));
}

abbrev cache : ℕ → ℕ
cache i = i % 7

abbrev query : ℕ → Row tropical
query head d = some (pos 1)

-- Slot 3, padding, slot 0, then padding.
abbrev slots : ℕ → ℤ
slots zero = pos 3
slots (suc zero) = negsuc 0
slots (suc (suc zero)) = pos 0
slots i = negsuc 0

-- The sequence's pages in reverse.
abbrev block_table : ℕ → ℕ
block_table zero = 2
block_table (suc zero) = 1
block_table i = 0

abbrev sinks : ℕ → Logit ℤ
sinks head = fin (pos 2)

four_accepted : is_head_block 4 ≡ true
unfolding is_head_block
four_accepted = refl

global_slots_entries_example :
    Gives
      (λ sts'.
        Holds tropical 512
          ([]
            ++ slot_candidates tropical casts
                (token_layout 2 1200)
                cache
                512
                (pos 1)
                (query 5)
                slots
                (local_eff 4 3 0))
          (sts' 5))
      (global_slots_entry tropical casts
        (λ n. n)
        (pos 1)
        512
        8
        query
        6
        2
        1200
        cache
        slots
        3
        4
        0
        (λ head. blank tropical))
    × (global_slots_multihead_entry tropical casts
          (λ n. n)
          (pos 1)
          512
          8
          query
          6
          2
          1200
          cache
          slots
          3
          4
          0
          4
          (λ head. blank tropical)
        ≡ global_slots_entry tropical casts
            (λ n. n)
            (pos 1)
            512
            8
            query
            6
            2
            1200
            cache
            slots
            3
            4
            0
            (λ head. blank tropical))
global_slots_entries_example =
    global_slots_entries tropical-IsExact casts (λ n. n) le_refl (pos 1) 8 query 6 (omega arith) 2
      1200 cache slots 3 4 0 4 (λ head. blank tropical) 5 [] four_accepted (omega arith)
      (blank-Holds tropical-IsExact)

paged_entries_example :
    Gives
      (λ sts'.
        Holds tropical 512
          ([]
            ++ window_candidates tropical casts
                (token_layout 2 1200)
                cache
                512
                (pos 1)
                (query 5)
                block_table
                (5 + 1 - 3)
                (local_eff 2 3 1))
          (sts' 5))
      (paged_entry tropical casts
        (λ n. n)
        (pos 1)
        512
        8
        query
        6
        2
        1200
        cache
        block_table
        5
        3
        2
        1
        (λ head. blank tropical))
    × (paged_multihead_entry tropical casts
          (λ n. n)
          (pos 1)
          512
          8
          query
          6
          2
          1200
          cache
          block_table
          5
          3
          2
          1
          4
          (λ head. blank tropical)
        ≡ paged_entry tropical casts
            (λ n. n)
            (pos 1)
            512
            8
            query
            6
            2
            1200
            cache
            block_table
            5
            3
            2
            1
            (λ head. blank tropical))
paged_entries_example =
    paged_entries tropical-IsExact casts (λ n. n) le_refl (pos 1) 8 query 6 (omega arith) 2 1200
      cache block_table 5 3 2 1 4 (λ head. blank tropical) 5 [] four_accepted (omega arith)
      (omega arith) (blank-Holds tropical-IsExact)

paged_with_sink_example :
    Gives
      (λ rows.
        Gives
          (IsAttention tropical 512
            (window_candidates tropical casts
              (token_layout 2 1200)
              cache
              512
              (pos 1)
              (query 5)
              block_table
              (5 + 0 - 3)
              (local_eff 3 3 0))
            (sinks 5))
          (rows 5))
      (paged_with_sink_entry tropical casts
        (λ n. n)
        (pos 1)
        512
        8
        query
        2
        1200
        cache
        block_table
        5
        3
        3
        0
        6
        7
        sinks
        4
        (some 6)
        query)
unfolding active_or_out_heads
paged_with_sink_example =
    paged_with_sink_entry-IsAttention tropical-IsExact casts (λ n. n) le_refl (pos 1) 8 query 6 7
      sinks 4 four_accepted (some 6) 2 1200 cache block_table 5 3 3 0 query 5 (omega arith)
      (omega arith) (omega arith) (omega arith) (omega arith)

global_paged_with_sink_example :
    Gives
      (λ rows.
        Gives
          (IsAttention tropical 512
            (compressed_candidates tropical casts
                (token_layout 2 1200)
                cache
                4
                2400
                cache
                512
                (pos 1)
                (query 5)
                slots
                3
                4
              ++ swa_candidates tropical casts
                  (token_layout 2 1200)
                  cache
                  4
                  2400
                  cache
                  512
                  (pos 1)
                  (query 5)
                  block_table
                  5
                  3
                  4)
            (sinks 5))
          (rows 5))
      (global_paged_with_sink_entry tropical casts
        (λ n. n)
        (pos 1)
        512
        8
        query
        2
        1200
        4
        2400
        cache
        cache
        slots
        3
        block_table
        5
        3
        4
        4
        6
        7
        sinks
        4
        (some 6)
        query)
unfolding active_or_out_heads
global_paged_with_sink_example =
    global_paged_with_sink_entry-IsAttention tropical-IsExact casts (λ n. n) le_refl (pos 1) 8 query
      6 7 sinks 4 four_accepted (some 6) 2 1200 4 2400 cache cache slots 3 block_table 5 3 4 4 query
      5 (omega arith) (omega arith) (omega arith) (omega arith) (omega arith)

passes_agree_example :
    Gives
      (λ compressed.
        Gives
          (λ window.
            Gives
              (λ rows.
                Gives
                  (λ r. Gives (λ r'. (d : ℕ) → d < 512 → r d ≡ r' d) (rows 5))
                  (finish_two_entry tropical (λ n. n) 6 512 compressed window sinks query 5))
              (global_paged_with_sink_entry tropical casts
                (λ n. n)
                (pos 1)
                512
                8
                query
                2
                1200
                4
                2400
                cache
                cache
                slots
                3
                block_table
                5
                3
                4
                4
                6
                7
                sinks
                4
                (some 6)
                query))
          (paged_entry tropical casts
            (λ n. n)
            (pos 1)
            512
            8
            query
            6
            4
            2400
            cache
            block_table
            5
            3
            4
            0
            (λ head. blank tropical)))
      (global_slots_entry tropical casts
        (λ n. n)
        (pos 1)
        512
        8
        query
        6
        2
        1200
        cache
        slots
        3
        4
        0
        (λ head. blank tropical))
passes_agree_example =
    passes_agree tropical-IsExact casts (λ n. n) le_refl (pos 1) 8 query 6 7 sinks 4 four_accepted 6
      (omega arith) 2 1200 4 2400 cache cache slots 3 block_table 5 3 4 4 query 5 (omega arith)
      (omega arith) (omega arith) (omega arith)

decode_head_block_size_example : is_head_block (decode_head_block_size (some (pos 3)) 9) ≡ true
decode_head_block_size_example = decode_head_block_size_lem (some (pos 3)) 9

-- The last scale byte of page 1, at its address in the cache.
token_ptrs_example :
    (token_scale ≡ token_scale) × (◌≡◌ {A = ℕ} 1 1) × (◌≡◌ {A = ℕ} 1 1) × (◌≡◌ {A = ℕ} 0 0)
unfolding token_scale_ptr
token_ptrs_example =
    token_ptrs_unique layout token_scale token_scale 1 1 0 1 1 0 (omega arith) (omega arith)
      (omega arith) (omega arith) (omega arith) refl
