-- ===== src/SparseMla/D512/Chunks.antt =====
-- The D512 entry points: one call, and a loop over chunks of candidates whose states are merged.
use glm_5_2_gb.Common.{
  ℕ, zero, suc, ◌+◌, ◌-◌, ◌*◌, ◌<◌, ◌≤◌, min, true, ◌&&◌, ◌≡◌, inl, inr, refl, ◌++◌, arith, ltb,
  leb, ◌==◌, lt→ltb, if◌then◌else◌, for_range, Option, some, Gives, Gives-weaken, ◌>>=◌,
}
use native.Mathlib.Decide.{dec_le}
use glm_5_2_gb.Common.Int.{ℤ}
use glm_5_2_gb.Float.{Arith, IsExact}
use glm_5_2_gb.Softmax.{Row, State, Candidates, blank}
use glm_5_2_gb.Softmax.Laws.{Holds, blank-Holds}
use glm_5_2_gb.SparseMla.Accumulate.{cdiv}
use glm_5_2_gb.SparseMla.Accumulate.Loop.{candidates, score_of}
use glm_5_2_gb.SparseMla.Accumulate.Chunk.{candidates-chunks}
use glm_5_2_gb.Sm12x.KvCache.Fused.{tiles-cover}
use glm_5_2_gb.SparseMla.D512.Named.{named_row, named_candidates, sizes_positive}
use glm_5_2_gb.SparseMla.D512.Split.{launches-Holds}
use glm_5_2_gb.SparseMla.D512.Merge.{merge_chunk-Holds}
use glm_5_2_gb.SparseMla.D512.{
  BlockSizes, Buffers, sizes_ok, max_candidates, split_launches, accumulate_split, merge_chunk,
  chunk_round, accumulate_chunked,
}

module _ {a : Arith} (laws : IsExact a) (nan : a.W) (head_dim num_heads num_kv_rows : ℕ)
    (scale : a.S) (q kv_flat : ℕ → Row a) (next_power_of_2 : ℕ → ℕ)
    (next_power_of_2-covers : (n : ℕ) → n ≤ next_power_of_2 n) (b : BlockSizes)
    (sizes : sizes_ok b ≡ true) (is_d512 : head_dim ≡ 512) where
  abbrev named : ℕ → (ℕ → ℤ) → ℕ → Candidates a
  named head indices n = named_candidates a head_dim scale num_kv_rows (q head) kv_flat indices n

  -- The assertions hold for at most `max_candidates` candidates.
  accumulate_split-eq :
      (indices : ℕ → ℤ) (num_candidates valid_len : ℕ) (bufs : Buffers a)
      → num_candidates ≤ max_candidates
      → accumulate_split a nan head_dim num_heads num_kv_rows scale q kv_flat indices num_candidates
          valid_len next_power_of_2 b bufs
        ≡ some (
            split_launches a nan head_dim num_heads num_kv_rows scale q kv_flat indices
              num_candidates valid_len next_power_of_2 b bufs)
  unfolding accumulate_split
  accumulate_split-eq indices num_candidates valid_len bufs few =
      let dims : (head_dim == 512) ≡ true = ground arith in
      let fits : leb num_candidates max_candidates ≡ true = ground arith in
      rw (dims, sizes, fits) refl

  -- With 512 dimensions, accepted block sizes and at most 1152 candidates, for any vLLM
  -- next_power_of_2 that is at least its argument, and whatever a NaN is: at every real head the
  -- split D512 launches leave the state of all the candidates below the valid length, in which an
  -- index that is padding or out of range counts as a row of zeros.
  pub accumulate_split-Holds :
      (indices : ℕ → ℤ) (num_candidates valid_len : ℕ) (bufs : Buffers a) (head : ℕ)
      → num_candidates ≤ max_candidates
      → head < num_heads
      → Gives
          (λ r.
            Holds a head_dim
              (named_candidates a head_dim scale num_kv_rows
                (q head)
                kv_flat
                indices
                (min valid_len num_candidates))
              (r.states head))
          (accumulate_split a nan head_dim num_heads num_kv_rows scale q kv_flat indices
            num_candidates valid_len next_power_of_2 b bufs)
  accumulate_split-Holds indices num_candidates valid_len bufs head few real =
      let (some_heads, some_candidates, some_values) = sizes_positive b sizes in
      rw (accumulate_split-eq indices num_candidates valid_len bufs few) (
        launches-Holds laws nan head_dim num_heads num_kv_rows scale q kv_flat indices
          num_candidates valid_len b bufs some_heads some_candidates some_values next_power_of_2
          head (next_power_of_2-covers num_candidates) real)

  module _ (indices : ℕ → ℤ) (num_candidates valid_len chunk_size : ℕ) (some_chunk : 0 < chunk_size)
      (small : chunk_size ≤ max_candidates) where
    abbrev bound : ℕ
    bound = min valid_len num_candidates

    -- What the chunks before the `i`-th one, and the `i`-th one, name.
    abbrev before : ℕ → ℕ → Candidates a
    before head i = named head indices (min bound (i * chunk_size))

    abbrev width : ℕ → ℕ
    width i = min (i * chunk_size + chunk_size) num_candidates - i * chunk_size

    abbrev chunk_len : ℕ → ℕ
    chunk_len i = min (valid_len - i * chunk_size) (width i)

    before-next :
        (head i : ℕ)
        → before head i
            ++ named head (λ c. indices (i * chunk_size + c)) (min (chunk_len i) (width i))
          ≡ before head (suc i)
    unfolding named_candidates
    before-next head i =
        let next : suc i * chunk_size ≡ i * chunk_size + chunk_size = omega arith in
        candidates-chunks a (λ j. true)
          (λ j. score_of a head_dim scale (q head) (named_row a num_kv_rows kv_flat (indices j)))
          (λ j. named_row a num_kv_rows kv_flat (indices j)) (i * chunk_size)
          (min bound (i * chunk_size)) (min (chunk_len i) (width i))
          (min bound (suc i * chunk_size)) (omega arith)
          (elim (dec_le (i * chunk_size) bound) [
            | yes h ↦ inr (omega arith)
            | no h ↦ inl (omega arith)
          ])

    abbrev Result : Type 0
    Result = (ℕ → State a) × Buffers a

    -- Each real head's state holds the candidates of the chunks so far.
    abbrev IsDone : ℕ → (ℕ → State a) → Type 0
    IsDone i running =
        (head : ℕ) → head < num_heads → Holds a head_dim (before head i) (running head)

    abbrev round : ℕ → Option Result → Option Result
    round i r =
        r
        >>= chunk_round a nan head_dim num_heads num_kv_rows scale q kv_flat next_power_of_2 b
            indices num_candidates valid_len chunk_size i

    round-IsDone :
        (i : ℕ) (running : ℕ → State a) (bufs : Buffers a)
        → IsDone i running
        → (r : Result) × (round i (some (running, bufs)) ≡ some r) × IsDone (suc i) r.0
    unfolding chunk_round
    round-IsDone i running bufs done =
        let (some_heads, some_candidates, some_values) = sizes_positive b sizes in
        let indices' : ℕ → ℤ = λ c. indices (i * chunk_size + c) in
        let bufs' =
          split_launches a nan head_dim num_heads num_kv_rows scale q kv_flat indices' (width i)
            (chunk_len i) next_power_of_2 b bufs in
        let running' =
          merge_chunk a nan head_dim num_heads num_kv_rows scale q kv_flat b running bufs'.states in
        (
          (running', bufs'),
          rw (accumulate_split-eq indices' (width i) (chunk_len i) bufs (omega arith)) refl,
          λ head real. rw (← before-next head i) (
              merge_chunk-Holds laws nan head_dim num_heads num_kv_rows scale q kv_flat b running
                bufs'.states head some_heads some_values real (done head real)
                (launches-Holds laws nan head_dim num_heads num_kv_rows scale q kv_flat indices'
                  (width i) (chunk_len i) b bufs some_heads some_candidates some_values
                  next_power_of_2 head (next_power_of_2-covers (width i)) real)),
        )

    rounds-IsDone :
        (n i last : ℕ) (running : ℕ → State a) (bufs : Buffers a)
        → i + n ≡ last
        → IsDone i running
        → Gives (λ r. IsDone last r.0) (for_range n i round (some (running, bufs)))
    unfolding for_range
    rounds-IsDone zero i last running bufs e done =
        let same : last ≡ i = omega arith in rw same done
    rounds-IsDone (suc n) i last running bufs e done =
        let ((running', bufs'), e', done') = round-IsDone i running bufs done in
        rw e' (rounds-IsDone n (suc i) last running' bufs' (omega arith) done')

    -- With 512 dimensions, accepted block sizes and a chunk size from 1 to 1152, for any number of
    -- candidates, any buffers, any vLLM next_power_of_2 that is at least its argument, and
    -- whatever a NaN is: no assertion of a chunk's call fails, and at every real head the chunked
    -- D512 loop leaves what it abstracts from, the state of all the candidates below the valid
    -- length, in which an index that is padding or out of range counts as a row of zeros.
    pub accumulate_chunked-Holds :
        (running : ℕ → State a) (bufs : Buffers a) (head : ℕ)
        → head < num_heads
        → Gives
            (λ r.
              Holds a head_dim
                (named_candidates a head_dim scale num_kv_rows
                  (q head)
                  kv_flat
                  indices
                  (min valid_len num_candidates))
                (r.0 head))
            (accumulate_chunked a nan head_dim num_heads num_kv_rows scale q kv_flat next_power_of_2
              b indices num_candidates valid_len chunk_size running bufs)
    unfolding accumulate_chunked named_candidates candidates
    accumulate_chunked-Holds running bufs head real =
        let dims : (head_dim == 512) ≡ true = ground arith in
        let fits : (ltb 0 chunk_size && leb chunk_size max_candidates) ≡ true = ground arith in
        let n = cdiv num_candidates chunk_size in
        let all = tiles-cover num_candidates chunk_size some_chunk in
        let none : min bound (0 * chunk_size) ≡ 0 = omega arith in
        let every : min bound (n * chunk_size) ≡ bound = omega arith in
        let cleared : ℕ → State a = λ h. if ltb h num_heads then blank a else running h in
        let start : IsDone 0 cleared =
          λ head' real'. rw (lt→ltb head' num_heads real', none) (blank-Holds laws) in
        rw (dims, fits, sizes)
          (Gives-weaken _ (for_range n 0 round (some (cleared, bufs)))
            (rounds-IsDone n 0 n cleared bufs (omega arith) start)
            (λ r done. rw every at (done head real)))
