-- ===== src/SparseMla/Accumulate/Chunk.antt =====
-- What the accumulating kernels add to a state, and runs over consecutive chunks of candidates.
use glm_5_2_gb.Common.{
  ℕ, zero, suc, ◌+◌, ◌≤◌, Bool, true, ◌&&◌, ◌≡◌, ◌⊎◌, refl, ◌++◌, arith, Option, none, some,
  if◌then◌else◌, Bool-cases, inl, inr,
}
use mathlib.Core.List.{append_assoc, append-nil}
use native.Mathlib.Decide.{dec_le}
use native.Mathlib.Nat.{zero-add}
use Prim.Native.Nat.add
use glm_5_2_gb.Common.Int.{ℤ}
use glm_5_2_gb.Float.{Arith, IsExact}
use glm_5_2_gb.Softmax.{State, Row, Candidates}
use glm_5_2_gb.Softmax.Laws.{Holds}
use glm_5_2_gb.SparseMla.Accumulate.{
  is_nonneg, is_below, row_of, local_eff, accumulate_gathered_attention_chunk,
  accumulate_indexed_attention_chunk, gathered_body, indexed_body, visit,
}
use glm_5_2_gb.SparseMla.Accumulate.Loop.{candidates, score_of, kernel-Holds}

-- The candidates that the indices name: those that are neither padding nor out of range.
unfoldable pub indexed_candidates :
    (a : Arith) → ℕ → a.S → ℕ → Row a → (ℕ → Row a) → (ℕ → ℤ) → ℕ → Candidates a
indexed_candidates a head_dim scale num_kv_rows q kv_flat indices n =
    candidates a (λ i. is_nonneg (indices i) && is_below (indices i) num_kv_rows)
      (λ i. score_of a head_dim scale q (kv_flat (row_of (indices i))))
      (λ i. kv_flat (row_of (indices i))) n 0

-- The gathered candidates whose slot is not padding.
unfoldable pub gathered_valid : Option (ℕ → ℤ) → ℕ → Bool
gathered_valid none i = true
gathered_valid (some slot_ids) i = is_nonneg (slot_ids i)

module _ (a : Arith) where
  pub candidates-add :
      (valid : ℕ → Bool) (score : ℕ → a.S) (row : ℕ → Row a) (m n i j : ℕ)
      → i + m ≡ j
      → candidates a valid score row m i ++ candidates a valid score row n j
        ≡ candidates a valid score row (m + n) i
  unfolding candidates
  candidates-add valid score row zero n i j e =
      let here : j ≡ i = omega arith in rw (here, zero-add n)
  candidates-add valid score row (suc m) n i j e = rw (add.suc m n) (elim (Bool-cases (valid i)) [
    | inl v ↦ rw (v, candidates-add valid score row m n (suc i) j (omega arith)) refl
    | inr v ↦ rw (v, candidates-add valid score row m n (suc i) j (omega arith)) refl
  ])

  pub candidates-shift :
      (valid : ℕ → Bool) (score : ℕ → a.S) (row : ℕ → Row a) (k n i j : ℕ)
      → k + i ≡ j
      → candidates a (λ l. valid (k + l)) (λ l. score (k + l)) (λ l. row (k + l)) n i
        ≡ candidates a valid score row n j
  unfolding candidates
  candidates-shift valid score row k zero i j e = refl
  candidates-shift valid score row k (suc n) i j e =
      rw (e, candidates-shift valid score row k n (suc i) (suc j) (omega arith)) refl

  -- The first `p` candidates and, if these are `m`, the `n` from there on.
  pub candidates-chunks :
      (valid : ℕ → Bool) (score : ℕ → a.S) (row : ℕ → Row a) (m p n r : ℕ)
      → p + n ≡ r
      → (n ≡ 0) ⊎ (p ≡ m)
      → candidates a valid score row p 0
          ++ candidates a (λ l. valid (m + l)) (λ l. score (m + l)) (λ l. row (m + l)) n 0
        ≡ candidates a valid score row r 0
  unfolding candidates
  candidates-chunks valid score row m p n r sum (inl e) =
      let same : p ≡ r = omega arith in rw (e, same, append-nil) refl
  candidates-chunks valid score row m p n r sum (inr e) =
      rw (candidates-shift valid score row m n 0 p (omega arith), ← sum)
        (candidates-add valid score row p n 0 p (omega arith))

module _ {a : Arith} (laws : IsExact a) (head_dim block_d : ℕ) (fits : head_dim ≤ block_d)
    (scale : a.S) where
  -- Reading gathered rows, the kernel adds the candidates below the valid length, of those whose
  -- slot is not negative if there are slots, to the ones that its state stands for.
  pub gathered-Holds :
      (q : Row a) (kv : ℕ → Row a) (slot_ids : Option (ℕ → ℤ)) (valid_len num_candidates offset : ℕ)
      (xs : Candidates a) (st : State a)
      → Holds a head_dim xs st
      → Holds a head_dim
          (xs
            ++ candidates a
                (gathered_valid slot_ids)
                (λ i. score_of a head_dim scale q (kv i))
                kv
                (local_eff num_candidates valid_len offset)
                0)
          (accumulate_gathered_attention_chunk a head_dim block_d scale q kv slot_ids valid_len
            num_candidates offset st)
  unfolding accumulate_gathered_attention_chunk gathered_body gathered_valid
  gathered-Holds q kv slot_ids valid_len num_candidates offset xs st h =
      kernel-Holds laws head_dim block_d scale q kv (gathered_valid slot_ids) _ fits
        (body-eq slot_ids) _ xs st h
    where
      body-eq :
          (slot_ids : Option (ℕ → ℤ)) (i : ℕ) (st : State a)
          → gathered_body a head_dim block_d scale q kv slot_ids i st
            ≡ (if gathered_valid slot_ids i then visit a head_dim block_d scale q (kv i) st else st)
      body-eq none i st = refl
      body-eq (some s) i st = refl

  -- With rows no wider than the block (head_dim at most block_d): reading rows by an index, the
  -- kernel adds the chunk's candidates that, counted from the offset on, are below the valid
  -- length and whose index is a row of the cache, and no other, to the ones that its state stands
  -- for; the invariant says that the denominator and accumulator are the candidates' sums relative
  -- to the running maximum, and that the maximum is theirs.
  pub indexed-Holds :
      (num_kv_rows : ℕ) (q : Row a) (kv_flat : ℕ → Row a) (indices : ℕ → ℤ)
      (valid_len num_candidates offset : ℕ) (xs : Candidates a) (st : State a)
      → Holds a head_dim xs st
      → Holds a head_dim
          (xs
            ++ indexed_candidates a head_dim scale num_kv_rows q kv_flat indices
                (local_eff num_candidates valid_len offset))
          (accumulate_indexed_attention_chunk a head_dim block_d scale num_kv_rows q kv_flat indices
            valid_len num_candidates offset st)
  unfolding accumulate_indexed_attention_chunk indexed_candidates indexed_body
  indexed-Holds num_kv_rows q kv_flat indices valid_len num_candidates offset xs st h =
      kernel-Holds laws head_dim block_d scale q (λ i. kv_flat (row_of (indices i)))
        (λ i. is_nonneg (indices i) && is_below (indices i) num_kv_rows) _ fits (λ i st'. refl) _ xs
        st h

  local_eff-add :
      (m n len : ℕ)
      → (local_eff m len 0 + local_eff n len m ≡ local_eff (m + n) len 0)
        × ((local_eff n len m ≡ 0) ⊎ (local_eff m len 0 ≡ m))
  unfolding local_eff
  local_eff-add m n len = elim (dec_le len m) [
    | yes h ↦ (omega arith, inl (omega arith))
    | no h ↦ (omega arith, inr (omega arith))
  ]

  -- With rows no wider than the block (head_dim at most block_d): two calls on consecutive chunks
  -- of candidates, the second with the first's length for its offset, add to the candidates that
  -- the state stands for the same ones that one call on both chunks adds: those below the valid
  -- length whose index is a row of the cache.
  pub indexed_chunks-Holds :
      (num_kv_rows : ℕ) (q : Row a) (kv_flat : ℕ → Row a) (indices : ℕ → ℤ) (valid_len m n : ℕ)
      (xs : Candidates a) (st : State a)
      → Holds a head_dim xs st
      → Holds a head_dim
          (xs
            ++ indexed_candidates a head_dim scale num_kv_rows q kv_flat indices
                (local_eff (m + n) valid_len 0))
          (accumulate_indexed_attention_chunk a head_dim block_d scale num_kv_rows q kv_flat
            (λ i. indices (m + i))
            valid_len
            n
            m
            (accumulate_indexed_attention_chunk a head_dim block_d scale num_kv_rows q kv_flat
              indices valid_len m 0 st))
  unfolding indexed_candidates
  indexed_chunks-Holds num_kv_rows q kv_flat indices valid_len m n xs st h =
      let (sum, ends) = local_eff-add m n valid_len in
      rw
        (
          ← candidates-chunks a _ _ _ m (local_eff m valid_len 0) (local_eff n valid_len m) _ sum
              ends,
          ← append_assoc,
        )
        (indexed-Holds num_kv_rows q kv_flat (λ i. indices (m + i)) valid_len n m _ _
          (indexed-Holds num_kv_rows q kv_flat indices valid_len m 0 xs st h))
