-- ===== src/Sm12x/KvCache/Candidates.antt =====
-- Lists of candidates that a bound cuts off or that equal slots name, and products in two parts.
use glm_5_2_gb.Common.{
  ℕ, zero, suc, ◌+◌, ◌<◌, ◌≤◌, min, Bool, true, false, ◌&&◌, ◌≡◌, refl, sym, ap, ◌∙◌, [], arith,
  ltb, le→not_ltb, Bool-cases, inl, inr,
}
use mathlib.Core.Path.{ap₂}
use native.Mathlib.Decide.{dec_le}
use native.Mathlib.Nat.{add-zero, add-suc}
use glm_5_2_gb.Common.Int.{ℤ}
use glm_5_2_gb.Float.{Arith, IsExact}
use glm_5_2_gb.Softmax.{Row}
use glm_5_2_gb.SparseMla.Accumulate.{is_nonneg, is_below, dot}
use glm_5_2_gb.SparseMla.Accumulate.Loop.{candidates}
use glm_5_2_gb.Sm12x.KvCache.{is_slot, tile_slot, fused_valid}

-- Candidates that a bound cuts off.
pub candidates-past :
    (a : Arith) (valid : ℕ → Bool) (score : ℕ → a.S) (row : ℕ → Row a) (n i b : ℕ)
    → b ≤ i
    → candidates a (λ j. valid j && ltb j b) score row n i ≡ []
unfolding candidates
candidates-past a valid score row zero i b h = refl
candidates-past a valid score row (suc n) i b h =
    let rest = candidates-past a valid score row n (suc i) b (omega arith) in
    elim (Bool-cases (valid i)) [
      | inl v ↦ rw (v, le→not_ltb i b h, rest) refl
      | inr v ↦ rw (v, rest) refl
    ]

pub candidates-cut :
    (a : Arith) (valid : ℕ → Bool) (score : ℕ → a.S) (row : ℕ → Row a) (m n i b : ℕ)
    → m ≤ n
    → i + m ≡ b
    → candidates a (λ j. valid j && ltb j b) score row n i ≡ candidates a valid score row m i
unfolding candidates
candidates-cut a valid score row zero n i b h e =
    candidates-past a valid score row n i b (omega arith)
candidates-cut a valid score row (suc m) zero i b h e = absurd (omega arith)
candidates-cut a valid score row (suc m) (suc n) i b h e =
    let inside : ltb i b ≡ true = ground arith in
    let rest = candidates-cut a valid score row m n (suc i) b (omega arith) (omega arith) in
    elim (Bool-cases (valid i)) [ inl v ↦ rw (v, inside, rest) refl | inr v ↦ rw (v, rest) refl ]

candidates-within :
    (a : Arith) (valid : ℕ → Bool) (score : ℕ → a.S) (row : ℕ → Row a) (n i b : ℕ)
    → i + n ≤ b
    → candidates a (λ j. valid j && ltb j b) score row n i ≡ candidates a valid score row n i
unfolding candidates
candidates-within a valid score row zero i b h = refl
candidates-within a valid score row (suc n) i b h =
    let inside : ltb i b ≡ true = ground arith in
    let rest = candidates-within a valid score row n (suc i) b (omega arith) in
    elim (Bool-cases (valid i)) [ inl v ↦ rw (v, inside, rest) refl | inr v ↦ rw (v, rest) refl ]

-- A bound on the candidates of a list of `n`.
pub candidates-bounded :
    (a : Arith) (valid : ℕ → Bool) (score : ℕ → a.S) (row : ℕ → Row a) (n b : ℕ)
    → candidates a (λ j. valid j && ltb j b) score row n 0
      ≡ candidates a valid score row (min n b) 0
candidates-bounded a valid score row n b = elim (dec_le b n) [
  | yes h ↦
      let cut : min n b ≡ b = omega arith in
      rw cut (candidates-cut a valid score row b n 0 b h (omega arith))
  | no h ↦
      let all : min n b ≡ n = omega arith in
      rw all (candidates-within a valid score row n 0 b (omega arith))
]

module _ {a : Arith} (laws : IsExact a) where
  open a use {S, add_S, prod, zero_S}

  -- A product of rows in two parts.
  pub dot-split :
      (q kv : Row a) (m n : ℕ)
      → add_S (dot a m q kv) (dot a n (λ d. q (m + d)) (λ d. kv (m + d))) ≡ dot a (m + n) q kv
  unfolding dot
  dot-split q kv m zero = rw (add-zero m) (laws.add-zero_S (dot a m q kv))
  dot-split q kv m (suc n) = rw add-suc (
      sym (laws.add_S_assoc (dot a m q kv) _ (prod (q (m + n)) (kv (m + n))))
      ∙ ap (λ s. add_S s (prod (q (m + n)) (kv (m + n)))) (dot-split q kv m n))

  pub dot-same :
      (n : ℕ) (q r r' : Row a) → ((d : ℕ) → d < n → r d ≡ r' d) → dot a n q r ≡ dot a n q r'
  unfolding dot
  dot-same zero q r r' same = refl
  dot-same (suc n) q r r' same =
      ap₂ add_S (dot-same n q r r' (λ d h. same d (omega arith)))
        (ap (prod (q n)) (same n (omega arith)))

-- Candidates by equal slots.
pub candidates-same :
    (a : Arith) (valid valid' : ℕ → Bool) (slot slot' : ℕ → ℤ) (score : ℤ → a.S) (row : ℤ → Row a)
    → ((j : ℕ) → valid j ≡ valid' j)
    → ((j : ℕ) → valid j ≡ true → slot j ≡ slot' j)
    → (n i : ℕ)
    → candidates a valid (λ j. score (slot j)) (λ j. row (slot j)) n i
      ≡ candidates a valid' (λ j. score (slot' j)) (λ j. row (slot' j)) n i
unfolding candidates
candidates-same a valid valid' slot slot' score row same named zero i = refl
candidates-same a valid valid' slot slot' score row same named (suc n) i =
    let rest = candidates-same a valid valid' slot slot' score row same named n (suc i) in
    elim (Bool-cases (valid i)) [
      | inl v ↦ rw (← same i, v, named i v, rest) refl
      | inr v ↦ rw (← same i, v, rest) refl
    ]

module _ (total_slots : ℕ) (indices : ℕ → ℤ) (num_candidates valid_len : ℕ) where
  and-false : (b : Bool) → (b && false) ≡ false
  and-false true = refl
  and-false false = refl

  false-neq : ¬ (false ≡ true)
  false-neq h = cc

  pub fused_valid-eq :
      (j : ℕ)
      → fused_valid total_slots indices num_candidates valid_len j ≡ (
          is_nonneg (indices j)
          && is_below (indices j) total_slots
          && ltb j (min num_candidates valid_len))
  unfolding fused_valid tile_slot is_slot is_nonneg
  fused_valid-eq j = elim (Bool-cases (ltb j num_candidates)) [
    | inl h ↦
        let bound : ltb j valid_len ≡ ltb j (min num_candidates valid_len) = ground arith in
        rw (h, bound) refl
    | inr h ↦
        let bound : ltb j (min num_candidates valid_len) ≡ false = ground arith in
        rw (h, bound) (sym (and-false _))
  ]

  pub tile_slot-eq :
      (j : ℕ)
      → fused_valid total_slots indices num_candidates valid_len j ≡ true
      → tile_slot num_candidates indices j ≡ indices j
  unfolding fused_valid tile_slot is_slot is_nonneg
  tile_slot-eq j v = elim (Bool-cases (ltb j num_candidates)) [
    | inl h ↦ rw h refl
    | inr h ↦ absurd (false-neq (rw h at v))
  ]
