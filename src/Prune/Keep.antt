-- ===== src/Prune/Keep.antt =====
-- The keep list of a fixed set of dropped experts.
use glm_5_2_gb.Common.{
  ℕ, zero, suc, ◌+◌, ◌<◌, Bool, true, false, not, ◌&&◌, ◌||◌, ◌≡◌, refl, ◌∙◌, arith, List, All,
  Ordered, tabulate, ltb, leb, ◌==◌, Bool-cases, inl, inr,
}
use glm_5_2_gb.Prune.{is_in, undropped, fixed_drop_keeplist}

window_empty : (e i : ℕ) (b : Bool) → false ≡ (leb i e && ltb e (i + 0) && b)
window_empty e i b = ground arith

window_all : (e n : ℕ) (b : Bool) → (leb 0 e && ltb e (0 + n) && b) ≡ (ltb e n && b)
window_all e n b = ground arith

-- The window from `i` on, where `i` itself does not count or counts.
window_skip :
    (e i n : ℕ) (b : Bool)
    → (e ≡ i → b ≡ false)
    → (leb (suc i) e && ltb e (suc i + n) && b) ≡ (leb i e && ltb e (i + suc n) && b)
window_skip e i n true h = elim (Bool-cases (e == i)) [
  | inl same ↦ let eq : e ≡ i = ground arith in cc (h eq)
  | inr differs ↦ ground arith
]
window_skip e i n false h = ground arith

window_take :
    (e i n : ℕ) (b : Bool)
    → (e ≡ i → b ≡ true)
    → ((e == i) || (leb (suc i) e && ltb e (suc i + n) && b)) ≡ (leb i e && ltb e (i + suc n) && b)
window_take e i n true h = ground arith
window_take e i n false h = elim (Bool-cases (e == i)) [
  | inl same ↦ let eq : e ≡ i = ground arith in cc (h eq)
  | inr differs ↦ ground arith
]

module _ (drops : List ℕ) where
  abbrev kept : ℕ → ℕ → List ℕ
  kept n i = undropped drops (tabulate (λ e. e) n i)

  kept-above : (b n i : ℕ) → b < i → All (λ k. b < k) (kept n i)
  unfolding undropped
  kept-above b zero i h = tt
  kept-above b (suc n) i h = elim (Bool-cases (is_in i drops)) [
    | inl e ↦ rw e (kept-above b n (suc i) (omega arith))
    | inr e ↦ rw e (h, kept-above b n (suc i) (omega arith))
  ]

  kept-Ordered : (n i : ℕ) → Ordered (λ k k'. k < k') (kept n i)
  unfolding undropped
  kept-Ordered zero i = tt
  kept-Ordered (suc n) i = elim (Bool-cases (is_in i drops)) [
    | inl e ↦ rw e (kept-Ordered n (suc i))
    | inr e ↦ rw e (kept-above i n (suc i) (omega arith), kept-Ordered n (suc i))
  ]

  is_in-kept : (e n i : ℕ) → is_in e (kept n i) ≡ (leb i e && ltb e (i + n) && not (is_in e drops))
  unfolding undropped is_in
  is_in-kept e zero i = window_empty e i (not (is_in e drops))
  is_in-kept e (suc n) i =
      let rest = is_in-kept e n (suc i) in
      elim (Bool-cases (is_in i drops)) [
        | inl d ↦ rw (d, rest) (window_skip e i n (not (is_in e drops)) (λ eq. rw (eq, d) refl))
        | inr k ↦ rw (k, rest) (window_take e i n (not (is_in e drops)) (λ eq. rw (eq, k) refl))
      ]

  -- For any number of experts and any set of dropped ones, the keep list is in strictly ascending
  -- order, and an expert is in it exactly if it is one of the layer's and is not dropped.
  pub fixed_drop_keeplist_lem :
      (num_experts : ℕ)
      → Ordered (λ k k'. k < k') (fixed_drop_keeplist num_experts drops)
        × ((e : ℕ)
            → is_in e (fixed_drop_keeplist num_experts drops)
              ≡ (ltb e num_experts && not (is_in e drops)))
  unfolding fixed_drop_keeplist
  fixed_drop_keeplist_lem num_experts = (
    kept-Ordered num_experts 0,
    λ e. is_in-kept e num_experts 0 ∙ window_all e num_experts (not (is_in e drops)),
  )
