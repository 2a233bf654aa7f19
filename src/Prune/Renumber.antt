-- ===== src/Prune/Renumber.antt =====
-- Renumbering the kept experts: the dictionary from old to new numbers is the inverse of the keep
-- list.
use glm_5_2_gb.Common.{
  ℕ, zero, suc, ◌+◌, ◌<◌, ◌≡◌, inl, inr, refl, sym, ap, ◌∙◌, arith, Bool, true, false, Option, none,
  some, List, [], ◌∷◌, length, get_or, All, Ordered, ◌==◌, Bool-cases, Option-cases,
}
use glm_5_2_gb.Prune.{old2new}

some-inj : {i k : ℕ} → some i ≡ some k → i ≡ k
some-inj h = cc

none-some : {k : ℕ} → ¬ (none ≡ some k)
none-some h = cc

-- The renumbering is the inverse of the keep list.
old2new-below : (i e : ℕ) (ks : List ℕ) → All (λ k. e < k) ks → old2new i ks e ≡ none
unfolding old2new
old2new-below i e [] h = refl
old2new-below i e (k ∷ ks) h =
    let differs : (k == e) ≡ false = ground arith in
    rw (old2new-below (suc i) e ks h.1, differs) refl

pub old2new-get_or :
    (i : ℕ) (ks : List ℕ) (j : ℕ)
    → Ordered (λ k k'. k < k') ks
    → j < length ks
    → old2new i ks (get_or ks j 0) ≡ some (i + j)
unfolding old2new
old2new-get_or i [] j o h = elim h [ ]
old2new-get_or i (k ∷ ks) zero o h =
    let same : (k == k) ≡ true = ground arith in
    let place : i ≡ i + 0 = omega arith in rw (old2new-below (suc i) k ks o.0, same) (ap some place)
old2new-get_or i (k ∷ ks) (suc j) o h =
    let place : suc i + j ≡ i + suc j = omega arith in
    rw (old2new-get_or (suc i) ks j o.1 (omega arith)) (ap some place)

pub old2new-inverse :
    (i : ℕ) (ks : List ℕ) (e k : ℕ)
    → old2new i ks e ≡ some k
    → (j : ℕ) × (k ≡ i + j) × (j < length ks) × (get_or ks j 0 ≡ e)
unfolding old2new
old2new-inverse i [] e k h = cc
old2new-inverse i (o ∷ ks) e k h = elim (Option-cases (old2new (suc i) ks e)) [
  | inr (k', found) ↦
      let (j, place, inside, here) = old2new-inverse (suc i) ks e k (found ∙ (rw found at h)) in
      (suc j, omega arith, omega arith, here)
  | inl missing ↦ elim (Bool-cases (o == e)) [
    | inl same ↦
        let place : some i ≡ some k = rw (missing, same) at h in
        let eq : i ≡ k = some-inj place in (0, omega arith, omega arith, ground arith)
    | inr differs ↦ absurd (none-some (rw (missing, differs) at h))
  ]
]

abbrev pub is_new : Option ℕ → ℕ → Bool
is_new (some k) j = k == j
is_new none j = false

-- The place of a kept expert is its new number, and of no other expert.
pub renumbered :
    (ks : List ℕ) (e j : ℕ)
    → Ordered (λ k k'. k < k') ks
    → j < length ks
    → (e == get_or ks j 0) ≡ is_new (old2new 0 ks e) j
renumbered ks e j o h = elim (Option-cases (old2new 0 ks e)) [
  | inl missing ↦ rw missing (elim (Bool-cases (e == get_or ks j 0)) [
    | inr differs ↦ differs
    | inl same ↦
        let eq : e ≡ get_or ks j 0 = ground arith in
        let found : old2new 0 ks e ≡ some (0 + j) = rw eq (old2new-get_or 0 ks j o h) in
        absurd (none-some (sym missing ∙ found))
  ])
  | inr (k, found) ↦
      let (place, eq, inside, here) = old2new-inverse 0 ks e k found in
      rw found (elim (Bool-cases (k == j)) [
        | inl same ↦ let at_j : place ≡ j = ground arith in rw (← here, at_j) (ground arith)
        | inr differs ↦ rw differs (elim (Bool-cases (e == get_or ks j 0)) [
          | inr other_place ↦ other_place
          | inl same ↦
              let at_j : e ≡ get_or ks j 0 = ground arith in
              let found' : old2new 0 ks e ≡ some (0 + j) = rw at_j (old2new-get_or 0 ks j o h) in
              let eq' : k ≡ 0 + j = some-inj (sym found ∙ found') in absurd (ground arith)
        ])
      ])
]
