-- ===== src/Indexer/Counts.antt =====
-- Counting the elements that pass a test: a selection of as many elements as all pass it passes it.
use mathlib.Core.Logic.{∥∥₁_elim}
use mathlib.Core.List.{Perm, Permᴰ}
use native.Mathlib.Nat.{ℕ_set}
use glm_5_2_gb.Common.{
  ℕ, ◌+◌, ◌≤◌, Bool, true, ◌≡◌, ◌⊎◌, inl, inr, refl, sym, ◌∙◌, List, [], ◌∷◌, ◌++◌, map, length,
  All, arith, if◌then◌else◌, Bool-cases,
}
use glm_5_2_gb.Common.Permutations.{length-perm}

module _ {X : Type 0} where
  pub All-weaken : (P Q : X → Type 0) (xs : List X) → ((x : X) → P x → Q x) → All P xs → All Q xs
  All-weaken P Q [] f h = tt
  All-weaken P Q (x ∷ xs) f h = (f x h.0, All-weaken P Q xs f h.1)

  pub All-append : (P : X → Type 0) (xs ys : List X) → All P xs → All P ys → All P (xs ++ ys)
  All-append P [] ys h h' = h'
  All-append P (x ∷ xs) ys h h' = (h.0, All-append P xs ys h.1 h')

  pub All_every : (P : X → Type 0) (xs : List X) → ((x : X) → P x) → All P xs
  All_every P [] f = tt
  All_every P (x ∷ xs) f = (f x, All_every P xs f)

  pub All-right : (P : X → Type 0) (xs ys : List X) → All P (xs ++ ys) → All P ys
  All-right P [] ys h = h
  All-right P (x ∷ xs) ys h = All-right P xs ys h.1

module _ {X Y : Type 0} where
  pub All-map :
      (P : Y → Type 0) (f : X → Y) (xs : List X) → All (λ x. P (f x)) xs → All P (map f xs)
  All-map P f [] h = tt
  All-map P f (x ∷ xs) h = (h.0, All-map P f xs h.1)

module _ {X : Type 0} (p : X → Bool) where
  abbrev Passes : X → Type 0
  Passes x = p x ≡ true

  abbrev count : List X → ℕ
  count [] = 0
  count (x ∷ xs) = (if p x then 1 else 0) + count xs

  count-append : (xs ys : List X) → count (xs ++ ys) ≡ count xs + count ys
  count-append [] ys = omega arith
  count-append (x ∷ xs) ys = omega (arith, count-append xs ys)

  count-Permᴰ : {xs ys : List X} → Permᴰ xs ys → count xs ≡ count ys
  count-Permᴰ Permᴰ.nil = refl
  count-Permᴰ (Permᴰ.cons e d) = rw (e, count-Permᴰ d) refl
  count-Permᴰ (Permᴰ.swap e e') = rw (e, e') (omega arith)
  count-Permᴰ (Permᴰ.trans d d') = count-Permᴰ d ∙ count-Permᴰ d'

  count-perm : (xs ys : List X) → Perm xs ys → count xs ≡ count ys
  count-perm xs ys h = ∥∥₁_elim h (ℕ_set (count xs) (count ys)) count-Permᴰ

  count_le : (xs : List X) → count xs ≤ length xs
  count_le [] = omega arith
  count_le (x ∷ xs) = elim (Bool-cases (p x)) [
    | inl e ↦ rw e (omega (arith, count_le xs))
    | inr e ↦ rw e (omega (arith, count_le xs))
  ]

  count_all : (xs : List X) → All Passes xs → count xs ≡ length xs
  count_all [] h = refl
  count_all (x ∷ xs) h = rw (h.0, count_all xs h.1) (omega arith)

  all_counted : (xs : List X) → count xs ≡ length xs → All Passes xs
  all_counted [] h = tt
  all_counted (x ∷ xs) h = elim (Bool-cases (p x)) [
    | inl e ↦ (e, all_counted xs (let h' = rw e at h in omega arith))
    | inr e ↦ absurd (let h' = rw e at h in omega (arith, count_le xs))
  ]

  pub Passes-perm : (xs ys : List X) → Perm xs ys → All Passes ys → All Passes xs
  Passes-perm xs ys same h =
      all_counted xs (count-perm xs ys same ∙ count_all ys h ∙ sym (length-perm xs ys same))

  -- Each kept element passes if one that was left out does.
  abbrev Separates : List X → List X → Type 0
  Separates kept left = All (λ x. All (λ y. Passes y → Passes x) left) kept

  dichotomy : (kept left : List X) → Separates kept left → (count left ≡ 0) ⊎ All Passes kept
  dichotomy kept [] h = inl refl
  dichotomy kept (y ∷ left) h = elim (Bool-cases (p y)) [
    | inl e ↦ inr (All-weaken _ _ kept (λ x h'. h'.0 e) h)
    | inr e ↦ elim (dichotomy kept left (All-weaken _ _ kept (λ x h'. h'.1) h)) [
      | inl none ↦ inl (rw (e, none) (omega arith))
      | inr all ↦ inr all
    ]
  ]

  -- As many elements are kept as a part of all of them has, which passes: so they pass.
  pub kept_pass :
      (kept left xs ys : List X)
      → Perm (kept ++ left) (xs ++ ys)
      → length kept ≡ length xs
      → All Passes xs
      → Separates kept left
      → All Passes kept
  kept_pass kept left xs ys same size passing separate = elim (dichotomy kept left separate) [
    | inr all ↦ all
    | inl none ↦
        let total : count kept + count left ≡ count xs + count ys =
          sym (count-append kept left)
          ∙ count-perm (kept ++ left) (xs ++ ys) same
          ∙ count-append xs ys in
        let many = count_all xs passing in all_counted kept (omega (arith, count_le kept))
  ]
