-- ===== src/Indexer/Totals.antt =====
-- Sums taken apart: by blocks, and with terms past the end that are zero.
use glm_5_2_gb.Common.{
  ℕ, zero, suc, ◌+◌, ◌-◌, ◌*◌, ◌<◌, ◌≤◌, ◌≡◌, refl, sym, ap, ◌∙◌, arith, for_range,
}
use mathlib.Core.Path.{ap₂}
use native.Mathlib.Nat.{zero-add}
use Prim.Native.Nat.add
use glm_5_2_gb.Indexer.{Values, IsExactSum, total, dot}

module _ {v : Values} (laws : IsExactSum v) where
  open v use {V, zero_V}

  pub total-add :
      (f : ℕ → V) (m n i j : ℕ)
      → i + m ≡ j
      → v.add (total v f m i) (total v f n j) ≡ total v f (m + n) i
  unfolding total
  total-add f zero n i j e =
      let here : j ≡ i = omega arith in rw (here, zero-add n) (laws.zero-add (total v f n i))
  total-add f (suc m) n i j e = rw (add.suc m n) (
      laws.add_assoc (f i) (total v f m (suc i)) (total v f n j)
      ∙ ap (v.add (f i)) (total-add f m n (suc i) j (omega arith)))

  pub total-on :
      (f g : ℕ → V) (n i : ℕ)
      → ((j : ℕ) → i ≤ j → j < i + n → f j ≡ g j)
      → total v f n i ≡ total v g n i
  unfolding total
  total-on f g zero i same = refl
  total-on f g (suc n) i same =
      ap₂ v.add (same i (omega arith) (omega arith))
        (total-on f g n (suc i) (λ j h h'. same j (omega arith) (omega arith)))

  total-zero : (f : ℕ → V) (n i : ℕ) → ((j : ℕ) → i ≤ j → f j ≡ zero_V) → total v f n i ≡ zero_V
  unfolding total
  total-zero f zero i none = refl
  total-zero f (suc n) i none =
      ap₂ v.add (none i (omega arith)) (total-zero f n (suc i) (λ j h. none j (omega arith)))
      ∙ laws.zero-add zero_V

  -- Terms past the end.
  pub total-pad :
      (f g : ℕ → V) (n bound : ℕ)
      → bound ≤ n
      → ((j : ℕ) → j < bound → f j ≡ g j)
      → ((j : ℕ) → bound ≤ j → f j ≡ zero_V)
      → total v f n 0 ≡ total v g bound 0
  total-pad f g n bound h same none =
      let all : bound + (n - bound) ≡ n = omega arith in
      ap (λ m. total v f m 0) (sym all)
      ∙ sym (total-add f bound (n - bound) 0 bound (omega arith))
      ∙ ap (v.add (total v f bound 0)) (total-zero f (n - bound) bound none)
      ∙ laws.add-zero (total v f bound 0)
      ∙ total-on f g bound 0 (λ j _ h'. same j (omega arith))

  pub total-mul :
      (f : ℕ → V) (s : V) (n i : ℕ) → v.mul (total v f n i) s ≡ total v (λ j. v.mul (f j) s) n i
  unfolding total
  total-mul f s zero i = laws.zero-mul s
  total-mul f s (suc n) i =
      laws.add-mul (f i) (total v f n (suc i)) s
      ∙ ap (v.add (v.mul (f i) s)) (total-mul f s n (suc i))

  -- A loop that adds a block at a time.
  blocks-total :
      (f : ℕ → V) (width n b : ℕ) (acc : V)
      → for_range n b (λ b' x. v.add x (total v f width (b' * width))) acc
        ≡ v.add acc (total v f (n * width) (b * width))
  unfolding for_range total
  blocks-total f width zero b acc =
      let none : zero * width ≡ 0 = omega arith in rw none (sym (laws.add-zero acc))
  blocks-total f width (suc n) b acc =
      let more : width + n * width ≡ suc n * width = omega arith in
      let next : b * width + width ≡ suc b * width = omega arith in
      blocks-total f width n (suc b) (v.add acc (total v f width (b * width)))
      ∙ laws.add_assoc acc (total v f width (b * width)) (total v f (n * width) (suc b * width))
      ∙ ap (v.add acc) (
          total-add f width (n * width) (b * width) (suc b * width) next
          ∙ ap (λ m. total v f m (b * width)) more)

  -- Blocks that cover the terms, with zeros past the end.
  pub covering-total :
      (f g : ℕ → V) (width blocks bound : ℕ)
      → bound ≤ blocks * width
      → ((j : ℕ) → j < bound → f j ≡ g j)
      → ((j : ℕ) → bound ≤ j → f j ≡ zero_V)
      → for_range blocks 0 (λ b x. v.add x (total v f width (b * width))) zero_V ≡ total v g bound 0
  covering-total f g width blocks bound cover same none =
      let from_zero : 0 * width ≡ 0 = omega arith in
      blocks-total f width blocks 0 zero_V
      ∙ laws.zero-add _
      ∙ ap (total v f (blocks * width)) from_zero
      ∙ total-pad f g (blocks * width) bound cover same none

  -- A loop that adds a term at a time.
  each-total :
      (f : ℕ → V) (n b : ℕ) (acc : V)
      → for_range n b (λ b' x. v.add x (f b')) acc ≡ v.add acc (total v f n b)
  unfolding for_range total
  each-total f zero b acc = sym (laws.add-zero acc)
  each-total f (suc n) b acc =
      each-total f n (suc b) (v.add acc (f b)) ∙ laws.add_assoc acc (f b) (total v f n (suc b))

  pub loop-total :
      (f g : ℕ → V) (n : ℕ)
      → ((j : ℕ) → f j ≡ g j)
      → for_range n 0 (λ b x. v.add x (f b)) zero_V ≡ total v g n 0
  loop-total f g n same =
      each-total f n 0 zero_V ∙ laws.zero-add _ ∙ total-on f g n 0 (λ j _ _. same j)

  -- Scaling a sum of products, or each of them.
  pub dot-scale :
      (n : ℕ) (q k : ℕ → V) (s : V) → v.mul (dot v n q k) s ≡ dot v n q (λ d. v.mul (k d) s)
  unfolding dot
  dot-scale n q k s =
      total-mul (λ d. v.mul (q d) (k d)) s n 0
      ∙ total-on _ (λ d. v.mul (q d) (v.mul (k d) s)) n 0 (λ d _ _. laws.mul_assoc (q d) (k d) s)

  pub total-shift :
      (f : ℕ → V) (b n i j : ℕ) → b + i ≡ j → total v (λ d. f (b + d)) n i ≡ total v f n j
  unfolding total
  total-shift f b zero i j e = refl
  total-shift f b (suc n) i j e =
      ap₂ v.add (ap f e) (total-shift f b n (suc i) (suc j) (omega arith))
