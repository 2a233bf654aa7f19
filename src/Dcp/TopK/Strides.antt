-- ===== src/Dcp/TopK/Strides.antt =====
-- A rank's columns `glogits[:, r::n]` with their global positions are the row's columns that it owns.
use native.Mathlib.Nat.{div-add-mod', mul-le-mul, le_refl, add-mod_left}
use native.Mathlib.Decide.{dec_lt}
use glm_5_2_gb.Common.{
  ℕ, zero, suc, ◌+◌, ◌-◌, ◌*◌, ◌/◌, ◌%◌, ◌≤◌, ◌<◌, Bool, true, false, ◌≡◌, ◌≢◌, refl, sym, ap, ◌∙◌,
  arith, some, List, [], ◌∷◌, ◌++◌, map, length, tabulate, ◌==◌, ==_iff, fun_ext, All, ◌^◌,
}
use glm_5_2_gb.Common.Sort.Best.{best-last}
use glm_5_2_gb.Dcp.TopK.{Score, stride, mask_scores}
use glm_5_2_gb.Dcp.TopK.Order.{Lane, invalid, demote, lane_order, le-invalid, best_lanes}
use glm_5_2_gb.Dcp.TopK.Select.{IsInRange, lanes_of}
use glm_5_2_gb.Dcp.TopK.Columns.{masked, masked-cons, cell, owned, best-cons-congr}

-- Two numbers less than `n` apart have different remainders.
mod_apart : (i d n : ℕ) → 0 < d → d < n → (d + i) % n ≢ i % n
mod_apart i d n some_step short e =
    let whole : i / n * n + i % n ≡ i = div-add-mod' i n in
    let whole' : (d + i) / n * n + (d + i) % n ≡ d + i = div-add-mod' (d + i) n in
    elim (dec_lt (i / n) ((d + i) / n)) [
      | yes more ↦
          let room : suc (i / n) * n ≤ (d + i) / n * n = mul-le-mul more (le_refl n) in omega arith
      | no same ↦
          let room : (d + i) / n * n ≤ i / n * n = mul-le-mul (omega arith) (le_refl n) in
          omega arith
    ]

tabulate-shift :
    {A : Type 0} (f : ℕ → A) (m i : ℕ) → tabulate f m (suc i) ≡ tabulate (λ c. f (suc c)) m i
tabulate-shift f zero i = refl
tabulate-shift f (suc m) i = ap (λ r. f (suc i) ∷ r) (tabulate-shift f m (suc i))

module _ (n : ℕ) where
  -- The lanes of the columns `i + s`, `i + s + n`, ... of a row whose first column is `i`.
  unfoldable pub strided : ℕ → ℕ → List Score → List Lane
  strided s i xs =
      map demote (
        lanes_of (stride n s xs)
          (tabulate (λ c. some (c * n + (s + i))) (length (stride n s xs)) 0))

  next_places :
      (m i : ℕ)
      → 0 < n
      → tabulate (λ c. some (c * n + (0 + i))) m 1
        ≡ tabulate (λ c. some (c * n + (n - 1 + suc i))) m 0
  next_places m i some_rank =
      tabulate-shift (λ c. some (c * n + (0 + i))) m 0
      ∙ ap (λ f. tabulate f m 0) (fun_ext λ c. ap some (place c))
    where
      place : (c : ℕ) → suc c * n + (0 + i) ≡ c * n + (n - 1 + suc i)
      place c = omega arith

  pub strided-IsInRange :
      (s i : ℕ) (xs : List Score)
      → 0 < n
      → i + length xs ≤ 2 ^ 62
      → All IsInRange (tabulate (λ c. some (c * n + (s + i))) (length (stride n s xs)) 0)
  unfolding stride
  strided-IsInRange s i [] some_rank fits = tt
  strided-IsInRange zero i (x ∷ xs) some_rank fits = (
    omega arith,
    rw (next_places (length (stride n (n - 1) xs)) i some_rank)
        (strided-IsInRange (n - 1) (suc i) xs some_rank (omega arith)),
  )
  strided-IsInRange (suc s) i (x ∷ xs) some_rank fits =
      let place : suc s + i ≡ s + suc i = omega arith in
      rw place (strided-IsInRange s (suc i) xs some_rank (omega arith))

  strided-here :
      (i : ℕ) (x : Score) (xs : List Score)
      → 0 < n
      → strided 0 i (x ∷ xs) ≡ demote (x, some i) ∷ strided (n - 1) (suc i) xs
  unfolding strided stride
  strided-here i x xs some_rank =
      let rest = stride n (n - 1) xs in
      let here : 0 * n + (0 + i) ≡ i = omega arith in
      rw here (
        ap (λ ps. demote (x, some i) ∷ map demote (lanes_of rest ps))
          (next_places (length rest) i some_rank))

  strided-later :
      (s i : ℕ) (x : Score) (xs : List Score) → strided (suc s) i (x ∷ xs) ≡ strided s (suc i) xs
  unfolding strided stride
  strided-later s i x xs = let place : suc s + i ≡ s + suc i = omega arith in rw place refl

  module _ (k r : ℕ) (some_rank : 0 < n) where
    mine : ℕ → Bool
    mine = owned n (λ c. true) r

    cell-mine : (i : ℕ) (x : Score) → i % n ≡ r → cell mine i x ≡ demote (x, some i)
    unfolding cell mine
    cell-mine i x e = rw ((==_iff (i % n) r).1 e) refl

    cell-other : (i : ℕ) (x : Score) → i % n ≢ r → cell mine i x ≡ invalid
    unfolding cell mine
    cell-other i x ne = let other : ((i % n) == r) ≡ false = ground arith in rw other refl

    refl_nil :
        (s i : ℕ) (ys : List Lane)
        → best_lanes k (strided s i [] ++ ys) ≡ best_lanes k (masked mine i [] ++ ys)
    unfolding strided stride masked mask_scores
    refl_nil s i ys = refl

    -- The strided columns are the owned ones: the others' lanes are invalid.
    pub best-strided :
        (s i : ℕ) (xs : List Score) (ys : List Lane)
        → s < n
        → (s + i) % n ≡ r
        → best_lanes k (strided s i xs ++ ys)
          ≡ best_lanes k (masked (owned n (λ c. true) r) i xs ++ ys)
    unfolding mine
    best-strided s i [] ys h e = refl_nil s i ys
    best-strided zero i (x ∷ xs) ys h e =
        let here : i % n ≡ r = ap (λ j. j % n) (omega arith) ∙ e in
        let turn : (n - 1 + suc i) % n ≡ r =
          ap (λ j. j % n) (omega arith) ∙ add-mod_left n i ∙ here in
        ap (λ t. best_lanes k (t ++ ys)) (strided-here i x xs some_rank)
        ∙ best-cons-congr k (demote (x, some i)) _ _
            (best-strided (n - 1) (suc i) xs ys (omega arith) turn)
        ∙ ap (λ t. best_lanes k (t ∷ masked mine (suc i) xs ++ ys)) (sym (cell-mine i x here))
        ∙ ap (λ t. best_lanes k (t ++ ys)) (sym (masked-cons mine i x xs))
    best-strided (suc s) i (x ∷ xs) ys h e =
        let other : i % n ≢ r = λ same. mod_apart i (suc s) n (omega arith) h (e ∙ sym same) in
        let turn : (s + suc i) % n ≡ r = ap (λ j. j % n) (omega arith) ∙ e in
        ap (λ t. best_lanes k (t ++ ys)) (strided-later s i x xs)
        ∙ best-strided s (suc i) xs ys (omega arith) turn
        ∙ sym (best-last lane_order invalid le-invalid k (masked mine (suc i) xs ++ ys))
        ∙ ap (λ t. best_lanes k (t ∷ masked mine (suc i) xs ++ ys)) (sym (cell-other i x other))
        ∙ ap (λ t. best_lanes k (t ++ ys)) (sym (masked-cons mine i x xs))
