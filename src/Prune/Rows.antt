-- ===== src/Prune/Rows.antt =====
-- Slicing rows: row j of the result is row keep[j] of the source.
use Prim.Native.Nat.add
use native.Mathlib.Nat.{mul-le-mul_right, mul-div_cancel}
use glm_5_2_gb.Common.{
  ℕ, zero, suc, ◌+◌, ◌-◌, ◌*◌, ◌/◌, ◌<◌, ◌≤◌, false, true, ◌≡◌, refl, sym, ap, ◌∙◌, arith, List, [],
  ◌∷◌, ◌++◌, Gives, length, length-append, length-take_of_le, length-drop, take, drop, take-append,
  take-length, get_or, ◌==◌,
}
use glm_5_2_gb.Common.Permutations.{AllBelow}
use glm_5_2_gb.Prune.{slice, join_rows, row_slice}

pub drop-append : (k : ℕ) (xs ys : List ℕ) → length xs ≡ k → drop k (xs ++ ys) ≡ ys
drop-append zero [] ys h = refl
drop-append zero (x ∷ xs) ys h = absurd (omega arith)
drop-append (suc k) [] ys h = absurd (omega arith)
drop-append (suc k) (x ∷ xs) ys h = drop-append k xs ys (omega arith)

drop-nil : (j : ℕ) → drop {A = ℕ} j [] ≡ []
drop-nil zero = refl
drop-nil (suc j) = refl

pub drop-drop : (j k : ℕ) (xs : List ℕ) → drop j (drop k xs) ≡ drop (k + j) xs
drop-drop j zero xs = let same : zero + j ≡ j = omega arith in rw same refl
drop-drop j (suc k) [] = rw add.suc (drop-nil j)
drop-drop j (suc k) (x ∷ xs) = rw add.suc (drop-drop j k xs)

-- Row `i`, of `rb` bytes.
abbrev pub row : ℕ → ℕ → List ℕ → List ℕ
row rb i buf = slice (i * rb) ((i + 1) * rb) buf

row-size : (rb i : ℕ) → (i + 1) * rb - i * rb ≡ rb
row-size rb i = omega arith

length-row :
    (rb rows i : ℕ) (buf : List ℕ) → length buf ≡ rb * rows → i < rows → length (row rb i buf) ≡ rb
length-row rb rows i buf size inside =
    let enough : (i + 1) * rb ≤ rb * rows =
      let top : (i + 1) * rb ≤ rows * rb = mul-le-mul_right rb (omega arith) in omega arith in
    rw (row-size rb i)
      (length-take_of_le rb (drop (i * rb) buf) (rw (length-drop (i * rb) buf) (omega arith)))

module _ (rb rows : ℕ) (buf : List ℕ) (size : length buf ≡ rb * rows) where
  length-join_rows :
      (keep : List ℕ) → AllBelow rows keep → length (join_rows rb buf keep) ≡ rb * length keep
  unfolding join_rows
  length-join_rows [] h = omega arith
  length-join_rows (i ∷ keep) h =
      let first : length (row rb i buf) ≡ rb = length-row rb rows i buf size h.0 in
      let others : length (join_rows rb buf keep) ≡ rb * length keep = length-join_rows keep h.1 in
      length-append (row rb i buf) (join_rows rb buf keep) ∙ omega arith

  row-join_rows :
      (keep : List ℕ) (j : ℕ)
      → AllBelow rows keep
      → j < length keep
      → row rb j (join_rows rb buf keep) ≡ row rb (get_or keep j 0) buf
  unfolding join_rows
  row-join_rows [] j h inside = elim inside [ ]
  row-join_rows (i ∷ keep) zero h inside =
      let r = row rb i buf in
      let first : length r ≡ rb = length-row rb rows i buf size h.0 in
      let start : 0 * rb ≡ 0 = omega arith in
      let width : (0 + 1) * rb - 0 ≡ rb = omega arith in
      rw (start, width)
        (take-append rb r (join_rows rb buf keep) (omega arith) ∙ take-length rb r first)
  row-join_rows (i ∷ keep) (suc j) h inside =
      let r = row rb i buf in
      let rest = join_rows rb buf keep in
      let next : suc j * rb ≡ rb + j * rb = omega arith in
      let width : (suc j + 1) * rb - (rb + j * rb) ≡ (j + 1) * rb - j * rb = omega arith in
      rw (next, width)
        (ap (take ((j + 1) * rb - j * rb)) (
            sym (drop-drop (j * rb) rb (r ++ rest))
            ∙ ap (drop (j * rb)) (drop-append rb r rest (length-row rb rows i buf size h.0)))
          ∙ row-join_rows keep j h.1 (omega arith))

  -- For a positive number of rows of one size, and kept rows that are all among them: the slice
  -- succeeds, its first dimension and its size are those of the kept rows, and its row j is row
  -- keep[j] of the source.
  pub row_slice_lem :
      (shape keep : List ℕ)
      → 0 < rows
      → AllBelow rows keep
      → Gives
          (λ sliced.
            (sliced.1 ≡ length keep ∷ shape)
            × (length sliced.0 ≡ rb * length keep)
            × ((j : ℕ) → j < length keep → row rb j sliced.0 ≡ row rb (get_or keep j 0) buf))
          (row_slice buf (rows ∷ shape) keep)
  unfolding row_slice
  row_slice_lem shape keep some_rows h =
      let quotient : length buf / rows ≡ rb =
        ap (λ n. n / rows) size ∙ mul-div_cancel rb some_rows in
      let positive : (rows == 0) ≡ false = ground arith in
      let whole : (rb * rows == length buf) ≡ true = ground arith in
      rw (positive, quotient, whole)
        (refl, length-join_rows keep h, λ j inside. row-join_rows keep j h inside)
