-- ===== src/SparseMla/D512/Stores.antt =====
-- Tiles that a grid of programs stores into a tensor of rows and columns: each element inside the
-- tensor is stored by one program.
use glm_5_2_gb.Common.{
  ℕ, zero, suc, ◌+◌, ◌*◌, ◌<◌, ◌≤◌, Bool, false, ◌&&◌, ◌≡◌, refl, ap, ◌∙◌, fun_ext, arith, ltb, leb,
  if◌then◌else◌, for_range, Bool-cases, inl, inr,
}

-- The place `r` is in block `i` of the width, and below the bound of the mask.
unfoldable pub in_block : ℕ → ℕ → ℕ → ℕ → Bool
in_block width bound i r = leb (i * width) r && ltb r (i * width + width) && ltb r bound

-- `tl.store` of a tile, with the masks of its rows and of its columns; what is stored may depend on
-- what was loaded from the same place.
unfoldable pub tile_store :
    {B : Type 0} → ℕ → ℕ → ℕ → ℕ → (ℕ → ℕ → B → B) → ℕ → ℕ → (ℕ → ℕ → B) → ℕ → ℕ → B
tile_store row_block rows col_block cols new i j mem r c =
    if in_block row_block rows i r
    then (if in_block col_block cols j c then new r c (mem r c) else mem r c)
    else mem r c

-- A grid of programs, by the blocks of the rows and those of the columns.
unfoldable pub grid : {M : Type 0} → ℕ → ℕ → (ℕ → ℕ → M → M) → M → M
grid n m program mem = for_range n 0 (λ i mem'. for_range m 0 (program i) mem') mem

module _ {A : Type 0} where
  ranges-join :
      (f : A → A) (x : A) (low mid high r bound : ℕ)
      → low ≤ mid
      → mid ≤ high
      → let y = if leb low r && ltb r mid && ltb r bound then f x else x in
        (if leb mid r && ltb r high && ltb r bound then f y else y)
        ≡ (if leb low r && ltb r high && ltb r bound then f x else x)
  ranges-join f x low mid high r bound h h' = ground arith

  -- A loop over blocks, of which each writes its own places.
  pub blocks-eq :
      (width bound : ℕ) (f : ℕ → A → A) (program : ℕ → (ℕ → A) → ℕ → A)
      → ((b : ℕ) (mem : ℕ → A) (r : ℕ)
          → program b mem r ≡ (if in_block width bound b r then f r (mem r) else mem r))
      → (n i : ℕ) (mem : ℕ → A) (r : ℕ)
      → for_range n i program mem r ≡ (
          if leb (i * width) r && ltb r ((i + n) * width) && ltb r bound
          then f r (mem r)
          else mem r)
  unfolding for_range in_block
  blocks-eq width bound f program one zero i mem r =
      let same : (i + zero) * width ≡ i * width = ap (λ k. k * width) (omega arith) in
      rw same (ground arith)
  blocks-eq width bound f program one (suc n) i mem r =
      let next : suc i * width ≡ i * width + width = omega arith in
      let last : (suc i + n) * width ≡ (i + suc n) * width = ap (λ k. k * width) (omega arith) in
      let room : i * width + width ≤ (i + suc n) * width = omega arith in
      rw (next, last) at (blocks-eq width bound f program one n (suc i) (program i mem) r)
      ∙ rw (one i mem r) (
          ranges-join (f r) (mem r) (i * width) (i * width + width) ((i + suc n) * width) r bound
            (omega arith) room)

  -- All the blocks, at a place below the bound.
  pub blocks-all :
      (width bound : ℕ) (f : ℕ → A → A) (program : ℕ → (ℕ → A) → ℕ → A)
      → ((b : ℕ) (mem : ℕ → A) (r : ℕ)
          → program b mem r ≡ (if in_block width bound b r then f r (mem r) else mem r))
      → 0 < width
      → (n : ℕ) → bound ≤ n * width
      → (mem : ℕ → A) (r : ℕ)
      → for_range n 0 program mem r ≡ (if ltb r bound then f r (mem r) else mem r)
  blocks-all width bound f program one some_width n cover mem r =
      let from_zero : 0 * width ≡ 0 = omega arith in
      let total : (0 + n) * width ≡ n * width = ap (λ k. k * width) (omega arith) in
      blocks-eq width bound f program one n 0 mem r ∙ rw (from_zero, total) (ground arith)

module _ {B : Type 0} (row_block rows col_block cols : ℕ) (new : ℕ → ℕ → B → B) where
  -- The columns of a row, stored.
  abbrev pub stored_row : ℕ → (ℕ → B) → ℕ → B
  stored_row r row c = if ltb c cols then new r c (row c) else row c

  stored_block : ℕ → ℕ → (ℕ → B) → ℕ → B
  stored_block r j row c = if in_block col_block cols j c then new r c (row c) else row c

  tile_store-row :
      (i j r : ℕ) (mem : ℕ → ℕ → B)
      → tile_store row_block rows col_block cols new i j mem r
        ≡ (if in_block row_block rows i r then stored_block r j (mem r) else mem r)
  unfolding tile_store stored_block
  tile_store-row i j r mem = elim (Bool-cases (in_block row_block rows i r)) [
    | inl e ↦ rw e (fun_ext (λ c. rw e refl))
    | inr e ↦ rw e (fun_ext (λ c. rw e refl))
  ]

  -- A block of columns that starts past the tensor's end stores nothing.
  pub tile_store_past :
      (i j : ℕ) (mem : ℕ → ℕ → B)
      → cols ≤ j * col_block
      → tile_store row_block rows col_block cols new i j mem ≡ mem
  unfolding tile_store in_block
  tile_store_past i j mem h = fun_ext (λ r. fun_ext (λ c.
      let outside : (leb (j * col_block) c && ltb c (j * col_block + col_block) && ltb c cols)
          ≡ false =
        ground arith in
      rw outside (ground arith)))

  -- One block of rows: as a loop over one row, or nothing.
  columns-eq :
      (n j i r : ℕ) (mem : ℕ → ℕ → B)
      → for_range n j (tile_store row_block rows col_block cols new i) mem r
        ≡ (if in_block row_block rows i r then for_range n j (stored_block r) (mem r) else mem r)
  unfolding for_range
  columns-eq zero j i r mem = ground arith
  columns-eq (suc n) j i r mem =
      columns-eq n (suc j) i r (tile_store row_block rows col_block cols new i j mem)
      ∙ rw (tile_store-row i j r mem) (elim (Bool-cases (in_block row_block rows i r)) [
        | inl e ↦ rw e refl
        | inr e ↦ rw e refl
      ])

  program-eq :
      (m : ℕ)
      → 0 < col_block
      → cols ≤ m * col_block
      → (i : ℕ) (mem : ℕ → ℕ → B) (r : ℕ)
      → for_range m 0 (tile_store row_block rows col_block cols new i) mem r
        ≡ (if in_block row_block rows i r then stored_row r (mem r) else mem r)
  unfolding stored_block
  program-eq m some_cols fits i mem r =
      columns-eq m 0 i r mem
      ∙ ap (λ x. if in_block row_block rows i r then x else mem r)
          (fun_ext (blocks-all col_block cols (new r) _ (λ j row c. refl) some_cols m fits (mem r)))

  -- A grid that covers the tensor stores every element below the bounds, and no other.
  pub grid-tile_store :
      (n m : ℕ) (mem : ℕ → ℕ → B)
      → 0 < row_block
      → 0 < col_block
      → rows ≤ n * row_block
      → cols ≤ m * col_block
      → (r c : ℕ)
      → grid n m (tile_store row_block rows col_block cols new) mem r c
        ≡ (if ltb r rows then stored_row r (mem r) c else mem r c)
  unfolding grid
  grid-tile_store n m mem some_rows some_cols fits fits' r c =
      ap (λ row. row c)
        (blocks-all row_block rows stored_row _ (program-eq m some_cols fits') some_rows n fits mem
          r)
      ∙ elim (Bool-cases (ltb r rows)) [ inl e ↦ rw e refl | inr e ↦ rw e refl ]
