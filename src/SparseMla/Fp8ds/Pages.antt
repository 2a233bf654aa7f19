-- ===== src/SparseMla/Fp8ds/Pages.antt =====
-- The addresses that the fp8_ds_mla kernels compute: within a cache whose pages have room for their
-- tokens, no byte belongs to two tokens, or to a token's data and to a token's scales.
use native.Mathlib.Nat.{mul-le-mul, le_refl}
use mathlib.Core.Path.{◌∙◌}
use glm_5_2_gb.Common.{ℕ, suc, ◌+◌, ◌*◌, ◌<◌, ◌≤◌, ◌≡◌, ◌≢◌, refl, sym, arith}
use glm_5_2_gb.Common.Division.{place_unique}
use glm_5_2_gb.SparseMla.Fp8ds.{Layout, token_data_ptr, token_scale_ptr}

-- A page has room for its tokens' data and scales.
abbrev pub HasRoom : Layout → Type 0
HasRoom l =
    l.cache_block_size * l.token_data_size + l.cache_block_size * l.scale_dim ≤ l.block_stride

-- Byte `i` of item `p` of `n` items of a size is inside the `n` items.
inside_items : (p i n size : ℕ) → p < n → i < size → p * size + i < n * size
inside_items p i n size hp hi =
    let room : suc p * size ≤ n * size = mul-le-mul hp (le_refl size) in omega arith

-- Equal addresses in pages of `stride` bytes are one place of one page.
same_place :
    (b u b' u' stride x y : ℕ)
    → u < stride
    → u' < stride
    → x ≡ b * stride + u
    → y ≡ b' * stride + u'
    → x ≡ y
    → (b ≡ b') × (u ≡ u')
same_place b u b' u' stride x y h h' e e' same =
    place_unique b u b' u' stride h h' (sym e ∙ same ∙ e')

module _ (l : Layout) (room : HasRoom l) (b p i b' p' i' : ℕ) (hp : p < l.cache_block_size)
    (hp' : p' < l.cache_block_size) where
  data_unique :
      i < l.token_data_size
      → i' < l.token_data_size
      → token_data_ptr l b p + i ≡ token_data_ptr l b' p' + i'
      → (b ≡ b') × (p ≡ p') × (i ≡ i')
  unfolding token_data_ptr
  data_unique hi hi' e =
      let low = inside_items p i _ _ hp hi in
      let low' = inside_items p' i' _ _ hp' hi' in
      let page =
        same_place b (p * l.token_data_size + i) b' (p' * l.token_data_size + i') l.block_stride _ _
          (omega arith) (omega arith) (omega arith) (omega arith) e in
      let token = place_unique p i p' i' l.token_data_size hi hi' page.1 in
      (page.0, token.0, token.1)

  scale_unique :
      i < l.scale_dim
      → i' < l.scale_dim
      → token_scale_ptr l b p + i ≡ token_scale_ptr l b' p' + i'
      → (b ≡ b') × (p ≡ p') × (i ≡ i')
  unfolding token_scale_ptr
  scale_unique hi hi' e =
      let low = inside_items p i _ _ hp hi in
      let low' = inside_items p' i' _ _ hp' hi' in
      let first = l.cache_block_size * l.token_data_size in
      let page =
        same_place b (first + (p * l.scale_dim + i)) b' (first + (p' * l.scale_dim + i'))
          l.block_stride _ _ (omega arith) (omega arith) (omega arith) (omega arith) e in
      let token = place_unique p i p' i' l.scale_dim hi hi' (omega arith) in
      (page.0, token.0, token.1)

  data_not_scale :
      i < l.token_data_size
      → i' < l.scale_dim
      → token_data_ptr l b p + i ≢ token_scale_ptr l b' p' + i'
  unfolding token_data_ptr token_scale_ptr
  data_not_scale hi hi' e =
      let low = inside_items p i _ _ hp hi in
      let high = inside_items p' i' _ _ hp' hi' in
      let first = l.cache_block_size * l.token_data_size in
      let page =
        same_place b (p * l.token_data_size + i) b' (first + (p' * l.scale_dim + i')) l.block_stride
          _ _ (omega arith) (omega arith) (omega arith) (omega arith) e in
      absurd (omega arith)

-- The two parts of a token's bytes, with their addresses and sizes.
pub data Part : Type 0 where
  token_data token_scale : Part

abbrev pub part_ptr : Layout → Part → ℕ → ℕ → ℕ
part_ptr l token_data = token_data_ptr l
part_ptr l token_scale = token_scale_ptr l

abbrev pub part_size : Layout → Part → ℕ
part_size l token_data = l.token_data_size
part_size l token_scale = l.scale_dim

-- In a layout whose pages have room for their tokens, equal addresses of bytes inside two parts
-- (data or scales) of two tokens are the same byte of the same part of the same token.
pub token_ptrs_unique :
    (l : Layout) (part part' : Part) (b p i b' p' i' : ℕ)
    → HasRoom l
    → p < l.cache_block_size
    → p' < l.cache_block_size
    → i < part_size l part
    → i' < part_size l part'
    → part_ptr l part b p + i ≡ part_ptr l part' b' p' + i'
    → (part ≡ part') × (b ≡ b') × (p ≡ p') × (i ≡ i')
token_ptrs_unique l token_data token_data b p i b' p' i' room hp hp' hi hi' e =
    let same = data_unique l room b p i b' p' i' hp hp' hi hi' e in (refl, same.0, same.1, same.2)
token_ptrs_unique l token_data token_scale b p i b' p' i' room hp hp' hi hi' e =
    absurd (data_not_scale l room b p i b' p' i' hp hp' hi hi' e)
token_ptrs_unique l token_scale token_data b p i b' p' i' room hp hp' hi hi' e =
    absurd (data_not_scale l room b' p' i' b p i hp' hp hi' hi (sym e))
token_ptrs_unique l token_scale token_scale b p i b' p' i' room hp hp' hi hi' e =
    let same = scale_unique l room b p i b' p' i' hp hp' hi hi' e in (refl, same.0, same.1, same.2)
