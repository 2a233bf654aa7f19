-- ===== src/Indexer/Chosen.antt =====
-- The positions that lanes name, those of a chunk, and lists by their places.
use mathlib.Core.List.{filter_map}
use mathlib.Core.Path.{ap₂}
use native.Mathlib.Nat.{zero-add}
use native.Mathlib.Decide.{dec_le}
use Prim.Native.Nat.add
use glm_5_2_gb.Common.{
  ℕ, zero, suc, ◌+◌, ◌<◌, ◌≤◌, Bool, true, false, ◌≡◌, ◌⊎◌, inl, inr, refl, ap, ◌∙◌, Option, none,
  some, List, [], ◌∷◌, ◌++◌, map, All, arith, get_or, tabulate, map-tabulate,
}
use glm_5_2_gb.Common.Permutations.{range}
use glm_5_2_gb.Softmax.{Logit, neg_inf, fin}
use glm_5_2_gb.Indexer.{Values, Lane, is_above}

module _ {A : Type 0} where
  pub tabulate-on :
      (f g : ℕ → A) (n i : ℕ)
      → ((j : ℕ) → i ≤ j → j < i + n → f j ≡ g j)
      → tabulate f n i ≡ tabulate g n i
  tabulate-on f g zero i same = refl
  tabulate-on f g (suc n) i same =
      ap₂ ◌∷◌ (same i (omega arith) (omega arith))
        (tabulate-on f g n (suc i) (λ j h h'. same j (omega arith) (omega arith)))

  pub tabulate-shift :
      (g : ℕ → A) (n k i m : ℕ) → i + k ≡ m → tabulate (λ j. g (j + k)) n i ≡ tabulate g n m
  tabulate-shift g zero k i m e = refl
  tabulate-shift g (suc n) k i m e =
      ap₂ ◌∷◌ (ap g e) (tabulate-shift g n k (suc i) (suc m) (omega arith))

  get_or-tabulate :
      (g : ℕ → A) (n k i : ℕ) (d : A) → i < n → get_or (tabulate g n k) i d ≡ g (i + k)
  get_or-tabulate g zero k i d h = absurd (omega arith)
  get_or-tabulate g (suc n) k zero d h = ap g (omega arith)
  get_or-tabulate g (suc n) k (suc i) d h =
      get_or-tabulate g n (suc k) i d (omega arith) ∙ ap g (omega arith)

  get_or-past : (g : ℕ → A) (n k i : ℕ) (d : A) → n ≤ i → get_or (tabulate g n k) i d ≡ d
  get_or-past g zero k i d h = refl
  get_or-past g (suc n) k zero d h = absurd (omega arith)
  get_or-past g (suc n) k (suc i) d h = get_or-past g n (suc k) i d (omega arith)

module _ {A B : Type 0} where
  -- Reading past the end gives the padding, on both sides.
  pub get_or-map_pad :
      (f : A → B) (d : A) (xs : List A) (i : ℕ) → get_or (map f xs) i (f d) ≡ f (get_or xs i d)
  get_or-map_pad f d [] i = refl
  get_or-map_pad f d (x ∷ xs) zero = refl
  get_or-map_pad f d (x ∷ xs) (suc i) = get_or-map_pad f d xs i

pub All-get_or_pad :
    {A : Type 0} (P : A → Type 0) (d : A) (xs : List A) (i : ℕ) → P d → All P xs → P (get_or xs i d)
All-get_or_pad P d [] i h hs = h
All-get_or_pad P d (x ∷ xs) zero h hs = hs.0
All-get_or_pad P d (x ∷ xs) (suc i) h hs = All-get_or_pad P d xs i h hs.1

pub is_number : (v : Values) → Logit v.V → Bool
is_number v neg_inf = false
is_number v (fin s) = true

pub number_above : (v : Values) (l : Logit v.V) → is_number v l ≡ true → is_above v l neg_inf ≡ true
unfolding is_number is_above
number_above v neg_inf h = absurd (let h' : false ≡ true = h in cc)
number_above v (fin s) h = refl

module _ (v : Values) (logit : ℕ → Logit v.V) where
  -- The position of a lane with a finite value
  unfoldable pub lane_position : Lane v → Option ℕ
  lane_position (neg_inf, i) = none
  lane_position (fin s, i) = i

  abbrev pub chosen : List (Lane v) → List ℕ
  chosen lanes = filter_map lane_position lanes

  -- A lane is -inf, or it holds the logit of its position.
  abbrev pub IsLane : Lane v → Type 0
  IsLane l = (l.0 ≡ neg_inf) ⊎ ((p : ℕ) × (l.1 ≡ some p) × (l.0 ≡ logit p))

  unfoldable pub add_position : Logit v.V → ℕ → List ℕ → List ℕ
  add_position neg_inf i ps = ps
  add_position (fin s) i ps = i ∷ ps

  add_position-append :
      (l : Logit v.V) (i : ℕ) (ps qs : List ℕ)
      → add_position l i ps ++ qs ≡ add_position l i (ps ++ qs)
  unfolding add_position
  add_position-append neg_inf i ps qs = refl
  add_position-append (fin s) i ps qs = refl

  chosen-cons :
      (l : Logit v.V) (i : ℕ) (lanes : List (Lane v))
      → chosen ((l, some i) ∷ lanes) ≡ add_position l i (chosen lanes)
  unfolding add_position filter_map lane_position
  chosen-cons neg_inf i lanes = refl
  chosen-cons (fin s) i lanes = refl

  -- The positions `i`, ..., `i + n - 1` whose logit is not -inf
  unfoldable pub positions : ℕ → ℕ → List ℕ
  unfolding add_position
  positions zero i = []
  positions (suc n) i = add_position (logit i) i (positions n (suc i))

  chosen-row : (n i : ℕ) → chosen (tabulate (λ j. (logit j, some j)) n i) ≡ positions n i
  unfolding positions filter_map
  chosen-row zero i = refl
  chosen-row (suc n) i =
      chosen-cons (logit i) i (tabulate (λ j. (logit j, some j)) n (suc i))
      ∙ ap (add_position (logit i) i) (chosen-row n (suc i))

  pub positions-add :
      (m n i j : ℕ) → i + m ≡ j → positions m i ++ positions n j ≡ positions (m + n) i
  unfolding positions
  positions-add zero n i j e = let here : j ≡ i = omega arith in rw (here, zero-add n) refl
  positions-add (suc m) n i j e = rw (add.suc m n) (
      add_position-append (logit i) i (positions m (suc i)) (positions n j)
      ∙ ap (add_position (logit i) i) (positions-add m n (suc i) j (omega arith)))

  numbers-add_position :
      (l : Logit v.V) (i : ℕ) (ps : List ℕ)
      → logit i ≡ l
      → All (λ p. is_number v (logit p) ≡ true) ps
      → All (λ p. is_number v (logit p) ≡ true) (add_position l i ps)
  unfolding add_position is_number
  numbers-add_position neg_inf i ps e h = h
  numbers-add_position (fin s) i ps e h = (rw e refl, h)

  pub positions-numbers : (n i : ℕ) → All (λ p. is_number v (logit p) ≡ true) (positions n i)
  unfolding positions
  positions-numbers zero i = tt
  positions-numbers (suc n) i =
      numbers-add_position (logit i) i (positions n (suc i)) refl (positions-numbers n (suc i))

  -- The lanes of a chunk, in the order of its places.
  unfoldable pub chunk_lane : ℕ → ℕ → ℕ → Lane v
  chunk_lane n k_start i = (get_or (tabulate logit n k_start) i neg_inf, some (i + k_start))

  pub chosen-chunk :
      (n k_start : ℕ) → chosen (map (chunk_lane n k_start) (range n)) ≡ positions n k_start
  unfolding chunk_lane
  chosen-chunk n k_start =
      ap chosen (
        map-tabulate (chunk_lane n k_start) (λ i. i) n 0
        ∙ tabulate-on (chunk_lane n k_start) (λ i. (logit (i + k_start), some (i + k_start))) n 0
            (λ i _ h.
              ap (λ x. (x, some (i + k_start)))
                (get_or-tabulate logit n k_start i neg_inf (omega arith)))
        ∙ tabulate-shift (λ j. (logit j, some j)) n k_start 0 k_start (omega arith))
      ∙ chosen-row n k_start

  pub chunk_lane-IsLane : (n k_start i : ℕ) → IsLane (chunk_lane n k_start i)
  unfolding chunk_lane
  chunk_lane-IsLane n k_start i = elim (dec_le n i) [
    | yes h ↦ inl (get_or-past logit n k_start i neg_inf h)
    | no h ↦ inr (i + k_start, refl, get_or-tabulate logit n k_start i neg_inf (omega arith))
  ]
