-- ===== src/Common/Permutations.antt =====
-- Lists of indices: permutations of a range, and orders of what they pick.
use Prim.Native.Nat.{ℕ, zero, suc, ◌+◌, ◌≤◌, ◌<◌}
use mathlib.Core.Path.{◌≡◌, refl, ap, ◌∙◌}
use mathlib.Core.Logic.{∥∥₁_elim}
use mathlib.Core.HLevel.{×_prop}
use mathlib.Core.List.{List, [], ◌∷◌, map, Perm, Permᴰ}
use mathlib.Core.List.Perm
use native.Mathlib.Omega.{arith}
use native.Mathlib.Bridge.{le_prop}
use native.Mathlib.Nat.{ℕ_set}
use glm_5_2_gb.Common.Lists.{length, get_or, tabulate, map-tabulate, All, Ordered}

abbrev pub range : ℕ → List ℕ
range n = tabulate (λ i. i) n 0

length-Permᴰ : {A : Type 0} {xs ys : List A} → Permᴰ xs ys → length xs ≡ length ys
length-Permᴰ Permᴰ.nil = refl
length-Permᴰ (Permᴰ.cons e p) = ap suc (length-Permᴰ p)
length-Permᴰ (Permᴰ.swap e e') = refl
length-Permᴰ (Permᴰ.trans p q) = length-Permᴰ p ∙ length-Permᴰ q

pub length-perm : {A : Type 0} (xs ys : List A) → Perm xs ys → length xs ≡ length ys
length-perm xs ys p = ∥∥₁_elim p (ℕ_set (length xs) (length ys)) length-Permᴰ

abbrev pub AllBelow : ℕ → List ℕ → Type 0
AllBelow n = All (λ i. i < n)

AllBelow-prop : (n : ℕ) (l : List ℕ) → IsProp (AllBelow n l)
AllBelow-prop n [] = hlevel
AllBelow-prop n (x ∷ l) = ×_prop le_prop (AllBelow-prop n l)

AllBelow-Permᴰ : (n : ℕ) {xs ys : List ℕ} → Permᴰ xs ys → AllBelow n ys → AllBelow n xs
AllBelow-Permᴰ n Permᴰ.nil h = h
AllBelow-Permᴰ n (Permᴰ.cons e p) h = (omega arith, AllBelow-Permᴰ n p h.1)
AllBelow-Permᴰ n (Permᴰ.swap e e') h = (omega arith, (omega arith, h.1.1))
AllBelow-Permᴰ n (Permᴰ.trans p q) h = AllBelow-Permᴰ n p (AllBelow-Permᴰ n q h)

pub AllBelow-perm : (n : ℕ) (xs ys : List ℕ) → Perm xs ys → AllBelow n ys → AllBelow n xs
AllBelow-perm n xs ys p h = ∥∥₁_elim p (AllBelow-prop n xs) (λ d. AllBelow-Permᴰ n d h)

AllBelow-tabulate : (m n i : ℕ) → i + m ≤ n → AllBelow n (tabulate (λ j. j) m i)
AllBelow-tabulate zero n i h = tt
AllBelow-tabulate (suc m) n i h = (omega arith, AllBelow-tabulate m n (suc i) (omega arith))

pub AllBelow-range : (n : ℕ) → AllBelow n (range n)
AllBelow-range n = AllBelow-tabulate n n 0 (omega arith)

module _ {A : Type 0} (P : A → Type 0) where
  pub All-get_or : (d : A) (l : List A) (j : ℕ) → All P l → j < length l → P (get_or l j d)
  All-get_or d [] j h inside = elim inside [ ]
  All-get_or d (x ∷ l) zero h inside = h.0
  All-get_or d (x ∷ l) (suc j) h inside = All-get_or d l j h.1 (omega arith)

module _ {A : Type 0} (R : A → A → Type 0) where
  pub Ordered-get_or :
      (d : A) (l : List A) (i j : ℕ)
      → Ordered R l
      → i < j
      → j < length l
      → R (get_or l i d) (get_or l j d)
  Ordered-get_or d [] i j h before inside = elim inside [ ]
  Ordered-get_or d (x ∷ l) i zero h before inside = elim before [ ]
  Ordered-get_or d (x ∷ l) zero (suc j) h before inside = All-get_or (R x) d l j h.0 (omega arith)
  Ordered-get_or d (x ∷ l) (suc i) (suc j) h before inside =
      Ordered-get_or d l i j h.1 (omega arith) (omega arith)

  -- A map that takes one order to another.
  module _ {B : Type 0} (P : A → Type 0) (R' : B → B → Type 0) (f : A → B)
      (step : (x y : A) → P x → P y → R x y → R' (f x) (f y)) where
    All-map : (x : A) (l : List A) → P x → All P l → All (R x) l → All (R' (f x)) (map f l)
    All-map x [] hx h r = tt
    All-map x (y ∷ l) hx h r = (step x y hx h.0 r.0, All-map x l hx h.1 r.1)

    pub Ordered-map : (l : List A) → All P l → Ordered R l → Ordered R' (map f l)
    Ordered-map [] h o = tt
    Ordered-map (x ∷ l) h o = (All-map x l h.0 h.1 o.0, Ordered-map l h.1 o.1)

module _ {A : Type 0} (d : A) where
  get_or-tabulate :
      (x : A) (xs : List A) (n i : ℕ)
      → tabulate (λ j. get_or (x ∷ xs) j d) n (suc i) ≡ tabulate (λ j. get_or xs j d) n i
  get_or-tabulate x xs zero i = refl
  get_or-tabulate x xs (suc n) i = ap (λ r. get_or xs i d ∷ r) (get_or-tabulate x xs n (suc i))

  -- Picking every place in turn.
  pub pick_all : (xs : List A) → tabulate (λ j. get_or xs j d) (length xs) 0 ≡ xs
  pick_all [] = refl
  pick_all (x ∷ xs) = ap (λ r. x ∷ r) (get_or-tabulate x xs (length xs) 0 ∙ pick_all xs)

  -- Picking by a permutation of the places.
  pub pick-perm :
      (xs : List A) (o : List ℕ) (n : ℕ)
      → length xs ≡ n
      → Perm o (range n)
      → Perm (map (λ j. get_or xs j d) o) xs
  pick-perm xs o n e p =
      let picked : map (λ j. get_or xs j d) (range n) ≡ xs =
        rw (← e) (map-tabulate (λ j. get_or xs j d) (λ j. j) (length xs) 0 ∙ pick_all xs) in
      rw picked at (Perm.map (λ j. get_or xs j d) p)

pub get_or-map :
    {A B : Type 0} (f : A → B) (d : A) (e : B) (xs : List A) (i : ℕ)
    → i < length xs
    → get_or (map f xs) i e ≡ f (get_or xs i d)
get_or-map f d e [] i h = elim h [ ]
get_or-map f d e (x ∷ xs) zero h = refl
get_or-map f d e (x ∷ xs) (suc i) h = get_or-map f d e xs i (omega arith)

module _ {A : Type 0} (R S : A → A → Type 0) (weaken : (x y : A) → R x y → S x y) where
  All-imp : (x : A) (l : List A) → All (R x) l → All (S x) l
  All-imp x [] h = tt
  All-imp x (y ∷ l) h = (weaken x y h.0, All-imp x l h.1)

  pub Ordered-imp : (l : List A) → Ordered R l → Ordered S l
  Ordered-imp [] h = tt
  Ordered-imp (x ∷ l) h = (All-imp x l h.0, Ordered-imp l h.1)
