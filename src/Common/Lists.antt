-- ===== src/Common/Lists.antt =====
-- Lists measured and indexed by native numbers, under the library's names.
use Prim.Native.Nat.{ℕ, zero, suc, ◌+◌, ◌-◌, ◌<◌, ◌≤◌, min}
use mathlib.Core.Path.{◌≡◌, refl, ap}
use mathlib.Core.Logic.{◌≢◌}
use mathlib.Core.List.{List, [], ◌∷◌, ◌++◌, map}
use mathlib.Core.Option.{Option, none, some}
use native.Mathlib.Omega.{arith}

module _ {ℓ} {A : Type ℓ} where
  abbrev pub length : List A → ℕ
  length [] = 0
  length (x ∷ xs) = suc (length xs)

  abbrev pub get_elem? : List A → ℕ → Option A
  get_elem? [] i = none
  get_elem? (x ∷ xs) zero = some x
  get_elem? (x ∷ xs) (suc i) = get_elem? xs i

  -- A write out of bounds changes nothing.
  abbrev pub set : List A → ℕ → A → List A
  set [] i v = []
  set (x ∷ xs) zero v = v ∷ xs
  set (x ∷ xs) (suc i) v = x ∷ set xs i v

  pub length-append : (xs ys : List A) → length (xs ++ ys) ≡ length xs + length ys
  length-append [] ys = omega arith
  length-append (x ∷ xs) ys = omega (arith, length-append xs ys)

module _ {ℓ} {A : Type ℓ} where
  pub length-set : (xs : List A) (i : ℕ) (v : A) → length (set xs i v) ≡ length xs
  length-set [] i v = refl
  length-set (x ∷ xs) zero v = refl
  length-set (x ∷ xs) (suc i) v = ap suc (length-set xs i v)

  pub get_elem?-set_self :
      (xs : List A) (i : ℕ) (v : A) → i < length xs → get_elem? (set xs i v) i ≡ some v
  get_elem?-set_self [] i v h = elim h [ ]
  get_elem?-set_self (x ∷ xs) zero v h = refl
  get_elem?-set_self (x ∷ xs) (suc i) v h = get_elem?-set_self xs i v (omega arith)

  pub get_elem?-set_ne :
      (xs : List A) {i j : ℕ} (v : A) → i ≢ j → get_elem? (set xs i v) j ≡ get_elem? xs j
  get_elem?-set_ne [] v h = refl
  get_elem?-set_ne (x ∷ xs) {i = zero} {j = zero} v h = absurd (h refl)
  get_elem?-set_ne (x ∷ xs) {i = zero} {j = suc j} v h = refl
  get_elem?-set_ne (x ∷ xs) {i = suc i} {j = zero} v h = refl
  get_elem?-set_ne (x ∷ xs) {i = suc i} {j = suc j} v h = get_elem?-set_ne xs v (λ e. h (ap suc e))

module _ {ℓ} {A : Type ℓ} where
  abbrev pub get_or : List A → ℕ → A → A
  get_or [] i d = d
  get_or (x ∷ xs) zero d = x
  get_or (x ∷ xs) (suc i) d = get_or xs i d

  abbrev pub take : ℕ → List A → List A
  take zero xs = []
  take (suc n) [] = []
  take (suc n) (x ∷ xs) = x ∷ take n xs

  abbrev pub drop : ℕ → List A → List A
  drop zero xs = xs
  drop (suc n) [] = []
  drop (suc n) (x ∷ xs) = drop n xs

  abbrev pub replicate : ℕ → A → List A
  replicate zero a = []
  replicate (suc n) a = a ∷ replicate n a

  pub take-append-drop : (n : ℕ) (xs : List A) → take n xs ++ drop n xs ≡ xs
  take-append-drop zero xs = refl
  take-append-drop (suc n) [] = refl
  take-append-drop (suc n) (x ∷ xs) = rw (take-append-drop n xs)

  pub length-take : (n : ℕ) (xs : List A) → length (take n xs) ≡ min n (length xs)
  length-take zero xs = omega arith
  length-take (suc n) [] = omega arith
  length-take (suc n) (x ∷ xs) = omega (arith, length-take n xs)

  pub length-drop : (n : ℕ) (xs : List A) → length (drop n xs) ≡ length xs - n
  length-drop zero xs = omega arith
  length-drop (suc n) [] = omega arith
  length-drop (suc n) (x ∷ xs) = omega (arith, length-drop n xs)

  pub length-replicate : (n : ℕ) (a : A) → length (replicate n a) ≡ n
  length-replicate zero a = refl
  length-replicate (suc n) a = ap suc (length-replicate n a)

  pub length-map {κ} : {B : Type κ} (xs : List A) (f : A → B) → length (map f xs) ≡ length xs
  length-map [] f = refl
  length-map (x ∷ xs) f = ap suc (length-map xs f)

-- Every element satisfies `P`; every element stands in `R` to those after it.
module _ {ℓ κ} {A : Type ℓ} where
  abbrev pub All : (A → Type κ) → List A → Type κ
  All P [] = Unit
  All P (x ∷ xs) = P x × All P xs

  abbrev pub Ordered : (A → A → Type κ) → List A → Type κ
  Ordered R [] = Unit
  Ordered R (x ∷ xs) = All (R x) xs × Ordered R xs

module _ {ℓ} {A : Type ℓ} where
  pub take-take : (i j : ℕ) (xs : List A) → i ≤ j → take i (take j xs) ≡ take i xs
  take-take zero j xs h = refl
  take-take (suc i) zero xs h = elim h [ ]
  take-take (suc i) (suc j) [] h = refl
  take-take (suc i) (suc j) (x ∷ xs) h = ap (λ r. x ∷ r) (take-take i j xs (omega arith))

  pub take-append : (k : ℕ) (xs ys : List A) → k ≤ length xs → take k (xs ++ ys) ≡ take k xs
  take-append zero xs ys h = refl
  take-append (suc k) [] ys h = elim h [ ]
  take-append (suc k) (x ∷ xs) ys h = ap (λ r. x ∷ r) (take-append k xs ys (omega arith))

  pub take-length : (k : ℕ) (xs : List A) → length xs ≡ k → take k xs ≡ xs
  take-length zero [] h = refl
  take-length zero (x ∷ xs) h = absurd (omega arith)
  take-length (suc k) [] h = refl
  take-length (suc k) (x ∷ xs) h = ap (λ r. x ∷ r) (take-length k xs (omega arith))

  pub length-take_of_le : (k : ℕ) (xs : List A) → k ≤ length xs → length (take k xs) ≡ k
  length-take_of_le zero xs h = refl
  length-take_of_le (suc k) [] h = elim h [ ]
  length-take_of_le (suc k) (x ∷ xs) h = ap suc (length-take_of_le k xs (omega arith))

  pub take-replicate : (k j : ℕ) (a : A) → take k (replicate (j + k) a) ≡ replicate k a
  take-replicate zero j a = refl
  take-replicate (suc k) j a =
      let longer : j + suc k ≡ suc (j + k) = omega arith in
      rw longer (ap (λ r. a ∷ r) (take-replicate k j a))

  pub length-take_le : (k : ℕ) (xs : List A) → length (take k xs) ≤ k
  length-take_le zero xs = omega arith
  length-take_le (suc k) [] = omega arith
  length-take_le (suc k) (x ∷ xs) = omega (arith, length-take_le k xs)

-- The list of `f i`, ..., `f (i + n - 1)`.
module _ {ℓ} {A : Type ℓ} where
  abbrev pub tabulate : (ℕ → A) → ℕ → ℕ → List A
  tabulate f zero i = []
  tabulate f (suc n) i = f i ∷ tabulate f n (suc i)

  pub length-tabulate : (f : ℕ → A) (n i : ℕ) → length (tabulate f n i) ≡ n
  length-tabulate f zero i = refl
  length-tabulate f (suc n) i = ap suc (length-tabulate f n (suc i))

module _ {ℓ κ} {A : Type ℓ} {B : Type κ} where
  pub map-tabulate :
      (g : A → B) (f : ℕ → A) (n i : ℕ) → map g (tabulate f n i) ≡ tabulate (λ k. g (f k)) n i
  map-tabulate g f zero i = refl
  map-tabulate g f (suc n) i = ap (λ t. g (f i) ∷ t) (map-tabulate g f n (suc i))
