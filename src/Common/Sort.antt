-- ===== src/Common/Sort.antt =====
-- Selecting the first elements of a linear order: sorting by insertion, for lists in any order.
pub mod Best
use Prim.Native.Nat.{ℕ, zero, suc, ◌≤◌, ◌+◌, min}
use mathlib.Core.Path.{◌≡◌, refl, sym, ap, ◌∙◌}
use mathlib.Core.Logic.{◌⊎◌, inl, inr, ∥∥₁_elim}
use mathlib.Core.Bool.{Bool, true, false}
use mathlib.Core.List.{List, [], ◌∷◌, ◌++◌, Perm, Permᴰ, append_assoc}
use mathlib.Core.List.Permᴰ
use mathlib.Core.List.Perm
use native.Mathlib.Omega.{arith}
use glm_5_2_gb.Common.Tests.{if◌then◌else◌, Bool-cases}
use glm_5_2_gb.Common.Lists.{length, take, replicate, All, Ordered}

pub record LinearOrder (A : Type 0) : Type 0 where
  pub le : A → A → Bool
  pub total : (x y : A) → (le x y ≡ true) ⊎ (le y x ≡ true)
  pub trans : (x y z : A) → le x y ≡ true → le y z ≡ true → le x z ≡ true
  pub antisymm : (x y : A) → le x y ≡ true → le y x ≡ true → x ≡ y
  pub list_set : IsSet (List A)

module _ {A : Type 0} (o : LinearOrder A) where
  open o use {le, total, trans, antisymm, list_set}

  unfoldable pub insert : A → List A → List A
  insert x [] = x ∷ []
  insert x (y ∷ ys) = if le x y then x ∷ y ∷ ys else y ∷ insert x ys

  -- The elements of a list inserted into another.
  unfoldable pub into : List A → List A → List A
  unfolding insert
  into [] l = l
  into (x ∷ xs) l = insert x (into xs l)

  abbrev pub IsOrdered : List A → Type 0
  IsOrdered = Ordered (λ x y. le x y ≡ true)

  pub insert_comm : (x y : A) (l : List A) → insert x (insert y l) ≡ insert y (insert x l)
  unfolding insert
  insert_comm x y [] = ground (arith, total x y, antisymm x y)
  insert_comm x y (z ∷ l) = ground (
    arith,
    total x y,
    antisymm x y,
    trans x y z,
    trans y x z,
    total x z,
    total y z,
    insert_comm x y l,
  )

  into-Permᴰ : {xs ys : List A} (l : List A) → Permᴰ xs ys → into xs l ≡ into ys l
  unfolding into
  into-Permᴰ l Permᴰ.nil = refl
  into-Permᴰ l (Permᴰ.cons {a} {b} {l₁} {l₂} e p) = cc (into-Permᴰ {xs = l₁} {ys = l₂} l p)
  into-Permᴰ l (Permᴰ.swap {a} {b} {a'} {b'} {l = xs} e e') =
      ap (λ x. insert x (insert b (into xs l))) e
      ∙ ap (λ x. insert b' (insert x (into xs l))) e'
      ∙ insert_comm b' a' (into xs l)
  into-Permᴰ l (Permᴰ.trans {l₁} {l₂} {l₃} p q) =
      into-Permᴰ {xs = l₁} {ys = l₂} l p ∙ into-Permᴰ {xs = l₂} {ys = l₃} l q

  -- Only what is inserted counts, not its order.
  pub into-perm : (xs ys l : List A) → Perm xs ys → into xs l ≡ into ys l
  into-perm xs ys l p =
      ∥∥₁_elim p (list_set (into xs l) (into ys l)) (into-Permᴰ {xs = xs} {ys = ys} l)

  pub into-append : (xs ys l : List A) → into (xs ++ ys) l ≡ into xs (into ys l)
  unfolding into
  into-append [] ys l = refl
  into-append (x ∷ xs) ys l = ap (insert x) (into-append xs ys l)

  pub insert-into : (x : A) (xs l : List A) → insert x (into xs l) ≡ into xs (insert x l)
  unfolding into
  insert-into x [] l = refl
  insert-into x (y ∷ xs) l = insert_comm x y (into xs l) ∙ ap (insert y) (insert-into x xs l)

  -- An ordered list is what its elements are sorted to.
  insert-ordered : (x : A) (l : List A) → All (λ y. le x y ≡ true) l → insert x l ≡ x ∷ l
  unfolding insert
  insert-ordered x [] h = refl
  insert-ordered x (y ∷ l) h = rw h.0 refl

  All-append : (P : A → Type 0) (xs ys : List A) → All P xs → All P ys → All P (xs ++ ys)
  All-append P [] ys h k = k
  All-append P (x ∷ xs) ys h k = (h.0, All-append P xs ys h.1 k)

  pub into-ordered :
      (xs l : List A)
      → IsOrdered xs
      → All (λ x. All (λ y. le x y ≡ true) l) xs
      → into xs l ≡ xs ++ l
  unfolding into
  into-ordered [] l h k = refl
  into-ordered (x ∷ xs) l h k =
      ap (insert x) (into-ordered xs l h.1 k.1)
      ∙ insert-ordered x (xs ++ l) (All-append _ xs l h.0 k.0)

  All-insert : (P : A → Type 0) (x : A) (l : List A) → P x → All P l → All P (insert x l)
  unfolding insert
  All-insert P x [] h k = (h, k)
  All-insert P x (y ∷ l) h k = elim (Bool-cases (le x y)) [
    | inl e ↦ rw e (h, k)
    | inr e ↦ rw e (k.0, All-insert P x l h k.1)
  ]

  pub All-into : (P : A → Type 0) (xs l : List A) → All P xs → All P l → All P (into xs l)
  unfolding into
  All-into P [] l h k = k
  All-into P (x ∷ xs) l h k = All-insert P x (into xs l) h.0 (All-into P xs l h.1 k)

  All-le :
      (x y : A) (l : List A)
      → le x y ≡ true
      → All (λ z. le y z ≡ true) l
      → All (λ z. le x z ≡ true) l
  All-le x y [] e h = h
  All-le x y (z ∷ l) e h = (trans x y z e h.0, All-le x y l e h.1)

  insert-IsOrdered : (x : A) (l : List A) → IsOrdered l → IsOrdered (insert x l)
  unfolding insert
  insert-IsOrdered x [] h = (tt, tt)
  insert-IsOrdered x (y ∷ l) h = elim (Bool-cases (le x y)) [
    | inl e ↦ rw e ((e, All-le x y l e h.0), h)
    | inr e ↦
        let above : le y x ≡ true = ground (arith, total x y) in
        rw e (All-insert _ x l above h.0, insert-IsOrdered x l h.1)
  ]

  pub into-IsOrdered : (xs l : List A) → IsOrdered l → IsOrdered (into xs l)
  unfolding into
  into-IsOrdered [] l h = h
  into-IsOrdered (x ∷ xs) l h = insert-IsOrdered x (into xs l) (into-IsOrdered xs l h)

  insert-perm : (x : A) (l : List A) → Perm (insert x l) (x ∷ l)
  unfolding insert
  insert-perm x [] = Perm.refl (x ∷ [])
  insert-perm x (y ∷ l) = elim (Bool-cases (le x y)) [
    | inl e ↦ rw e (Perm.refl (x ∷ y ∷ l))
    | inr e ↦ rw e (Perm.trans (Perm.cons y (insert-perm x l)) (Perm.swap x y l))
  ]

  -- Sorting permutes.
  pub into-perm_append : (xs l : List A) → Perm (into xs l) (xs ++ l)
  unfolding into
  into-perm_append [] l = Perm.refl l
  into-perm_append (x ∷ xs) l =
      Perm.trans (insert-perm x (into xs l)) (Perm.cons x (into-perm_append xs l))
