-- ===== src/Common/Sort/Best.antt =====
-- The `k` first elements of a list in a linear order with a last element, padded with that element.
-- It does not depend on the list's order, and it can be taken from the parts' own first elements.
use Prim.Native.Nat.{ℕ, zero, suc, ◌+◌}
use mathlib.Core.Path.{◌≡◌, refl, sym, ap, ◌∙◌}
use mathlib.Core.Logic.{inl, inr}
use mathlib.Core.Bool.{true}
use mathlib.Core.List.{List, [], ◌∷◌, ◌++◌, Perm, perm_append_comm}
use native.Mathlib.Omega.{arith}
use glm_5_2_gb.Common.Tests.{Bool-cases}
use glm_5_2_gb.Common.Lists.{
  length, take, replicate, All, take-take, take-append, take-length, length-take_of_le,
  length-replicate, take-replicate,
}
use glm_5_2_gb.Common.Sort.{
  LinearOrder, insert, into, IsOrdered, into-perm, into-append, insert-into, into-ordered, All-into,
  into-IsOrdered,
}

module _ {A : Type 0} (o : LinearOrder A) where
  take-cons : (k : ℕ) (y : A) (l : List A) → take k (y ∷ l) ≡ take k (y ∷ take k l)
  take-cons zero y l = refl
  take-cons (suc k) y l = ap (λ r. y ∷ r) (sym (take-take k (suc k) l (omega arith)))

  take-insert :
      (k : ℕ) (x : A) (l : List A) → take k (insert o x l) ≡ take k (insert o x (take k l))
  unfolding insert
  take-insert zero x l = refl
  take-insert (suc k) x [] = refl
  take-insert (suc k) x (y ∷ l) = elim (Bool-cases (o.le x y)) [
    | inl e ↦ rw e (ap (λ r. x ∷ r) (take-cons k y l))
    | inr e ↦ rw e (ap (λ r. y ∷ r) (take-insert k x l))
  ]

  take-into : (k : ℕ) (xs l : List A) → take k (into o xs l) ≡ take k (into o xs (take k l))
  unfolding into
  take-into k [] l = sym (take-take k k l (omega arith))
  take-into k (x ∷ xs) l =
      take-insert k x (into o xs l)
      ∙ ap (λ r. take k (insert o x r)) (take-into k xs l)
      ∙ sym (take-insert k x (into o xs (take k l)))

module _ {A : Type 0} (o : LinearOrder A) (last : A) (is_last : (x : A) → o.le x last ≡ true) where
  pub best : ℕ → List A → List A
  best k xs = take k (into o xs (replicate k last))

  All-replicate : (P : A → Type 0) (n : ℕ) → P last → All P (replicate n last)
  All-replicate P zero h = tt
  All-replicate P (suc n) h = (h, All-replicate P n h)

  All-take : (P : A → Type 0) (k : ℕ) (l : List A) → All P l → All P (take k l)
  All-take P zero l h = tt
  All-take P (suc k) [] h = tt
  All-take P (suc k) (x ∷ l) h = (h.0, All-take P k l h.1)

  replicate-IsOrdered : (n : ℕ) → IsOrdered o (replicate n last)
  replicate-IsOrdered zero = tt
  replicate-IsOrdered (suc n) = (All-replicate _ n (is_last last), replicate-IsOrdered n)

  below_last : (n : ℕ) (xs : List A) → All (λ x. All (λ y. o.le x y ≡ true) (replicate n last)) xs
  below_last n [] = tt
  below_last n (x ∷ xs) = (All-replicate _ n (is_last x), below_last n xs)

  pub best-perm : (k : ℕ) (xs ys : List A) → Perm xs ys → best k xs ≡ best k ys
  unfolding best
  best-perm k xs ys p = ap (take k) (into-perm o xs ys (replicate k last) p)

  pub best-append : (k : ℕ) (xs ys : List A) → best k (xs ++ ys) ≡ take k (into o xs (best k ys))
  unfolding best
  best-append k xs ys =
      ap (take k) (into-append o xs ys (replicate k last))
      ∙ take-into o k xs (into o ys (replicate k last))

  length-insert : (x : A) (l : List A) → length (insert o x l) ≡ suc (length l)
  unfolding insert
  length-insert x [] = refl
  length-insert x (y ∷ l) = elim (Bool-cases (o.le x y)) [
    | inl e ↦ rw e refl
    | inr e ↦ rw e (ap suc (length-insert x l))
  ]

  length-into : (xs l : List A) → length (into o xs l) ≡ length xs + length l
  unfolding into
  length-into [] l = omega arith
  length-into (x ∷ xs) l = length-insert x (into o xs l) ∙ omega (arith, length-into xs l)

  pub length-best : (k : ℕ) (xs : List A) → length (best k xs) ≡ k
  unfolding best
  length-best k xs =
      length-take_of_le k (into o xs (replicate k last))
        (omega (arith, length-into xs (replicate k last), length-replicate k last))

  Ordered-take : (k : ℕ) (l : List A) → IsOrdered o l → IsOrdered o (take k l)
  Ordered-take zero l h = tt
  Ordered-take (suc k) [] h = tt
  Ordered-take (suc k) (x ∷ l) h = (All-take _ k l h.0, Ordered-take k l h.1)

  best-IsOrdered : (k : ℕ) (xs : List A) → IsOrdered o (best k xs)
  unfolding best
  best-IsOrdered k xs = Ordered-take k _ (into-IsOrdered o xs _ (replicate-IsOrdered k))

  -- An ordered list of `k` elements is its own best.
  best_of_ordered : (k : ℕ) (xs : List A) → IsOrdered o xs → length xs ≡ k → best k xs ≡ xs
  unfolding best
  best_of_ordered k xs h e =
      ap (take k) (into-ordered o xs (replicate k last) h (below_last k xs))
      ∙ take-append k xs (replicate k last) (omega arith)
      ∙ take-length k xs e

  -- Elements that are not among a part's best are not among the best of the whole.
  pub best-best : (k : ℕ) (xs ys : List A) → best k (best k xs ++ ys) ≡ best k (xs ++ ys)
  best-best k xs ys =
      best-perm k (best k xs ++ ys) (ys ++ best k xs) (perm_append_comm (best k xs) ys)
      ∙ best-append k ys (best k xs)
      ∙ ap (λ r. take k (into o ys r))
          (best_of_ordered k (best k xs) (best-IsOrdered k xs) (length-best k xs))
      ∙ sym (best-append k ys xs)
      ∙ best-perm k (ys ++ xs) (xs ++ ys) (perm_append_comm ys xs)

  insert-last : (n : ℕ) → insert o last (replicate n last) ≡ replicate (suc n) last
  unfolding insert
  insert-last zero = refl
  insert-last (suc n) = rw (is_last last) refl

  -- Padding adds nothing.
  pub best-last : (k : ℕ) (xs : List A) → best k (last ∷ xs) ≡ best k xs
  unfolding best into
  best-last k xs =
      ap (take k) (insert-into o last xs (replicate k last) ∙ ap (into o xs) (insert-last k))
      ∙ take-into o k xs (replicate (suc k) last)
      ∙ ap (λ r. take k (into o xs r))
          (ap (λ n. take k (replicate n last)) one_more ∙ take-replicate k 1 last)
    where
      one_more : suc k ≡ 1 + k
      one_more = omega arith

  -- An ordered list is selected from the front.
  pub best_of_IsOrdered :
      (k : ℕ) (xs : List A) → IsOrdered o xs → best k xs ≡ take k (xs ++ replicate k last)
  unfolding best
  best_of_IsOrdered k xs h = ap (take k) (into-ordered o xs (replicate k last) h (below_last k xs))

  pub All-best : (P : A → Type 0) (k : ℕ) (xs : List A) → P last → All P xs → All P (best k xs)
  unfolding best
  All-best P k xs h all = All-take P k _ (All-into o P xs _ all (All-replicate P k h))
