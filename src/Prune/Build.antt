-- ===== src/Prune/Build.antt =====
-- A pruned shard, read by name.
use glm_5_2_gb.Common.{
  ℕ, ◌<◌, ◌≡◌, refl, sym, ap, ◌∙◌, Option, none, some, List, [], ◌∷◌, ◌++◌, All, Ordered,
  if◌then◌else◌,
}
use mathlib.Core.Path.{ap₂}
use glm_5_2_gb.Prune.{Name, same_name, Tensor, or_else, lookup, build_shard}
use glm_5_2_gb.Prune.Files.{map-or_else}
use glm_5_2_gb.Prune.Origin.{IsReady, origin, source}
use glm_5_2_gb.Prune.Pieces.{ready-IsPiece}

or_else-none : {A : Type 0} (x : Option A) → or_else x none ≡ x
or_else-none none = refl
or_else-none (some a) = refl

or_else_assoc : {A : Type 0} (x y z : Option A) → or_else (or_else x y) z ≡ or_else x (or_else y z)
or_else_assoc none y z = refl
or_else_assoc (some a) y z = refl

module _ (keep : ℕ → Option (List ℕ))
    (ascending : (l : ℕ) (ks : List ℕ) → keep l ≡ some ks → Ordered (λ k k'. k < k') ks) where
  lookup-nil : (m : Name) → lookup {A = Tensor} [] m ≡ none
  unfolding lookup
  lookup-nil m = refl

  lookup-append :
      (xs ys : List (Name × Tensor)) (m : Name)
      → lookup (xs ++ ys) m ≡ or_else (lookup ys m) (lookup xs m)
  unfolding lookup
  lookup-append [] ys m = sym (or_else-none (lookup ys m))
  lookup-append ((n, t) ∷ xs) ys m =
      ap (λ x. or_else x (if same_name n m then some t else none)) (lookup-append xs ys m)
      ∙ or_else_assoc (lookup ys m) (lookup xs m) _

  source-nil : (o : Option (Name × (Tensor → Tensor))) → none ≡ source o []
  unfolding lookup
  source-nil none = refl
  source-nil (some p) = refl

  source-cons :
      (o : Option (Name × (Tensor → Tensor))) (n : Name) (t : Tensor) (ts : List (Name × Tensor))
      → source o ((n, t) ∷ ts) ≡ or_else (source o ts) (source o ((n, t) ∷ []))
  unfolding lookup
  source-cons none n t ts = refl
  source-cons (some (m, g)) n t ts =
      map-or_else g (lookup ts m) (if same_name n m then some t else none)

  -- For keep lists in ascending order, and a shard in which the layer of each expert has a keep
  -- list and each gate tensor holds a whole positive number of rows: `build` writes the shard, and
  -- by any name it holds exactly the source's tensor of that name, where new expert j of a layer
  -- is its kept expert j, an expert from the number of kept ones on is absent, and the gate
  -- tensors of a layer with a keep list have the kept experts' rows.
  pub lookup-build_shard :
      (ts : List (Name × Tensor))
      → All (IsReady keep) ts
      → (out : List (Name × Tensor)) × (build_shard keep ts ≡ some out)
        × ((m : Name) → lookup out m ≡ source (origin keep m) ts)
  unfolding build_shard
  lookup-build_shard [] h = ([], refl, λ m. lookup-nil m ∙ source-nil (origin keep m))
  lookup-build_shard ((n, t) ∷ ts) (ready, h) =
      let (act, piece, fated, written, same) = ready-IsPiece keep ascending n t ready in
      let (out, built, rest_same) = lookup-build_shard ts h in
      (
        piece ++ out,
        rw (fated, written, built) refl,
        λ m.
            lookup-append piece out m
            ∙ ap₂ or_else (rest_same m) (same m)
            ∙ sym (source-cons (origin keep m) n t ts),
      )
