-- ===== src/Dcp/TopK/Gather.antt =====
-- What the ranks gather: each candidate list is the best of its own lanes, and the selection from the
-- gathered lists is the best of all the lanes.
use mathlib.Core.List.{map-append}
use native.Mathlib.Decide.{dec_lt}
use glm_5_2_gb.Common.{
  ℕ, zero, suc, ◌+◌, ◌-◌, ◌≤◌, min, true, false, ◌≡◌, refl, sym, ap, ◌∙◌, arith, Option, List, [],
  ◌∷◌, ◌++◌, map, length, take, replicate, All, length-map, length-take, take-append, take-length,
  take-replicate, leb,
}
use glm_5_2_gb.Common.Permutations.{length-perm}
use glm_5_2_gb.Common.Sort.Best.{best-perm, best_of_IsOrdered}
use glm_5_2_gb.Dcp.TopK.{Score, Argsort, pad, strict_topk}
use glm_5_2_gb.Dcp.TopK.Order.{Lane, invalid, demote, lane_order, le-invalid, best_lanes}
use glm_5_2_gb.Dcp.TopK.Select.{
  IsInRange, lanes_of, length-lanes_of, sorted_lanes, sorted_lanes-perm, sorted_lanes-IsOrdered,
  strict_topk_lem,
}

-- Lanes as the two tensors in which they travel.
abbrev pub split : List Lane → List Score × List (Option ℕ)
split xs = (map (λ l. l.0) xs, map (λ l. l.1) xs)

take_padded :
    (k j m : ℕ) (xs : List Lane)
    → length xs + j ≡ k
    → j ≤ m
    → take k (xs ++ replicate m invalid) ≡ xs ++ replicate j invalid
take_padded k j m [] e h =
    let all : j ≡ k = omega arith in
    let more : m ≡ m - k + k = omega arith in rw (all, more) (take-replicate k (m - k) invalid)
take_padded zero j m (x ∷ xs) e h = absurd (omega arith)
take_padded (suc k) j m (x ∷ xs) e h = ap (λ r. x ∷ r) (take_padded k j m xs (omega arith) h)

map-replicate :
    {A B : Type 0} (f : A → B) (n : ℕ) (a : A) → map f (replicate n a) ≡ replicate n (f a)
map-replicate f zero a = refl
map-replicate f (suc n) a = ap (λ r. f a ∷ r) (map-replicate f n a)

pad-long : (k : ℕ) (xs : List Lane) → k ≤ length xs → pad k (split xs) ≡ split xs
unfolding pad
pad-long k xs h =
    let enough : leb k (length xs) ≡ true = ground arith in
    rw (length-map xs (λ (l : Lane). l.0), enough) refl

pad-short :
    (k j : ℕ) (xs : List Lane)
    → length xs + suc j ≡ k
    → pad k (split xs) ≡ split (xs ++ replicate (suc j) invalid)
unfolding pad
pad-short k j xs e =
    let short : leb k (length xs) ≡ false = ground arith in
    let rest : k - length xs ≡ suc j = omega arith in
    rw
      (
        length-map xs (λ (l : Lane). l.0),
        short,
        rest,
        map-append (λ (l : Lane). l.0) xs (replicate (suc j) invalid),
        map-append (λ (l : Lane). l.1) xs (replicate (suc j) invalid),
        map-replicate (λ (l : Lane). l.0) (suc j) invalid,
        map-replicate (λ (l : Lane). l.1) (suc j) invalid,
      )
      refl

pad_lem :
    (k : ℕ) (xs : List Lane)
    → pad k (split (take (min k (length xs)) xs)) ≡ split (take k (xs ++ replicate k invalid))
pad_lem k xs = elim (dec_lt (length xs) k) [
  | yes short ↦
      let all : min k (length xs) ≡ length xs = omega arith in
      let j = k - length xs - 1 in
      rw (all, take-length (length xs) xs refl)
        (pad-short k j xs (omega arith)
          ∙ ap split (sym (take_padded k (suc j) k xs (omega arith) (omega arith))))
  | no enough ↦
      let cut : min k (length xs) ≡ k = omega arith in
      rw (cut, take-append k xs (replicate k invalid) (omega arith))
        (pad-long k (take k xs) (omega (arith, length-take k xs)))
]

module _ (a : Argsort) (scores : List Score) (gpos : List (Option ℕ))
    (same : length gpos ≡ length scores) (inside : All IsInRange gpos) where
  length-sorted_lanes : length (sorted_lanes a scores gpos same inside) ≡ length scores
  length-sorted_lanes =
      length-perm _ _ (sorted_lanes-perm a scores gpos same inside)
      ∙ length-map (lanes_of scores gpos) demote
      ∙ length-lanes_of scores gpos same

  -- Padded to `k`, the selection is the best of the lanes.
  pub pad-strict_topk :
      (k : ℕ)
      → pad k (strict_topk a scores gpos k)
        ≡ split (best_lanes k (map demote (lanes_of scores gpos)))
  pad-strict_topk k =
      let xs = sorted_lanes a scores gpos same inside in
      rw (strict_topk_lem a scores gpos same inside k, ← length-sorted_lanes)
        (pad_lem k xs
          ∙ ap split (
              sym (
                best_of_IsOrdered lane_order invalid le-invalid k xs
                  (sorted_lanes-IsOrdered a scores gpos same inside))
              ∙ best-perm lane_order invalid le-invalid k xs _
                  (sorted_lanes-perm a scores gpos same inside)))

  -- With at least `k` lanes there is nothing to pad.
  pub pad-strict_topk_self :
      (k : ℕ)
      → k ≤ length scores
      → pad k (strict_topk a scores gpos k) ≡ strict_topk a scores gpos k
  pad-strict_topk_self k h =
      let xs = sorted_lanes a scores gpos same inside in
      let cut : min k (length scores) ≡ k = omega arith in
      rw (strict_topk_lem a scores gpos same inside k, cut)
        (pad-long k (take k xs) (omega (arith, length-take k xs, length-sorted_lanes)))
