-- ===== src/Indexer/Round.antt =====
-- A round: the chunk's top-k and the best lanes so far give the best lanes of both.
use mathlib.Core.List.Perm
use mathlib.Core.List.{
  Perm, filter_map, filter_map-append, append_assoc, map-append, map-map, perm_append_comm,
}
use glm_5_2_gb.Common.{
  ℕ, ◌+◌, ◌≤◌, min, ◌≡◌, ◌⊎◌, inl, inr, refl, sym, ◌∙◌, List, [], ◌∷◌, ◌++◌, map, length,
  length-append, length-map, length-tabulate, All, arith, get_or, tabulate,
}
use native.Mathlib.Decide.{dec_le}
use glm_5_2_gb.Common.Permutations.{range, length-perm}
use glm_5_2_gb.Softmax.{Logit}
use glm_5_2_gb.Indexer.Counts.{All-weaken, All-append, All-map, All_every}
use glm_5_2_gb.Indexer.Chosen.{
  chosen, lane_position, IsLane, positions, chunk_lane, chosen-chunk, chunk_lane-IsLane,
}
use glm_5_2_gb.Indexer.Merge.{
  All-swap, Beats, Best, kept, left_out, kept-perm, pick-named, kept-Beats, kept-still, masked-Best,
  chosen-below,
}
use glm_5_2_gb.Indexer.{Values, IsExactSum, Lane, pad_lane, IsTopk, Topk, merge_topk, mask_lane}

All-zip :
    {A : Type 0} (P Q : A → Type 0) (xs : List A) → All P xs → All Q xs → All (λ x. P x × Q x) xs
All-zip P Q [] h h' = tt
All-zip P Q (x ∷ xs) h h' = ((h.0, h'.0), All-zip P Q xs h.1 h'.1)

length_zero : {A : Type 0} (xs : List A) → length xs ≡ 0 → xs ≡ []
length_zero [] h = refl
length_zero (x ∷ xs) h = absurd (omega arith)

-- Two selections in turn, and what each leaves.
shuffle :
    (k o l c r d p seen : List ℕ)
    → Perm (k ++ o) (l ++ c)
    → Perm (c ++ r) p
    → Perm (l ++ d) seen
    → Perm (k ++ (o ++ (r ++ d))) (seen ++ p)
shuffle k o l c r d p seen first second before =
    let step1 : Perm (k ++ (o ++ (r ++ d))) (l ++ (c ++ (r ++ d))) =
      rw (← append_assoc k o (r ++ d), ← append_assoc l c (r ++ d))
        (Perm.append_right (r ++ d) first) in
    let step2 : Perm (l ++ (c ++ (r ++ d))) (l ++ (p ++ d)) =
      rw (← append_assoc c r d) (Perm.append_left l (Perm.append_right d second)) in
    let step3 : Perm (l ++ (p ++ d)) (l ++ (d ++ p)) = Perm.append_left l (perm_append_comm p d) in
    let step4 : Perm (l ++ (d ++ p)) (seen ++ p) =
      rw (← append_assoc l d p) (Perm.append_right p before) in
    Perm.trans step1 (Perm.trans step2 (Perm.trans step3 step4))

module _ (v : Values) (logit : ℕ → Logit v.V) (laws : IsExactSum v) (k n k_start : ℕ)
    (seen : List ℕ) (lanes : List (Lane v)) (sel sel' : List ℕ) (b : Best v logit k seen lanes)
    (top : IsTopk v (min k n) (tabulate logit n k_start) sel) where
  abbrev chunk : List (Lane v)
  chunk = map (chunk_lane v logit n k_start) sel

  abbrev rest : List (Lane v)
  rest = map (chunk_lane v logit n k_start) top.left

  lanes_named : (is : List ℕ) → All (IsLane v logit) (map (chunk_lane v logit n k_start) is)
  lanes_named is =
      All-map (IsLane v logit) (chunk_lane v logit n k_start) is
        (All_every _ is (chunk_lane-IsLane v logit n k_start))

  named : All (IsLane v logit) (lanes ++ chunk)
  named = All-append (IsLane v logit) lanes chunk b.named (lanes_named sel)

  places : Perm (sel ++ top.left) (range n)
  places = rw (length-tabulate logit n k_start) at top.permutes

  chunk-perm : Perm (chosen v logit chunk ++ chosen v logit rest) (positions v logit n k_start)
  chunk-perm =
      let f = chunk_lane v logit n k_start in
      rw
        (
          ← filter_map-append (lane_position v logit) chunk rest,
          ← map-append f sel top.left,
          ← chosen-chunk v logit n k_start,
        )
        (Perm.filter_map (lane_position v logit) (Perm.map f places))

  chunk-Beats : All (Beats v logit (chosen v logit rest)) chunk
  unfolding chunk_lane
  chunk-Beats = All-map _ _ sel (
      All-weaken _ _ sel
        (λ i h. chosen-below v logit _ rest (lanes_named top.left) (All-map _ _ top.left h))
        top.best)

  -- The chunk leaves nothing, or its top-k has `k` lanes.
  chunk_cases : (top.left ≡ []) ⊎ (length chunk ≡ k)
  chunk_cases =
      let total : length sel + length top.left ≡ n =
        sym (length-append sel top.left)
        ∙ length-perm (sel ++ top.left) (range n) places
        ∙ length-tabulate (λ i. i) n 0 in
      elim (dec_le n k) [
        | yes h ↦ inl (length_zero top.left (omega (arith, top.size)))
        | no h ↦ inr (length-map sel (chunk_lane v logit n k_start) ∙ top.size ∙ omega arith)
      ]

  module _ (top' : IsTopk v k (map (λ l. l.0) (lanes ++ chunk)) sel') where
    abbrev new : List (Lane v)
    new = kept v logit laws k (lanes ++ chunk) sel' top' named

    abbrev out : List (Lane v)
    out = left_out v logit laws k (lanes ++ chunk) sel' top' named

    -- Against what was dropped before.
    old-Beats : All (Beats v logit b.dropped) new
    old-Beats = All-swap _ b.dropped new (
        All-weaken _ _ b.dropped
          (λ d h.
            kept-still v logit laws k (lanes ++ chunk) sel' top' named lanes chunk d
              (Perm.refl (lanes ++ chunk)) b.size h)
          (All-swap _ lanes b.dropped b.ordered))

    -- Against what the chunk's top-k leaves.
    rest-Beats : All (Beats v logit (chosen v logit rest)) new
    unfolding filter_map
    rest-Beats = elim chunk_cases [
      | inl none ↦ rw none (All_every _ new (λ l. tt))
      | inr full ↦ All-swap _ (chosen v logit rest) new (
          All-weaken _ _ (chosen v logit rest)
            (λ d h.
              kept-still v logit laws k (lanes ++ chunk) sel' top' named chunk lanes d
                (perm_append_comm chunk lanes) full h)
            (All-swap _ chunk (chosen v logit rest) chunk-Beats))
    ]

    new-Best : Best v logit k (seen ++ positions v logit n k_start) new
    new-Best = record {
      size = length-map sel' _ ∙ top'.size;
      named =
          All-map (IsLane v logit) _ sel'
            (All_every _ sel' (pick-named v logit laws k (lanes ++ chunk) sel' top' named));
      dropped = chosen v logit out ++ (chosen v logit rest ++ b.dropped);
      permutes =
          shuffle (chosen v logit new) (chosen v logit out) (chosen v logit lanes)
            (chosen v logit chunk) (chosen v logit rest) b.dropped (positions v logit n k_start)
            seen
            (rw
              (
                ← filter_map-append (lane_position v logit) new out,
                ← filter_map-append (lane_position v logit) lanes chunk,
              )
              (Perm.filter_map (lane_position v logit)
                (kept-perm v logit laws k (lanes ++ chunk) sel' top' named)))
            chunk-perm b.permutes;
      ordered =
          All-weaken _ _ new
            (λ l (h, (h', h'')).
              All-append _ (chosen v logit out) (chosen v logit rest ++ b.dropped) h
                (All-append _ (chosen v logit rest) b.dropped h' h''))
            (All-zip _ _ new (kept-Beats v logit laws k (lanes ++ chunk) sel' top' named)
              (All-zip _ _ new rest-Beats old-Beats));
    }

masked_pick :
    (v : Values) (xs : List (Lane v)) (is : List ℕ)
    → map (λ i. mask_lane v (get_or xs i (pad_lane v))) is
      ≡ map (mask_lane v) (map (λ i. get_or xs i (pad_lane v)) is)
masked_pick v xs is = sym (map-map (mask_lane v) (λ i. get_or xs i (pad_lane v)) is)

module _ (v : Values) (logit : ℕ → Logit v.V) (laws : IsExactSum v) where
  -- A round's merge with the logits of a chunk.
  pub merge_topk-Best :
      (t : Topk v) (k n k_start : ℕ) (seen : List ℕ) (lanes : List (Lane v))
      → Best v logit k seen lanes
      → Best v logit k
          (seen ++ positions v logit n k_start)
          (merge_topk v t k (tabulate logit n k_start) k_start lanes)
  unfolding merge_topk chunk_lane
  merge_topk-Best t k n k_start seen lanes b =
      let logits = tabulate logit n k_start in
      let sel = t.topk (min k n) logits in
      let chunk : List (Lane v) = map (chunk_lane v logit n k_start) sel in
      let sel' = t.topk k (map (λ (l : Lane v). l.0) (lanes ++ chunk)) in
      let long : k ≤ length (map (λ (l : Lane v). l.0) (lanes ++ chunk)) = omega (
        arith,
        length-map (lanes ++ chunk) (λ (l : Lane v). l.0),
        length-append lanes chunk,
        b.size,
      ) in
      let top = t.topk-IsTopk (min k n) logits (omega (arith, length-tabulate logit n k_start)) in
      let top' = t.topk-IsTopk k (map (λ (l : Lane v). l.0) (lanes ++ chunk)) long in
      rw (length-tabulate logit n k_start, masked_pick v (lanes ++ chunk) sel')
        (masked-Best v logit laws _
          (new-Best v logit laws k n k_start seen lanes sel sel' b top top'))
