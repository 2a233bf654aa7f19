-- ===== src/Indexer/TopK.antt =====
-- The loop over chunks of keys ends with the best positions of the row.
use mathlib.Core.List.Perm
use mathlib.Core.Path.{ap₂}
use mathlib.Core.Option.{Option-elim}
use mathlib.Core.List.{Perm, filter_map, append-nil}
use glm_5_2_gb.Common.{
  ℕ, zero, suc, ◌+◌, ◌-◌, ◌*◌, ◌≤◌, min, true, false, ◌≡◌, ◌⊎◌, inl, inr, refl, ap, ◌∙◌, Option,
  none, some, List, [], ◌∷◌, ◌++◌, map, length, length-map, length-replicate, replicate, All, arith,
  tabulate, for_range,
}
use native.Mathlib.Decide.{dec_le}
use glm_5_2_gb.Softmax.{Logit, neg_inf, fin}
use glm_5_2_gb.Indexer.Counts.{All-weaken, All-map, All_every, All-right, Passes-perm}
use glm_5_2_gb.Indexer.Chosen.{
  chosen, lane_position, IsLane, positions, positions-add, positions-numbers, is_number,
  number_above,
}
use glm_5_2_gb.Indexer.Merge.{Beats, Best, fin_neg}
use glm_5_2_gb.Indexer.Round.{merge_topk-Best}
use glm_5_2_gb.Indexer.{
  Values, IsExactSum, Lane, pad_lane, is_above, Topk, mask_lane, merge_topk, no_lanes,
}

module _ (v : Values) (logit : ℕ → Logit v.V) where
  -- `k` places, of which some name the best of the first `n` positions whose logit is not -inf, each
  -- once: none that is left out has a larger logit, and if one is left out no place is empty.
  pub record IsBestRow (k n : ℕ) (out : List (Option ℕ)) : Type 0 where
    pub size : length out ≡ k
    pub dropped : List ℕ
    pub permutes : Perm (filter_map (λ o. o) out ++ dropped) (positions v logit n 0)
    pub ordered :
        All
          (λ p. All (λ d. is_above v (logit d) (logit p) ≡ false) dropped)
          (filter_map (λ o. o) out)
    pub full : (dropped ≡ []) ⊎ (length (filter_map (λ o. o) out) ≡ k)

  -- The index of a lane is -1 where its value is -inf.
  abbrev IsMasked : Lane v → Type 0
  IsMasked l = l.1 ≡ lane_position v logit l

  mask_lane-IsMasked : (l : Lane v) → IsMasked (mask_lane v l)
  unfolding mask_lane lane_position
  mask_lane-IsMasked (neg_inf, i) = refl
  mask_lane-IsMasked (fin s, i) = refl

  named_positions :
      (lanes : List (Lane v))
      → All IsMasked lanes
      → filter_map (λ o. o) (map (λ l. l.1) lanes) ≡ chosen v logit lanes
  unfolding filter_map
  named_positions [] h = refl
  named_positions (l ∷ lanes) h =
      ap₂ (λ (o : Option ℕ) (r : List ℕ). Option-elim o r (λ b. b ∷ r)) h.0
        (named_positions lanes h.1)

  chosen-ordered :
      (dropped : List ℕ) (lanes : List (Lane v))
      → All (IsLane v logit) lanes
      → All (Beats v logit dropped) lanes
      → All (λ p. All (λ d. is_above v (logit d) (logit p) ≡ false) dropped) (chosen v logit lanes)
  unfolding filter_map lane_position
  chosen-ordered dropped [] named beats = tt
  chosen-ordered dropped ((neg_inf, i) ∷ lanes) named beats =
      chosen-ordered dropped lanes named.1 beats.1
  chosen-ordered dropped ((fin s, none) ∷ lanes) named beats =
      chosen-ordered dropped lanes named.1 beats.1
  chosen-ordered dropped ((fin s, some p) ∷ lanes) named beats = elim named.0 [
    | inl e ↦ absurd (fin_neg v s e)
    | inr (p', e, e') ↦
        let same : p ≡ p' = cc in
        (rw (same, ← e') beats.0, chosen-ordered dropped lanes named.1 beats.1)
  ]

  -- A finite logit that no lane is below leaves no lane empty.
  all_chosen :
      (d : ℕ) (lanes : List (Lane v))
      → is_number v (logit d) ≡ true
      → All (IsLane v logit) lanes
      → All (λ l. is_above v (logit d) l.0 ≡ false) lanes
      → length (chosen v logit lanes) ≡ length lanes
  unfolding filter_map lane_position
  all_chosen d [] finite named beats = refl
  all_chosen d ((neg_inf, i) ∷ lanes) finite named beats =
      let top = number_above v (logit d) finite in let low = beats.0 in cc
  all_chosen d ((fin s, none) ∷ lanes) finite named beats = elim named.0 [
    | inl e ↦ absurd (fin_neg v s e)
    | inr (p', e, e') ↦ absurd (let e'' : none ≡ some p' = e in cc)
  ]
  all_chosen d ((fin s, some p) ∷ lanes) finite named beats =
      ap suc (all_chosen d lanes finite named.1 beats.1)

  full_or_none :
      (k : ℕ) (lanes : List (Lane v)) (dropped : List ℕ)
      → length lanes ≡ k
      → All (λ d. is_number v (logit d) ≡ true) dropped
      → All (IsLane v logit) lanes
      → All (Beats v logit dropped) lanes
      → (dropped ≡ []) ⊎ (length (chosen v logit lanes) ≡ k)
  full_or_none k lanes [] size finite named beats = inl refl
  full_or_none k lanes (d ∷ dropped) size finite named beats =
      inr (all_chosen d lanes finite.0 named (All-weaken _ _ lanes (λ l h. h.0) beats) ∙ size)

  -- The indices of masked best lanes.
  best_row :
      (k n : ℕ) (lanes : List (Lane v))
      → Best v logit k (positions v logit n 0) lanes
      → All IsMasked lanes
      → IsBestRow k n (map (λ l. l.1) lanes)
  best_row k n lanes b masked =
      let names = named_positions lanes masked in
      let finite = All-right _ (chosen v logit lanes) b.dropped (
        Passes-perm (λ p. is_number v (logit p)) (chosen v logit lanes ++ b.dropped)
          (positions v logit n 0) b.permutes (positions-numbers v logit n 0)) in
      record {
        size = length-map lanes (λ (l : Lane v). l.1) ∙ b.size;
        dropped = b.dropped;
        permutes = rw names b.permutes;
        ordered = rw names (chosen-ordered b.dropped lanes b.named b.ordered);
        full = rw names (full_or_none k lanes b.dropped b.size finite b.named b.ordered);
      }

  no_lanes-named : (k : ℕ) → All (IsLane v logit) (replicate k (pad_lane v))
  no_lanes-named zero = tt
  no_lanes-named (suc k) = (inl refl, no_lanes-named k)

  no_lanes-IsMasked : (k : ℕ) → All IsMasked (replicate k (pad_lane v))
  unfolding lane_position
  no_lanes-IsMasked zero = tt
  no_lanes-IsMasked (suc k) = (refl, no_lanes-IsMasked k)

  no_lanes-chosen : (k : ℕ) → chosen v logit (replicate k (pad_lane v)) ≡ []
  unfolding filter_map lane_position
  no_lanes-chosen zero = refl
  no_lanes-chosen (suc k) = no_lanes-chosen k

  no_lanes-Best : (k : ℕ) → Best v logit k (positions v logit 0 0) (no_lanes v k)
  unfolding no_lanes positions
  no_lanes-Best k = record {
    size = length-replicate k (pad_lane v);
    named = no_lanes-named k;
    dropped = [];
    permutes = rw (no_lanes-chosen k) (Perm.refl []);
    ordered = All_every _ (replicate k (pad_lane v)) (λ l. tt);
  }

  merge_topk-IsMasked :
      (t : Topk v) (k : ℕ) (logits : List (Logit v.V)) (k_start : ℕ) (lanes : List (Lane v))
      → All IsMasked (merge_topk v t k logits k_start lanes)
  unfolding merge_topk
  merge_topk-IsMasked t k logits k_start lanes =
      All-map IsMasked _ _ (All_every _ _ (λ i. mask_lane-IsMasked _))

  module _ (laws : IsExactSum v) (t : Topk v) (k n width : ℕ)
      (body : ℕ → List (Lane v) → List (Lane v))
      (one : (b : ℕ) (lanes : List (Lane v))
        → body b lanes
          ≡ merge_topk v t k
              (tabulate logit (min (b * width + width) n - b * width) (b * width))
              (b * width)
              lanes) where
    -- The positions before round `b`, and the round's.
    abbrev seen : ℕ → List ℕ
    seen b = positions v logit (min (b * width) n) 0

    seen-next :
        (b : ℕ)
        → seen b ++ positions v logit (min (b * width + width) n - b * width) (b * width)
          ≡ seen (suc b)
    unfolding positions
    seen-next b = elim (dec_le (b * width) n) [
      | yes h ↦
          let here : min (b * width) n ≡ b * width = omega arith in
          let next : b * width + (min (b * width + width) n - b * width) ≡ min (suc b * width) n =
            omega arith in
          rw (here, ← next)
            (positions-add v logit (b * width) (min (b * width + width) n - b * width) 0 (b * width)
              (omega arith))
      | no h ↦
          let here : min (b * width) n ≡ n = omega arith in
          let none_left : min (b * width + width) n - b * width ≡ 0 = omega arith in
          let next : min (suc b * width) n ≡ n = omega arith in
          rw (here, none_left, next) (append-nil (positions v logit n 0))
    ]

    rounds-Best :
        (rounds b last : ℕ) (lanes : List (Lane v))
        → b + rounds ≡ last
        → Best v logit k (seen b) lanes × All IsMasked lanes
        → let lanes' = for_range rounds b body lanes in
          Best v logit k (seen last) lanes' × All IsMasked lanes'
    unfolding for_range
    rounds-Best zero b last lanes e h = let same : last ≡ b = omega arith in rw same h
    rounds-Best (suc rounds) b last lanes e h =
        rounds-Best rounds (suc b) last (body b lanes) (omega arith) (
          rw (one b lanes, ← seen-next b)
            (
              merge_topk-Best v logit laws t k (min (b * width + width) n - b * width) (b * width)
                  (seen b) lanes h.0,
              merge_topk-IsMasked t k _ (b * width) lanes,
            ))

    -- A loop whose rounds merge the chunks of a row of `n` logits, in order.
    pub rounds-IsBestRow :
        (rounds : ℕ)
        → n ≤ rounds * width
        → IsBestRow k n (map (λ l. l.1) (for_range rounds 0 body (no_lanes v k)))
    unfolding no_lanes
    rounds-IsBestRow rounds enough =
        let first : min (0 * width) n ≡ 0 = omega arith in
        let all : min (rounds * width) n ≡ n = omega arith in
        let (best, masked) =
          rounds-Best rounds 0 rounds (no_lanes v k) (omega arith)
            (rw first (no_lanes-Best k), no_lanes-IsMasked k) in
        best_row k n _ (rw all at best) masked

  no_lanes-empty : (k : ℕ) → map (λ l. l.1) (replicate k (pad_lane v)) ≡ replicate k none
  no_lanes-empty zero = refl
  no_lanes-empty (suc k) = ap (λ r. none ∷ r) (no_lanes-empty k)

  -- Without a position, or without a place.
  pub nothing-IsBestRow :
      IsExactSum v → Topk v → (k n : ℕ) → (k ≡ 0) ⊎ (n ≡ 0) → IsBestRow k n (replicate k none)
  unfolding for_range no_lanes filter_map positions
  nothing-IsBestRow laws t k n (inl e) = rw e (record {
    size = refl;
    dropped = positions v logit n 0;
    permutes = Perm.refl _;
    ordered = tt;
    full = inr refl;
  })
  nothing-IsBestRow laws t k n (inr e) =
      rw (e, ← no_lanes-empty k)
        (rounds-IsBestRow laws t k 0 1
          (λ b lanes.
            merge_topk v t k (tabulate logit (min (b * 1 + 1) 0 - b * 1) (b * 1)) (b * 1) lanes)
          (λ b lanes. refl) 0 (omega arith))
