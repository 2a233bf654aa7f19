-- ===== src/Prune/Pieces.antt =====
-- One tensor of a shard: whatever its fate, what is written answers to the names that it should.
use glm_5_2_gb.Common.{
  ℕ, ◌<◌, ◌&&◌, ◌≡◌, inl, inr, refl, sym, ◌∙◌, arith, true, false, Option, none, some, List, [],
  ◌∷◌, length, get_or, Ordered, ltb, ltb→lt, ◌==◌, if◌then◌else◌, Bool-cases, Option-cases,
}
use glm_5_2_gb.Prune.{
  Name, expert, gate_weight, gate_bias, other, same_name, Tensor, lookup, old2new, Fate, rename,
  discard, untouched, expert_fate, gate_fate, fate, rewritten,
}
use glm_5_2_gb.Prune.Files.{map_option}
use glm_5_2_gb.Prune.Renumber.{is_new, renumbered, old2new-inverse}
use glm_5_2_gb.Prune.Origin.{IsRows, IsReady, gate_change, keep_rows, origin, source, row_slice-eq}

map_option_id : {A : Type 0} (x : Option A) → map_option (λ y. y) x ≡ x
map_option_id none = refl
map_option_id (some x) = refl

module _ (keep : ℕ → Option (List ℕ))
    (ascending : (l : ℕ) (ks : List ℕ) → keep l ≡ some ks → Ordered (λ k k'. k < k') ks) where
  -- One tensor's fate, and the tensor that is written.
  abbrev pub IsPiece : Name → Tensor → Type 0
  IsPiece n t =
      (act : Fate) × (piece : List (Name × Tensor)) × (fate keep n ≡ some act)
      × (rewritten keep (n, t) act ≡ some piece)
      × ((m : Name) → lookup piece m ≡ source (origin keep m) ((n, t) ∷ []))

  gate-same :
      (l l' : ℕ) (t : Tensor)
      → (if l == l' then some (gate_change (keep l) t) else none)
        ≡ map_option (gate_change (keep l')) (if l == l' then some t else none)
  gate-same l l' t = elim (Bool-cases (l == l')) [
    | inl e ↦ let eq : l ≡ l' = ground arith in rw (e, eq) refl
    | inr e ↦ rw e refl
  ]

  -- A tensor that no expert of the layer is.
  not_expert :
      (n : Name) (t : Tensor) (l j rest : ℕ)
      → ((e : ℕ) → same_name n (expert l e rest) ≡ false)
      → source (origin keep (expert l j rest)) ((n, t) ∷ []) ≡ none
  unfolding lookup origin
  not_expert n t l j rest differs = elim (Option-cases (keep l)) [
    | inl missing ↦ rw missing refl
    | inr (ks, found) ↦ elim (Bool-cases (ltb j (length ks))) [
      | inl inside ↦ rw (found, inside, differs (get_or ks j 0)) refl
      | inr outside ↦ rw (found, outside) refl
    ]
  ]

  other-IsPiece : (s : ℕ) (t : Tensor) → IsPiece (other s) t
  unfolding fate rewritten lookup origin same_name
  other-IsPiece s t = (untouched, (other s, t) ∷ [], refl, refl, same)
    where
      same : (m : Name) → lookup ((other s, t) ∷ []) m ≡ source (origin keep m) ((other s, t) ∷ [])
      same (expert l j rest) = sym (not_expert (other s) t l j rest (λ e. refl))
      same (gate_weight l) = refl
      same (gate_bias l) = refl
      same (other s') = elim (Bool-cases (s == s')) [ inl e ↦ rw e refl | inr e ↦ rw e refl ]

  past_the_end :
      (ks : List ℕ) (e j : ℕ) → ltb j (length ks) ≡ false → is_new (old2new 0 ks e) j ≡ false
  past_the_end ks e j outside = elim (Option-cases (old2new 0 ks e)) [
    | inl missing ↦ rw missing refl
    | inr (k, found) ↦
        let (place, eq, inside, here) = old2new-inverse 0 ks e k found in rw found (ground arith)
  ]

  -- The experts' names of its layer that one expert's tensor answers to.
  layer-source :
      (l e rest : ℕ) (t : Tensor) (ks : List ℕ)
      → keep l ≡ some ks
      → (j rest' : ℕ)
      → source (origin keep (expert l j rest')) ((expert l e rest, t) ∷ [])
        ≡ (if is_new (old2new 0 ks e) j && (rest == rest') then some t else none)
  unfolding lookup origin same_name
  layer-source l e rest t ks found j rest' =
      let layer : (l == l) ≡ true = ground arith in
      elim (Bool-cases (ltb j (length ks))) [
        | inl inside ↦
            rw (found, inside, layer, renumbered ks e j (ascending l ks found) (ltb→lt j _ inside))
              (map_option_id _)
        | inr outside ↦ rw (found, outside, past_the_end ks e j outside) refl
      ]

  -- All the experts' names that it answers to.
  expert-source :
      (l e rest : ℕ) (t : Tensor) (ks : List ℕ)
      → keep l ≡ some ks
      → (l' j rest' : ℕ)
      → source (origin keep (expert l' j rest')) ((expert l e rest, t) ∷ [])
        ≡ (if (l == l') && is_new (old2new 0 ks e) j && (rest == rest') then some t else none)
  unfolding same_name
  expert-source l e rest t ks found l' j rest' = elim (Bool-cases (l == l')) [
    | inl same ↦
        let eq : l ≡ l' = ground arith in
        rw same (rw (← eq) (layer-source l e rest t ks found j rest'))
    | inr differs ↦ rw differs (not_expert (expert l e rest) t l' j rest' (λ e'. rw differs refl))
  ]

  expert-IsPiece :
      (l e rest : ℕ) (t : Tensor) (ks : List ℕ) → keep l ≡ some ks → IsPiece (expert l e rest) t
  unfolding fate rewritten lookup origin same_name expert_fate
  expert-IsPiece l e rest t ks found = elim (Option-cases (old2new 0 ks e)) [
    | inl missing ↦ (discard, [], rw (found, missing) refl, refl, dropped missing)
    | inr (j, place) ↦ (
      rename (expert l j rest),
      (expert l j rest, t) ∷ [],
      rw (found, place) refl,
      refl,
      renamed j place,
    )
  ]
    where
      dropped :
          old2new 0 ks e ≡ none
          → (m : Name)
          → lookup {A = Tensor} [] m ≡ source (origin keep m) ((expert l e rest, t) ∷ [])
      dropped missing (expert l' j rest') = sym (
          expert-source l e rest t ks found l' j rest'
          ∙ rw missing (elim (Bool-cases (l == l')) [ inl h ↦ rw h refl | inr h ↦ rw h refl ]))
      dropped missing (gate_weight l') = refl
      dropped missing (gate_bias l') = refl
      dropped missing (other s) = refl

      renamed :
          (j : ℕ)
          → old2new 0 ks e ≡ some j
          → (m : Name)
          → lookup ((expert l j rest, t) ∷ []) m
            ≡ source (origin keep m) ((expert l e rest, t) ∷ [])
      renamed j place (expert l' j' rest') =
          sym (expert-source l e rest t ks found l' j' rest' ∙ rw place refl)
      renamed j place (gate_weight l') = refl
      renamed j place (gate_bias l') = refl
      renamed j place (other s) = refl

  -- A gate that is sliced or left.
  gate-row :
      (l : ℕ) (n : Name) (t : Tensor)
      → IsRows t
      → rewritten keep (n, t) (gate_fate l (keep l)) ≡ some ((n, gate_change (keep l) t) ∷ [])
  unfolding rewritten gate_fate gate_change keep_rows
  gate-row l n t h = elim (Option-cases (keep l)) [
    | inl missing ↦ rw missing refl
    | inr (ks, found) ↦ rw (found, rewritten, found, row_slice-eq ks t h) refl
  ]

  gate_weight-IsPiece : (l : ℕ) (t : Tensor) → IsRows t → IsPiece (gate_weight l) t
  unfolding fate lookup origin same_name
  gate_weight-IsPiece l t h = (
    gate_fate l (keep l),
    (gate_weight l, gate_change (keep l) t) ∷ [],
    refl,
    gate-row l (gate_weight l) t h,
    same,
  )
    where
      same :
          (m : Name)
          → lookup ((gate_weight l, gate_change (keep l) t) ∷ []) m
            ≡ source (origin keep m) ((gate_weight l, t) ∷ [])
      same (expert l' j rest) = sym (not_expert (gate_weight l) t l' j rest (λ e. refl))
      same (gate_weight l') = gate-same l l' t
      same (gate_bias l') = refl
      same (other s') = refl

  gate_bias-IsPiece : (l : ℕ) (t : Tensor) → IsRows t → IsPiece (gate_bias l) t
  unfolding fate lookup origin same_name
  gate_bias-IsPiece l t h = (
    gate_fate l (keep l),
    (gate_bias l, gate_change (keep l) t) ∷ [],
    refl,
    gate-row l (gate_bias l) t h,
    same,
  )
    where
      same :
          (m : Name)
          → lookup ((gate_bias l, gate_change (keep l) t) ∷ []) m
            ≡ source (origin keep m) ((gate_bias l, t) ∷ [])
      same (expert l' j rest) = sym (not_expert (gate_bias l) t l' j rest (λ e. refl))
      same (gate_weight l') = refl
      same (gate_bias l') = gate-same l l' t
      same (other s') = refl

  pub ready-IsPiece : (n : Name) (t : Tensor) → IsReady keep (n, t) → IsPiece n t
  unfolding IsReady
  ready-IsPiece (expert l e rest) t (ks, found) = expert-IsPiece l e rest t ks found
  ready-IsPiece (gate_weight l) t h = gate_weight-IsPiece l t h
  ready-IsPiece (gate_bias l) t h = gate_bias-IsPiece l t h
  ready-IsPiece (other s) t h = other-IsPiece s t
