-- ===== src/SparseMla/Accumulate/Loop.antt =====
-- A loop that visits the valid candidates of a range adds them to what the state holds.
use glm_5_2_gb.Common.{
  ℕ, zero, suc, ◌+◌, ◌-◌, ◌<◌, ◌≤◌, Bool, true, ◌≡◌, refl, ap, ◌∙◌, [], ◌∷◌, ◌++◌, arith, lt→ltb,
  le→not_ltb, if◌then◌else◌, for_range, Bool-cases, inl, inr,
}
use mathlib.Core.Path.{ap₂}
use mathlib.Core.List.{append_assoc, append-nil}
use glm_5_2_gb.Float.{Arith, IsExact}
use glm_5_2_gb.Softmax.{State, Row, Candidates, step}
use glm_5_2_gb.Softmax.Laws.{Holds, step-Holds}
use glm_5_2_gb.SparseMla.Accumulate.{mask_row, dot, visit, store_state}

-- The candidates `i`, ..., `i + n - 1` that are valid, in order.
unfoldable pub candidates :
    (a : Arith) → (ℕ → Bool) → (ℕ → a.S) → (ℕ → Row a) → ℕ → ℕ → Candidates a
candidates a valid score row zero i = []
candidates a valid score row (suc n) i =
    if valid i
    then (score i, row i) ∷ candidates a valid score row n (suc i)
    else candidates a valid score row n (suc i)

-- `tl.sum(q * kv) * scale` over the whole rows
unfoldable pub score_of : (a : Arith) → ℕ → a.S → Row a → Row a → a.S
score_of a head_dim scale q kv = a.mul_S (dot a head_dim q kv) scale

module _ {a : Arith} (laws : IsExact a) where
  open a use {S, W, E, exp, add_S, zero_S, add_W, mul_W, zero_W, zero_E, add_E, act, prod}

  pub mask_row-inside : {head_dim d : ℕ} (r : Row a) → d < head_dim → mask_row a head_dim r d ≡ r d
  unfolding mask_row
  mask_row-inside {head_dim} {d} r h = rw (lt→ltb d head_dim h) refl

  mask_row-outside : {head_dim d : ℕ} (r : Row a) → head_dim ≤ d → mask_row a head_dim r d ≡ zero_E
  unfolding mask_row
  mask_row-outside {head_dim} {d} r h = rw (le→not_ltb d head_dim h) refl

  -- A block of at least `head_dim` lanes with the others masked scores the whole row.
  dot-mask_row :
      (head_dim : ℕ) (q kv : Row a) (n : ℕ)
      → n ≤ head_dim
      → dot a n (mask_row a head_dim q) (mask_row a head_dim kv) ≡ dot a n q kv
  unfolding dot
  dot-mask_row head_dim q kv zero h = refl
  dot-mask_row head_dim q kv (suc n) h =
      ap₂ add_S (dot-mask_row head_dim q kv n (omega arith))
        (ap₂ prod (mask_row-inside q h) (mask_row-inside kv h))

  pub dot-pad :
      (head_dim : ℕ) (q kv : Row a) (k n : ℕ)
      → n ≡ k + head_dim
      → dot a n (mask_row a head_dim q) (mask_row a head_dim kv) ≡ dot a head_dim q kv
  unfolding dot
  dot-pad head_dim q kv zero n e =
      let e' : n ≡ head_dim = omega arith in
      rw e' (dot-mask_row head_dim q kv head_dim (omega arith))
  dot-pad head_dim q kv (suc k) zero e = absurd (omega arith)
  dot-pad head_dim q kv (suc k) (suc n) e =
      ap₂ add_S (dot-pad head_dim q kv k n (omega arith)) (
        ap₂ prod (mask_row-outside q (omega arith)) (mask_row-outside kv (omega arith))
        ∙ laws.prod-zero_E)
      ∙ laws.add-zero_S (dot a head_dim q kv)

  pub score_of-mask_row :
      (head_dim block_d : ℕ) (scale : S) (q kv : Row a)
      → head_dim ≤ block_d
      → a.mul_S (dot a block_d (mask_row a head_dim q) (mask_row a head_dim kv)) scale
        ≡ score_of a head_dim scale q kv
  unfolding score_of
  score_of-mask_row head_dim block_d scale q kv h =
      ap (λ s. a.mul_S s scale) (dot-pad head_dim q kv (block_d - head_dim) block_d (omega arith))

  -- What a kernel's loop does, for a body that visits the valid candidates.
  pub loop-Holds :
      {dim : ℕ} (body : ℕ → State a → State a) (valid : ℕ → Bool) (score : ℕ → S)
      (code row : ℕ → Row a)
      → ((i : ℕ) (st : State a)
          → body i st ≡ (if valid i then step a st (score i) (code i) else st))
      → ((i d : ℕ) → valid i ≡ true → d < dim → code i d ≡ row i d)
      → (n i : ℕ) (xs : Candidates a) (st : State a) → Holds a dim xs st
      → Holds a dim (xs ++ candidates a valid score row n i) (for_range n i body st)
  unfolding for_range candidates
  loop-Holds body valid score code row eq same zero i xs st h = rw append-nil h
  loop-Holds {dim} body valid score code row eq same (suc n) i xs st h =
      elim (Bool-cases (valid i)) [
        | inl e ↦
            let visited : body i st ≡ step a st (score i) (code i) = rw e at (eq i st) in
            rw (e, visited)
              (rw append_assoc at (
                loop-Holds body valid score code row eq same n (suc i) (xs ++ (score i, row i) ∷ [])
                  (step a st (score i) (code i))
                  (step-Holds laws (score i) (code i) (row i) (λ d. same i d e) h)))
        | inr e ↦
            let skipped : body i st ≡ st = rw e at (eq i st) in
            rw (e, skipped) (loop-Holds body valid score code row eq same n (suc i) xs st h)
      ]

  pub visit-eq-step :
      (head_dim block_d : ℕ) (scale : S) (q row : Row a) (st : State a)
      → head_dim ≤ block_d
      → visit a head_dim block_d scale q row st
        ≡ step a st (score_of a head_dim scale q row) (mask_row a head_dim row)
  unfolding visit
  visit-eq-step head_dim block_d scale q row st fits =
      ap (λ s. step a st s (mask_row a head_dim row))
        (score_of-mask_row head_dim block_d scale q row fits)

  load-Holds :
      {dim : ℕ} {xs : Candidates a} (st : State a)
      → Holds a dim xs st
      → Holds a dim xs (record st { acc = mask_row a dim st.acc })
  load-Holds {dim} st h = record {
    represents = record {
      weight = h.represents.weight;
      values = λ d k. ap (act _) (mask_row-inside st.acc k) ∙ h.represents.values d k;
    };
    settled = h.settled;
    peak = h.peak;
    floor = h.floor;
  }

  pub store-Holds :
      {dim block_d : ℕ} {xs : Candidates a} (old new : State a)
      → dim ≤ block_d
      → Holds a dim xs new
      → Holds a dim xs (store_state a dim block_d old new)
  unfolding store_state
  store-Holds {dim} {block_d} old new fits h = record {
    represents = record {
      weight = h.represents.weight;
      values = λ d k.
          let wide : d < block_d = omega arith in
          rw (lt→ltb d dim k, lt→ltb d block_d wide) (h.represents.values d k);
    };
    settled = h.settled;
    peak = h.peak;
    floor = h.floor;
  }

  -- A loop that visits the valid rows adds them.
  pub visits-Holds :
      (head_dim block_d : ℕ) (scale : S) (q : Row a) (row : ℕ → Row a) (valid : ℕ → Bool)
      (body : ℕ → State a → State a)
      → head_dim ≤ block_d
      → ((i : ℕ) (st : State a)
          → body i st ≡ (if valid i then visit a head_dim block_d scale q (row i) st else st))
      → (n : ℕ) (xs : Candidates a) (st : State a) → Holds a head_dim xs st
      → Holds a head_dim
          (xs ++ candidates a valid (λ i. score_of a head_dim scale q (row i)) row n 0)
          (for_range n 0 body st)
  visits-Holds head_dim block_d scale q row valid body fits eq n xs st h =
      loop-Holds body valid (λ i. score_of a head_dim scale q (row i))
        (λ i. mask_row a head_dim (row i)) row step-eq (λ i d v k. mask_row-inside (row i) k) n 0 xs
        _ h
    where
      step-eq :
          (i : ℕ) (st : State a)
          → body i st ≡ (
              if valid i
              then step a st (score_of a head_dim scale q (row i)) (mask_row a head_dim (row i))
              else st)
      step-eq i st =
          eq i st
          ∙ ap (λ x. if valid i then x else st)
              (visit-eq-step head_dim block_d scale q (row i) st fits)

  -- A whole kernel: load the state, visit the valid candidates of `0, ..., n - 1`, store the state.
  pub kernel-Holds :
      (head_dim block_d : ℕ) (scale : S) (q : Row a) (row : ℕ → Row a) (valid : ℕ → Bool)
      (body : ℕ → State a → State a)
      → head_dim ≤ block_d
      → ((i : ℕ) (st : State a)
          → body i st ≡ (if valid i then visit a head_dim block_d scale q (row i) st else st))
      → (n : ℕ) (xs : Candidates a) (st : State a) → Holds a head_dim xs st
      → Holds a head_dim
          (xs ++ candidates a valid (λ i. score_of a head_dim scale q (row i)) row n 0)
          (store_state a head_dim block_d st
            (for_range n 0 body (record st { acc = mask_row a head_dim st.acc })))
  kernel-Holds head_dim block_d scale q row valid body fits eq n xs st h =
      store-Holds st _ fits
        (visits-Holds head_dim block_d scale q row valid body fits eq n xs _ (load-Holds st h))
