-- ===== src/Dcp/Prefill/Laws.antt =====
-- The index takes the gathered keys to global order.
use native.Mathlib.Nat.{mod-lt, div-add-mod', add_assoc, add-zero, zero-add}
use glm_5_2_gb.Common.{
  ℕ, zero, suc, ◌+◌, ◌-◌, ◌*◌, ◌/◌, ◌%◌, ◌≤◌, ◌<◌, min, ◌≡◌, refl, sym, ap, ◌∙◌, arith, List, [],
  ◌∷◌, ◌++◌, map, Option, some, length, get_elem?, length-append, tabulate, length-tabulate,
  map-tabulate,
}
use mathlib.Core.Path.{ap₂}
use mathlib.Core.List.{map-append}
use glm_5_2_gb.Dcp.Shard.{own}
use glm_5_2_gb.Dcp.Shard.Laws.{lt-own_iff}
use glm_5_2_gb.Dcp.Prefill.{
  sum_range, concat_range, rank_base, req_off, glen, part, build_reassembly_index, owned_rows,
  rank_rows, all_rows, global_rows,
}

module _ {V : Type 0} where
  get_elem?-tabulate :
      (f : ℕ → V) (n i j : ℕ) → j < n → get_elem? (tabulate f n i) j ≡ some (f (i + j))
  get_elem?-tabulate f zero i j h = absurd (omega arith)
  get_elem?-tabulate f (suc n) i zero h = rw add-zero refl
  get_elem?-tabulate f (suc n) i (suc j) h =
      get_elem?-tabulate f n (suc i) j (omega arith) ∙ ap (λ k. some (f k)) (omega arith)

  get_elem?-append_left :
      (xs ys : List V) (j : ℕ) → j < length xs → get_elem? (xs ++ ys) j ≡ get_elem? xs j
  get_elem?-append_left [] ys j h = absurd (omega arith)
  get_elem?-append_left (x ∷ xs) ys zero h = refl
  get_elem?-append_left (x ∷ xs) ys (suc j) h = get_elem?-append_left xs ys j (omega arith)

  get_elem?-append_right :
      (xs ys : List V) (j k : ℕ) → k ≡ length xs + j → get_elem? (xs ++ ys) k ≡ get_elem? ys j
  get_elem?-append_right [] ys j k e = let e' : k ≡ j = omega arith in rw e' refl
  get_elem?-append_right (x ∷ xs) ys j zero e = absurd (omega arith)
  get_elem?-append_right (x ∷ xs) ys j (suc k) e = get_elem?-append_right xs ys j k (omega arith)

  length-concat_range :
      (f : ℕ → List V) (n i : ℕ) → length (concat_range f n i) ≡ sum_range (λ k. length (f k)) n i
  length-concat_range f zero i = refl
  length-concat_range f (suc n) i =
      omega (arith, length-append (f i) (concat_range f n (suc i)), length-concat_range f n (suc i))

  -- Item `j` of the part `m` stands behind the `k` parts before it, whose lengths are `len`.
  get_elem?-concat_range :
      (f : ℕ → List V) (len : ℕ → ℕ)
      → ((l : ℕ) → length (f l) ≡ len l)
      → (n i k m j : ℕ) → i + k ≡ m
      → k < n
      → j < len m
      → get_elem? (concat_range f n i) (sum_range len k i + j) ≡ get_elem? (f m) j
  get_elem?-concat_range f len lens zero i k m j e h inside = absurd (omega arith)
  get_elem?-concat_range f len lens (suc n) i zero m j e h inside =
      let here : i ≡ m = omega arith in
      rw (here, zero-add j) (get_elem?-append_left (f m) _ j (omega (arith, lens m)))
  get_elem?-concat_range f len lens (suc n) i (suc k) m j e h inside =
      get_elem?-append_right (f i) _ (sum_range len k (suc i) + j) _ (omega (arith, lens i))
      ∙ get_elem?-concat_range f len lens n (suc i) k m j (omega arith) (omega arith) inside

module _ {V W : Type 0} (g : V → W) where
  map-concat_range :
      (f : ℕ → List V) (n i : ℕ) → map g (concat_range f n i) ≡ concat_range (λ k. map g (f k)) n i
  map-concat_range f zero i = refl
  map-concat_range f (suc n) i =
      map-append g (f i) _ ∙ ap (λ t. map g (f i) ++ t) (map-concat_range f n (suc i))

module _ {V : Type 0} where
  tabulate-congr :
      (f g : ℕ → V) (n i top : ℕ)
      → i + n ≤ top
      → ((k : ℕ) → k < top → f k ≡ g k)
      → tabulate f n i ≡ tabulate g n i
  tabulate-congr f g zero i top h same = refl
  tabulate-congr f g (suc n) i top h same =
      ap₂ ◌∷◌ (same i (omega arith)) (tabulate-congr f g n (suc i) top (omega arith) same)

  concat_range-congr :
      (f g : ℕ → List V) (n i top : ℕ)
      → i + n ≤ top
      → ((k : ℕ) → k < top → f k ≡ g k)
      → concat_range f n i ≡ concat_range g n i
  concat_range-congr f g zero i top h same = refl
  concat_range-congr f g (suc n) i top h same =
      ap₂ ◌++◌ (same i (omega arith)) (concat_range-congr f g n (suc i) top (omega arith) same)

sum_range-congr :
    (f g : ℕ → ℕ) → ((k : ℕ) → f k ≡ g k) → (n i : ℕ) → sum_range f n i ≡ sum_range g n i
sum_range-congr f g same zero i = refl
sum_range-congr f g same (suc n) i = ap₂ ◌+◌ (same i) (sum_range-congr f g same n (suc i))

sum_range-inside :
    (f : ℕ → ℕ) (n i k m j : ℕ)
    → i + k ≡ m
    → k < n
    → j < f m
    → sum_range f k i + j < sum_range f n i
sum_range-inside f zero i k m j e h inside = absurd (omega arith)
sum_range-inside f (suc n) i zero m j e h inside =
    let here : i ≡ m = omega arith in let inside' : j < f i = rw here inside in omega arith
sum_range-inside f (suc n) i (suc k) m j e h inside =
    omega (arith, sum_range-inside f n (suc i) k m j (omega arith) (omega arith) inside)

-- The owners' counts add up: a position has one owner.
sum_own :
    (c w n i : ℕ)
    → sum_range (λ r. own c r w) n i ≡ n * (c / w) + (min (i + n) (c % w) - min i (c % w))
unfolding own
sum_own c w zero i = omega arith
sum_own c w (suc n) i = ground (arith, sum_own c w n (suc i))

-- Over all the ranks, of which there is at least one, the counts of owned keys add up to the keys.
pub sum_own_lem : (c n : ℕ) → 0 < n → sum_range (λ r. own c r n) n 0 ≡ c
sum_own_lem c n h = omega (arith, sum_own c n n 0, div-add-mod' c n, mod-lt c h)

module _ {V : Type 0} (n reqs : ℕ) (glens : ℕ → ℕ) (key : ℕ → ℕ → V) (some_rank : 0 < n) where
  abbrev counts : ℕ → ℕ → ℕ
  counts r q = own (glens q) r n

  length-owned_rows : (r q : ℕ) → length (owned_rows n reqs counts key r q) ≡ counts r q
  unfolding owned_rows
  length-owned_rows r q = length-tabulate _ (counts r q) 0

  length-rank_rows : (r : ℕ) → length (rank_rows n reqs counts key r) ≡ sum_range (counts r) reqs 0
  unfolding rank_rows
  length-rank_rows r =
      length-concat_range _ reqs 0 ∙ sum_range-congr _ _ (length-owned_rows r) reqs 0

  owned_place : (q p : ℕ) → p < glens q → p / n < counts (p % n) q
  owned_place q p h =
      let split : p / n * n + p % n ≡ p = div-add-mod' p n in
      (lt-own_iff (glens q) (p % n) n (p / n) (mod-lt p some_rank)).1 (omega arith)

  rank-key :
      (r q c : ℕ)
      → q < reqs
      → c < counts r q
      → get_elem? (rank_rows n reqs counts key r) (sum_range (counts r) q 0 + c)
        ≡ some (key q (c * n + r))
  unfolding rank_rows owned_rows
  rank-key r q c hq hc =
      get_elem?-concat_range _ _ (length-owned_rows r) reqs 0 q q c (zero-add q) hq hc
      ∙ get_elem?-tabulate _ (counts r q) 0 c hc
      ∙ ap (λ k. some (key q (k * n + r))) (zero-add c)

  -- The place that the index gives for key `p` of request `q` holds that key.
  index-key :
      (q p : ℕ)
      → q < reqs
      → p < glens q
      → get_elem?
          (all_rows n reqs counts key)
          (rank_base n reqs counts (p % n) + req_off n reqs counts (p % n) q + p / n)
        ≡ some (key q p)
  unfolding all_rows rank_base req_off
  index-key q p hq hp =
      let r : ℕ = p % n in
      let below : r < n = mod-lt p some_rank in
      let owned : p / n < counts r q = owned_place q p hp in
      ap (get_elem? (all_rows n reqs counts key)) (add_assoc _ _ (p / n))
      ∙ get_elem?-concat_range (rank_rows n reqs counts key) _ length-rank_rows n 0 r r _
          (zero-add r) below (sum_range-inside (counts r) reqs 0 q q (p / n) (zero-add q) hq owned)
      ∙ rank-key r q (p / n) hq owned
      ∙ ap (λ x. some (key q x)) (div-add-mod' p n)

  part-keys :
      (q : ℕ)
      → q < reqs
      → map (get_elem? (all_rows n reqs counts key)) (part n reqs counts q)
        ≡ map some (tabulate (key q) (glens q) 0)
  unfolding part glen
  part-keys q hq =
      let at : ℕ → Option V = λ p.
        get_elem? (all_rows n reqs counts key)
          (rank_base n reqs counts (p % n) + req_off n reqs counts (p % n) q + p / n) in
      map-tabulate _ _ _ 0
      ∙ ap (λ k. tabulate at k 0) (sum_own_lem (glens q) n some_rank)
      ∙ tabulate-congr _ _ (glens q) 0 (glens q) (omega arith) (λ p. index-key q p hq)
      ∙ sym (map-tabulate some (key q) (glens q) 0)

  -- With at least one rank, the reassembly index takes the rows, in the rank-major order in which
  -- they are gathered, to the global order, for any number of requests and any lengths.
  pub build_reassembly_index_lem :
      map (get_elem? (all_rows n reqs counts key)) (build_reassembly_index n reqs counts)
      ≡ map some (global_rows reqs glens key)
  unfolding build_reassembly_index global_rows
  build_reassembly_index_lem =
      map-concat_range _ _ reqs 0
      ∙ concat_range-congr _ _ reqs 0 reqs (omega arith) part-keys
      ∙ sym (map-concat_range some _ reqs 0)
