-- ===== src/Float/Tropical.antt =====
-- An arithmetic that meets the laws and runs in tests: logits are integers, a weight is the integer
-- whose exponential it is (none for 0.0), and a sum of weights is their maximum. Elements are weights.
use glm_5_2_gb.Common.{
  ◌⊎◌, inl, inr, Bool-cases, Bool, true, false, ◌||◌, ◌&&◌, ◌≡◌, refl, ap, Option, none, some,
  arith, if◌then◌else◌,
}
use glm_5_2_gb.Common.Int.{
  ℤ, pos, negsuc, ◌+ℤ◌, ◌-ℤ◌, ◌*ℤ◌, ltb_ℤ, int_laws, +ℤ_parts, +ℤ_comm, +ℤ_assoc,
}
use glm_5_2_gb.Float.{Arith, IsExact}

abbrev pub max_ℤ : ℤ → ℤ → ℤ
max_ℤ a b = if ltb_ℤ a b then b else a

abbrev pub add_T : Option ℤ → Option ℤ → Option ℤ
add_T none w = w
add_T (some a) none = some a
add_T (some a) (some b) = some (max_ℤ a b)

abbrev pub mul_T : Option ℤ → Option ℤ → Option ℤ
mul_T none w = none
mul_T (some a) none = none
mul_T (some a) (some b) = some (a +ℤ b)

abbrev pub div_T : Option ℤ → Option ℤ → Option ℤ
div_T none w = none
div_T (some a) none = none
div_T (some a) (some b) = some (a -ℤ b)

abbrev pub pos_T : Option ℤ → Bool
pos_T none = false
pos_T (some a) = true

abbrev pub log_T : Option ℤ → ℤ
log_T none = pos 0
log_T (some a) = a

abbrev pub prod_T : Option ℤ → Option ℤ → ℤ
prod_T none w = pos 0
prod_T (some a) none = pos 0
prod_T (some a) (some b) = a *ℤ b

abbrev pub tropical : Arith
tropical = record {
  S = ℤ;
  W = Option ℤ;
  E = Option ℤ;
  add_S = ◌+ℤ◌;
  sub_S = ◌-ℤ◌;
  mul_S = ◌*ℤ◌;
  zero_S = pos 0;
  max_S = max_ℤ;
  exp = some;
  log = log_T;
  zero_W = none;
  one_W = some (pos 0);
  add_W = add_T;
  mul_W = mul_T;
  div_W = div_T;
  clamp_min = λ w. add_T w (some (negsuc 68));
  pos = pos_T;
  zero_E = none;
  add_E = add_T;
  act = mul_T;
  quot = div_T;
  prod = prod_T;
}

-- Facts on the integers, with the order read by its parts.
max_ℤ_comm : (a b : ℤ) → max_ℤ a b ≡ max_ℤ b a
max_ℤ_comm a b = ground arith

max_ℤ_assoc : (a b c : ℤ) → max_ℤ (max_ℤ a b) c ≡ max_ℤ a (max_ℤ b c)
max_ℤ_assoc a b c = ground arith

clamp-max : (a : ℤ) → max_ℤ (max_ℤ (pos 0) a) (negsuc 68) ≡ max_ℤ (pos 0) a
clamp-max a = ground arith

max_ℤ-cases : (a b : ℤ) → (max_ℤ a b ≡ a) ⊎ (max_ℤ a b ≡ b)
max_ℤ-cases a b = elim (Bool-cases (ltb_ℤ a b)) [ inl h ↦ inr (rw h) | inr h ↦ inl (rw h) ]

+ℤ-max : (a b c : ℤ) → a +ℤ max_ℤ b c ≡ max_ℤ (a +ℤ b) (a +ℤ c)
+ℤ-max a b c = ground (arith, +ℤ_parts a b, +ℤ_parts a c)

max-+ℤ : (a b c : ℤ) → max_ℤ a b +ℤ c ≡ max_ℤ (a +ℤ c) (b +ℤ c)
max-+ℤ a b c = ground (arith, +ℤ_parts a c, +ℤ_parts b c)

+ℤ-cancel : (s t : ℤ) → t +ℤ (s -ℤ t) ≡ s
+ℤ-cancel s t = omega int_laws

+ℤ-inverse : (a : ℤ) → a +ℤ (pos 0 -ℤ a) ≡ pos 0
+ℤ-inverse a = omega int_laws

zero-+ℤ : (a : ℤ) → pos 0 +ℤ a ≡ a
zero-+ℤ a = omega int_laws

+ℤ-zero : (a : ℤ) → a +ℤ pos 0 ≡ a
+ℤ-zero a = omega int_laws

-ℤ-eq-+ℤ : (a b : ℤ) → a -ℤ b ≡ a +ℤ (pos 0 -ℤ b)
-ℤ-eq-+ℤ a b = omega int_laws

-ℤ-eq-+ℤ' : (a b : ℤ) → a -ℤ b ≡ (pos 0 -ℤ b) +ℤ a
-ℤ-eq-+ℤ' a b = omega int_laws

add_T_comm : (v w : Option ℤ) → add_T v w ≡ add_T w v
add_T_comm none none = refl
add_T_comm none (some b) = refl
add_T_comm (some a) none = refl
add_T_comm (some a) (some b) = ap some (max_ℤ_comm a b)

add_T_assoc : (u v w : Option ℤ) → add_T (add_T u v) w ≡ add_T u (add_T v w)
add_T_assoc none v w = refl
add_T_assoc (some a) none w = refl
add_T_assoc (some a) (some b) none = refl
add_T_assoc (some a) (some b) (some c) = ap some (max_ℤ_assoc a b c)

mul_T_comm : (v w : Option ℤ) → mul_T v w ≡ mul_T w v
mul_T_comm none none = refl
mul_T_comm none (some b) = refl
mul_T_comm (some a) none = refl
mul_T_comm (some a) (some b) = ap some (+ℤ_comm a b)

mul_T_assoc : (u v w : Option ℤ) → mul_T (mul_T u v) w ≡ mul_T u (mul_T v w)
mul_T_assoc none v w = refl
mul_T_assoc (some a) none w = refl
mul_T_assoc (some a) (some b) none = refl
mul_T_assoc (some a) (some b) (some c) = ap some (+ℤ_assoc a b c)

one-mul_T : (w : Option ℤ) → mul_T (some (pos 0)) w ≡ w
one-mul_T none = refl
one-mul_T (some a) = ap some (zero-+ℤ a)

mul-add_T : (u v w : Option ℤ) → mul_T u (add_T v w) ≡ add_T (mul_T u v) (mul_T u w)
mul-add_T none v w = refl
mul-add_T (some a) none w = refl
mul-add_T (some a) (some b) none = refl
mul-add_T (some a) (some b) (some c) = ap some (+ℤ-max a b c)

act-add_T : (v w e : Option ℤ) → mul_T (add_T v w) e ≡ add_T (mul_T v e) (mul_T w e)
act-add_T none w e = refl
act-add_T (some a) none none = refl
act-add_T (some a) none (some c) = refl
act-add_T (some a) (some b) none = refl
act-add_T (some a) (some b) (some c) = ap some (max-+ℤ a b c)

div_T-eq-mul : (v w : Option ℤ) → pos_T w ≡ true → div_T v w ≡ mul_T v (div_T (some (pos 0)) w)
div_T-eq-mul v none h = cc
div_T-eq-mul none (some b) h = refl
div_T-eq-mul (some a) (some b) h = ap some (-ℤ-eq-+ℤ a b)

quot_T-eq-act : (e w : Option ℤ) → pos_T w ≡ true → div_T e w ≡ mul_T (div_T (some (pos 0)) w) e
quot_T-eq-act e none h = cc
quot_T-eq-act none (some b) h = refl
quot_T-eq-act (some a) (some b) h = ap some (-ℤ-eq-+ℤ' a b)

mul_T-div_self : (w : Option ℤ) → pos_T w ≡ true → mul_T w (div_T (some (pos 0)) w) ≡ some (pos 0)
mul_T-div_self none h = cc
mul_T-div_self (some a) h = ap some (+ℤ-inverse a)

add-log_T : (s : ℤ) (w : Option ℤ) → pos_T w ≡ true → s +ℤ log_T w ≡ log_T (mul_T (some s) w)
add-log_T s none h = cc
add-log_T s (some a) h = refl

exp-log_T : (w : Option ℤ) → pos_T w ≡ true → some (log_T w) ≡ w
exp-log_T none h = cc
exp-log_T (some a) h = refl

not_pos_T : (w : Option ℤ) → pos_T w ≡ false → w ≡ none
not_pos_T none h = refl
not_pos_T (some a) h = cc

pos-add_T : (v w : Option ℤ) → pos_T (add_T v w) ≡ (pos_T v || pos_T w)
pos-add_T none w = refl
pos-add_T (some a) none = refl
pos-add_T (some a) (some b) = refl

pos-mul_T : (v w : Option ℤ) → pos_T (mul_T v w) ≡ (pos_T v && pos_T w)
pos-mul_T none w = refl
pos-mul_T (some a) none = refl
pos-mul_T (some a) (some b) = refl

clamp-one_T :
    (w : Option ℤ) → add_T (add_T (some (pos 0)) w) (some (negsuc 68)) ≡ add_T (some (pos 0)) w
clamp-one_T none = refl
clamp-one_T (some a) = ap some (clamp-max a)

mul_T-none : (w : Option ℤ) → mul_T w none ≡ none
mul_T-none none = refl
mul_T-none (some a) = refl

pub tropical-IsExact : IsExact tropical
tropical-IsExact = record {
  exp-sub = λ s t. ap some (+ℤ-cancel s t);
  exp-add-log = add-log_T;
  exp-log = exp-log_T;
  pos-exp = λ s. refl;
  pos-zero = refl;
  pos-one = refl;
  zero_of_not_pos = not_pos_T;
  pos-add = pos-add_T;
  pos-mul = pos-mul_T;
  add_W_comm = add_T_comm;
  add_W_assoc = add_T_assoc;
  zero-add_W = λ w. refl;
  mul_W_comm = mul_T_comm;
  mul_W_assoc = mul_T_assoc;
  one-mul_W = one-mul_T;
  zero-mul_W = λ w. refl;
  mul-add_W = mul-add_T;
  mul-div_self = mul_T-div_self;
  div-eq-mul = div_T-eq-mul;
  add_E_comm = add_T_comm;
  add_E_assoc = add_T_assoc;
  zero-add_E = λ e. refl;
  act-one = one-mul_T;
  act-zero = λ e. refl;
  act-zero_E = mul_T-none;
  act-mul = mul_T_assoc;
  act-add = act-add_T;
  act-add_E = mul-add_T;
  quot-eq-act = quot_T-eq-act;
  clamp-one_add = clamp-one_T;
  prod-zero_E = refl;
  add_S_assoc = +ℤ_assoc;
  add-zero_S = +ℤ-zero;
  max_S-cases = max_ℤ-cases;
  max_S_comm = max_ℤ_comm;
  max_S_assoc = max_ℤ_assoc;
}
