-- ===== src/Domain/Floats.antt =====
-- The doubles of Python and Lua, which hold a task's progress. The models take their operations as
-- a parameter, with the laws of IEEE 754 arithmetic that the theorems use: an order without NaN,
-- roundings that are monotone, and whole numbers up to 2 ^ 53 that are exact.
use cv_video_analysis.Common.{
  ℕ, ◌+◌, ◌*◌, ◌/◌, ◌^◌, ◌≤◌, ◌≡◌, refl, Bool, true, false, arith, ltb, if◌then◌else◌,
}

pub record Floats (N : Type 0) : Type 0 where
  pub of_nat : ℕ → N
  pub add : N → N → N
  pub mul : N → N → N
  pub div : N → N → N
  -- `a < b`
  pub lt : N → N → Bool
  pub lt_asymm : (a b : N) → lt a b ≡ true → lt b a ≡ false
  -- `b < a` false is `a <= b`.
  pub le_trans : (a b c : N) → lt b a ≡ false → lt c b ≡ false → lt c a ≡ false
  pub of_nat_mono : (m n : ℕ) → m ≤ n → lt (of_nat n) (of_nat m) ≡ false
  pub add_mono : (a b c : N) → lt c b ≡ false → lt (add a c) (add a b) ≡ false
  pub mul_mono :
      (n : ℕ) (b c : N) → lt c b ≡ false → lt (mul (of_nat n) c) (mul (of_nat n) b) ≡ false
  pub add_exact : (m n : ℕ) → m + n ≤ 2 ^ 53 → add (of_nat m) (of_nat n) ≡ of_nat (m + n)
  pub mul_exact : (m n : ℕ) → m * n ≤ 2 ^ 53 → mul (of_nat m) (of_nat n) ≡ of_nat (m * n)

-- `min(a, b)` and `math.max(a, b)`
module _ {N : Type 0} (F : Floats N) where
  unfoldable pub float_min : N → N → N
  float_min a b = if F.lt b a then b else a

  unfoldable pub float_max : N → N → N
  float_max a b = if F.lt a b then b else a

-- `a <= b`
abbrev pub IsLe : {N : Type 0} → Floats N → N → N → Type 0
IsLe F a b = F.lt b a ≡ false

module _ {N : Type 0} (F : Floats N) where
  pub IsLe-refl : (a : N) → IsLe F a a
  IsLe-refl a = ground (arith, F.lt_asymm a a)

  pub le-float_max_left : (a b : N) → IsLe F a (float_max F a b)
  unfolding float_max
  le-float_max_left a b = ground (arith, F.lt_asymm a b, F.lt_asymm a a)

  pub float_max-le : (a b c : N) → IsLe F a c → IsLe F b c → IsLe F (float_max F a b) c
  unfolding float_max
  float_max-le a b c h k = ground arith

  pub float_min-le_right : (a b : N) → IsLe F (float_min F a b) b
  unfolding float_min
  float_min-le_right a b = ground (arith, F.lt_asymm b b, F.lt_asymm b a)

  pub float_max-right : (a b : N) → IsLe F b (float_max F a b)
  unfolding float_max
  float_max-right a b = ground (arith, F.lt_asymm a b, F.lt_asymm b b)

  pub le-float_min : (a b l : N) → IsLe F l a → IsLe F l b → IsLe F l (float_min F a b)
  unfolding float_min
  le-float_min a b l h k = ground arith

  pub float_min-left : (a b : N) → IsLe F (float_min F a b) a
  unfolding float_min
  float_min-left a b = ground (arith, F.lt_asymm b a, F.lt_asymm a a)

  pub of_nat-nonneg : (n : ℕ) → IsLe F (F.of_nat 0) (F.of_nat n)
  of_nat-nonneg n = F.of_nat_mono 0 n (omega arith)

-- A number from 0 to 1.
abbrev pub IsUnit : {N : Type 0} → Floats N → N → Type 0
IsUnit F x = IsLe F (F.of_nat 0) x × IsLe F x (F.of_nat 1)

module _ {N : Type 0} (F : Floats N) where
  pub zero-IsUnit : IsUnit F (F.of_nat 0)
  zero-IsUnit = (F.of_nat_mono 0 0 (omega arith), F.of_nat_mono 0 1 (omega arith))

  pub float_max-IsUnit : (a b : N) → IsUnit F a → IsUnit F b → IsUnit F (float_max F a b)
  float_max-IsUnit a b (low, high) (low', high') = (
    F.le_trans (F.of_nat 0) a (float_max F a b) low (le-float_max_left F a b),
    float_max-le F a b (F.of_nat 1) high high',
  )

ltb_ge : (a b : ℕ) → ltb a b ≡ false → b ≤ a
ltb_ge a b h = ground arith

mul_mono_right : (n b c : ℕ) → b ≤ c → n * b ≤ n * c
mul_mono_right n b c h = grind arith

pub whole_asymm : (a b : ℕ) → ltb a b ≡ true → ltb b a ≡ false
whole_asymm a b h = ground arith

pub whole_trans : (a b c : ℕ) → ltb b a ≡ false → ltb c b ≡ false → ltb c a ≡ false
whole_trans a b c h k = ground arith

pub whole_of_le : (m n : ℕ) → m ≤ n → ltb n m ≡ false
whole_of_le m n h = ground arith

pub whole_add : (a b c : ℕ) → ltb c b ≡ false → ltb (a + c) (a + b) ≡ false
whole_add a b c h = ground arith

pub whole_mul : (n b c : ℕ) → ltb c b ≡ false → ltb (n * c) (n * b) ≡ false
whole_mul n b c h = whole_of_le (n * b) (n * c) (mul_mono_right n b c (ltb_ge c b h))

-- Whole numbers meet the laws, with a division that rounds down.
abbrev pub whole : Floats ℕ
whole = record {
  of_nat = λ n. n;
  add = λ a b. a + b;
  mul = λ a b. a * b;
  div = λ a b. a / b;
  lt = ltb;
  lt_asymm = λ a b h. whole_asymm a b h;
  le_trans = λ a b c h k. whole_trans a b c h k;
  of_nat_mono = λ m n h. whole_of_le m n h;
  add_mono = λ a b c h. whole_add a b c h;
  mul_mono = λ n b c h. whole_mul n b c h;
  add_exact = λ m n h. refl;
  mul_exact = λ m n h. refl;
}
