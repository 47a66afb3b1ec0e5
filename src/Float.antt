-- ===== src/Float.antt =====
-- Python's `float`, as far as the program computes with it. The language has no floats: the type and
-- its operations are a parameter of every definition that uses them. The values meant are the
-- doubles other than NaN, which no operation of the program makes from the sizes, times and rates
-- that it is given.
pub mod Fixed
use dynamo_serve.Base.{
  ℕ, ◌≤◌, ◌<◌, ◌≡◌, Bool, true, false, not, if◌then◌else◌, ◌⊎◌, IsStrictOrder, arith,
}

pub record Float (F : Type 0) : Type 0 where
  -- `float(n)`, and what `n` stands for beside a float
  pub of_nat : ℕ → F
  -- the literal with the digits `n`, of which `k` stand behind the point
  pub decimal : ℕ → ℕ → F
  pub add : F → F → F
  pub sub : F → F → F
  pub mul : F → F → F
  pub div : F → F → F
  pub lt : F → F → Bool
  pub le : F → F → Bool
  -- `int(x)`, for `x` that is not negative
  pub to_nat : F → ℕ
  -- `float("inf")`
  pub infinity : F

-- What IEEE 754 says of comparisons away from NaN, and of conversions and literals: rounding keeps
-- the order, and literals of a few digits that differ are different doubles.
pub record FloatLaws (F : Type 0) ⦃fl : Float F⦄ : Type 0 where
  pub lt-not-le : (a b : F) → fl.lt a b ≡ not (fl.le b a)
  pub le_total : (a b : F) → (fl.le a b ≡ true) ⊎ (fl.le b a ≡ true)
  pub le_trans : (a b c : F) → fl.le a b ≡ true → fl.le b c ≡ true → fl.le a c ≡ true
  pub of_nat_mono : (m n : ℕ) → m ≤ n → fl.le (fl.of_nat m) (fl.of_nat n) ≡ true
  pub decimal_strict :
      (m n k : ℕ) → k ≤ 3 → m < n → n ≤ 1_000_000 → fl.lt (fl.decimal m k) (fl.decimal n k) ≡ true

-- What IEEE 754 says of signs: what is not negative stays so, and a sum with it does not fall.
pub record SignLaws (F : Type 0) ⦃fl : Float F⦄ : Type 0 where
  pub le-add : (a b : F) → fl.le (fl.of_nat 0) b ≡ true → fl.le a (fl.add a b) ≡ true
  pub mul_sign :
      (a b : F)
      → fl.le (fl.of_nat 0) a ≡ true
      → fl.le (fl.of_nat 0) b ≡ true
      → fl.le (fl.of_nat 0) (fl.mul a b) ≡ true
  pub div_sign :
      (a b : F)
      → fl.le (fl.of_nat 0) a ≡ true
      → fl.lt (fl.of_nat 0) b ≡ true
      → fl.le (fl.of_nat 0) (fl.div a b) ≡ true
  pub sub_sign : (a b : F) → fl.lt b a ≡ true → fl.lt (fl.of_nat 0) (fl.sub a b) ≡ true
  pub decimal_sign : (n k : ℕ) → fl.le (fl.of_nat 0) (fl.decimal n k) ≡ true
  pub below_one : fl.lt (fl.decimal 80 2) (fl.of_nat 1) ≡ true
  pub half_positive : fl.lt (fl.of_nat 0) (fl.decimal 5 1) ≡ true
  pub of_nat_positive : (n : ℕ) → 0 < n → fl.lt (fl.of_nat 0) (fl.of_nat n) ≡ true

module _ {F : Type 0} ⦃fl : Float F⦄ where
  -- `max(a, b)` and `min(a, b)`: the first argument where neither is greater
  unfoldable pub fmax : F → F → F
  fmax a b = if fl.lt a b then b else a

  unfoldable pub fmin : F → F → F
  fmin a b = if fl.lt b a then b else a

module _ {F : Type 0} ⦃fl : Float F⦄ (laws : FloatLaws F) where
  open laws use {lt-not-le, le_total, le_trans, of_nat_mono, decimal_strict}

  pub lt_asymm : (a b : F) → fl.lt a b ≡ true → fl.lt b a ≡ false
  lt_asymm a b h = ground (arith, lt-not-le a b, lt-not-le b a, le_total a b)

  pub le_of_not_lt : (a b : F) → fl.lt a b ≡ false → fl.le b a ≡ true
  le_of_not_lt a b h = ground (arith, lt-not-le a b)

  pub not-lt_of_le : (a b : F) → fl.le b a ≡ true → fl.lt a b ≡ false
  not-lt_of_le a b h = ground (arith, lt-not-le a b)

  pub le_of_lt : (a b : F) → fl.lt a b ≡ true → fl.le a b ≡ true
  le_of_lt a b h = ground (arith, lt-not-le a b, le_total a b)

  pub le_self : (a : F) → fl.le a a ≡ true
  le_self a = ground (arith, le_total a a)

  pub not-lt_trans : (a b c : F) → fl.lt a b ≡ false → fl.lt b c ≡ false → fl.lt a c ≡ false
  not-lt_trans a b c h k =
      not-lt_of_le a c (le_trans c b a (le_of_not_lt b c k) (le_of_not_lt a b h))

  pub lt_of_lt_of_le : (a b c : F) → fl.lt a b ≡ true → fl.le b c ≡ true → fl.lt a c ≡ true
  lt_of_lt_of_le a b c h k = ground (arith, lt-not-le a c, lt-not-le a b, le_trans b c a)

  pub le-fmax_left : (a b : F) → fl.le a (fmax a b) ≡ true
  unfolding fmax
  le-fmax_left a b = ground (arith, le_self a, le_of_lt a b)

  pub le-fmax_right : (a b : F) → fl.le b (fmax a b) ≡ true
  unfolding fmax
  le-fmax_right a b = ground (arith, le_self b, le_of_not_lt a b)

  pub fmin-le_left : (a b : F) → fl.le (fmin a b) a ≡ true
  unfolding fmin
  fmin-le_left a b = ground (arith, le_self a, le_of_lt b a)

  -- A choice by the smaller, and by the larger value of a float key.
  pub min_key-IsStrictOrder :
      {A : Type 0} (key : A → F) → IsStrictOrder (λ x y. fl.lt (key x) (key y))
  min_key-IsStrictOrder key = record {
    asymm = λ x y. lt_asymm (key x) (key y);
    not_trans = λ x y z. not-lt_trans (key x) (key y) (key z);
  }

  pub max_key-IsStrictOrder :
      {A : Type 0} (key : A → F) → IsStrictOrder (λ x y. fl.lt (key y) (key x))
  max_key-IsStrictOrder key = record {
    asymm = λ x y. lt_asymm (key y) (key x);
    not_trans = λ x y z h k. not-lt_trans (key z) (key y) (key x) k h;
  }
