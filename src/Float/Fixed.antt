-- ===== src/Float/Fixed.antt =====
-- Fixed-point numbers of six digits in the place of floats: a value of the interface with which the
-- model runs, and at which the laws that are assumed of floats hold.
use dynamo_serve.Base.{
  ℕ, zero, suc, ◌+◌, ◌*◌, ◌/◌, ◌^◌, ◌≤◌, ◌<◌, ◌≡◌, refl, Bool, true, arith, leb,
}
use dynamo_serve.Base.Int.{ℤ, pos, negsuc, pos_part, neg_part, sub_ℕ, ltb_ℤ}
use dynamo_serve.Float.{Float, FloatLaws, SignLaws}

abbrev scale : ℕ
scale = 1_000_000

abbrev leb_ℤ : ℤ → ℤ → Bool
leb_ℤ a b = leb (pos_part a + neg_part b) (pos_part b + neg_part a)

abbrev magnitude : ℤ → ℕ
magnitude a = pos_part a + neg_part a

-- The sign of a product or quotient, put on its magnitude.
abbrev signed : ℤ → ℤ → ℕ → ℤ
signed (pos _) (pos _) m = pos m
signed (negsuc _) (negsuc _) m = pos m
signed _ _ m = sub_ℕ 0 m

abbrev mul_fixed : ℤ → ℤ → ℤ
mul_fixed a b = signed a b (magnitude a * magnitude b / scale)

abbrev div_fixed : ℤ → ℤ → ℤ
div_fixed a b = signed a b (magnitude a * scale / magnitude b)

instance abbrev pub fixed_float : Float ℤ
fixed_float = record {
  of_nat = λ n. pos (n * scale);
  decimal = λ n k. pos (n * scale / 10 ^ k);
  add = λ a b. sub_ℕ (pos_part a + pos_part b) (neg_part a + neg_part b);
  sub = λ a b. sub_ℕ (pos_part a + neg_part b) (neg_part a + pos_part b);
  mul = mul_fixed;
  div = div_fixed;
  lt = ltb_ℤ;
  le = leb_ℤ;
  to_nat = λ a. pos_part a / scale;
  infinity = pos (10 ^ 30);
}

decimal_grows :
    (m n k : ℕ) → k ≤ 3 → m < n → ltb_ℤ (pos (m * scale / 10 ^ k)) (pos (n * scale / 10 ^ k)) ≡ true
decimal_grows m n zero h l = ground arith
decimal_grows m n (suc zero) h l = ground arith
decimal_grows m n (suc (suc zero)) h l = ground arith
decimal_grows m n (suc (suc (suc zero))) h l = ground arith
decimal_grows m n (suc (suc (suc (suc k)))) h l = absurd (omega arith)

pub fixed_laws : FloatLaws ℤ
fixed_laws = record {
  lt-not-le = λ a b. ground arith;
  le_total = λ a b. ground arith;
  le_trans = λ a b c. ground arith;
  of_nat_mono = λ m n h. ground arith;
  decimal_strict = λ m n k h l _. decimal_grows m n k h l;
}

signed_sign :
    (a b : ℤ) (m : ℕ)
    → leb_ℤ (pos 0) a ≡ true
    → leb_ℤ (pos 0) b ≡ true
    → leb_ℤ (pos 0) (signed a b m) ≡ true
signed_sign (pos a) (pos b) m h k = ground arith
signed_sign (negsuc a) (negsuc b) m h k = ground arith
signed_sign (pos a) (negsuc b) m h k = absurd (ground (arith, k))
signed_sign (negsuc a) (pos b) m h k = absurd (ground (arith, h))

pub fixed_signs : SignLaws ℤ
fixed_signs = record {
  le-add = λ a b. ground arith;
  mul_sign = λ a b. signed_sign a b _;
  div_sign = λ a b h k. signed_sign a b _ h (ground (arith, k));
  sub_sign = λ a b. ground arith;
  decimal_sign = λ n k. ground arith;
  below_one = refl;
  half_positive = refl;
  of_nat_positive = λ n h. ground arith;
}
