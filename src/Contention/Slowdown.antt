-- ===== src/Contention/Slowdown.antt =====
-- Contention never makes a request faster: the factors of simulator/contention_model/contention.py.
use dynamo_serve.Base.{ℕ, ◌≡◌, refl, Bool, true, false, ◌&&◌, if◌then◌else◌, arith}
use dynamo_serve.Float.{Float, FloatLaws, SignLaws, fmin, le_of_lt, le_self}
use dynamo_serve.Models.Node.{Node, compute_utilization}
use dynamo_serve.Contention.{compute}

module _ {F : Type 0} ⦃fl : Float F⦄ (laws : FloatLaws F) (signs : SignLaws F)
    (power : F → F → F) where
  open fl use {of_nat, decimal, add, sub, mul, div, lt, le}
  open signs use {
    le-add, mul_sign, div_sign, sub_sign, decimal_sign, below_one, half_positive, of_nat_positive,
  }

  zero_le : (n : ℕ) → le (of_nat 0) (of_nat n) ≡ true
  zero_le n = laws.of_nat_mono 0 n (omega arith)

  -- One, or one and a share that is not negative.
  multiplier :
      (slowed : Bool) (share : F)
      → (slowed ≡ true → le (of_nat 0) share ≡ true)
      → le (of_nat 1) (if slowed then add (of_nat 1) share else of_nat 1) ≡ true
  multiplier true share h = le-add (of_nat 1) share (h refl)
  multiplier false share h = le_self laws (of_nat 1)

  bounded_share :
      (active : ℕ) → le (of_nat 0) (fmin (of_nat 1) (div (of_nat active) (of_nat 20))) ≡ true
  unfolding fmin
  bounded_share active =
      let one = zero_le 1 in
      let share =
        div_sign (of_nat active) (of_nat 20) (zero_le active) (of_nat_positive 20 (omega arith)) in
      ground (arith, one, share)

  -- Under the laws of comparison and of signs, and where the power 2.5 of no number from zero on is
  -- negative, every multiplier of the contention model is at least one and its penalty is not
  -- negative.
  pub compute-slows :
      ((a : F) → le (of_nat 0) a ≡ true → le (of_nat 0) (power a (decimal 25 1)) ≡ true)
      → (n : Node F) (active evictions : ℕ) (nvlink : F)
      → let f = compute power n active evictions nvlink in
        (le (of_nat 1) f.compute_multiplier ≡ true)
        × (le (of_nat 1) f.bandwidth_multiplier ≡ true)
        × (le (of_nat 1) f.nvlink_contention ≡ true)
        × (le (of_nat 0) f.kv_eviction_penalty_ms ≡ true)
  unfolding compute
  compute-slows power_sign n active evictions nvlink =
      let half = decimal 5 1 in
      (
        multiplier (lt half (compute_utilization n)) _ (λ high.
            div_sign _ half
              (mul_sign _ _ (decimal_sign 4 1) (le_of_lt laws _ _ (sub_sign _ half high)))
              half_positive),
        le-add (of_nat 1) _ (mul_sign _ _ (decimal_sign 8 1) (power_sign _ (bounded_share active))),
        multiplier (n.nvlink_enabled && lt (decimal 80 2) nvlink) _ (λ high.
            mul_sign _ _ (decimal_sign 3 1) (
              div_sign _ _
                (le_of_lt laws _ _ (sub_sign nvlink (decimal 80 2) (ground (arith, high))))
                (sub_sign _ _ below_one))),
        mul_sign _ _ (zero_le evictions) (decimal_sign 5 1),
      )
