-- ===== src/Contention.antt =====
-- simulator/contention_model/contention.py. `power` is Python's `**` on floats.
pub mod Slowdown
use dynamo_serve.Base.{ℕ, Bool, ◌&&◌, if◌then◌else◌}
use dynamo_serve.Float.{Float, fmin}
use dynamo_serve.Models.Node.{Node, compute_utilization}

pub record ContentionFactors (F : Type 0) : Type 0 where
  pub compute_multiplier : F
  pub bandwidth_multiplier : F
  pub kv_eviction_penalty_ms : F
  pub nvlink_contention : F

module _ {F : Type 0} ⦃fl : Float F⦄ (power : F → F → F) where
  open fl use {of_nat, decimal, add, sub, mul, div, lt}

  unfoldable pub compute : Node F → ℕ → ℕ → F → ContentionFactors F
  unfolding compute_utilization fmin
  compute n active_requests kv_evictions nvlink_utilisation =
      let bw_util = fmin (of_nat 1) (div (of_nat active_requests) (of_nat 20)) in
      let compute_util = compute_utilization n in
      let overshoot = div (sub nvlink_utilisation (decimal 80 2)) (sub (of_nat 1) (decimal 80 2)) in
      record {
        compute_multiplier =
            if lt (decimal 5 1) compute_util
            then add (of_nat 1)
                (div (mul (decimal 4 1) (sub compute_util (decimal 5 1))) (decimal 5 1))
            else of_nat 1;
        bandwidth_multiplier = add (of_nat 1) (mul (decimal 8 1) (power bw_util (decimal 25 1)));
        kv_eviction_penalty_ms = mul (of_nat kv_evictions) (decimal 5 1);
        nvlink_contention =
            if n.nvlink_enabled && lt (decimal 80 2) nvlink_utilisation
            then add (of_nat 1) (mul (decimal 3 1) overshoot)
            else of_nat 1;
      }

module _ {F : Type 0} ⦃fl : Float F⦄ where
  open fl use {add, mul}

  -- `apply`: the adjusted TTFT and TPOT.
  unfoldable pub apply : ContentionFactors F → F → F → F × F
  apply factors ttft_ms tpot_ms = (
    add (mul ttft_ms factors.compute_multiplier) factors.kv_eviction_penalty_ms,
    mul (mul tpot_ms factors.bandwidth_multiplier) factors.nvlink_contention,
  )
