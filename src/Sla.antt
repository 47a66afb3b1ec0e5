-- ===== src/Sla.antt =====
-- control_plane/sla_policy/sla_policy.py: the latency budgets, the gate under load, the preemption
-- score and the record of violations. A dictionary over the SLA classes is a function.
pub mod Gate
use dynamo_serve.Base.{ℕ, ◌+◌, Bool, true, false, ◌&&◌, if◌then◌else◌}
use dynamo_serve.Float.{Float}
use dynamo_serve.Models.Request.{SlaClass, realtime, interactive, batch, Request, priority_value}
use dynamo_serve.Models.Outcome.{RequestResult}

-- The texts that go with a decision, here and in the admission controller.
pub data Reason (F : Type 0) : Type 0 where
  no_reason ok : Reason F
  memory_pressure_critical oom_risk load_shedding compute_saturated no_kv_headroom : Reason F
  cluster_memory_pressure ml_spill_risk memory_pressure : F → Reason F

pub record Budget (F : Type 0) : Type 0 where
  pub max_ttft_ms : F
  pub max_tpot_ms : F
  pub max_queue_wait_ms : F
  pub max_total_latency_ms : F
  pub admission_reject_p : F

pub record SlaPolicy (F : Type 0) : Type 0 where
  pub budgets : SlaClass → Budget F
  pub violation_counts : SlaClass → ℕ
  pub violation_penalty_total : F

unfoldable pub same_class : SlaClass → SlaClass → Bool
same_class realtime realtime = true
same_class interactive interactive = true
same_class batch batch = true
same_class _ _ = false

module _ {F : Type 0} ⦃fl : Float F⦄ where
  open fl use {of_nat, decimal, add, sub, mul, div, lt, le}

  unfoldable pub is_ttft_met : Budget F → F → Bool
  is_ttft_met b ttft_ms = le ttft_ms b.max_ttft_ms

  unfoldable pub is_tpot_met : Budget F → F → Bool
  is_tpot_met b tpot_ms = le tpot_ms b.max_tpot_ms

  unfoldable pub is_met : Budget F → RequestResult F → Bool
  unfolding is_ttft_met is_tpot_met
  is_met b result =
      is_ttft_met b result.ttft_ms
      && is_tpot_met b result.tpot_ms
      && le result.total_latency_ms b.max_total_latency_ms

  unfoldable pub default_budgets : SlaClass → Budget F
  default_budgets realtime = record {
    max_ttft_ms = of_nat 200;
    max_tpot_ms = of_nat 50;
    max_queue_wait_ms = of_nat 50;
    max_total_latency_ms = of_nat 5_000;
    admission_reject_p = decimal 95 2;
  }
  default_budgets interactive = record {
    max_ttft_ms = of_nat 1_000;
    max_tpot_ms = of_nat 100;
    max_queue_wait_ms = of_nat 500;
    max_total_latency_ms = of_nat 30_000;
    admission_reject_p = decimal 70 2;
  }
  default_budgets batch = record {
    max_ttft_ms = of_nat 30_000;
    max_tpot_ms = of_nat 500;
    max_queue_wait_ms = of_nat 60_000;
    max_total_latency_ms = of_nat 300_000;
    admission_reject_p = of_nat 0;
  }

  unfoldable pub violation_penalty : SlaClass → F
  violation_penalty realtime = of_nat 10
  violation_penalty interactive = of_nat 3
  violation_penalty batch = decimal 5 1

  unfoldable pub init : (SlaClass → Budget F) → SlaPolicy F
  init budgets = record {
    budgets = budgets;
    violation_counts = λ c. 0;
    violation_penalty_total = of_nat 0;
  }

  unfoldable pub check_result : RequestResult F → SlaClass → SlaPolicy F → SlaPolicy F × Bool
  unfolding is_met same_class violation_penalty
  check_result result c p = if is_met (p.budgets c) result then (p, true) else (
    record p {
      violation_counts =
          λ d. if same_class c d then p.violation_counts d + 1 else p.violation_counts d;
      violation_penalty_total = add p.violation_penalty_total (violation_penalty c);
    },
    false,
  )

  -- The last test: `draw` is what `random.random()` returns, if it is asked.
  unfoldable pub sheds : Budget F → F → F → Bool
  sheds budget cluster_load draw =
      let overshoot = div (sub cluster_load (decimal 85 2)) (decimal 15 2) in
      let effective_p = mul budget.admission_reject_p overshoot in
      lt (decimal 85 2) cluster_load && lt budget.max_ttft_ms (of_nat 500) && lt draw effective_p

  -- The tests of `should_reject_at_load` after the one for BATCH.
  unfoldable pub gate : SlaClass → Budget F → F → F → F → Bool × Reason F
  unfolding same_class sheds
  gate c budget cluster_load pressure draw =
      if lt (decimal 95 2) pressure && same_class c interactive
      then (true, memory_pressure_critical)
      else if lt (decimal 99 2) pressure
      then (true, oom_risk)
      else if sheds budget cluster_load draw
      then (true, load_shedding)
      else (false, no_reason)

  unfoldable pub should_reject_at_load : Request F → F → F → F → SlaPolicy F → Bool × Reason F
  unfolding same_class gate
  should_reject_at_load request cluster_load pressure draw p =
      if same_class request.sla_class batch
      then (false, no_reason)
      else gate request.sla_class (p.budgets request.sla_class) cluster_load pressure draw

  unfoldable pub preemption_base : SlaClass → F
  preemption_base realtime = of_nat 100
  preemption_base interactive = of_nat 50
  preemption_base batch = of_nat 10

  unfoldable pub preemption_score : Request F → F
  unfolding preemption_base
  preemption_score request =
      mul (preemption_base request.sla_class) (of_nat (priority_value request.priority))
