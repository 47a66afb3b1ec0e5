-- ===== src/Sla/Gate.antt =====
-- What the SLA policy vetoes, and what it books.
use dynamo_serve.Base.{
  ◌+◌, ◌≡◌, refl, true, false, ◌&&◌, not, if◌then◌else◌, arith, Bool-cases, inl, inr,
}
use dynamo_serve.Float.{Float, FloatLaws, not-lt_of_le, lt_of_lt_of_le, le_of_lt}
use dynamo_serve.Models.Request.{SlaClass, realtime, interactive, batch, Request}
use dynamo_serve.Models.Outcome.{RequestResult, sla_met, met_budgets}
use dynamo_serve.Sla.{
  no_reason, SlaPolicy, same_class, is_met, is_ttft_met, is_tpot_met, default_budgets,
  violation_penalty, check_result, init, should_reject_at_load, gate, sheds,
}

module _ {F : Type 0} ⦃fl : Float F⦄ where
  open fl use {lt, le, decimal, add, of_nat}

  -- `check_result` on both branches: a result within the budget of its class changes nothing; any
  -- other adds one to the count of that class and of no other, and the penalty of the class.
  pub check_result_lem :
      (result : RequestResult F) (c d : SlaClass) (p : SlaPolicy F)
      → let p' = (check_result result c p).0 in
        let met = is_met (p.budgets c) result in
        ((check_result result c p).1 ≡ met)
        × (p'.violation_counts d
            ≡ p.violation_counts d + (if not met && same_class c d then 1 else 0))
        × (p'.violation_penalty_total ≡ (
            if met
            then p.violation_penalty_total
            else add p.violation_penalty_total (violation_penalty c)))
  unfolding check_result
  check_result_lem result c d p = elim (Bool-cases (is_met (p.budgets c) result)) [
    | inl met ↦ (ground arith, ground arith, ground arith)
    | inr missed ↦ (ground arith, ground arith, ground arith)
  ]

  -- The two notions of a met SLA, the one of the result and the one of the default policy, differ in
  -- the bound on the total latency alone.
  pub is_met-default_budgets :
      (result : RequestResult F) (c : SlaClass)
      → is_met (default_budgets c) result
        ≡ (sla_met result c && le result.total_latency_ms (default_budgets c).max_total_latency_ms)
  unfolding is_met is_ttft_met is_tpot_met default_budgets sla_met met_budgets
  is_met-default_budgets result realtime = ground arith
  is_met-default_budgets result interactive = ground arith
  is_met-default_budgets result batch = ground arith

  -- A BATCH request is never vetoed.
  pub should_reject_at_load-batch :
      (request : Request F) (cluster_load pressure draw : F) (p : SlaPolicy F)
      → request.sla_class ≡ batch
      → should_reject_at_load request cluster_load pressure draw p ≡ (false, no_reason)
  unfolding should_reject_at_load same_class
  should_reject_at_load-batch request cluster_load pressure draw p e = rw e refl

  -- Load shedding never hits an INTERACTIVE request under the default budgets: it is vetoed exactly
  -- where the memory pressure is above 0.95, whatever the load and the random number.
  pub should_reject_at_load-interactive :
      (laws : FloatLaws F) (request : Request F) (cluster_load pressure draw : F)
      → request.sla_class ≡ interactive
      → (should_reject_at_load request cluster_load pressure draw (init default_budgets)).0
        ≡ lt (decimal 95 2) pressure
  unfolding should_reject_at_load gate sheds same_class init default_budgets
  should_reject_at_load-interactive laws request cluster_load pressure draw e =
      let slow : lt (of_nat 1_000) (of_nat 500) ≡ false =
        not-lt_of_le laws _ _ (laws.of_nat_mono 500 1_000 (omega arith)) in
      let higher : lt (decimal 95 2) (decimal 99 2) ≡ true =
        laws.decimal_strict 95 99 2 (omega arith) (omega arith) (omega arith) in
      rw e (elim (Bool-cases (lt (decimal 99 2) pressure)) [
        | inl oom ↦
            let critical : lt (decimal 95 2) pressure ≡ true =
              lt_of_lt_of_le laws _ _ _ higher (le_of_lt laws _ _ oom) in
            ground arith
        | inr calm ↦ ground arith
      ])
