-- ===== src/Samples/HarnessRuns.antt =====
-- The harness, the runtime and the contention at concrete inputs.
use dynamo_serve.Base.{All, ℕ, ◌+◌, ◌*◌, ◌≡◌, refl, true, List, [], ◌∷◌, none, some, arith}
use dynamo_serve.Base.Int.{ℤ, pos}
use dynamo_serve.Float.Fixed.{fixed_float, fixed_laws, fixed_signs}
use dynamo_serve.Models.Request.{Request, interactive}
use dynamo_serve.Cache.Policy.{lru}
use dynamo_serve.Sla
use dynamo_serve.Tracer
use dynamo_serve.Contention
use dynamo_serve.Contention.Slowdown.{compute-slows}
use dynamo_serve.Harness.World.{Divides}
use dynamo_serve.Runtime.{can_run, has_memory, execute_batch}
use dynamo_serve.Runtime.Bounds.{AreResultsOf, execute_batch-AreResultsOf}
use dynamo_serve.Harness.{Progress, SchedulerMetrics, run}
use dynamo_serve.Harness.Totals.{run-totals}
use dynamo_serve.Harness.RoundRobin.{
  Site, IsSiteValid, new_site, serving, serving_laws, new_site-IsSiteValid, round_robin-run,
}
use dynamo_serve.Samples.Data.{clock, node_with, two_nodes, request_of, shared}

abbrev seconds : ℕ → ℤ
seconds n = pos (n * 1_000_000)

-- Every draw is the mean, and every statistic the first of its numbers.
abbrev gauss : ℕ → ℤ → ℤ → ℤ
gauss draw mean deviation = mean

-- The cube stands in for the power 2.5.
abbrev power : ℤ → ℤ → ℤ
power a b = fixed_float.mul a (fixed_float.mul a a)

abbrev first : List ℤ → ℤ
first [] = pos 0
first (x ∷ xs) = x

abbrev percentile : List ℤ → ℕ → ℤ
percentile xs p = first xs

two_nodes-Divides : All Divides two_nodes
unfolding can_run has_memory
two_nodes-Divides = ((refl, refl), ((refl, refl), tt))

abbrev requests : List (Request ℤ)
requests = shared ∷ request_of interactive "s" none ∷ []

round_robin-run_example :
    (s : Progress ℤ (Site ℤ)) × (m : SchedulerMetrics ℤ) × (run first first percentile
        (serving clock)
        gauss
        clock
        power
        requests
        (new_site clock two_nodes 16 (lru []))
        (Tracer.init 10)
        (Sla.init Sla.default_budgets)
        0
      ≡ some (s, m))
    × IsSiteValid s.world
    × (m.completed_requests + m.rejected_requests ≡ 2)
round_robin-run_example =
    round_robin-run clock gauss clock power first first percentile two_nodes 16 (lru [])
      (Sla.init Sla.default_budgets) (Tracer.init 10) requests (omega arith) two_nodes-Divides

compute-slows_example :
    let f = Contention.compute power (node_with "a" 2) 10 3 (pos 900_000) in
    (fixed_float.le (pos 1_000_000) f.compute_multiplier ≡ true)
    × (fixed_float.le (pos 1_000_000) f.bandwidth_multiplier ≡ true)
    × (fixed_float.le (pos 1_000_000) f.nvlink_contention ≡ true)
    × (fixed_float.le (pos 0) f.kv_eviction_penalty_ms ≡ true)
compute-slows_example =
    compute-slows fixed_laws fixed_signs power
      (λ a h. fixed_signs.mul_sign a _ h (fixed_signs.mul_sign a a h h)) (node_with "a" 2) 10 3
      (pos 900_000)

execute_batch-AreResultsOf_example :
    AreResultsOf requests
      (execute_batch gauss clock requests (node_with "a" 2) (("r", 1) ∷ []) (("s", true) ∷ []) 0)
execute_batch-AreResultsOf_example =
    execute_batch-AreResultsOf gauss clock requests (node_with "a" 2) (("r", 1) ∷ [])
      (("s", true) ∷ []) 0

run-totals_example :
    (s : Progress ℤ (Site ℤ)) × (m : SchedulerMetrics ℤ) × (run first first percentile
        (serving clock)
        gauss
        clock
        power
        requests
        (new_site clock two_nodes 16 (lru []))
        (Tracer.init 1)
        (Sla.init Sla.default_budgets)
        0
      ≡ some (s, m))
    × IsSiteValid s.world
    × (m.total_requests ≡ 2)
    × (m.completed_requests + m.rejected_requests ≡ 2)
    × (s.tracer.counters.requests_arrived ≡ m.total_requests)
    × (s.tracer.counters.requests_completed ≡ m.completed_requests)
    × (s.tracer.counters.requests_rejected ≡ m.rejected_requests)
    × (s.tracer.counters.kv_cache_hits + s.tracer.counters.kv_cache_misses ≡ m.completed_requests)
run-totals_example =
    run-totals (serving clock) gauss clock power first first percentile IsSiteValid
      (serving_laws clock) requests (new_site clock two_nodes 16 (lru [])) (Tracer.init 1)
      (Sla.init Sla.default_budgets) 0
      (new_site-IsSiteValid clock two_nodes 16 (lru []) (omega arith) two_nodes-Divides)
