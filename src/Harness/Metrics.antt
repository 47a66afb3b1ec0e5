-- ===== src/Harness/Metrics.antt =====
-- SchedulerMetrics of core/models.py, and how benchmarks/harness.py compiles it. The names, the
-- wall-clock duration and mean_kv_blocks_used, which nothing fills, are left out.
use dynamo_serve.Base.{ℕ, ◌+◌, max, Bool, ◌&&◌, ◌||◌, not, List, [], ◌∷◌, length, select, map}
use dynamo_serve.Float.{Float}
use dynamo_serve.Models.Outcome.{RequestResult, total_tokens, tokens_per_second}
use dynamo_serve.Models.Block.{ratio}

pub record SchedulerMetrics (F : Type 0) : Type 0 where
  pub total_requests : ℕ
  pub completed_requests : ℕ
  pub rejected_requests : ℕ
  pub sla_violations : ℕ
  pub p50_ttft_ms : F
  pub p95_ttft_ms : F
  pub p99_ttft_ms : F
  pub mean_ttft_ms : F
  pub p50_tpot_ms : F
  pub p95_tpot_ms : F
  pub p99_tpot_ms : F
  pub p50_total_ms : F
  pub p99_total_ms : F
  pub mean_tokens_per_sec : F
  pub total_tokens_generated : ℕ
  pub cache_hit_rate : F
  pub total_kv_spills : ℕ
  pub mean_gpu_utilization : F
  pub mean_memory_pressure : F
  pub cost_per_1m_tokens : F
  pub fairness_index : F

module _ {F : Type 0} where
  abbrev pub is_completed : RequestResult F → Bool
  is_completed r = r.success && not r.rejected

module _ {F : Type 0} ⦃fl : Float F⦄ where
  unfoldable pub completion_rate : SchedulerMetrics F → F
  unfolding ratio
  completion_rate m = ratio m.completed_requests m.total_requests

  unfoldable pub rejection_rate : SchedulerMetrics F → F
  unfolding ratio
  rejection_rate m = ratio m.rejected_requests m.total_requests

  unfoldable pub sla_violation_rate : SchedulerMetrics F → F
  unfolding ratio
  sla_violation_rate m = ratio m.sla_violations m.completed_requests

module _ {F : Type 0} ⦃fl : Float F⦄ (mean np_sum : List F → F) (percentile : List F → ℕ → F) where
  open fl use {of_nat, mul, div, lt}

  -- `np.array([f(r) for r in completed]) if completed else np.array([0.0])`
  abbrev series : (RequestResult F → F) → List (RequestResult F) → List F
  series f [] = of_nat 0 ∷ []
  series f (r ∷ rs) = f r ∷ map f rs

  abbrev mean_or : F → List F → F
  mean_or d [] = d
  mean_or d (x ∷ xs) = mean (x ∷ xs)

  unfoldable pub jains_fairness : List (RequestResult F) → F
  unfolding tokens_per_second
  jains_fairness results = index (select (λ t. lt (of_nat 0) t) (map tokens_per_second results))
    where
      index : List F → F
      index [] = of_nat 1
      index (t ∷ ts) =
          div (mul (np_sum (t ∷ ts)) (np_sum (t ∷ ts)))
            (mul (of_nat (length (t ∷ ts))) (np_sum (map (λ x. mul x x) (t ∷ ts))))

  abbrev sum_tokens : List (RequestResult F) → ℕ
  sum_tokens [] = 0
  sum_tokens (r ∷ rs) = total_tokens r + sum_tokens rs

  unfoldable pub compile_metrics : List (RequestResult F) → List F → List F → SchedulerMetrics F
  unfolding jains_fairness tokens_per_second total_tokens
  compile_metrics results utilizations pressures =
      let completed = select is_completed results in
      let ttfts = series (λ r. r.ttft_ms) completed in
      let tpots = series (λ r. r.tpot_ms) completed in
      let totals = series (λ r. r.total_latency_ms) completed in
      record {
        total_requests = length results;
        completed_requests = length completed;
        rejected_requests = length (select (λ (r : RequestResult F). r.rejected) results);
        sla_violations = length (
            select
              (λ (r : RequestResult F). lt (of_nat 1000) r.ttft_ms || lt (of_nat 100) r.tpot_ms)
              completed);
        p50_ttft_ms = percentile ttfts 50;
        p95_ttft_ms = percentile ttfts 95;
        p99_ttft_ms = percentile ttfts 99;
        mean_ttft_ms = mean ttfts;
        p50_tpot_ms = percentile tpots 50;
        p95_tpot_ms = percentile tpots 95;
        p99_tpot_ms = percentile tpots 99;
        p50_total_ms = percentile totals 50;
        p99_total_ms = percentile totals 99;
        mean_tokens_per_sec =
            mean_or (of_nat 0) (select (λ t. lt (of_nat 0) t) (map tokens_per_second completed));
        total_tokens_generated = sum_tokens completed;
        cache_hit_rate =
            div (of_nat (length (select (λ (r : RequestResult F). r.kv_cache_hit) completed)))
              (of_nat (max 1 (length completed)));
        total_kv_spills = length (select (λ (r : RequestResult F). r.kv_spilled) completed);
        mean_gpu_utilization = mean_or (of_nat 0) utilizations;
        mean_memory_pressure = mean_or (of_nat 0) pressures;
        cost_per_1m_tokens = mean_or (of_nat 0) (map (λ r. r.cost_per_1m_tokens) completed);
        fairness_index = jains_fairness completed;
      }
