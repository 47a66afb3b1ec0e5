-- ===== src/Workload.antt =====
-- simulator/workload_replay/workload_generator.py: the requests that WorkloadGenerator makes. What the
-- random generator and the logarithms give is a parameter: for each request the time to the next
-- arrival at a rate, the two lengths, and the rolls for class, tenant and prefix. The profile has at
-- least one tenant, since the name that the code gives without one is that of -1, and positive mean
-- lengths, by which it divides.
pub mod Traces
pub mod Sharegpt
use dynamo_serve.Base.{
  ℕ, zero, suc, ◌+◌, ◌-◌, min, max, Bool, true, false, not, ◌&&◌, if◌then◌else◌, leb, ltb, eqb,
  String, List, [], ◌∷◌, length, Option, none, some, sort,
}
use dynamo_serve.Float.{Float, fmax}
use dynamo_serve.Models.Request.{
  Request, SlaClass, realtime, interactive, batch, TenantPriority, high, normal, low,
}

pub record WorkloadProfile (F : Type 0) : Type 0 where
  pub duration_s : F
  pub arrival_rate_rps : F
  pub burst_factor : F
  pub burst_duration_s : F
  pub burst_interval_s : F
  pub prompt_len_mean : ℕ
  pub prompt_len_std : ℕ
  pub output_len_mean : ℕ
  pub output_len_std : ℕ
  pub max_prompt_tokens : ℕ
  pub max_output_tokens : ℕ
  pub sla_realtime_fraction : F
  pub sla_interactive_fraction : F
  pub num_tenants : ℕ
  pub tenant_skew : F
  pub prefix_sharing_prob : F
  pub model_id : String

-- What the generator draws for its `k`-th request: `expovariate` of a rate, `int(lognormvariate(...))`
-- of a mean and a deviation for the two lengths, three results of `random()`, and the prefix that
-- `choice` takes, where there are any.
pub record Draws (F : Type 0) : Type 0 where
  pub interarrival : ℕ → F → F
  pub prompt_len : ℕ → ℕ → ℕ → ℕ
  pub output_len : ℕ → ℕ → ℕ → ℕ
  pub class_roll : ℕ → F
  pub tenant_roll : ℕ → F
  pub prefix_roll : ℕ → F
  pub prefix_choice : ℕ → Option String

unfoldable pub class_priority : SlaClass → TenantPriority
class_priority realtime = high
class_priority interactive = normal
class_priority batch = low

-- `_sample_lognormal`, where `drawn` is what the generator gives.
unfoldable pub sample_lognormal : ℕ → ℕ → ℕ → ℕ
sample_lognormal mean std drawn = if eqb std 0 then mean else max 1 drawn

module _ {F : Type 0} ⦃fl : Float F⦄ where
  open fl use {of_nat, decimal, add, mul, div, lt, le}

  -- `mod` is the remainder of floats.
  unfoldable pub effective_rate : (F → F → F) → WorkloadProfile F → F → F
  unfolding fmax
  effective_rate mod' p t =
      let phase = mod' t (add p.burst_interval_s p.burst_duration_s) in
      let burst = lt (of_nat 0) p.burst_duration_s && le p.burst_interval_s phase in
      fmax (decimal 1 2)
        (if burst then mul p.arrival_rate_rps p.burst_factor else p.arrival_rate_rps)

  unfoldable pub sample_sla_class : WorkloadProfile F → F → SlaClass
  sample_sla_class p roll =
      if lt roll p.sla_realtime_fraction
      then realtime
      else if lt roll (add p.sla_realtime_fraction p.sla_interactive_fraction)
      then interactive
      else batch

  -- `sum(weights)`, from the left.
  unfoldable pub sum_weights : F → List F → F
  sum_weights acc [] = acc
  sum_weights acc (w ∷ ws) = sum_weights (add acc w) ws

  -- The weights of the ranks `i`, `i + 1`, ...: `power` is Python's `**`.
  unfoldable pub zipf_weights : (F → F → F) → F → ℕ → ℕ → List F
  zipf_weights power skew i zero = []
  zipf_weights power skew i (suc n) =
      div (of_nat 1) (power (of_nat i) skew) ∷ zipf_weights power skew (suc i) n

  -- The loop of `_sample_tenant` from rank `i` on; `last` is the answer after the loop.
  unfoldable pub pick_rank : F → F → F → ℕ → List F → ℕ → ℕ
  pick_rank total roll cumulative i [] last = last
  pick_rank total roll cumulative i (w ∷ ws) last =
      let next = add cumulative (div w total) in
      let rest = pick_rank total roll next (suc i) ws last in if le roll next then i else rest

  unfoldable pub sample_tenant : (F → F → F) → WorkloadProfile F → F → ℕ
  unfolding zipf_weights sum_weights pick_rank
  sample_tenant power p roll =
      let weights = zipf_weights power p.tenant_skew 1 p.num_tenants in
      pick_rank (sum_weights (of_nat 0) weights) roll (of_nat 0) 0 weights (p.num_tenants - 1)

module _ {F : Type 0} ⦃fl : Float F⦄ (power mod' : F → F → F) (tenant_name fresh_id : ℕ → String)
    (draws : Draws F) where
  open fl use {of_nat, add, lt, le}

  -- `_make_request` for the `k`-th request; `fresh_id k` is its uuid.
  unfoldable pub make_request : WorkloadProfile F → F → ℕ → Request F
  unfolding sample_lognormal sample_sla_class sample_tenant class_priority
  make_request p arrival_time k =
      let prompt =
        sample_lognormal p.prompt_len_mean p.prompt_len_std
          (draws.prompt_len k p.prompt_len_mean p.prompt_len_std) in
      let output =
        sample_lognormal p.output_len_mean p.output_len_std
          (draws.output_len k p.output_len_mean p.output_len_std) in
      let sla_class = sample_sla_class p (draws.class_roll k) in
      record {
        prompt_tokens = max 16 (min prompt p.max_prompt_tokens);
        max_output_tokens = max 1 (min output p.max_output_tokens);
        sla_class = sla_class;
        tenant_id = tenant_name (sample_tenant power p (draws.tenant_roll k));
        priority = class_priority sla_class;
        model_id = p.model_id;
        request_id = fresh_id k;
        arrival_time = arrival_time;
        prefix_hash =
            if lt (draws.prefix_roll k) p.prefix_sharing_prob then draws.prefix_choice k else none;
      }

  -- The loop of `generate`, with the rounds that it may still make; nothing is its result where they
  -- do not suffice.
  unfoldable pub generate_from : ℕ → WorkloadProfile F → F → ℕ → Option (List (Request F))
  unfolding effective_rate make_request
  generate_from zero p t k = none
  generate_from (suc rounds) p t k =
      let t' = add t (draws.interarrival k (effective_rate mod' p t)) in
      let rest = generate_from rounds p t' (suc k) in
      if not (lt t p.duration_s)
      then some []
      else if le p.duration_s t'
      then some []
      else elim rest [ none ↦ none | some rs ↦ some (make_request p t' k ∷ rs) ]

  unfoldable pub generate : ℕ → WorkloadProfile F → Option (List (Request F))
  unfolding generate_from
  generate rounds p = elim (generate_from rounds p (of_nat 0) 0) [
    | none ↦ none
    | some rs ↦ some (sort (λ a b. lt a.arrival_time b.arrival_time) rs)
  ]
