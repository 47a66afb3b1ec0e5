-- ===== src/Workload/Traces.antt =====
-- The traces of simulator/workload_replay/workload_generator.py: they end, and each request is within
-- the limits of the profile.
use dynamo_serve.Base.{
  ℕ, zero, suc, ◌+◌, ◌-◌, ◌≤◌, ◌<◌, max, ◌≡◌, refl, ap, Bool, true, false, String, List, [], ◌∷◌,
  length, some, sort, All, All-Elem, Elem-All, Elem-sort, IsSorted, sort-IsSorted, arith,
  Bool-cases, inl, inr, length-sort,
}
use dynamo_serve.Float.{Float, FloatLaws, not-lt_of_le, min_key-IsStrictOrder}
use dynamo_serve.Models.Request.{Request}
use dynamo_serve.Workload.{
  WorkloadProfile, Draws, class_priority, effective_rate, zipf_weights, pick_rank, sample_tenant,
  make_request, generate_from, generate,
}

module _ {F : Type 0} ⦃fl : Float F⦄ where
  length-zipf_weights :
      (power : F → F → F) (skew : F) (i n : ℕ) → length (zipf_weights power skew i n) ≡ n
  unfolding zipf_weights
  length-zipf_weights power skew i zero = refl
  length-zipf_weights power skew i (suc n) = ap suc (length-zipf_weights power skew (suc i) n)

  pick_rank-lt :
      (total roll cumulative : F) (i : ℕ) (ws : List F) (last n : ℕ)
      → i + length ws ≤ n
      → last < n
      → pick_rank total roll cumulative i ws last < n
  unfolding pick_rank
  pick_rank-lt total roll cumulative i [] last n h l = l
  pick_rank-lt total roll cumulative i (w ∷ ws) last n h l =
      ground (arith, pick_rank-lt total roll (fl.add cumulative (fl.div w total)) (suc i) ws last n)

  -- The tenants are numbered below their count.
  sample_tenant-lt :
      (power : F → F → F) (p : WorkloadProfile F) (roll : F)
      → 0 < p.num_tenants
      → sample_tenant power p roll < p.num_tenants
  unfolding sample_tenant
  sample_tenant-lt power p roll some_tenant =
      pick_rank-lt _ roll _ 0 (zipf_weights power p.tenant_skew 1 p.num_tenants) (p.num_tenants - 1)
        p.num_tenants (omega (arith, length-zipf_weights power p.tenant_skew 1 p.num_tenants))
        (omega arith)

module _ {F : Type 0} ⦃fl : Float F⦄ (power mod' : F → F → F) (tenant_name fresh_id : ℕ → String)
    (draws : Draws F) where
  open fl use {of_nat, add, lt, le}

  -- What holds of each request of a trace.
  pub record IsWithin (p : WorkloadProfile F) (r : Request F) : Type 0 where
    pub prompt : (16 ≤ r.prompt_tokens) × (r.prompt_tokens ≤ max 16 p.max_prompt_tokens)
    pub output : (1 ≤ r.max_output_tokens) × (r.max_output_tokens ≤ max 1 p.max_output_tokens)
    pub priority : r.priority ≡ class_priority r.sla_class
    pub tenant : (i : ℕ) × (i < p.num_tenants) × (r.tenant_id ≡ tenant_name i)
    pub arrival : le p.duration_s r.arrival_time ≡ false

  make_request-IsWithin :
      (p : WorkloadProfile F) (t : F) (k : ℕ)
      → 0 < p.num_tenants
      → le p.duration_s t ≡ false
      → IsWithin p (make_request power mod' tenant_name fresh_id draws p t k)
  unfolding make_request
  make_request-IsWithin p t k some_tenant h = record {
    prompt = (omega arith, omega arith);
    output = (omega arith, omega arith);
    priority = refl;
    tenant = (_, sample_tenant-lt power p (draws.tenant_roll k) some_tenant, refl);
    arrival = h;
  }

  -- The time after `n` more arrivals.
  abbrev pub time_after : WorkloadProfile F → ℕ → F → ℕ → F
  time_after p zero t k = t
  time_after p (suc n) t k =
      time_after p n (add t (draws.interarrival k (effective_rate mod' p t))) (suc k)

  -- The loop has ended when the time that the arrivals take is up.
  generate_from-ends :
      FloatLaws F
      → (rounds n : ℕ) (p : WorkloadProfile F) (t : F) (k : ℕ) → 0 < p.num_tenants
      → le p.duration_s (time_after p n t k) ≡ true
      → n < rounds
      → (rs : List (Request F)) × (generate_from power mod' tenant_name fresh_id draws rounds p t k
          ≡ some rs)
        × (length rs ≤ n)
        × All (IsWithin p) rs
  unfolding generate_from
  generate_from-ends laws zero n p t k some_tenant up h = absurd (omega arith)
  generate_from-ends laws (suc rounds) zero p t k some_tenant up h =
      ([], rw (not-lt_of_le laws t p.duration_s up) refl, omega arith, tt)
  generate_from-ends laws (suc rounds) (suc n) p t k some_tenant up h =
      let t' = add t (draws.interarrival k (effective_rate mod' p t)) in
      elim (Bool-cases (lt t p.duration_s)) [
        | inr over ↦ ([], rw over refl, omega arith, tt)
        | inl before ↦ elim (Bool-cases (le p.duration_s t')) [
          | inl late ↦ ([], rw (before, late) refl, omega arith, tt)
          | inr early ↦
              let (rs, e, few, all) =
                generate_from-ends laws rounds n p t' (suc k) some_tenant up (omega arith) in
              (
                make_request power mod' tenant_name fresh_id draws p t' k ∷ rs,
                rw (before, early) (rw e refl),
                omega (arith, few),
                (make_request-IsWithin p t' k some_tenant early, all),
              )
        ]
      ]

  abbrev pub earlier : Request F → Request F → Bool
  earlier a b = lt a.arrival_time b.arrival_time

  -- Under the laws of comparison, where there is a tenant and the arrivals drawn reach the duration
  -- of the profile after `n` requests, `generate` ends, given more than `n` rounds: with a trace in
  -- the order of arrival, of at most `n` requests. Each arrives before the duration is up, has
  -- between 16 prompt tokens and what the profile allows, or 16 if that is less, likewise at least
  -- one output token, the priority of its class, and a tenant of the profile.
  pub generate-IsWithin :
      FloatLaws F
      → (rounds n : ℕ) (p : WorkloadProfile F) → 0 < p.num_tenants
      → le p.duration_s (time_after p n (of_nat 0) 0) ≡ true
      → n < rounds
      → (rs : List (Request F)) × (generate power mod' tenant_name fresh_id draws rounds p
          ≡ some rs)
        × (length rs ≤ n)
        × All (IsWithin p) rs
        × IsSorted earlier rs
  unfolding generate
  generate-IsWithin laws rounds n p some_tenant up h =
      let (rs, e, few, all) = generate_from-ends laws rounds n p (of_nat 0) 0 some_tenant up h in
      (
        sort earlier rs,
        rw (generate, e) refl,
        omega (arith, few, length-sort earlier rs),
        Elem-All (IsWithin p) _ (λ r m. All-Elem (IsWithin p) rs all (Elem-sort earlier rs r m)),
        sort-IsSorted earlier (min_key-IsStrictOrder laws (λ r. r.arrival_time)) rs,
      )
