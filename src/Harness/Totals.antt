-- ===== src/Harness/Totals.antt =====
-- A run of benchmarks/harness.py comes to its end, and its books agree: the results, the tracer's
-- counters and the metrics.
use dynamo_serve.Base.{
  ℕ, suc, ◌+◌, ◌≡◌, refl, subst, Bool, true, false, if◌then◌else◌, String, List, [], ◌∷◌, ◌++◌,
  length, select, Option, none, All, All-map_of, Option-cases, string_eq, some, arith, Bool-cases,
  inl, inr, length-append,
}
use dynamo_serve.Float.{Float}
use dynamo_serve.Models.Node.{Node}
use dynamo_serve.Models.Request.{Request}
use dynamo_serve.Models.Outcome.{RequestResult}
use dynamo_serve.Sla.{SlaPolicy, check_result}
use dynamo_serve.Runtime.{execute, can_run, has_memory}
use dynamo_serve.Moe.{all_of}
use dynamo_serve.Tracer
use dynamo_serve.Tracer.{Tracer, record_event, record_result, count_completed, update_counters}
use dynamo_serve.Harness.World.{Serving, ServingLaws, Serves, Divides, find_node}
use dynamo_serve.Harness.{
  SchedulerMetrics, Progress, is_completed, refused_result, adjust, refuse, perform, settle,
  attempt, close_round, run_on, serve, serve_all, compile_metrics, run,
}

-- A list that grows by one element, counted by a test.
count-snoc {ℓ} :
    {A : Type ℓ} (p : A → Bool) (xs : List A) (x : A)
    → length (select p (xs ++ x ∷ [])) ≡ length (select p xs) + (if p x then 1 else 0)
count-snoc p [] x = ground arith
count-snoc p (y ∷ ys) x = ground (arith, count-snoc p ys x)

module _ {F : Type 0} where
  abbrev pub is_rejected : RequestResult F → Bool
  is_rejected r = r.rejected

module _ {F W : Type 0} where
  -- The results and the counters of the tracer after `k` requests.
  pub record IsBooked (k : ℕ) (s : Progress F W) : Type 0 where
    pub results : length s.results ≡ k
    pub arrived : s.tracer.counters.requests_arrived ≡ k
    pub completed : s.tracer.counters.requests_completed ≡ length (select is_completed s.results)
    pub rejected : s.tracer.counters.requests_rejected ≡ length (select is_rejected s.results)
    pub split : length (select is_completed s.results) + length (select is_rejected s.results) ≡ k
    pub looked_up :
        s.tracer.counters.kv_cache_hits + s.tracer.counters.kv_cache_misses
        ≡ length (select is_completed s.results)

  abbrev arrive : Request F → Progress F W → Progress F W
  arrive request s = record s {
    tracer = record_event Tracer.request_arrived request.request_id none s.tracer;
  }

module _ {F W : Type 0} ⦃fl : Float F⦄ (ops : Serving F W) (gauss : ℕ → F → F → F) (now : ℕ → F)
    (power : F → F → F) (mean : List F → F) where
  refuse-IsBooked :
      (request : Request F) (w : W) (k : ℕ) (s : Progress F W)
      → IsBooked k s
      → IsBooked (suc k) (refuse ops gauss now power mean request w (arrive request s))
  unfolding refuse refused_result record_result record_event update_counters
  refuse-IsBooked request w k s b = omega (
    arith,
    b,
    length-append s.results (refused_result request ∷ []),
    count-snoc {0} is_completed s.results (refused_result request),
    count-snoc {0} is_rejected s.results (refused_result request),
  )

  perform-completed :
      (request : Request F) (n : Node F) (blocks : ℕ) (hit : Bool) (draw : ℕ)
      → let result = perform ops gauss now power mean request n blocks hit draw in
        (result.success ≡ true) × (result.rejected ≡ false)
  unfolding perform adjust execute
  perform-completed request n blocks hit draw = (refl, refl)

  settle-IsBooked :
      (request : Request F) (result : RequestResult F) (policy : SlaPolicy F) (w : W) (k : ℕ)
      (s : Progress F W)
      → result.success ≡ true
      → result.rejected ≡ false
      → IsBooked k s
      → IsBooked (suc k) (settle ops gauss now power mean result policy w (arrive request s))
  unfolding settle record_result record_event update_counters count_completed
  settle-IsBooked request result policy w k s ok kept b = ground (
    arith,
    b,
    length-append s.results (result ∷ []),
    count-snoc {0} is_completed s.results result,
    count-snoc {0} is_rejected s.results result,
  )

  module _ (Valid : W → Type 0) (laws : ServingLaws ops Valid) where
    -- A round that comes to its end.
    abbrev Books : ℕ → Option (Progress F W) → Type 0
    Books k o = (s : Progress F W) × (o ≡ some s) × Valid s.world × IsBooked k s

    find_node-All :
        (P : Node F → Type 0) (a : String) (ns : List (Node F)) {n : Node F}
        → find_node a ns ≡ some n
        → All P ns
        → P n
    unfolding find_node
    find_node-All P a [] e h = cc
    find_node-All P a (x ∷ xs) {n = n} e h = elim (Option-cases (find_node a xs)) [
      | inr (m, f) ↦
          let same : m ≡ n = ground (arith, e, f) in subst P same (find_node-All P a xs f h.1)
      | inl f ↦ let same : x ≡ n = ground (arith, e, f) in subst P same h.0
    ]

    all_of-true :
        (p : Node F → Bool) (ns : List (Node F)) → All (λ n. p n ≡ true) ns → all_of p ns ≡ true
    unfolding all_of
    all_of-true p [] h = refl
    all_of-true p (n ∷ ns) h = rw h.0 (all_of-true p ns h.1)

    attempt-some :
        (request : Request F) (n : Node F) (blocks : ℕ) (hit : Bool) (draw : ℕ)
        → can_run n ≡ true
        → attempt ops gauss now power mean request n blocks hit draw
          ≡ some (perform ops gauss now power mean request n blocks hit draw)
    unfolding attempt
    attempt-some request n blocks hit draw able = rw able refl

    close_round-some :
        (result : RequestResult F) (policy : SlaPolicy F) (w : W) (s : Progress F W)
        → all_of has_memory (ops.nodes w) ≡ true
        → close_round ops gauss now power mean result policy w s
          ≡ some (settle ops gauss now power mean result policy w s)
    unfolding close_round
    close_round-some result policy w s able = ground (arith, able)

    run_on-Books :
        (request : Request F) (node_id : String) (w : W) (k : ℕ) (s : Progress F W)
        → Valid w
        → Serves ops w node_id
        → IsBooked k s
        → Books (suc k) (run_on ops gauss now power mean request node_id w (arrive request s))
    unfolding run_on
    run_on-Books request node_id w k s v (n, here) b =
        let (w₁, blocks, hit, e₁, v₁, k₁) = laws.allocates request node_id w v (n, here) in
        let (w₂, e₂, v₂, k₂) = laws.frees node_id blocks w₁ v₁ k₁ in
        let (w₃, e₃, v₃, _) = laws.completes request node_id w₂ v₂ k₂ in
        let result = perform ops gauss now power mean request n (length blocks) hit s.draws in
        let (policy, _) = check_result result request.sla_class s.policy in
        let able = (find_node-All Divides node_id (ops.nodes w) here (laws.divides w v)).0 in
        let powered =
          all_of-true has_memory (ops.nodes w₃)
            (All-map_of _ _ _ (λ n d. d.1) (laws.divides w₃ v₃)) in
        let (ok, kept) = perform-completed request n (length blocks) hit s.draws in
        (
          settle ops gauss now power mean result policy w₃ (arrive request s),
          rw (run_on, here)
              (rw e₁ (
                rw (attempt-some request n (length blocks) hit s.draws able)
                  (rw e₂ (rw e₃ (close_round-some result policy w₃ (arrive request s) powered))))),
          v₃,
          settle-IsBooked request result policy w₃ k s ok kept b,
        )

    serve-Books :
        (request : Request F) (k : ℕ) (s : Progress F W)
        → Valid s.world
        → IsBooked k s
        → Books (suc k) (serve ops gauss now power mean request s)
    unfolding serve refuse
    serve-Books request k s v b =
        let (w, r, e, v', accepts) = laws.schedules request s.world v in
        elim (Bool-cases r.accepted) [
          | inl yes' ↦
              let (node_id, named, known) = accepts yes' in
              let (s', e', v'', b') = run_on-Books request node_id w k s v' known b in
              (s', rw (serve, e) (rw yes' (rw named e')), v'', b')
          | inr no' ↦ (
            refuse ops gauss now power mean request w (arrive request s),
            rw (serve, e) (rw no' refl),
            v',
            refuse-IsBooked request w k s b,
          )
        ]

    serve_all-Books :
        (requests : List (Request F)) (k : ℕ) (s : Progress F W)
        → Valid s.world
        → IsBooked k s
        → Books (length requests + k) (serve_all ops gauss now power mean requests s)
    unfolding serve_all
    serve_all-Books [] k s v b = (s, refl, v, subst (λ n. IsBooked n s) (omega arith) b)
    serve_all-Books (r ∷ rs) k s v b =
        let (s', e, v', b') = serve-Books r k s v b in
        let (s'', e', v'', b'') = serve_all-Books rs (suc k) s' v' b' in
        (s'', rw e e', v'', subst (λ n. IsBooked n s'') (omega arith) b'')

  module _ (np_sum : List F → F) (percentile : List F → ℕ → F) (Valid : W → Type 0)
      (laws : ServingLaws ops Valid) where
    -- From a valid world, in which by the laws of the interface no node has a zero that the
    -- harness divides by, a run ends with metrics, whatever the requests, and leaves a valid
    -- world. The metrics count every request once, as completed or as rejected, and the tracer's
    -- counters say the same: as many arrivals as requests, and a cache lookup for each request
    -- completed.
    pub run-totals :
        (requests : List (Request F)) (w : W) (tracer : Tracer F) (policy : SlaPolicy F) (draws : ℕ)
        → Valid w
        → (s : Progress F W) × (m : SchedulerMetrics F) × (run mean np_sum percentile ops gauss now
              power requests w tracer policy draws
            ≡ some (s, m))
          × Valid s.world
          × (m.total_requests ≡ length requests)
          × (m.completed_requests + m.rejected_requests ≡ length requests)
          × (s.tracer.counters.requests_arrived ≡ m.total_requests)
          × (s.tracer.counters.requests_completed ≡ m.completed_requests)
          × (s.tracer.counters.requests_rejected ≡ m.rejected_requests)
          × (s.tracer.counters.kv_cache_hits + s.tracer.counters.kv_cache_misses
              ≡ m.completed_requests)
    unfolding run compile_metrics Tracer.reset
    run-totals requests w tracer policy draws v =
        let start : Progress F W = record {
          world = w;
          tracer = Tracer.reset tracer;
          policy = policy;
          draws = draws;
          results = [];
          utilizations = [];
          pressures = [];
        } in
        let (s, e, v', b) = serve_all-Books Valid laws requests 0 start v (omega arith) in
        (
          s,
          compile_metrics mean np_sum percentile s.results s.utilizations s.pressures,
          rw e refl,
          v',
          omega (arith, b.results),
          omega (arith, b.split),
          omega (arith, b.arrived, b.results),
          b.completed,
          b.rejected,
          b.looked_up,
        )
