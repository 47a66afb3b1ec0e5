-- ===== src/Tracer/Counting.antt =====
-- The tracer of data_plane/tracing_hooks/tracer.py against the list of the calls that it got: what an
-- unbounded log would hold.
use dynamo_serve.Base.{
  ℕ, zero, suc, ◌+◌, ◌≤◌, ◌≡◌, refl, ap, sym, ◌∙◌, Bool, ◌&&◌, not, if◌then◌else◌, ltb, String,
  List, [], ◌∷◌, ◌++◌, length, take, select, map, Option, none, arith, tests, Bool-cases, inl, inr,
  length-append, take_all,
}
use mathlib.Core.List.{append_assoc, append-nil}
use dynamo_serve.Models.Outcome.{RequestResult}
use dynamo_serve.Tracer.{
  EventName, request_arrived, request_accepted, request_queued, request_rejected, request_completed,
  request_failed, kv_cache_hit, kv_cache_miss, kv_eviction, kv_spill, other, TraceEvent, Latencies,
  Tracer, update_counters, record_event, count_completed, keep_latencies, record_result, reset,
}

-- A call of one of the two recording methods.
pub data Call (F : Type 0) : Type 0 where
  event_call : EventName → String → Option String → Call F
  result_call : RequestResult F → Call F

module _ {F : Type 0} where
  abbrev pub call : Call F → Tracer F → Tracer F
  call (event_call e r n) t = record_event e r n t
  call (result_call r) t = record_result r t

  abbrev pub call_all : List (Call F) → Tracer F → Tracer F
  call_all [] t = t
  call_all (c ∷ cs) t = call_all cs (call c t)

  abbrev pub is_completed : RequestResult F → Bool
  is_completed r = not r.rejected && r.success

  -- The event that a call records.
  abbrev pub event_of : Call F → TraceEvent
  event_of (event_call e r n) = record { event = e; request_id = r; node_id = n }
  event_of (result_call r) =
      if r.rejected
      then record { event = request_rejected; request_id = r.request_id; node_id = none }
      else if r.success
      then record { event = request_completed; request_id = r.request_id; node_id = r.gpu_node_id }
      else record { event = request_failed; request_id = r.request_id; node_id = r.gpu_node_id }

  -- The completed results among the calls.
  abbrev pub completed : List (Call F) → List (RequestResult F)
  completed [] = []
  completed (event_call e r n ∷ cs) = completed cs
  completed (result_call r ∷ cs) = if is_completed r then r ∷ completed cs else completed cs

  abbrev pub count_events : (EventName → Bool) → List (Call F) → ℕ
  count_events p cs = length (select (λ c. p (event_of c).event) cs)

  call-events :
      (c : Call F) (t : Tracer F)
      → (call c t).events
        ≡ (if ltb (length t.events) t.max_events then t.events ++ event_of c ∷ [] else t.events)
  unfolding record_event record_result
  call-events (event_call e r n) t = refl
  call-events (result_call r) t = ground arith

  call-max_events : (c : Call F) (t : Tracer F) → (call c t).max_events ≡ t.max_events
  unfolding record_event record_result
  call-max_events (event_call e r n) t = refl
  call-max_events (result_call r) t = ground arith

take-append_full {ℓ} :
    {A : Type ℓ} (n : ℕ) (xs ys : List A) → n ≡ length xs → take n (xs ++ ys) ≡ xs
take-append_full zero [] ys h = refl
take-append_full zero (x ∷ xs) ys h = absurd (omega (arith, h))
take-append_full (suc n) [] ys h = absurd (omega (arith, h))
take-append_full (suc n) (x ∷ xs) ys h = ap (◌∷◌ x) (take-append_full n xs ys (omega (arith, h)))

module _ {F : Type 0} where
  call_all-events :
      (cs : List (Call F)) (t : Tracer F)
      → length t.events ≤ t.max_events
      → (call_all cs t).events ≡ take t.max_events (t.events ++ map event_of cs)
  call_all-events [] t h = rw append-nil (sym (take_all t.max_events t.events h))
  call_all-events (c ∷ cs) t h = elim (Bool-cases (ltb (length t.events) t.max_events)) [
    | inl room ↦
        let e : (call c t).events ≡ t.events ++ event_of c ∷ [] = rw room at (call-events c t) in
        let fits : length (call c t).events ≤ (call c t).max_events = omega (
          tests,
          room,
          ap length e,
          length-append t.events (event_of c ∷ []),
          call-max_events c t,
        ) in
        call_all-events cs (call c t) fits ∙ rw (e, call-max_events c t, append_assoc) refl
    | inr full ↦
        let e : (call c t).events ≡ t.events = rw full at (call-events c t) in
        let exact : t.max_events ≡ length t.events = omega (tests, full, h) in
        call_all-events cs (call c t) (rw (e, call-max_events c t) h)
        ∙ rw (e, call-max_events c t)
            (take-append_full t.max_events t.events _ exact
              ∙ sym (take-append_full t.max_events t.events _ exact))
  ]

  -- The sum of a weight over the calls.
  abbrev pub total : (Call F → ℕ) → List (Call F) → ℕ
  total w [] = 0
  total w (c ∷ cs) = w c + total w cs

  abbrev pub rejects : Call F → ℕ
  rejects (event_call request_rejected r n) = 1
  rejects (event_call _ r n) = 0
  rejects (result_call r) = if r.rejected then 1 else 0

  abbrev pub completes : Call F → ℕ
  completes (event_call e r n) = 0
  completes (result_call r) = if is_completed r then 1 else 0

  -- The lookups of the prefix cache that a call reports, and those that hit.
  abbrev pub lookups : Call F → ℕ
  lookups (event_call kv_cache_hit r n) = 1
  lookups (event_call kv_cache_miss r n) = 1
  lookups (event_call _ r n) = 0
  lookups (result_call r) = if is_completed r then 1 else 0

  abbrev pub hits : Call F → ℕ
  hits (event_call kv_cache_hit r n) = 1
  hits (event_call _ r n) = 0
  hits (result_call r) = if is_completed r && r.kv_cache_hit then 1 else 0

  -- What the counters of a tracer say beyond those of an earlier one.
  pub record IsTally (cs : List (Call F)) (t u : Tracer F) : Type 0 where
    pub rejected : u.counters.requests_rejected ≡ t.counters.requests_rejected + total rejects cs
    pub completed :
        u.counters.requests_completed ≡ t.counters.requests_completed + total completes cs
    pub looked_up :
        u.counters.kv_cache_hits + u.counters.kv_cache_misses
        ≡ t.counters.kv_cache_hits + t.counters.kv_cache_misses + total lookups cs
    pub hit : u.counters.kv_cache_hits ≡ t.counters.kv_cache_hits + total hits cs

  call-IsTally : (c : Call F) (t : Tracer F) → IsTally (c ∷ []) t (call c t)
  unfolding record_event record_result update_counters count_completed
  call-IsTally (event_call request_arrived r n) t = omega arith
  call-IsTally (event_call request_accepted r n) t = omega arith
  call-IsTally (event_call request_queued r n) t = omega arith
  call-IsTally (event_call request_rejected r n) t = omega arith
  call-IsTally (event_call request_completed r n) t = omega arith
  call-IsTally (event_call request_failed r n) t = omega arith
  call-IsTally (event_call kv_cache_hit r n) t = omega arith
  call-IsTally (event_call kv_cache_miss r n) t = omega arith
  call-IsTally (event_call kv_eviction r n) t = omega arith
  call-IsTally (event_call kv_spill r n) t = omega arith
  call-IsTally (event_call (other e) r n) t = omega arith
  call-IsTally (result_call r) t = ground arith

  call_all-IsTally : (cs : List (Call F)) (t : Tracer F) → IsTally cs t (call_all cs t)
  call_all-IsTally [] t = omega arith
  call_all-IsTally (c ∷ cs) t = omega (arith, call-IsTally c t, call_all-IsTally cs (call c t))

  total-completes : (cs : List (Call F)) → total completes cs ≡ length (completed cs)
  total-completes [] = refl
  total-completes (event_call e r n ∷ cs) = omega (arith, total-completes cs)
  total-completes (result_call r ∷ cs) = ground (arith, total-completes cs)

module _ {F : Type 0} (series : Latencies F → List F) (field : RequestResult F → F) where
  completed-cons :
      (c : Call F) (cs : List (Call F))
      → map field (completed (c ∷ [])) ++ map field (completed cs) ≡ map field (completed (c ∷ cs))
  completed-cons (event_call e r n) cs = refl
  completed-cons (result_call r) cs = elim (Bool-cases (is_completed r)) [
    | inl e ↦ rw e refl
    | inr e ↦ rw e refl
  ]

  call-series :
      (c : Call F) (t : Tracer F)
      → ((r : RequestResult F) (l : Latencies F)
          → series (keep_latencies r l) ≡ series l ++ field r ∷ [])
      → series (call c t).latencies ≡ series t.latencies ++ map field (completed (c ∷ []))
  unfolding record_event record_result
  call-series (event_call e r n) t h = rw append-nil refl
  call-series (result_call r) t h = ground (arith, append-nil (series t.latencies), h r t.latencies)

  call_all-series :
      (cs : List (Call F)) (t : Tracer F)
      → ((r : RequestResult F) (l : Latencies F)
          → series (keep_latencies r l) ≡ series l ++ field r ∷ [])
      → series (call_all cs t).latencies ≡ series t.latencies ++ map field (completed cs)
  call_all-series [] t h = rw append-nil refl
  call_all-series (c ∷ cs) t h =
      call_all-series cs (call c t) h
      ∙ rw (call-series c t h, append_assoc)
          (ap (λ l. series t.latencies ++ l) (completed-cons c cs))

module _ {F : Type 0} where
  -- After a reset and any calls the tracer is what the list of the calls says: it holds the first
  -- `max_events` of their events, its counters of requests rejected and completed and of cache hits
  -- and lookups are the totals of the calls, and its latencies are those of the results that
  -- completed, in order.
  pub reset-refines :
      (t : Tracer F) (cs : List (Call F))
      → let u = call_all cs (reset t) in
        (u.events ≡ take t.max_events (map event_of cs))
        × (u.counters.requests_rejected ≡ total rejects cs)
        × (u.counters.requests_completed ≡ length (completed cs))
        × (u.counters.kv_cache_hits + u.counters.kv_cache_misses ≡ total lookups cs)
        × (u.counters.kv_cache_hits ≡ total hits cs)
        × (u.latencies.ttft_ms ≡ map (λ r. r.ttft_ms) (completed cs))
        × (u.latencies.tpot_ms ≡ map (λ r. r.tpot_ms) (completed cs))
        × (u.latencies.total_ms ≡ map (λ r. r.total_latency_ms) (completed cs))
        × (u.latencies.queue_wait_ms ≡ map (λ r. r.queue_wait_ms) (completed cs))
  unfolding reset keep_latencies
  reset-refines t cs =
      let tally = call_all-IsTally cs (reset t) in
      (
        call_all-events cs (reset t) (omega arith),
        omega (arith, tally),
        omega (arith, tally, total-completes cs),
        omega (arith, tally),
        omega (arith, tally),
        call_all-series (λ l. l.ttft_ms) (λ r. r.ttft_ms) cs (reset t) (λ r l. refl),
        call_all-series (λ l. l.tpot_ms) (λ r. r.tpot_ms) cs (reset t) (λ r l. refl),
        call_all-series (λ l. l.total_ms) (λ r. r.total_latency_ms) cs (reset t) (λ r l. refl),
        call_all-series (λ l. l.queue_wait_ms) (λ r. r.queue_wait_ms) cs (reset t) (λ r l. refl),
      )
