-- ===== src/Tracer.antt =====
-- data_plane/tracing_hooks/tracer.py. The names of events that the tracer tells apart are
-- constructors, and `other` is any other text. The time stamps and the metadata of an event, which
-- only the dump reads, are left out; the lock makes each method one step.
pub mod Counting
use dynamo_serve.Base.{
  ℕ, ◌+◌, Bool, if◌then◌else◌, ltb, String, List, [], ◌∷◌, ◌++◌, length, Option, none,
}
use dynamo_serve.Float.{Float}
use dynamo_serve.Models.Block.{ratio}
use dynamo_serve.Models.Outcome.{RequestResult}

pub data EventName : Type 0 where
  request_arrived request_accepted request_queued request_rejected request_completed : EventName
  request_failed kv_cache_hit kv_cache_miss kv_eviction kv_spill : EventName
  other : String → EventName

pub record TraceEvent : Type 0 where
  pub event : EventName
  pub request_id : String
  pub node_id : Option String

pub record Counters : Type 0 where
  pub requests_arrived : ℕ
  pub requests_accepted : ℕ
  pub requests_queued : ℕ
  pub requests_rejected : ℕ
  pub requests_completed : ℕ
  pub requests_failed : ℕ
  pub kv_cache_hits : ℕ
  pub kv_cache_misses : ℕ
  pub kv_evictions : ℕ
  pub kv_spills : ℕ

pub record Latencies (F : Type 0) : Type 0 where
  pub ttft_ms : List F
  pub tpot_ms : List F
  pub total_ms : List F
  pub queue_wait_ms : List F

pub record Tracer (F : Type 0) : Type 0 where
  pub events : List TraceEvent
  pub max_events : ℕ
  pub counters : Counters
  pub latencies : Latencies F

abbrev pub zero_counters : Counters
zero_counters = record {
  requests_arrived = 0;
  requests_accepted = 0;
  requests_queued = 0;
  requests_rejected = 0;
  requests_completed = 0;
  requests_failed = 0;
  kv_cache_hits = 0;
  kv_cache_misses = 0;
  kv_evictions = 0;
  kv_spills = 0;
}

-- `_update_counters`: the counter that an event has; `request_completed` has none in the mapping.
unfoldable pub update_counters : EventName → Counters → Counters
update_counters request_arrived c = record c { requests_arrived = c.requests_arrived + 1 }
update_counters request_accepted c = record c { requests_accepted = c.requests_accepted + 1 }
update_counters request_queued c = record c { requests_queued = c.requests_queued + 1 }
update_counters request_rejected c = record c { requests_rejected = c.requests_rejected + 1 }
update_counters request_completed c = c
update_counters request_failed c = record c { requests_failed = c.requests_failed + 1 }
update_counters kv_cache_hit c = record c { kv_cache_hits = c.kv_cache_hits + 1 }
update_counters kv_cache_miss c = record c { kv_cache_misses = c.kv_cache_misses + 1 }
update_counters kv_eviction c = record c { kv_evictions = c.kv_evictions + 1 }
update_counters kv_spill c = record c { kv_spills = c.kv_spills + 1 }
update_counters (other name) c = c

module _ {F : Type 0} where
  abbrev pub no_latencies : Latencies F
  no_latencies = record { ttft_ms = []; tpot_ms = []; total_ms = []; queue_wait_ms = [] }

  unfoldable pub init : ℕ → Tracer F
  init max_events = record {
    events = [];
    max_events = max_events;
    counters = zero_counters;
    latencies = no_latencies;
  }

  -- `record`, under another name: an event is kept while there is room, and counted in any case.
  unfoldable pub record_event : EventName → String → Option String → Tracer F → Tracer F
  unfolding update_counters
  record_event event request_id node_id t = record t {
    events =
        if ltb (length t.events) t.max_events
        then t.events ++ record { event = event; request_id = request_id; node_id = node_id } ∷ []
        else t.events;
    counters = update_counters event t.counters;
  }

  -- The counters that a completed request changes.
  unfoldable pub count_completed : RequestResult F → Counters → Counters
  count_completed result c = record c {
    requests_completed = c.requests_completed + 1;
    kv_cache_hits = if result.kv_cache_hit then c.kv_cache_hits + 1 else c.kv_cache_hits;
    kv_cache_misses = if result.kv_cache_hit then c.kv_cache_misses else c.kv_cache_misses + 1;
    kv_spills = if result.kv_spilled then c.kv_spills + 1 else c.kv_spills;
  }

  unfoldable pub keep_latencies : RequestResult F → Latencies F → Latencies F
  keep_latencies result l = record {
    ttft_ms = l.ttft_ms ++ result.ttft_ms ∷ [];
    tpot_ms = l.tpot_ms ++ result.tpot_ms ∷ [];
    total_ms = l.total_ms ++ result.total_latency_ms ∷ [];
    queue_wait_ms = l.queue_wait_ms ++ result.queue_wait_ms ∷ [];
  }

  unfoldable pub record_result : RequestResult F → Tracer F → Tracer F
  unfolding record_event count_completed keep_latencies
  record_result result t =
      if result.rejected
      then record_event request_rejected result.request_id none t
      else if result.success
      then (let t' = record_event request_completed result.request_id result.gpu_node_id t in
          record t' {
            counters = count_completed result t'.counters;
            latencies = keep_latencies result t'.latencies;
          })
      else record_event request_failed result.request_id result.gpu_node_id t

  unfoldable pub reset : Tracer F → Tracer F
  reset t = record t { events = []; counters = zero_counters; latencies = no_latencies }

module _ {F : Type 0} ⦃fl : Float F⦄ where
  unfoldable pub cache_hit_rate : Tracer F → F
  unfolding ratio
  cache_hit_rate t =
      ratio t.counters.kv_cache_hits (t.counters.kv_cache_hits + t.counters.kv_cache_misses)
