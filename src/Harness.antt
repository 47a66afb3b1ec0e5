-- ===== src/Harness.antt =====
-- benchmarks/harness.py. The scheduler and the KV cache manager share their objects with the harness,
-- so that they are one world, behind the calls that the harness makes. What numpy computes of a list of
-- floats is a parameter: a mean, a percentile and a sum. A KeyError or an exception of a call ends the
-- run without a result. The text of a refusal, which only the report shows, is left out.
pub mod World
mod Metrics
unfoldable pub use Metrics.*
pub mod Totals
pub mod RoundRobin
use dynamo_serve.Base.{
  ℕ, ◌+◌, ◌&&◌, not, ◌-◌, ◌*◌, ◌%◌, max, Bool, true, false, ◌&&◌, ◌||◌, not, if◌then◌else◌, eqb,
  ltb, String, List, [], ◌∷◌, ◌++◌, length, select, map, Option, none, some, ◌>>=◌,
}
use dynamo_serve.Float.{Float}
use dynamo_serve.Models.Node.{Node, compute_utilization, memory_pressure}
use dynamo_serve.Models.Request.{Request, kv_blocks_needed}
use dynamo_serve.Models.Outcome.{RequestResult, total_tokens, tokens_per_second}
use dynamo_serve.Models.Block.{ratio}
use dynamo_serve.Sla.{SlaPolicy, check_result}
use dynamo_serve.Scheduler.Base.{SchedulingResult}
use dynamo_serve.Tracer
use dynamo_serve.Tracer.{Tracer, request_arrived, record_event, record_result}
use dynamo_serve.Contention
use dynamo_serve.Contention.{ContentionFactors}
use dynamo_serve.Runtime.{execute, total_of, can_run, has_memory}
use dynamo_serve.Moe.{all_of}
use World.{Serving, find_node}

-- What the loop of `run` works on.
pub record Progress (F W : Type 0) : Type 0 where
  pub world : W
  pub tracer : Tracer F
  pub policy : SlaPolicy F
  pub draws : ℕ
  pub results : List (RequestResult F)
  pub utilizations : List F
  pub pressures : List F

module _ {F : Type 0} ⦃fl : Float F⦄ where
  open fl use {of_nat, decimal, add, mul, div, lt, le}

  -- The result of a request that is refused or queued.
  unfoldable pub refused_result : Request F → RequestResult F
  refused_result request = record {
    request_id = request.request_id;
    success = false;
    rejected = true;
    ttft_ms = of_nat 0;
    tpot_ms = of_nat 0;
    total_latency_ms = of_nat 0;
    queue_wait_ms = of_nat 0;
    prompt_tokens = request.prompt_tokens;
    output_tokens = 0;
    gpu_node_id = none;
    kv_blocks_allocated = 0;
    kv_cache_hit = false;
    kv_spilled = false;
    cost_per_1m_tokens = of_nat 0;
  }

  -- The contention put on a result.
  unfoldable pub adjust : ContentionFactors F → RequestResult F → RequestResult F
  unfolding Contention.apply
  adjust factors result =
      let (ttft, tpot) = Contention.apply factors result.ttft_ms result.tpot_ms in
      record result {
        ttft_ms = ttft;
        tpot_ms = tpot;
        total_latency_ms = total_of ttft tpot result.output_tokens result.queue_wait_ms;
      }

module _ {F W : Type 0} ⦃fl : Float F⦄ (ops : Serving F W) (gauss : ℕ → F → F → F) (now : ℕ → F)
    (power : F → F → F) (mean : List F → F) where
  open fl use {of_nat}

  unfoldable pub refuse : Request F → W → Progress F W → Progress F W
  unfolding refused_result record_result
  refuse request w s = record s {
    world = w;
    tracer = record_result (refused_result request) s.tracer;
    results = s.results ++ refused_result request ∷ [];
  }

  -- The execution of a request on its node, with the KV blocks that it got.
  unfoldable pub perform : Request F → Node F → ℕ → Bool → ℕ → RequestResult F
  unfolding adjust execute Contention.compute kv_blocks_needed
  perform request n blocks hit draw =
      adjust
        (Contention.compute power n n.active_requests (kv_blocks_needed request - blocks)
          (of_nat 0))
        (execute gauss now request n blocks hit draw)

  -- The end of a round that executed: the books, and a snapshot with every fiftieth result.
  unfoldable pub settle : RequestResult F → SlaPolicy F → W → Progress F W → Progress F W
  unfolding record_result compute_utilization memory_pressure
  settle result policy w s =
      let results = s.results ++ result ∷ [] in
      let snapshot = eqb (length results % 50) 0 in
      record s {
        world = w;
        tracer = record_result result s.tracer;
        policy = policy;
        draws = s.draws + 3;
        results = results;
        utilizations =
            if snapshot
            then s.utilizations ++ mean (map compute_utilization (ops.nodes w)) ∷ []
            else s.utilizations;
        pressures =
            if snapshot
            then s.pressures ++ mean (map memory_pressure (ops.nodes w)) ∷ []
            else s.pressures;
      }

  -- `execute` raises ZeroDivisionError on a node without compute or bandwidth.
  unfoldable pub attempt : Request F → Node F → ℕ → Bool → ℕ → Option (RequestResult F)
  unfolding perform can_run
  attempt request n blocks hit draw =
      if can_run n then some (perform request n blocks hit draw) else none

  -- A snapshot raises ZeroDivisionError where a node has no memory at all.
  unfoldable pub close_round :
      RequestResult F → SlaPolicy F → W → Progress F W → Option (Progress F W)
  unfolding settle has_memory all_of
  close_round result policy w s =
      if eqb ((length s.results + 1) % 50) 0 && not (all_of has_memory (ops.nodes w))
      then none
      else some (settle result policy w s)

  -- What follows an accepted placement on the node `node_id`.
  unfoldable pub run_on : Request F → String → W → Progress F W → Option (Progress F W)
  unfolding attempt close_round check_result find_node
  run_on request node_id w s = do
    n ← find_node node_id (ops.nodes w)
    (w₁, blocks, hit) ← ops.allocate node_id request w
    result ← attempt request n (length blocks) hit s.draws
    let (policy, _) = check_result result request.sla_class s.policy
    w₂ ← ops.free node_id blocks w₁
    w₃ ← ops.on_complete request node_id w₂
    close_round result policy w₃ s

  -- One round of the loop of `run`.
  unfoldable pub serve : Request F → Progress F W → Option (Progress F W)
  unfolding record_event run_on refuse
  serve request s =
      let arrived = record s {
        tracer = record_event request_arrived request.request_id none s.tracer;
      } in
      do
        (w, r) ← ops.schedule request s.world
        if r.accepted
            then r.node_id >>= (λ node_id. run_on request node_id w arrived)
            else some (refuse request w arrived)

  unfoldable pub serve_all : List (Request F) → Progress F W → Option (Progress F W)
  unfolding serve
  serve_all [] s = some s
  serve_all (r ∷ rs) s = do s' ← serve r s; serve_all rs s'

module _ {F : Type 0} ⦃fl : Float F⦄ (mean np_sum : List F → F) (percentile : List F → ℕ → F) where
  open fl use {of_nat, mul, div, lt}

  module _ {W : Type 0} (ops : Serving F W) (gauss : ℕ → F → F → F) (now : ℕ → F)
      (power : F → F → F) where
    -- `run`: the metrics, and the objects as the run leaves them.
    unfoldable pub run :
        List (Request F)
        → W
        → Tracer F
        → SlaPolicy F
        → ℕ
        → Option (Progress F W × SchedulerMetrics F)
    unfolding serve_all compile_metrics Tracer.reset
    run requests w tracer policy draws = do
      s ← serve_all ops gauss now power mean requests (record {
        world = w;
        tracer = Tracer.reset tracer;
        policy = policy;
        draws = draws;
        results = [];
        utilizations = [];
        pressures = [];
      })
      some (s, compile_metrics mean np_sum percentile s.results s.utilizations s.pressures)
