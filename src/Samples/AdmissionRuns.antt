-- ===== src/Samples/AdmissionRuns.antt =====
-- The SLA policy, the admission controller and the placement engine on two nodes.
use dynamo_serve.Base.{
  ◌+◌, ◌≡◌, refl, true, false, List, [], ◌∷◌, none, some, lookup, arith, get_or, string_eq, insert,
  Elem, if◌then◌else◌, ◌⊎◌, All,
}
use dynamo_serve.Base.Int.{ℤ, pos, ◌≤ℤ◌}
use dynamo_serve.Float.{Float}
use dynamo_serve.Float.Fixed.{fixed_float, fixed_laws}
use dynamo_serve.Models.Node.{Node}
use dynamo_serve.Models.Request.{Request, batch, kv_blocks_needed}
use dynamo_serve.Models.Outcome.{RequestResult}
use dynamo_serve.Cache.Manager
use dynamo_serve.Cache.Manager.{Manager, free_blocks}
use dynamo_serve.Sla
use dynamo_serve.Sla.{
  SlaPolicy, Reason, no_reason, ok, no_kv_headroom, cluster_memory_pressure, default_budgets,
  should_reject_at_load, check_result, is_met,
}
use dynamo_serve.Sla.Gate.{should_reject_at_load-interactive}
use dynamo_serve.Admission.{
  Controller, accept, queue, reject, decide, pop_queued, cluster_pressure, cluster_load,
}
use dynamo_serve.Admission.Accounting.{settle, decide-settle, decide-IsBounded, IsBounded}
use dynamo_serve.Admission.Decisions.{decide_accept}
use dynamo_serve.Admission.Queue.{pop_queued_lem}
use dynamo_serve.Placement.{Placement, Engine, place, score_node}
use dynamo_serve.Placement.Ranking.{place_lem, fits}
use dynamo_serve.Samples.Data.{node_with, two_nodes, request_of, shared, new_manager}

abbrev policy : SlaPolicy ℤ
policy = Sla.init default_budgets

abbrev controller : List (Request ℤ) → Controller ℤ
controller pending = record {
  max_queue = 1;
  spill_model = none;
  mem_reject_thr = pos 950_000;
  mem_queue_thr = pos 850_000;
  compute_reject_thr = pos 950_000;
  pending = pending;
  total_accepted = 0;
  total_queued = 0;
  total_rejected = 0;
}

abbrev waiting : Request ℤ
waiting = request_of batch "w" none

-- A request for four blocks, more than a node has.
abbrev large : Request ℤ
large = record waiting { prompt_tokens = 52 }

abbrev accepted_controller : Controller ℤ
accepted_controller = record (controller []) { total_accepted = 1 }

accepts :
    decide (pos 0) shared two_nodes new_manager policy (controller [])
    ≡ some (accepted_controller, accept, ok)
unfolding decide lookup Manager.init insert
accepts = refl

queues :
    decide (pos 0) large two_nodes new_manager policy (controller [])
    ≡ some (record (controller (large ∷ [])) { total_queued = 1 }, queue, no_kv_headroom)
unfolding decide lookup Manager.init insert
queues = refl

decide-settle_example :
    record (controller (large ∷ [])) { total_queued = 1 } ≡ settle queue large (controller [])
decide-settle_example =
    decide-settle large two_nodes new_manager (controller []) (pos 0) policy _ queue no_kv_headroom
      queues

decide-IsBounded_example :
    IsBounded (record (controller (large ∷ [])) { total_queued = 1 }) × (0 + 1 + 0 ≡ 0 + 0 + 0 + 1)
decide-IsBounded_example =
    decide-IsBounded (pos 0) large two_nodes new_manager policy (controller []) _ queue
      no_kv_headroom queues (omega arith)

decide_accept_example :
    ((should_reject_at_load shared
        (cluster_load two_nodes)
        (cluster_pressure two_nodes)
        (pos 0)
        policy).0
      ≡ false)
    × (Float.le fixed_float (pos 950_000) (cluster_pressure two_nodes) ≡ false)
    × ((n : Node ℤ) × (free : ℤ) × Elem n two_nodes
        × (free_blocks n.node_id new_manager ≡ some free)
        × (pos (kv_blocks_needed shared) ≤ℤ free))
decide_accept_example =
    decide_accept shared two_nodes new_manager (controller []) accepted_controller ok (pos 0) policy
      accepts

abbrev full_nodes : List (Node ℤ)
full_nodes = record (node_with "a" 0) { used_memory_gb = pos 24_000_000 } ∷ []

rejects :
    decide (pos 0) waiting full_nodes new_manager policy (controller [])
    ≡ some (
      record (controller []) { total_rejected = 1 },
      reject,
      cluster_memory_pressure (pos 1_000_000),
    )
unfolding decide
rejects = refl

pop_queued_lem_example : pop_queued 16 two_nodes (controller (waiting ∷ [])) ≡ (
    if Float.lt fixed_float (cluster_pressure two_nodes) (pos 850_000)
    then (record (controller []) { total_accepted = 1 }, waiting ∷ [])
    else (controller (waiting ∷ []), []))
pop_queued_lem_example = pop_queued_lem 16 two_nodes (controller (waiting ∷ []))

abbrev engine_a : Engine ℤ
engine_a = record { kv_manager = some new_manager; predict_ttft = none }

abbrev decision_b : Placement ℤ
decision_b =
    get_or (get_or (place engine_a shared two_nodes) none)
      (record { node_id = ""; score = pos 0; estimated_ttft_ms = pos 0; nvlink_path = false })

places : place engine_a shared two_nodes ≡ some (some decision_b)
unfolding place lookup Manager.init insert
places = refl

abbrev slow_result : RequestResult ℤ
slow_result = record {
  request_id = "r";
  success = true;
  rejected = false;
  ttft_ms = pos 100_000_000;
  tpot_ms = pos 10_000_000;
  total_latency_ms = pos 6_000_000_000;
  queue_wait_ms = pos 0;
  prompt_tokens = 20;
  output_tokens = 12;
  gpu_node_id = some "a";
  kv_blocks_allocated = 2;
  kv_cache_hit = false;
  kv_spilled = false;
  cost_per_1m_tokens = pos 0;
}

should_reject_at_load-interactive_example :
    (should_reject_at_load shared (pos 1_000_000) (pos 960_000) (pos 0) policy).0
    ≡ Float.lt fixed_float (pos 950_000) (pos 960_000)
should_reject_at_load-interactive_example =
    should_reject_at_load-interactive fixed_laws shared (pos 1_000_000) (pos 960_000) (pos 0) refl

place_lem_example :
    ((n : Node ℤ) × Elem n two_nodes
      × (fits engine_a shared n ≡ true)
      × (decision_b.node_id ≡ n.node_id))
    × All
        (λ n.
          (fits engine_a shared n ≡ false)
          ⊎ ((d : Placement ℤ) × (score_node engine_a shared n ≡ some (some d))
              × (Float.le fixed_float d.score decision_b.score ≡ true)))
        two_nodes
place_lem_example = place_lem engine_a shared fixed_laws two_nodes decision_b places
