-- ===== src/Samples/SchedulerRuns.antt =====
-- The schedulers on two nodes, of which the first has too few free blocks.
use dynamo_serve.Base.{
  String, ℕ, suc, ◌+◌, ◌<◌, ◌≡◌, refl, true, false, [], none, some, lookup, arith, get_or,
  string_eq, insert, inl, get_elem?,
}
use dynamo_serve.Base.Int.{ℤ, pos}
use dynamo_serve.Float.Fixed.{fixed_float, fixed_laws}
use dynamo_serve.Models.Node
use dynamo_serve.Models.Node.{Node, can_fit, kv_blocks_free}
use dynamo_serve.Models.Request.{Request, batch, kv_blocks_needed, estimated_memory_gb}
use dynamo_serve.Cache.Policy.{lru}
use dynamo_serve.Cache.Manager
use dynamo_serve.Sla
use dynamo_serve.Sla.{default_budgets}
use dynamo_serve.Scheduler.Base.{SchedulingResult, fits, allocate_at, rejected_with, no_placement}
use dynamo_serve.Scheduler.RoundRobin
use dynamo_serve.Scheduler.RoundRobin.{RoundRobin}
use dynamo_serve.Scheduler.RoundRobin.Search.{position}
use dynamo_serve.Scheduler.RoundRobin.Promises.{schedule-accepts, schedule-first, schedule-rejects}
use dynamo_serve.Scheduler.Greedy.{least_loaded}
use dynamo_serve.Scheduler.Greedy.Choice.{Answer, NoMoreLoaded, least_loaded_lem}
use dynamo_serve.Scheduler.KvAware.Bookings.{schedule-Books, schedule-SameBooks}
use dynamo_serve.Scheduler.KvAware.{update_node, KvAware, schedule, on_complete}
use dynamo_serve.Scheduler.KvAware.Preemption.{
  start, next, scheduled, completed, Run-preempts_nothing,
}
use dynamo_serve.Scheduler.KvAware.Pins.{IsHeld}
use dynamo_serve.Samples.Data.{clock, node_with, two_nodes, request_of, shared, new_manager}

abbrev robin : RoundRobin ℤ
robin = record { nodes = two_nodes; cycle = 0; counter = 0 }

abbrev robin_after : RoundRobin ℤ
robin_after = (RoundRobin.schedule shared robin).0

robin_accepts : (RoundRobin.schedule shared robin).1.accepted ≡ true
unfolding RoundRobin.schedule
robin_accepts = refl

schedule-accepts_example :
    (turn : ℕ) × (node : Node ℤ) × (turn < 2)
    × (get_elem? two_nodes (position robin turn) ≡ some node)
    × (fits shared node ≡ true)
    × ((RoundRobin.schedule shared robin).1.node_id ≡ some node.node_id)
    × (robin_after.nodes ≡ allocate_at shared (position robin turn) two_nodes)
    × (robin_after.counter ≡ 0 + suc turn)
schedule-accepts_example = schedule-accepts shared robin (inl (omega arith)) robin_accepts

robin_second : 0 + 1 < robin_after.counter
unfolding RoundRobin.schedule
robin_second = omega arith

robin_first : get_elem? two_nodes (position robin 0) ≡ some (node_with "a" 2)
unfolding position
robin_first = refl

schedule-first_example : fits shared (node_with "a" 2) ≡ false
schedule-first_example =
    schedule-first shared robin 0 (node_with "a" 2) (inl (omega arith)) robin_second robin_first

abbrev large : Request ℤ
large = record (request_of batch "l" none) { prompt_tokens = 52 }

robin_refuses : (RoundRobin.schedule large robin).1.accepted ≡ false
unfolding RoundRobin.schedule
robin_refuses = refl

schedule-rejects_example : fits large (node_with "b" 0) ≡ false
schedule-rejects_example =
    schedule-rejects large robin 1 (node_with "b" 0) (inl (omega arith)) robin_refuses refl

least_loaded_lem_example : Answer NoMoreLoaded shared two_nodes (least_loaded shared two_nodes)
least_loaded_lem_example = least_loaded_lem fixed_laws shared two_nodes

abbrev aware : KvAware ℤ
aware = record {
  nodes = two_nodes;
  kv_manager = new_manager;
  sla_policy = Sla.init default_budgets;
  admission = record {
    max_queue = 512;
    spill_model = none;
    mem_reject_thr = pos 950_000;
    mem_queue_thr = pos 850_000;
    compute_reject_thr = pos 950_000;
    pending = [];
    total_accepted = 0;
    total_queued = 0;
    total_rejected = 0;
  };
  predict_ttft = none;
  preemption_enabled = true;
  inflight = [];
  sla_counters = λ c. 0;
  total_scheduled = 0;
  total_preempted = 0;
}

abbrev aware_placed : KvAware ℤ × SchedulingResult ℤ
aware_placed =
    get_or (schedule clock (pos 0) shared aware) (aware, rejected_with shared no_placement)

aware_schedules : schedule clock (pos 0) shared aware ≡ some aware_placed
unfolding schedule lookup Manager.init insert
aware_schedules = refl

abbrev aware_done : KvAware ℤ
aware_done = get_or (on_complete clock (λ n. pos 0) shared "b" aware_placed.0) aware

aware_completes : on_complete clock (λ n. pos 0) shared "b" aware_placed.0 ≡ some aware_done
unfolding schedule on_complete lookup Manager.init insert
aware_completes = refl

Run-preempts_nothing_example : (aware_done.total_preempted ≡ 0) × IsHeld aware_done.kv_manager.heap
Run-preempts_nothing_example =
    Run-preempts_nothing clock two_nodes 16 (lru []) aware aware_done refl (
      next (next start (scheduled (pos 0) shared aware_placed.1 aware_schedules))
        (completed (λ n. pos 0) shared "b" aware_completes))

accepts_shared : aware_placed.1.accepted ≡ true
unfolding schedule lookup Manager.init insert
accepts_shared = refl

schedule-Books_example :
    (node_id : String) × (aware_placed.1.node_id ≡ some node_id)
    × (lookup "r" aware_placed.0.inflight
        ≡ some (node_id, kv_blocks_needed shared, estimated_memory_gb shared))
    × (update_node node_id
          (λ n. Node.allocate n (kv_blocks_needed shared) (estimated_memory_gb shared))
          two_nodes
        ≡ some aware_placed.0.nodes)
    × (aware_placed.0.total_scheduled ≡ 0 + 1)
schedule-Books_example =
    schedule-Books clock (pos 0) shared aware aware_placed.0 aware_placed.1 aware_schedules
      accepts_shared

abbrev aware_waits : KvAware ℤ × SchedulingResult ℤ
aware_waits = get_or (schedule clock (pos 0) large aware) (aware, rejected_with large no_placement)

aware_queues : schedule clock (pos 0) large aware ≡ some aware_waits
unfolding schedule lookup Manager.init insert
aware_queues = refl

refuses_large : aware_waits.1.accepted ≡ false
unfolding schedule lookup Manager.init insert
refuses_large = refl

schedule-SameBooks_example :
    (aware_waits.0.nodes ≡ two_nodes)
    × (aware_waits.0.inflight ≡ [])
    × (aware_waits.0.total_scheduled ≡ 0)
schedule-SameBooks_example =
    schedule-SameBooks clock (pos 0) large aware aware_waits.0 aware_waits.1 aware_queues
      refuses_large
