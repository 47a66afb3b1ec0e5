-- ===== src/Scheduler/KvAware.antt =====
-- control_plane/scheduler/kv_aware_scheduler.py: the pipeline of admission, placement, KV blocks and
-- node, and preemption. A method that can raise returns an option. The scheduler, its admission
-- controller and its placement engine share the nodes and the KV cache manager, which stand once in
-- the state. Node ids are distinct, as the dictionaries of the source take for granted.
pub mod Shapes
pub mod Pins
pub mod Preemption
pub mod Bookings
use dynamo_serve.Base.{
  ℕ, zero, suc, ◌+◌, Bool, true, false, ◌&&◌, not, if◌then◌else◌, leb, ltb, String, List, [], ◌∷◌,
  Option, none, some, ◌>>=◌, Dict, lookup, insert, delete, modify, best, ◌==◌, string_eq,
}
use dynamo_serve.Float.{Float}
use dynamo_serve.Models.Node
use dynamo_serve.Models.Node.{Node, memory_pressure}
use dynamo_serve.Models.Request.{SlaClass, realtime, Request, kv_blocks_needed, estimated_memory_gb}
use dynamo_serve.Cache.Manager.{Manager}
use dynamo_serve.Cache.Eviction.{force_evict}
use dynamo_serve.Cache.Allocation.{allocate, free}
use dynamo_serve.Sla.{SlaPolicy, same_class}
use dynamo_serve.Admission.{Controller, Decision, accept, queue, reject, decide, pop_queued}
use dynamo_serve.Placement.{Placement, Engine, place}
use dynamo_serve.Scheduler.Base.{
  SchedulingResult, none_given, no_placement, refused, queued, rejected_with,
}

pub record KvAware (F : Type 0) : Type 0 where
  pub nodes : List (Node F)
  pub kv_manager : Manager F
  pub sla_policy : SlaPolicy F
  pub admission : Controller F
  -- the latency predictor, where `use_ml` is set and there is one
  pub predict_ttft : Option (Request F → Node F → F)
  pub preemption_enabled : Bool
  -- request id -> node id, KV blocks, memory
  pub inflight : Dict String (String × ℕ × F)
  pub sla_counters : SlaClass → ℕ
  pub total_scheduled : ℕ
  pub total_preempted : ℕ

module _ {F : Type 0} where
  -- `_node_map[node_id].f()`: the last node with the id.
  unfoldable pub update_node : String → (Node F → Node F) → List (Node F) → Option (List (Node F))
  update_node node_id f [] = none
  update_node node_id f (n ∷ ns) = elim (update_node node_id f ns) [
    | some ns' ↦ some (n ∷ ns')
    | none ↦ if n.node_id == node_id then some (f n ∷ ns) else none
  ]

module _ {F : Type 0} ⦃fl : Float F⦄ where
  open fl use {lt}

  unfoldable pub engine : KvAware F → Engine F
  engine s = record { kv_manager = some s.kv_manager; predict_ttft = s.predict_ttft }

  unfoldable pub most_loaded_node : List (Node F) → Option (Node F)
  unfolding memory_pressure
  most_loaded_node = best (λ a b. lt (memory_pressure b) (memory_pressure a))

  module _ (monotonic : ℕ → F) where
    -- `_try_preempt_for`; the result says if it freed enough blocks.
    unfoldable pub try_preempt_for : Request F → KvAware F → Option (KvAware F × Bool)
    unfolding same_class most_loaded_node force_evict kv_blocks_needed
    try_preempt_for request s =
        if not s.preemption_enabled
        then some (s, false)
        else if not (same_class request.sla_class realtime)
        then some (s, false)
        else elim s.inflight [
          | [] ↦ some (s, false)
          | _ ∷ _ ↦ do
            target ← most_loaded_node s.nodes
            (m, evicted) ←
                force_evict monotonic target.node_id (kv_blocks_needed request) s.kv_manager
            some (
              record s {
                kv_manager = m;
                total_preempted =
                    if ltb 0 evicted then s.total_preempted + 1 else s.total_preempted;
              },
              leb (kv_blocks_needed request) evicted,
            )
        ]

    -- Step 2: the placement, tried again after a preemption that freed enough.
    unfoldable pub find_placement :
        Request F → KvAware F → Option (KvAware F × Option (Placement F))
    unfolding try_preempt_for engine place
    find_placement request s = do
      first ← place (engine s) request s.nodes
      elim first [
        | some d ↦ some (s, some d)
        | none ↦ do
          (s', evicted) ← try_preempt_for request s
          if evicted
              then place (engine s') request s'.nodes >>= (λ second. some (s', second))
              else some (s', none)
      ]

    -- Steps 3 and 4: the KV blocks, the node and the records of the scheduler.
    unfoldable pub commit :
        Request F → Placement F → KvAware F → Option (KvAware F × SchedulingResult F)
    unfolding allocate Node.allocate kv_blocks_needed estimated_memory_gb update_node same_class
    commit request d s = do
      (m, _, _) ← allocate monotonic d.node_id request s.kv_manager
      nodes ←
          update_node d.node_id
            (λ n. Node.allocate n (kv_blocks_needed request) (estimated_memory_gb request)) s.nodes
      some (
        record s {
          nodes = nodes;
          kv_manager = m;
          inflight =
              insert request.request_id
                (d.node_id, kv_blocks_needed request, estimated_memory_gb request) s.inflight;
          sla_counters = λ c.
              if same_class request.sla_class c then s.sla_counters c + 1 else s.sla_counters c;
          total_scheduled = s.total_scheduled + 1;
        },
        record {
          request_id = request.request_id;
          node_id = some d.node_id;
          accepted = true;
          rejection_reason = none_given;
          estimated_ttft_ms = d.estimated_ttft_ms;
        },
      )

    -- What follows an ACCEPT.
    unfoldable pub dispatch : Request F → KvAware F → Option (KvAware F × SchedulingResult F)
    unfolding find_placement commit
    dispatch request s = do
      (s', found) ← find_placement request s
      elim found [
        | none ↦ some (s', rejected_with request no_placement)
        | some d ↦ commit request d s'
      ]

    -- `draw` is what `random.random()` returns to the admission gate, if it asks.
    unfoldable pub schedule : F → Request F → KvAware F → Option (KvAware F × SchedulingResult F)
    unfolding decide dispatch
    schedule draw request s = do
      (c, decision, reason) ← decide draw request s.nodes s.kv_manager s.sla_policy s.admission
      let s' = record s { admission = c }
      elim decision [
        | reject ↦ some (s', rejected_with request (refused reason))
        | queue ↦ some (s', rejected_with request (queued reason))
        | accept ↦ dispatch request s'
      ]

    -- The loop of `on_complete` over the requests released; their results are dropped. `draws` are
    -- the answers of `random.random()`.
    unfoldable pub drain : (ℕ → F) → ℕ → List (Request F) → KvAware F → Option (KvAware F)
    unfolding schedule
    drain draws k [] s = some s
    drain draws k (r ∷ rs) s = do (s', _) ← schedule (draws k) r s; drain draws (k + 1) rs s'

    -- `_inflight.pop(request_id, None)`, the call of `free` with no blocks, and `node.release`. The
    -- node that the caller hands over has the id `node_id`.
    unfoldable pub finish : Request F → String → KvAware F → Option (KvAware F)
    unfolding free Node.release update_node
    finish request node_id s = elim (lookup request.request_id s.inflight) [
      | none ↦ some s
      | some (placed_on, blocks, memory_gb) ↦ do
        m ← free monotonic placed_on [] true s.kv_manager
        nodes ← update_node node_id (λ n. Node.release n blocks memory_gb) s.nodes
        some (record s {
          nodes = nodes;
          kv_manager = m;
          inflight = delete request.request_id s.inflight;
        })
    ]

    unfoldable pub on_complete : (ℕ → F) → Request F → String → KvAware F → Option (KvAware F)
    unfolding finish pop_queued drain
    on_complete draws request node_id s = do
      s' ← finish request node_id s
      let (c, released) = pop_queued 16 s'.nodes s'.admission
      drain draws 0 released (record s' { admission = c })

    -- `on_fail`, where the caller hands over a node, or none.
    unfoldable pub on_fail : Request F → Option String → KvAware F → Option (KvAware F)
    unfolding Node.release update_node
    on_fail request node s = elim (lookup request.request_id s.inflight) [
      | none ↦ some s
      | some (placed_on, blocks, memory_gb) ↦ elim node [
        | none ↦ some (record s { inflight = delete request.request_id s.inflight })
        | some node_id ↦ do
          nodes ← update_node node_id (λ n. Node.release n blocks memory_gb) s.nodes
          some (record s { nodes = nodes; inflight = delete request.request_id s.inflight })
      ]
    ]
