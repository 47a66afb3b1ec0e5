-- ===== src/Harness/RoundRobin.antt =====
-- RoundRobinScheduler and KVCacheManager behind the calls of benchmarks/harness.py: their theorems give
-- what the harness relies on.
use dynamo_serve.Base.{
  All, ℕ, ◌+◌, ◌<◌, ◌≡◌, refl, sym, ap, subst, ◌∙◌, true, String, List, length, Option, some, ◌>>=◌,
  string_eq, Elem, arith,
}
use dynamo_serve.Float.{Float}
use dynamo_serve.Models.Node
use dynamo_serve.Models.Node.{Node}
use dynamo_serve.Models.Request.{Request, kv_blocks_needed, estimated_memory_gb}
use dynamo_serve.Cache.Policy.{Policy}
use dynamo_serve.Cache.Manager
use dynamo_serve.Cache.Manager.{Manager}
use dynamo_serve.Cache.Invariant.Construction
use dynamo_serve.Sla.{SlaPolicy}
use dynamo_serve.Tracer.{Tracer}
use dynamo_serve.Harness.{Progress, SchedulerMetrics, run}
use dynamo_serve.Harness.Totals.{run-totals}
use dynamo_serve.Scheduler.RoundRobin.Promises
use dynamo_serve.Cache.Allocation
use dynamo_serve.Cache.Allocation.{free_all}
use dynamo_serve.Cache.Allocation.Nodes.{HasNode, KeepsNodes, allocate-KeepsNodes, free-KeepsNodes}
use dynamo_serve.Cache.Allocation.Nodes.Built.{init-HasNode}
use dynamo_serve.Cache.Allocation.Promises.{allocate-IsValid, free-keep}
use dynamo_serve.Cache.Invariant
use dynamo_serve.Scheduler.RoundRobin
use dynamo_serve.Scheduler.RoundRobin.{RoundRobin}
use dynamo_serve.Scheduler.RoundRobin.Search
use dynamo_serve.Scheduler.RoundRobin.Promises.{schedule-IsValid, schedule-accepts}
use dynamo_serve.Scheduler.KvAware.{update_node}
use dynamo_serve.Harness.World.Ids.{
  update_node-All, ids_of, find_node-Elem, Elem-find_node, length-ids_of, get_elem?-ids_of,
  update_node-ids, update_node-some,
}
use dynamo_serve.Harness.World.Turns.{Divides-release, search_from-ids, search_from-Divides}
use dynamo_serve.Harness.World.{Divides, Serving, ServingLaws, Serves}

-- The scheduler and the manager of one harness.
pub record Site (F : Type 0) : Type 0 where
  pub scheduler : RoundRobin F
  pub manager : Manager F

module _ {F : Type 0} ⦃fl : Float F⦄ where
  -- `on_complete` of the baselines, for the node that `_node_map` has for the id.
  unfoldable pub complete : Request F → String → Site F → Option (Site F)
  unfolding update_node Node.release kv_blocks_needed estimated_memory_gb
  complete request node_id w = do
    nodes ←
        update_node node_id
          (λ n. Node.release n (kv_blocks_needed request) (estimated_memory_gb request))
          w.scheduler.nodes
    some (record w { scheduler = record (w.scheduler) { nodes = nodes } })

module _ {F : Type 0} ⦃fl : Float F⦄ (monotonic : ℕ → F) where
  abbrev pub serving : Serving F (Site F)
  serving = record {
    nodes = λ w. w.scheduler.nodes;
    schedule = λ request w.
        let (s, r) = RoundRobin.schedule request w.scheduler in
        some (record w { scheduler = s }, r);
    on_complete = complete;
    allocate = λ node_id request w. do
      (m, blocks, hit) ← Allocation.allocate monotonic node_id request w.manager
      some (record w { manager = m }, blocks, hit);
    free = λ node_id blocks w. do
      m ← Allocation.free monotonic node_id blocks true w.manager
      some (record w { manager = m });
  }

-- The scheduler's cycle and the manager are valid, no node has a zero to divide by, and the manager
-- knows the scheduler's nodes.
pub record IsSiteValid {F : Type 0} ⦃fl : Float F⦄ (w : Site F) : Type 0 where
  pub cycle : Search.IsValid w.scheduler
  pub cache : Invariant.IsValid w.manager
  pub divides : All Divides w.scheduler.nodes
  pub known : (a : String) → Elem a (ids_of w.scheduler.nodes) → HasNode a w.manager

module _ {F : Type 0} ⦃fl : Float F⦄ (monotonic : ℕ → F) where
  abbrev Stays : Site F → String → Site F → Type 0
  Stays w node_id w' = IsSiteValid w' × Serves (serving monotonic) w' node_id

  -- The place of a node with a manager that keeps what the other knew.
  with_manager :
      (w : Site F) (node_id : String) (m : Manager F)
      → IsSiteValid w
      → Serves (serving monotonic) w node_id
      → Invariant.IsValid m
      → KeepsNodes w.manager m
      → Stays w node_id (record w { manager = m })
  with_manager w node_id m v k valid keeps = (
    record {
      cycle = v.cycle;
      cache = valid;
      divides = v.divides;
      known = λ a e. keeps a (v.known a e);
    },
    k,
  )

  site_schedules :
      (request : Request F) (w : Site F)
      → IsSiteValid w
      → let (s, r) = RoundRobin.schedule request w.scheduler in
        IsSiteValid (record w { scheduler = s })
        × (r.accepted ≡ true
            → (node_id : String) × (r.node_id ≡ some node_id)
              × Serves (serving monotonic) (record w { scheduler = s }) node_id)
  unfolding RoundRobin.schedule
  site_schedules request w v =
      let same = search_from-ids (length w.scheduler.nodes) request w.scheduler in
      (
        record {
          cycle = schedule-IsValid request w.scheduler v.cycle;
          cache = v.cache;
          divides = search_from-Divides (length w.scheduler.nodes) request w.scheduler v.divides;
          known = λ a e. v.known a (subst (Elem a) same e);
        },
        λ accepted.
            let (turn, node, _, here, _, named, _, _) =
              schedule-accepts request w.scheduler v.cycle accepted in
            (
              node.node_id,
              named,
              Elem-find_node node.node_id _ (
                  subst (Elem node.node_id) (sym same) (get_elem?-ids_of w.scheduler.nodes _ here)),
            ),
      )

  cycle-ids :
      (w : Site F) (ns : List (Node F))
      → Search.IsValid w.scheduler
      → length ns ≡ length w.scheduler.nodes
      → Search.IsValid (record (w.scheduler) { nodes = ns })
  cycle-ids w ns v e = ground (arith, v, e)

  site_completes :
      (request : Request F) (node_id : String) (w : Site F)
      → IsSiteValid w
      → Serves (serving monotonic) w node_id
      → (w' : Site F) × (complete request node_id w ≡ some w')
        × IsSiteValid w'
        × Serves (serving monotonic) w' node_id
  unfolding complete
  site_completes request node_id w v (n, k) =
      let f =
        λ (n : Node F). Node.release n (kv_blocks_needed request) (estimated_memory_gb request) in
      let here = find_node-Elem node_id w.scheduler.nodes k in
      let (ns, e) = update_node-some node_id f w.scheduler.nodes here in
      let same = update_node-ids node_id f w.scheduler.nodes (λ n. refl) e in
      (
        record w { scheduler = record (w.scheduler) { nodes = ns } },
        rw e refl,
        record {
          cycle =
              cycle-ids w ns v.cycle
                (length-ids_of ns ∙ ap length same ∙ sym (length-ids_of w.scheduler.nodes));
          cache = v.cache;
          divides =
              update_node-All Divides node_id f w.scheduler.nodes (λ m. Divides-release m _ _) e
                v.divides;
          known = λ a m. v.known a (subst (Elem a) same m);
        },
        Elem-find_node node_id ns (subst (Elem node_id) (sym same) here),
      )

  pub serving_laws : ServingLaws (serving monotonic) IsSiteValid
  serving_laws = record {
    divides = λ w v. v.divides;
    schedules = λ request w v.
        let (valid, accepts) = site_schedules request w v in (_, _, refl, valid, accepts);
    allocates = λ request node_id w v k.
        let h = v.known node_id (find_node-Elem node_id w.scheduler.nodes k.1) in
        let (m, blocks, hit, e, valid) =
          allocate-IsValid monotonic node_id h.ids h.counts w.manager request v.cache h.listed
            h.found in
        let keeps = allocate-KeepsNodes monotonic node_id request w.manager e in
        let (site, there) = with_manager w node_id m v k valid keeps in
        (record w { manager = m }, blocks, hit, rw e refl, site, there);
    frees = λ node_id blocks w v k.
        let h = v.known node_id (find_node-Elem node_id w.scheduler.nodes k.1) in
        let (m, e, valid, _) =
          free-keep monotonic node_id h.ids h.counts w.manager blocks v.cache h.listed h.found in
        let keeps = free-KeepsNodes monotonic node_id blocks w.manager e in
        let (site, there) = with_manager w node_id m v k valid keeps in
        (record w { manager = m }, rw e refl, site, there);
    completes = λ request node_id w v k. site_completes request node_id w v k;
  }

  -- RoundRobinScheduler and KVCacheManager, built for the same nodes.
  unfoldable pub new_site : List (Node F) → ℕ → Policy F → Site F
  unfolding RoundRobin.init Manager.init
  new_site nodes block_size policy = record {
    scheduler = RoundRobin.init nodes;
    manager = Manager.init monotonic nodes block_size policy;
  }

  pub new_site-IsSiteValid :
      (nodes : List (Node F)) (block_size : ℕ) (policy : Policy F)
      → 0 < block_size
      → All Divides nodes
      → IsSiteValid (new_site nodes block_size policy)
  unfolding new_site RoundRobin.init
  new_site-IsSiteValid nodes block_size policy h powered = record {
    cycle = Promises.init-IsValid nodes;
    cache = Construction.init-IsValid monotonic nodes block_size policy h;
    divides = powered;
    known = λ a e. init-HasNode monotonic nodes block_size policy a e;
  }

  -- A benchmark of the round-robin scheduler on new objects comes to its end, where the block size
  -- is positive and no node has a zero that the harness divides by (compute, bandwidth or memory),
  -- whatever the eviction policy, the random numbers and the requests: it raises nothing and
  -- returns metrics that count every request once, as completed or as rejected.
  pub round_robin-run :
      (gauss : ℕ → F → F → F) (now : ℕ → F) (power : F → F → F) (mean np_sum : List F → F)
      (percentile : List F → ℕ → F) (nodes : List (Node F)) (block_size : ℕ) (policy : Policy F)
      (sla : SlaPolicy F) (tracer : Tracer F) (requests : List (Request F))
      → 0 < block_size
      → All Divides nodes
      → (s : Progress F (Site F)) × (m : SchedulerMetrics F) × (run mean np_sum percentile
            (serving monotonic)
            gauss
            now
            power
            requests
            (new_site nodes block_size policy)
            tracer
            sla
            0
          ≡ some (s, m))
        × IsSiteValid s.world
        × (m.completed_requests + m.rejected_requests ≡ length requests)
  round_robin-run gauss now power mean np_sum percentile nodes block_size policy sla tracer requests
        h powered =
      let (s, m, e, v, _, split, _, _, _, _) =
        run-totals (serving monotonic) gauss now power mean np_sum percentile IsSiteValid
          serving_laws requests (new_site nodes block_size policy) tracer sla 0
          (new_site-IsSiteValid nodes block_size policy h powered) in
      (s, m, e, v, split)
