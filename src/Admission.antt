-- ===== src/Admission.antt =====
-- control_plane/admission_controller/admission_controller.py. The nodes are shared with the rest of
-- the system, so a method takes them as they stand when it is called.
pub mod Accounting
pub mod Decisions
pub mod Queue
use dynamo_serve.Base.{
  ℕ, suc, ◌+◌, Bool, true, false, not, ◌&&◌, if◌then◌else◌, ltb, leb, String, List, [], ◌∷◌, ◌++◌,
  length, Option, none, some, ◌>>=◌,
}
use dynamo_serve.Base.Int.{ℤ, pos, pos_part, neg_part}
use dynamo_serve.Float.{Float}
use dynamo_serve.Models.Node.{Node, compute_utilization, memory_pressure as node_memory_pressure}
use dynamo_serve.Models.Request.{SlaClass, batch, Request, kv_blocks_needed}
use dynamo_serve.Cache.Manager.{Manager, free_blocks}
use dynamo_serve.Sla.{
  SlaPolicy, Reason, ok, compute_saturated, no_kv_headroom, cluster_memory_pressure, ml_spill_risk,
  memory_pressure, same_class, should_reject_at_load,
}

pub data Decision : Type 0 where
  accept queue reject : Decision

pub record Controller (F : Type 0) : Type 0 where
  pub max_queue : ℕ
  -- the spill model, where `use_ml_model` is set and there is one
  pub spill_model : Option (Request F → List (Node F) → F)
  pub mem_reject_thr : F
  pub mem_queue_thr : F
  pub compute_reject_thr : F
  pub pending : List (Request F)
  pub total_accepted : ℕ
  pub total_queued : ℕ
  pub total_rejected : ℕ

abbrev pub Outcome : Type 0 → Type 0
Outcome F = Controller F × Decision × Reason F

module _ {F : Type 0} where
  unfoldable pub enqueue : Request F → Controller F → Controller F
  enqueue request c =
      if leb c.max_queue (length c.pending)
      then record c { total_rejected = c.total_rejected + 1 }
      else record c { pending = c.pending ++ request ∷ []; total_queued = c.total_queued + 1 }

  unfoldable pub refuse : Reason F → Controller F → Outcome F
  refuse reason c = (record c { total_rejected = c.total_rejected + 1 }, reject, reason)

  -- `_enqueue(request); return QUEUE, reason`
  unfoldable pub defer : Request F → Reason F → Controller F → Outcome F
  unfolding enqueue
  defer request reason c = (enqueue request c, queue, reason)

  unfoldable pub admit : Controller F → Outcome F
  admit c = (record c { total_accepted = c.total_accepted + 1 }, accept, ok)

  unfoldable pub is_batch : Request F → Bool
  unfolding same_class
  is_batch request = same_class request.sla_class batch

  -- `any(free_blocks(nid) >= blocks_needed for nid in nodes)`; a node that the KV cache manager does
  -- not know raises.
  unfoldable pub any_free : ℕ → Manager F → List (Node F) → Option Bool
  unfolding free_blocks
  any_free needed m [] = some false
  any_free needed m (n ∷ ns) = do
    free ← free_blocks n.node_id m
    if leb (needed + neg_part free) (pos_part free) then some true else any_free needed m ns

module _ {F : Type 0} ⦃fl : Float F⦄ where
  open fl use {of_nat, decimal, add, div, lt, le}

  -- `sum(f(n) for n in nodes)`
  unfoldable pub sum_over : (Node F → F) → F → List (Node F) → F
  sum_over f acc [] = acc
  sum_over f acc (n ∷ ns) = sum_over f (add acc (f n)) ns

  unfoldable pub mean_over : (Node F → F) → List (Node F) → F
  unfolding sum_over
  mean_over f [] = of_nat 0
  mean_over f (n ∷ ns) = div (sum_over f (of_nat 0) (n ∷ ns)) (of_nat (length (n ∷ ns)))

  unfoldable pub cluster_load : List (Node F) → F
  unfolding mean_over compute_utilization
  cluster_load = mean_over compute_utilization

  unfoldable pub cluster_pressure : List (Node F) → F
  unfolding mean_over node_memory_pressure
  cluster_pressure = mean_over node_memory_pressure

  -- Step 5: is there a node with enough free KV blocks?
  unfoldable pub check_headroom :
      Request F → List (Node F) → Manager F → Controller F → Option (Outcome F)
  unfolding any_free is_batch refuse defer admit kv_blocks_needed
  check_headroom request nodes m c = do
    has_node ← any_free (kv_blocks_needed request) m nodes
    some (
        if has_node
        then admit c
        else if is_batch request
        then defer request no_kv_headroom c
        else refuse no_kv_headroom c)

  -- Step 4: memory pressure.
  unfoldable pub check_pressure :
      Request F → List (Node F) → Manager F → Controller F → Option (Outcome F)
  unfolding is_batch refuse defer check_headroom cluster_load cluster_pressure
  check_pressure request nodes m c =
      let pressure = cluster_pressure nodes in
      let high = le c.mem_queue_thr pressure in
      if high && is_batch request
      then some (defer request (memory_pressure pressure) c)
      else if high && le c.compute_reject_thr (cluster_load nodes)
      then some (refuse compute_saturated c)
      else check_headroom request nodes m c

  -- Step 3: the risk of a spill, where there is a model.
  unfoldable pub check_spill :
      Request F → List (Node F) → Manager F → Controller F → Option (Outcome F)
  unfolding is_batch refuse defer check_pressure
  check_spill request nodes m c = elim c.spill_model [
    | none ↦ check_pressure request nodes m c
    | some predict_risk ↦
        let risk = predict_risk request nodes in
        if lt (decimal 85 2) risk
        then some (
            if is_batch request
            then defer request (ml_spill_risk risk) c
            else refuse (ml_spill_risk risk) c)
        else check_pressure request nodes m c
  ]

  -- Steps 1 and 2: the veto of the SLA policy, and the protection against running out of memory.
  unfoldable pub decide :
      F → Request F → List (Node F) → Manager F → SlaPolicy F → Controller F → Option (Outcome F)
  unfolding should_reject_at_load refuse check_spill cluster_load cluster_pressure
  decide draw request nodes m policy c =
      let pressure = cluster_pressure nodes in
      let (veto, reason) =
        should_reject_at_load request (cluster_load nodes) pressure draw policy in
      if veto
      then some (refuse reason c)
      else if le c.mem_reject_thr pressure
      then some (refuse (cluster_memory_pressure pressure) c)
      else check_spill request nodes m c

  -- The loop of `pop_queued`: the requests released, and those that remain; `released` counts.
  unfoldable pub pop_loop : ℕ → Bool → ℕ → List (Request F) → List (Request F) × List (Request F)
  pop_loop n low released [] = ([], [])
  pop_loop n low released (r ∷ rs) =
      let go = ltb released n && low in
      let (out, kept) = pop_loop n low (if go then released + 1 else released) rs in
      if go then (r ∷ out, kept) else (out, r ∷ kept)

  unfoldable pub pop_queued : ℕ → List (Node F) → Controller F → Controller F × List (Request F)
  unfolding pop_loop cluster_pressure
  pop_queued n nodes c =
      let low = lt (cluster_pressure nodes) c.mem_queue_thr in
      let (out, kept) = pop_loop n low 0 c.pending in
      (record c { pending = kept; total_accepted = c.total_accepted + length out }, out)
