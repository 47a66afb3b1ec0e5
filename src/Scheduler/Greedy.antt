-- ===== src/Scheduler/Greedy.antt =====
-- control_plane/scheduler/least_loaded.py and memory_aware.py: both take the best of the feasible
-- nodes, each by its own key.
pub mod Choice
use dynamo_serve.Base.{
  ℕ, ◌+◌, max, Bool, ◌&&◌, if◌then◌else◌, eqb, ltb, List, Option, none, some, best,
}
use dynamo_serve.Float.{Float}
use dynamo_serve.Models.Node.{Node, memory_pressure, kv_blocks_free, compute_utilization}
use dynamo_serve.Models.Request.{Request}
use dynamo_serve.Scheduler.Base.{
  SchedulingResult, no_feasible_node, no_headroom, accepted_on, rejected_with, feasible_nodes,
  allocate_at,
}

module _ {F : Type 0} ⦃fl : Float F⦄ where
  open fl use {of_nat, add, sub, mul, div, lt}

  -- The order of the pairs (active_requests, memory_pressure).
  unfoldable pub less_loaded : Node F → Node F → Bool
  unfolding memory_pressure
  less_loaded a b =
      if eqb a.active_requests b.active_requests
      then lt (memory_pressure a) (memory_pressure b)
      else ltb a.active_requests b.active_requests

  unfoldable pub least_loaded : Request F → List (Node F) → List (Node F) × SchedulingResult F
  unfolding less_loaded feasible_nodes allocate_at
  least_loaded request nodes =
      elim (best (λ a b. less_loaded a.1 b.1) (feasible_nodes request nodes)) [
        | none ↦ (nodes, rejected_with request no_feasible_node)
        | some (i, node) ↦ (allocate_at request i nodes, accepted_on request node (of_nat 0))
      ]

  -- `_score` of MemoryAwareScheduler, with the weights `alpha` and `beta`.
  unfoldable pub headroom_score : F → F → Node F → F
  unfolding kv_blocks_free compute_utilization
  headroom_score alpha beta node =
      let kv_ratio = div (of_nat (kv_blocks_free node)) (of_nat (max 1 node.kv_blocks_total)) in
      let compute_headroom = sub (of_nat 1) (compute_utilization node) in
      add (mul alpha kv_ratio) (mul beta compute_headroom)

  unfoldable pub memory_aware :
      F → F → Request F → List (Node F) → List (Node F) × SchedulingResult F
  unfolding headroom_score feasible_nodes allocate_at
  memory_aware alpha beta request nodes =
      elim (best (λ a b. lt (headroom_score alpha beta b.1) (headroom_score alpha beta a.1))
        (feasible_nodes request nodes)) [
          | none ↦ (nodes, rejected_with request no_headroom)
          | some (i, node) ↦ (allocate_at request i nodes, accepted_on request node (of_nat 0))
        ]
