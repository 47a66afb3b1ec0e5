-- ===== src/Scheduler/RoundRobin.antt =====
-- control_plane/scheduler/round_robin.py. `itertools.cycle(nodes)` is the index of the node that it
-- gives next.
pub mod Search
pub mod Promises
use dynamo_serve.Base.{
  ℕ, zero, suc, ◌+◌, Bool, if◌then◌else◌, eqb, List, length, Option, none, some, get_elem?,
}
use dynamo_serve.Float.{Float}
use dynamo_serve.Models.Node.{Node}
use dynamo_serve.Models.Request.{Request}
use dynamo_serve.Scheduler.Base.{
  SchedulingResult, all_nodes_full, accepted_on, rejected_with, fits, allocate_at,
}

pub record RoundRobin (F : Type 0) : Type 0 where
  pub nodes : List (Node F)
  pub cycle : ℕ
  pub counter : ℕ

module _ {F : Type 0} where
  unfoldable pub init : List (Node F) → RoundRobin F
  init nodes = record { nodes = nodes; cycle = 0; counter = 0 }

  -- `next(self._cycle)` and `self._counter += 1`, as they leave the state.
  unfoldable pub advance : RoundRobin F → RoundRobin F
  advance s = record s {
    cycle = if eqb (s.cycle + 1) (length s.nodes) then 0 else s.cycle + 1;
    counter = s.counter + 1;
  }

  unfoldable pub update_nodes : List (Node F) → RoundRobin F → RoundRobin F
  update_nodes nodes s = record s { nodes = nodes; cycle = 0 }

module _ {F : Type 0} ⦃fl : Float F⦄ where
  -- The loop, with the rounds that are left.
  unfoldable pub search_from : ℕ → Request F → RoundRobin F → RoundRobin F × SchedulingResult F
  unfolding advance fits allocate_at
  search_from zero request s = (s, rejected_with request all_nodes_full)
  search_from (suc rounds) request s =
      let rest = search_from rounds request (advance s) in
      elim (get_elem? s.nodes s.cycle) [
        | none ↦ rest
        | some node ↦
            if fits request node
            then (
              record (advance s) { nodes = allocate_at request s.cycle s.nodes },
              accepted_on request node (Float.of_nat fl 0),
            )
            else rest
      ]

  unfoldable pub schedule : Request F → RoundRobin F → RoundRobin F × SchedulingResult F
  unfolding search_from
  schedule request s = search_from (length s.nodes) request s
