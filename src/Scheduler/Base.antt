-- ===== src/Scheduler/Base.antt =====
-- control_plane/scheduler/base_scheduler.py, and what the baselines do with the node that they chose.
pub mod Capacity
use dynamo_serve.Base.{
  ℕ, suc, ◌+◌, Bool, true, false, not, String, List, [], ◌∷◌, Option, none, some, select, enumerate,
  modify,
}
use dynamo_serve.Float.{Float}
use dynamo_serve.Models.Node
use dynamo_serve.Models.Node.{Node, can_fit}
use dynamo_serve.Models.Request.{Request, kv_blocks_needed, estimated_memory_gb}
use dynamo_serve.Sla.{Reason}

-- The texts of a refusal.
pub data Refusal (F : Type 0) : Type 0 where
  none_given all_nodes_full no_feasible_node no_headroom no_placement rl_policy_reject : Refusal F
  -- the reason of the admission controller, for a rejected and for a queued request
  refused : Reason F → Refusal F
  queued : Reason F → Refusal F

pub record SchedulingResult (F : Type 0) : Type 0 where
  pub request_id : String
  pub node_id : Option String
  pub accepted : Bool
  pub rejection_reason : Refusal F
  pub estimated_ttft_ms : F

module _ {F : Type 0} where
  unfoldable pub rejected : SchedulingResult F → Bool
  rejected r = not r.accepted

module _ {F : Type 0} ⦃fl : Float F⦄ where
  open fl use {of_nat}

  abbrev pub accepted_on : Request F → Node F → F → SchedulingResult F
  accepted_on request node ttft = record {
    request_id = request.request_id;
    node_id = some node.node_id;
    accepted = true;
    rejection_reason = none_given;
    estimated_ttft_ms = ttft;
  }

  abbrev pub rejected_with : Request F → Refusal F → SchedulingResult F
  rejected_with request reason = record {
    request_id = request.request_id;
    node_id = none;
    accepted = false;
    rejection_reason = reason;
    estimated_ttft_ms = of_nat 0;
  }

  unfoldable pub fits : Request F → Node F → Bool
  unfolding can_fit kv_blocks_needed estimated_memory_gb
  fits request n = can_fit n (kv_blocks_needed request) (estimated_memory_gb request)

  -- `_feasible_nodes`, each node with its reference.
  unfoldable pub feasible_nodes : Request F → List (Node F) → List (ℕ × Node F)
  unfolding fits
  feasible_nodes request nodes = select (λ c. fits request c.1) (enumerate 0 nodes)

  -- `node.allocate(request.kv_blocks_needed, request.estimated_memory_gb)` on the node at `i`.
  unfoldable pub allocate_at : Request F → ℕ → List (Node F) → List (Node F)
  unfolding Node.allocate kv_blocks_needed estimated_memory_gb
  allocate_at request i nodes =
      modify nodes i (λ n. Node.allocate n (kv_blocks_needed request) (estimated_memory_gb request))

  -- `on_complete` of the baselines, for the node at `i`.
  unfoldable pub on_complete : Request F → ℕ → List (Node F) → List (Node F)
  unfolding Node.release kv_blocks_needed estimated_memory_gb
  on_complete request i nodes =
      modify nodes i (λ n. Node.release n (kv_blocks_needed request) (estimated_memory_gb request))
