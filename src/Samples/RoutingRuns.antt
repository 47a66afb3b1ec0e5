-- ===== src/Samples/RoutingRuns.antt =====
-- The batch optimizer, the router of experts and the cache simulator on small inputs.
use dynamo_serve.Base.{
  ◌⊎◌, true, Elem, ℕ, ◌+◌, ◌*◌, ◌%◌, ◌<◌, ◌≤◌, ◌≡◌, refl, List, [], ◌∷◌, length, min, none, some,
  get_or, All, Distinct, lookup, insert, nat_eq, sort,
}
use mathlib.Core.List.{Perm}
use dynamo_serve.Base.Int.{ℤ, pos}
use dynamo_serve.Float.Fixed.{fixed_float, fixed_laws}
use dynamo_serve.Models.Node.{Node}
use dynamo_serve.Models.Request.{Request, realtime, interactive, batch}
use dynamo_serve.Cache.Policy.{lru}
use dynamo_serve.Batching.{Optimizer, form_batches}
use dynamo_serve.Batching.Packing.{all_requests, IsDelivered, IsWithinLimits, form_batches_lem}
use dynamo_serve.Moe
use dynamo_serve.Moe.{
  Router, RoutingDecision, ExpertGroup, make_groups, nodes_of, make_moe_cluster, route, ranked,
  score_expert, sum, range,
}
use dynamo_serve.Moe.Selection.{route_lem, route-counts}
use dynamo_serve.Replay.{run}
use dynamo_serve.Replay.Counts.{run_lem}
use dynamo_serve.Samples.Data.{clock, node_with, two_nodes, request_of, shared}

abbrev pending : List (Request ℤ)
pending =
    request_of batch "x" none ∷ request_of realtime "y" none ∷ request_of interactive "z" none ∷ []

abbrev optimizer : Optimizer ℤ
optimizer = record { node = node_with "a" 0; tpot_model = none; max_tokens = 64; max_size = 2 }

form_batches_lem_example :
    Perm (all_requests (form_batches pending optimizer).batches) pending
    × IsDelivered (all_requests (form_batches pending optimizer).batches)
    × All (IsWithinLimits 2 64) (form_batches pending optimizer).batches
form_batches_lem_example = form_batches_lem fixed_laws pending optimizer

abbrev group_of : ℕ → Node ℤ → ExpertGroup ℤ
group_of i n = record { expert_id = i; nodes = n ∷ []; kv_blocks_reserved = 0 }

abbrev two_groups : List (ExpertGroup ℤ)
two_groups = group_of 0 (node_with "a" 2) ∷ group_of 1 (node_with "b" 0) ∷ []

builds : make_groups two_nodes 2 (range 0 2) ≡ some two_groups
unfolding make_groups
builds = refl

group_1 : nodes_of two_nodes 2 (1 % 2) ≡ some (node_with "b" 0 ∷ [])
unfolding nodes_of
group_1 = refl

abbrev router : Router ℤ
router = Moe.init two_groups 2 1 32

abbrev nothing_routed : Router ℤ × RoutingDecision ℤ
nothing_routed = (
  router,
  record {
    request_id = "";
    selected_experts = [];
    expert_groups = [];
    routing_overhead_ms = pos 0;
    kv_partition_plan = [];
    load_imbalance = pos 0;
  },
)

abbrev routed : Router ℤ × RoutingDecision ℤ
routed = get_or (route shared router) nothing_routed

routes : route shared router ≡ some routed
unfolding route Moe.init sort lookup insert
routes = refl

counters : length router.expert_token_counts ≡ router.num_experts
unfolding Moe.init
counters = refl

route-counts_example :
    sum routed.0.expert_token_counts
    ≡ sum router.expert_token_counts + 20 * min router.top_k router.num_experts
route-counts_example = route-counts shared router routed.0 routed.1 counters routes

run_lem_example :
    let r = run clock 3 16 (shared ∷ shared ∷ []) (lru []) "lru" in
    (r.total_requests ≡ 2) × (r.hits + r.misses ≡ r.total_requests) × (r.spills ≤ r.total_requests)
run_lem_example = run_lem clock 3 16 (shared ∷ shared ∷ []) (lru []) "lru"

route_lem_example :
    Distinct routed.1.selected_experts
    × All (λ i. i < router.num_experts) routed.1.selected_experts
    × (length routed.1.selected_experts ≡ min router.top_k router.num_experts)
    × All
        (λ j.
          Elem j routed.1.selected_experts
          ⊎ All
              (λ i.
                fixed_float.le (score_expert shared router j) (score_expert shared router i) ≡ true)
              routed.1.selected_experts)
        (range 0 router.num_experts)
route_lem_example = route_lem shared router routed.0 routed.1 fixed_laws routes
