-- ===== src/Placement.antt =====
-- control_plane/placement_engine/placement_engine.py. The KV cache manager and the latency predictor
-- are optional; a score that asks the manager about a node that it does not know raises.
pub mod Ranking
use dynamo_serve.Base.{
  ℕ, ◌+◌, ◌*◌, max, Bool, true, false, ◌&&◌, not, if◌then◌else◌, String, List, [], ◌∷◌, Option,
  none, some, ◌>>=◌, best, sort,
}
use dynamo_serve.Float.{Float, fmax}
use dynamo_serve.Models.Node.{Node, memory_pressure, kv_blocks_free, compute_utilization, can_fit}
use dynamo_serve.Models.Block.{hit_rate}
use dynamo_serve.Models.Request.{
  realtime, Request, kv_blocks_needed, is_long_context, estimated_memory_gb,
}
use dynamo_serve.Cache.Manager.{Manager, given_hash, get_stats}
use dynamo_serve.Sla.{same_class}

pub record Placement (F : Type 0) : Type 0 where
  pub node_id : String
  pub score : F
  pub estimated_ttft_ms : F
  pub nvlink_path : Bool

pub record Engine (F : Type 0) : Type 0 where
  pub kv_manager : Option (Manager F)
  pub predict_ttft : Option (Request F → Node F → F)

module _ {F : Type 0} ⦃fl : Float F⦄ where
  open fl use {of_nat, decimal, add, sub, mul, div, lt}

  -- `a if b else 0.0`
  abbrev when : Bool → F → F
  when b x = if b then x else of_nat 0

  unfoldable pub heuristic_ttft : Request F → Node F → F
  unfolding is_long_context
  heuristic_ttft request node =
      let bytes_per_token : ℕ = 2 * 4096 * 2 in
      let transfer_time_ms =
        mul
          (div (of_nat (request.prompt_tokens * bytes_per_token))
            (mul node.memory_bandwidth_gbps (of_nat 1_000_000_000)))
          (of_nat 1000) in
      let queue_delay_ms = mul (of_nat node.active_requests) (of_nat 20) in
      let nvlink_penalty = when (not node.nvlink_enabled && is_long_context request) (of_nat 80) in
      add (add transfer_time_ms queue_delay_ms) nvlink_penalty

  unfoldable pub estimate_ttft : Engine F → Request F → Node F → F
  unfolding heuristic_ttft
  estimate_ttft engine request node = elim engine.predict_ttft [
    | none ↦ heuristic_ttft request node
    | some predict ↦ predict request node
  ]

  -- The hit rate of the node, if there is a manager and the request has a prefix.
  unfoldable pub prefix_affinity : Engine F → Request F → Node F → Option F
  unfolding given_hash get_stats hit_rate
  prefix_affinity engine request node = elim engine.kv_manager [
    | none ↦ some (of_nat 0)
    | some m ↦ elim (given_hash request.prefix_hash) [
      | none ↦ some (of_nat 0)
      | some h ↦ do s ← get_stats node.node_id m; some (hit_rate s)
    ]
  ]

  -- The weighted aggregate, and the boost of REALTIME requests.
  unfoldable pub aggregate : Request F → Node F → F → F → F
  unfolding kv_blocks_free memory_pressure compute_utilization is_long_context same_class fmax
  aggregate request node affinity est_ttft =
      let kv_headroom_ratio =
        div (of_nat (kv_blocks_free node)) (of_nat (max 1 node.kv_blocks_total)) in
      let mem_score = sub (of_nat 1) (memory_pressure node) in
      let compute_score = sub (of_nat 1) (compute_utilization node) in
      let nvlink_bonus = when (node.nvlink_enabled && is_long_context request) (decimal 1 1) in
      let score =
        add
          (add
            (add (add (mul (decimal 40 2) kv_headroom_ratio) (mul (decimal 25 2) mem_score))
              (mul (decimal 20 2) compute_score))
            (mul (decimal 15 2) affinity))
          nvlink_bonus in
      let ttft_score = fmax (of_nat 0) (sub (of_nat 1) (div est_ttft (of_nat 500))) in
      if same_class request.sla_class realtime
      then add score (mul (decimal 2 1) ttft_score)
      else score

  -- `some none` where the node cannot take the request.
  unfoldable pub score_node : Engine F → Request F → Node F → Option (Option (Placement F))
  unfolding can_fit kv_blocks_needed estimated_memory_gb prefix_affinity estimate_ttft aggregate
  score_node engine request node =
      if not (can_fit node (kv_blocks_needed request) (estimated_memory_gb request))
      then some none
      else do
        affinity ← prefix_affinity engine request node
        let est_ttft = estimate_ttft engine request node
        some (
            some (record {
              node_id = node.node_id;
              score = aggregate request node affinity est_ttft;
              estimated_ttft_ms = est_ttft;
              nvlink_path = node.nvlink_enabled;
            }))

  abbrev keep : Option (Placement F) → List (Placement F) → List (Placement F)
  keep none ds = ds
  keep (some d) ds = d ∷ ds

  -- The decisions for the nodes that can take the request, in the order of the nodes.
  unfoldable pub score_nodes : Engine F → Request F → List (Node F) → Option (List (Placement F))
  unfolding score_node
  score_nodes engine request [] = some []
  score_nodes engine request (n ∷ ns) = do
    d ← score_node engine request n
    ds ← score_nodes engine request ns
    some (keep d ds)

  unfoldable pub higher_score : Placement F → Placement F → Bool
  higher_score a b = lt b.score a.score

  -- `max(decisions, key=score)`, or nothing where there is no decision.
  unfoldable pub place : Engine F → Request F → List (Node F) → Option (Option (Placement F))
  unfolding score_nodes higher_score
  place engine request nodes = do ds ← score_nodes engine request nodes; some (best higher_score ds)

  -- `sorted(valid, key=score, reverse=True)`, which keeps the order of equals.
  unfoldable pub rank_nodes : Engine F → Request F → List (Node F) → Option (List (Placement F))
  unfolding score_nodes higher_score
  rank_nodes engine request nodes = do
    ds ← score_nodes engine request nodes
    some (sort higher_score ds)
