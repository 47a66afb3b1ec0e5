-- ===== src/Moe.antt =====
-- control_plane/moe_routing/moe_router.py: the choice of the experts of a request, and the cost that
-- goes with it. The token counters, a dictionary over range(num_experts), are a list. What raises in
-- the source, a division by a count that is zero or the maximum of nothing, gives no result here.
pub mod Selection
pub mod Clusters
use dynamo_serve.Base.{
  ℕ, zero, suc, ◌+◌, ◌-◌, ◌*◌, ◌/◌, ◌%◌, max, Bool, true, false, ◌&&◌, if◌then◌else◌, eqb, leb,
  String, List, [], ◌∷◌, length, take, Option, none, some, ◌>>=◌, get_or, get_elem?, modify, select,
  enumerate, best, sort, map, Dict, lookup, insert, nat_eq,
}
use dynamo_serve.Float.{Float, fmax}
use dynamo_serve.Models.Node.{Node, kv_blocks_free, memory_pressure}
use dynamo_serve.Models.Request.{Request, kv_blocks_needed, is_long_context}
use dynamo_serve.Admission.{sum_over}

-- `range(start, start + n)`
abbrev pub range : ℕ → ℕ → List ℕ
range start zero = []
range start (suc n) = start ∷ range (suc start) n

-- `sum(ns)`
abbrev pub sum : List ℕ → ℕ
sum [] = 0
sum (n ∷ ns) = n + sum ns

pub record ExpertGroup (F : Type 0) : Type 0 where
  pub expert_id : ℕ
  pub nodes : List (Node F)
  pub kv_blocks_reserved : ℕ

pub record RoutingDecision (F : Type 0) : Type 0 where
  pub request_id : String
  pub selected_experts : List ℕ
  pub expert_groups : List (ExpertGroup F)
  pub routing_overhead_ms : F
  pub kv_partition_plan : Dict ℕ ℕ
  pub load_imbalance : F

pub record Router (F : Type 0) : Type 0 where
  pub groups : Dict ℕ (ExpertGroup F)
  pub num_experts : ℕ
  pub top_k : ℕ
  pub num_layers : ℕ
  pub expert_token_counts : List ℕ

unfoldable pub all_of : {A : Type 0} → (A → Bool) → List A → Bool
all_of p [] = true
all_of p (x ∷ xs) = p x && all_of p xs

-- The loop that updates the load counters.
unfoldable pub count_tokens : ℕ → List ℕ → List ℕ → List ℕ
count_tokens tokens [] counts = counts
count_tokens tokens (i ∷ is) counts = count_tokens tokens is (modify counts i (λ n. n + tokens))

module _ {F : Type 0} where
  unfoldable pub nvlink_capable : ExpertGroup F → Bool
  unfolding all_of
  nvlink_capable g = all_of (λ (n : Node F). n.nvlink_enabled) g.nodes

  unfoldable pub init : List (ExpertGroup F) → ℕ → ℕ → ℕ → Router F
  init expert_groups num_experts top_k num_layers = record {
    groups = by_id expert_groups [];
    num_experts = num_experts;
    top_k = top_k;
    num_layers = num_layers;
    expert_token_counts = map (λ i. 0) (range 0 num_experts);
  }
    where
      by_id : List (ExpertGroup F) → Dict ℕ (ExpertGroup F) → Dict ℕ (ExpertGroup F)
      by_id [] d = d
      by_id (g ∷ gs) d = by_id gs (insert g.expert_id g d)

  unfoldable pub reset_load_counters : Router F → Router F
  reset_load_counters s = record s { expert_token_counts = map (λ i. 0) (range 0 s.num_experts) }

  -- `[self._groups[i] for i in selected if i in self._groups]`
  unfoldable pub groups_of : List ℕ → Dict ℕ (ExpertGroup F) → List (ExpertGroup F)
  groups_of [] groups = []
  groups_of (i ∷ is) groups = elim (lookup i groups) [
    | none ↦ groups_of is groups
    | some g ↦ g ∷ groups_of is groups
  ]

  unfoldable pub plan_of : ℕ → List (ExpertGroup F) → Dict ℕ ℕ → Dict ℕ ℕ
  plan_of blocks [] plan = plan
  plan_of blocks (g ∷ gs) plan = plan_of blocks gs (insert g.expert_id blocks plan)

  unfoldable pub kv_partition_plan : Request F → List (ExpertGroup F) → Router F → Option (Dict ℕ ℕ)
  unfolding kv_blocks_needed plan_of
  kv_partition_plan request groups s =
      if eqb s.top_k 0
      then none
      else some (plan_of (max 1 (kv_blocks_needed request / s.top_k)) groups [])

module _ {F : Type 0} ⦃fl : Float F⦄ where
  open fl use {of_nat, decimal, add, sub, mul, div, lt}

  unfoldable pub total_kv_free : ExpertGroup F → ℕ
  unfolding kv_blocks_free
  total_kv_free g = sum (map kv_blocks_free g.nodes)

  unfoldable pub mean_memory_pressure : ExpertGroup F → F
  unfolding memory_pressure sum_over
  mean_memory_pressure g =
      if eqb (length g.nodes) 0
      then of_nat 1
      else div (sum_over memory_pressure (of_nat 0) g.nodes) (of_nat (length g.nodes))

  unfoldable pub peak_bandwidth_gbps : ExpertGroup F → F
  unfolding sum_over
  peak_bandwidth_gbps g = sum_over (λ n. n.memory_bandwidth_gbps) (of_nat 0) g.nodes

  -- The score of one expert; `_score_experts` lists those of all.
  unfoldable pub score_expert : Request F → Router F → ℕ → F
  unfolding total_kv_free nvlink_capable mean_memory_pressure is_long_context
  score_expert request s eid =
      let total_tokens = sum s.expert_token_counts + 1 in
      elim (lookup eid s.groups) [
        | none ↦ sub (of_nat 0) (of_nat 1_000_000_000)
        | some group ↦
            let count = get_or (get_elem? s.expert_token_counts eid) 0 in
            let load_ratio = div (of_nat count) (of_nat total_tokens) in
            let load_score = sub (of_nat 1) (mul load_ratio (of_nat s.num_experts)) in
            let kv_total = sum (map (λ (n : Node F). n.kv_blocks_total) group.nodes) in
            let kv_score = div (of_nat (total_kv_free group)) (of_nat (max 1 kv_total)) in
            let mem_score = sub (of_nat 1) (mean_memory_pressure group) in
            let nvlink_bonus =
              if nvlink_capable group && is_long_context request then decimal 1 1 else of_nat 0 in
            add
              (add (add (mul (decimal 40 2) load_score) (mul (decimal 35 2) kv_score))
                (mul (decimal 15 2) mem_score))
              nvlink_bonus
      ]

  -- The order of `sorted(…, key=lambda i: -expert_scores[i])`.
  unfoldable pub scores_higher : Request F → Router F → ℕ → ℕ → Bool
  unfolding score_expert
  scores_higher request s i j = lt (score_expert request s j) (score_expert request s i)

  unfoldable pub ranked : Request F → Router F → List ℕ
  unfolding scores_higher
  ranked request s = sort (scores_higher request s) (range 0 s.num_experts)

  unfoldable pub routing_overhead_ms : Request F → List (ExpertGroup F) → Router F → F
  unfolding peak_bandwidth_gbps nvlink_capable all_of fmax
  routing_overhead_ms request groups s = elim (best lt (map peak_bandwidth_gbps groups)) [
    | none ↦ of_nat 0
    | some min_bw_gbps ↦
        let bytes_per_token : ℕ = 4096 * 2 in
        let scatter_tokens = request.prompt_tokens * s.top_k in
        let effective_bw =
          if all_of nvlink_capable groups then min_bw_gbps else mul min_bw_gbps (decimal 25 2) in
        let scatter_ms =
          mul
            (div (of_nat (scatter_tokens * bytes_per_token * s.num_layers))
              (mul effective_bw (of_nat 1_000_000_000)))
            (of_nat 1000) in
        fmax (decimal 1 1) (mul scatter_ms (of_nat 2))
  ]

  -- With one expert the divisor `1.0 - 1.0 / num_experts` is zero, and with none there is no maximum.
  unfoldable pub load_imbalance : Router F → Option F
  load_imbalance s =
      if leb s.num_experts 1
      then none
      else let total = sum s.expert_token_counts + 1 in
        let share = div (of_nat 1) (of_nat s.num_experts) in
        best (λ a b. leb (suc b) a) s.expert_token_counts >>= λ max_count.
        some (div (sub (div (of_nat (max_count + 1)) (of_nat total)) share) (sub (of_nat 1) share))

  unfoldable pub route : Request F → Router F → Option (Router F × RoutingDecision F)
  unfolding ranked groups_of routing_overhead_ms kv_partition_plan load_imbalance count_tokens
  route request s =
      let selected = take s.top_k (ranked request s) in
      let groups = groups_of selected s.groups in
      let overhead = routing_overhead_ms request groups s in
      kv_partition_plan request groups s >>= λ kv_plan. load_imbalance s >>= λ imbalance. some (
        record s {
          expert_token_counts = count_tokens request.prompt_tokens selected s.expert_token_counts;
        },
        record {
          request_id = request.request_id;
          selected_experts = selected;
          expert_groups = groups;
          routing_overhead_ms = overhead;
          kv_partition_plan = kv_plan;
          load_imbalance = imbalance;
        },
      )

module _ {F : Type 0} where
  -- The nodes of one expert: every `num_experts`-th, or else one of them, which may be shared.
  unfoldable pub nodes_of : List (Node F) → ℕ → ℕ → Option (List (Node F))
  nodes_of all_nodes num_experts eid =
      let own =
        map (λ c. c.1)
          (select (λ (c : ℕ × Node F). eqb (c.0 % num_experts) eid) (enumerate 0 all_nodes)) in
      elim own [
        | n ∷ ns ↦ some (n ∷ ns)
        | [] ↦ get_elem? all_nodes (eid % length all_nodes) >>= λ n. some (n ∷ [])
      ]

  unfoldable pub make_groups : List (Node F) → ℕ → List ℕ → Option (List (ExpertGroup F))
  unfolding nodes_of
  make_groups all_nodes num_experts [] = some []
  make_groups all_nodes num_experts (eid ∷ eids) = nodes_of all_nodes num_experts eid >>= λ nodes.
      make_groups all_nodes num_experts eids >>= λ groups.
      some (record { expert_id = eid; nodes = nodes; kv_blocks_reserved = 0 } ∷ groups)

  unfoldable pub make_moe_cluster : List (Node F) → ℕ → ℕ → Option (Router F)
  unfolding make_groups init
  make_moe_cluster all_nodes num_experts top_k =
      make_groups all_nodes num_experts (range 0 num_experts) >>= λ groups.
      some (init groups num_experts top_k 32)
