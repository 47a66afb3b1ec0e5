-- ===== src/Scheduler/Greedy/Choice.antt =====
-- Which node LeastLoadedScheduler and MemoryAwareScheduler choose.
use dynamo_serve.Base.{
  ℕ, ◌<◌, ◌⊎◌, dec_lt, All-map_of, ◌≡◌, refl, sym, ap, subst, Bool, true, false, List, none, some,
  get_elem?, arith, inl, inr, All, All-of_get_elem?, Elem, best, best-Elem, best-none, best_lem,
  IsStrictOrder, Option-cases, Bool-cases,
}
use dynamo_serve.Float.{
  Float, FloatLaws, max_key-IsStrictOrder, le_of_not_lt, lt_asymm, not-lt_trans,
}
use dynamo_serve.Models.Node.{Node, memory_pressure}
use dynamo_serve.Models.Request.{Request}
use dynamo_serve.Scheduler.Base.{
  SchedulingResult, Refusal, no_feasible_node, no_headroom, accepted_on, rejected_with, fits,
  feasible_nodes, allocate_at,
}
use dynamo_serve.Scheduler.Base.Capacity.{
  WithinBlocks, allocate_at-WithinBlocks, feasible_nodes_sound, feasible_nodes_complete,
}
use dynamo_serve.Scheduler.Greedy.{less_loaded, least_loaded, headroom_score, memory_aware}

module _ {F : Type 0} ⦃fl : Float F⦄ where
  -- A scheduler's answer: the request went to a node that can take it and is no worse than any other
  -- such node, and that node alone is charged; or no node can take it, and none is changed.
  pub data Answer (NoWorse : Node F → Node F → Type 0) (request : Request F) (nodes : List (Node F))
      (p : List (Node F) × SchedulingResult F) : Type 0 where
    chosen :
        (i : ℕ) (node : Node F)
        → p.1.accepted ≡ true
        → p.1.node_id ≡ some node.node_id
        → get_elem? nodes i ≡ some node
        → fits request node ≡ true
        → p.0 ≡ allocate_at request i nodes
        → All (λ c. NoWorse node c.1) (feasible_nodes request nodes)
        → Answer NoWorse request nodes p
    refused :
        p.1.accepted ≡ false
        → p.0 ≡ nodes
        → All (λ n. fits request n ≡ false) nodes
        → Answer NoWorse request nodes p

  abbrev more_headroom : F → F → Node F → Node F → Bool
  more_headroom alpha beta a b = fl.lt (headroom_score alpha beta b) (headroom_score alpha beta a)

  -- Fewer active requests, or as many and no more memory pressure.
  abbrev pub NoMoreLoaded : Node F → Node F → Type 0
  NoMoreLoaded a b =
      (a.active_requests < b.active_requests)
      ⊎ ((a.active_requests ≡ b.active_requests)
          × (fl.le (memory_pressure a) (memory_pressure b) ≡ true))

  abbrev pub NoLessHeadroom : F → F → Node F → Node F → Type 0
  NoLessHeadroom alpha beta a b =
      fl.le (headroom_score alpha beta b) (headroom_score alpha beta a) ≡ true

  less_loaded-NoMoreLoaded :
      FloatLaws F → (a b : Node F) → less_loaded b a ≡ false → NoMoreLoaded a b
  unfolding less_loaded
  less_loaded-NoMoreLoaded laws a b h = elim (dec_lt a.active_requests b.active_requests) [
    | yes less ↦ inl less
    | no more ↦
        let same : a.active_requests ≡ b.active_requests = ground (arith, more, h) in
        inr (
          same,
          le_of_not_lt laws (memory_pressure b) (memory_pressure a) (ground (arith, same, h)),
        )
  ]

  Answer-WithinBlocks :
      (NoWorse : Node F → Node F → Type 0) (request : Request F) (nodes : List (Node F))
      (p : List (Node F) × SchedulingResult F)
      → Answer NoWorse request nodes p
      → All WithinBlocks nodes
      → All WithinBlocks p.0
  Answer-WithinBlocks NoWorse request nodes p (chosen i node a m here able q b) w =
      subst (All WithinBlocks) (sym q) (allocate_at-WithinBlocks request nodes i node here able w)
  Answer-WithinBlocks NoWorse request nodes p (refused a q b) w = subst (All WithinBlocks) (sym q) w

  less_loaded-IsStrictOrder : FloatLaws F → IsStrictOrder (less_loaded {F = F})
  unfolding less_loaded
  less_loaded-IsStrictOrder laws = record {
    asymm = λ a b h. ground (arith, lt_asymm laws (memory_pressure a) (memory_pressure b));
    not_trans = λ a b c h k.
        ground
          (arith, not-lt_trans laws (memory_pressure a) (memory_pressure b) (memory_pressure c));
  }

  module _ (better : Node F → Node F → Bool) (o : IsStrictOrder better)
      (NoWorse : Node F → Node F → Type 0)
      (no_worse : (a b : Node F) → better b a ≡ false → NoWorse a b) (request : Request F)
      (nodes : List (Node F)) where
    better_at-IsStrictOrder : IsStrictOrder {A = ℕ × Node F} (λ a b. better a.1 b.1)
    better_at-IsStrictOrder = record {
      asymm = λ a b. o.asymm a.1 b.1;
      not_trans = λ a b c. o.not_trans a.1 b.1 c.1;
    }

    best-none-fits :
        best (λ a b. better a.1 b.1) (feasible_nodes request nodes) ≡ none
        → All (λ n. fits request n ≡ false) nodes
    best-none-fits e = All-of_get_elem? _ nodes λ j n here. elim (Bool-cases (fits request n)) [
      | inr f ↦ f
      | inl able ↦ absurd (
          subst (Elem (j, n)) (best-none _ _ e)
            (feasible_nodes_complete request nodes j n here able))
    ]

    chosen_of :
        (p : List (Node F) × SchedulingResult F) (i : ℕ) (node : Node F)
        → best (λ a b. better a.1 b.1) (feasible_nodes request nodes) ≡ some (i, node)
        → p ≡ (allocate_at request i nodes, accepted_on request node (fl.of_nat 0))
        → Answer NoWorse request nodes p
    chosen_of p i node e q =
        let (here, able) = feasible_nodes_sound request nodes i node (best-Elem _ _ (i, node) e) in
        chosen i node (ap (λ p. p.1.accepted) q) (ap (λ p. p.1.node_id) q) here able
          (ap (λ p. p.0) q)
          (All-map_of _ _ _ (λ c. no_worse node c.1)
            (best_lem _ better_at-IsStrictOrder _ (i, node) e))

    refused_of :
        (p : List (Node F) × SchedulingResult F) (r : Refusal F)
        → best (λ a b. better a.1 b.1) (feasible_nodes request nodes) ≡ none
        → p ≡ (nodes, rejected_with request r)
        → Answer NoWorse request nodes p
    refused_of p r e q = refused (ap (λ p. p.1.accepted) q) (ap (λ p. p.0) q) (best-none-fits e)

  -- `LeastLoadedScheduler.schedule`, under the laws of comparison: the request goes to a node that can
  -- take it and has the fewest active requests of those that can, and among these the least memory
  -- pressure, and only that node is charged; or no node can take it and the nodes are as before.
  pub least_loaded_lem :
      (laws : FloatLaws F) (request : Request F) (nodes : List (Node F))
      → Answer NoMoreLoaded request nodes (least_loaded request nodes)
  unfolding least_loaded
  least_loaded_lem laws request nodes =
      let o = less_loaded-IsStrictOrder laws in
      elim (Option-cases (best (λ a b. less_loaded a.1 b.1) (feasible_nodes request nodes))) [
        | inl e ↦
            refused_of less_loaded o NoMoreLoaded (less_loaded-NoMoreLoaded laws) request nodes _
              no_feasible_node e (rw (least_loaded, e) refl)
        | inr ((i, node), e) ↦
            chosen_of less_loaded o NoMoreLoaded (less_loaded-NoMoreLoaded laws) request nodes _ i
              node e (rw (least_loaded, e) refl)
      ]

  -- `MemoryAwareScheduler.schedule`: the same, with the highest headroom score.
  pub memory_aware_lem :
      (laws : FloatLaws F) (alpha beta : F) (request : Request F) (nodes : List (Node F))
      → Answer (NoLessHeadroom alpha beta) request nodes (memory_aware alpha beta request nodes)
  unfolding memory_aware
  memory_aware_lem laws alpha beta request nodes =
      let o = max_key-IsStrictOrder laws (headroom_score alpha beta) in
      elim (Option-cases
        (best (λ a b. more_headroom alpha beta a.1 b.1) (feasible_nodes request nodes))) [
          | inl e ↦
              refused_of (more_headroom alpha beta) o (NoLessHeadroom alpha beta)
                (λ a b. le_of_not_lt laws _ _) request nodes _ no_headroom e
                (rw (memory_aware, e) refl)
          | inr ((i, node), e) ↦
              chosen_of (more_headroom alpha beta) o (NoLessHeadroom alpha beta)
                (λ a b. le_of_not_lt laws _ _) request nodes _ i node e (rw (memory_aware, e) refl)
        ]

  -- Neither scheduler gives a node more KV blocks than it has.
  pub greedy-WithinBlocks :
      (laws : FloatLaws F) (alpha beta : F) (request : Request F) (nodes : List (Node F))
      → All WithinBlocks nodes
      → All WithinBlocks (least_loaded request nodes).0
        × All WithinBlocks (memory_aware alpha beta request nodes).0
  greedy-WithinBlocks laws alpha beta request nodes w = (
    Answer-WithinBlocks _ request nodes _ (least_loaded_lem laws request nodes) w,
    Answer-WithinBlocks _ request nodes _ (memory_aware_lem laws alpha beta request nodes) w,
  )
