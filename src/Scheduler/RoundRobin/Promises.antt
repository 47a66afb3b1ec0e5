-- ===== src/Scheduler/RoundRobin/Promises.antt =====
-- What the callers of RoundRobinScheduler can rely on.
use dynamo_serve.Base.{
  [], ◌∷◌, sym, get_elem?-bound, subst, get_elem?-some, ℕ, zero, suc, ◌+◌, ◌-◌, ◌<◌, ◌≡◌, refl, ◌∙◌,
  ap, true, false, List, length, some, get_elem?, length-modify, arith, ltb, inl, inr, Bool-cases,
}
use dynamo_serve.Float.{Float}
use dynamo_serve.Models.Node.{Node}
use dynamo_serve.Models.Request.{Request}
use dynamo_serve.Scheduler.Base.{fits, allocate_at}
use dynamo_serve.Scheduler.RoundRobin.{
  RoundRobin, advance, init, search_from, schedule, update_nodes,
}
use dynamo_serve.Scheduler.RoundRobin.Search.{
  IsValid, position, advance-IsValid, search_from_here, search_from_on, schedule_lem,
}

module _ {F : Type 0} ⦃fl : Float F⦄ (request : Request F) where
  position_onto :
      (s : RoundRobin F) (i : ℕ)
      → s.cycle < length s.nodes
      → i < length s.nodes
      → (k : ℕ) × (k < length s.nodes) × (position s k ≡ i)
  unfolding position
  position_onto s i v h = elim (Bool-cases (ltb i s.cycle)) [
    | inl e ↦ (i + length s.nodes - s.cycle, ground arith, ground arith)
    | inr e ↦ (i - s.cycle, ground arith, ground arith)
  ]

  -- A request is refused only where no node of the cluster can take it, where the index of the
  -- cycle is in the list.
  pub schedule-rejects :
      (s : RoundRobin F) (i : ℕ) (n : Node F)
      → IsValid s
      → (schedule request s).1.accepted ≡ false
      → get_elem? s.nodes i ≡ some n
      → fits request n ≡ false
  schedule-rejects s i n v refused here = elim (schedule_lem request s v) [
    | inl f ↦ absurd (clash (f.accepts))
    | inr m ↦ elim v [
      | inr e ↦ absurd (omega (arith, get_elem?-bound s.nodes i here))
      | inl l ↦
          let (k, in_time, e) = position_onto s i l (get_elem?-bound s.nodes i here) in
          m.passed k n in_time (ap (get_elem? s.nodes) e ∙ here)
    ]
  ]
    where
      clash : (schedule request s).1.accepted ≡ true → ⊥
      clash e = cc (sym e ∙ refused)

  -- An accepted request goes to a node that can take it, which is charged and no other; the counter
  -- moves by the nodes tried, and the node is the last of these in the order of the cycle.
  pub schedule-accepts :
      (s : RoundRobin F)
      → IsValid s
      → (schedule request s).1.accepted ≡ true
      → (turn : ℕ) × (node : Node F) × (turn < length s.nodes)
        × (get_elem? s.nodes (position s turn) ≡ some node)
        × (fits request node ≡ true)
        × ((schedule request s).1.node_id ≡ some node.node_id)
        × ((schedule request s).0.nodes ≡ allocate_at request (position s turn) s.nodes)
        × ((schedule request s).0.counter ≡ s.counter + suc turn)
  schedule-accepts s v yes_said = elim (schedule_lem request s v) [
    | inr m ↦ absurd (no_clash m.refuses)
    | inl f ↦ (f.turn, f.node, f.in_time, f.stands, f.able, f.named, f.charged, f.counted)
  ]
    where
      no_clash : (schedule request s).1.accepted ≡ false → ⊥
      no_clash e = cc (sym e ∙ yes_said)

  -- The nodes that the cycle gives before the one that is chosen cannot take the request, where
  -- the index of the cycle is in the list.
  pub schedule-first :
      (s : RoundRobin F) (j : ℕ) (n : Node F)
      → IsValid s
      → s.counter + suc j < (schedule request s).0.counter
      → get_elem? s.nodes (position s j) ≡ some n
      → fits request n ≡ false
  schedule-first s j n v earlier here = elim (schedule_lem request s v) [
    | inl f ↦ f.passed j n (omega (arith, f.counted)) here
    | inr m ↦ m.passed j n (omega (arith, m.counted)) here
  ]

  search_from_here-bound :
      (s : RoundRobin F)
      → s.cycle < length s.nodes
      → (advance s).cycle < length (allocate_at request s.cycle s.nodes)
  unfolding allocate_at
  search_from_here-bound s v = omega (arith, length-modify s.nodes s.cycle, advance-IsValid s v)

  search_from-IsValid :
      (rounds : ℕ) (s : RoundRobin F)
      → s.cycle < length s.nodes
      → IsValid (search_from rounds request s).0
  unfolding search_from
  search_from-IsValid zero s v = inl v
  search_from-IsValid (suc rounds) s v =
      let (node, here) = get_elem?-some s.nodes s.cycle v in
      elim (Bool-cases (fits request node)) [
        | inl able ↦
            subst (λ p. IsValid p.0) (sym (search_from_here request rounds s node here able))
              (inl (search_from_here-bound s v))
        | inr no_fit ↦
            subst (λ p. IsValid p.0) (sym (search_from_on request rounds s node here no_fit))
              (search_from-IsValid rounds (advance s) (advance-IsValid s v))
      ]

  -- The index of the cycle stays in the list.
  pub schedule-IsValid : (s : RoundRobin F) → IsValid s → IsValid (schedule request s).0
  unfolding schedule
  schedule-IsValid s (inl v) = search_from-IsValid (length s.nodes) s v
  schedule-IsValid s (inr e) = subst (λ n. IsValid (search_from n request s).0) (sym e) (inr e)

pub init-IsValid : {F : Type 0} (nodes : List (Node F)) → IsValid (init nodes)
unfolding init
init-IsValid [] = inr refl
init-IsValid (n ∷ ns) = inl (omega arith)

update_nodes-IsValid :
    {F : Type 0} (nodes : List (Node F)) (s : RoundRobin F) → IsValid (update_nodes nodes s)
unfolding update_nodes
update_nodes-IsValid [] s = inr refl
update_nodes-IsValid (n ∷ ns) s = inl (omega arith)
