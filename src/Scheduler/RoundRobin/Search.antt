-- ===== src/Scheduler/RoundRobin/Search.antt =====
-- What a round of RoundRobinScheduler.schedule finds.
use dynamo_serve.Base.{
  sym, subst, get_elem?-some, ℕ, zero, suc, ◌+◌, ◌-◌, ◌≤◌, ◌<◌, ◌≡◌, refl, ◌∙◌, ap, true, false,
  if◌then◌else◌, length, none, some, get_elem?, arith, ltb, ◌⊎◌, inl, inr, Bool-cases,
}
use dynamo_serve.Float.{Float}
use dynamo_serve.Models.Node.{Node}
use dynamo_serve.Models.Request.{Request}
use dynamo_serve.Scheduler.Base.{SchedulingResult, accepted_on, fits, allocate_at}
use dynamo_serve.Scheduler.RoundRobin.{RoundRobin, advance, search_from, schedule}

-- The index that the cycle gives stands in the list.
abbrev pub IsValid : {F : Type 0} → RoundRobin F → Type 0
IsValid s = (s.cycle < length s.nodes) ⊎ (length s.nodes ≡ 0)

module _ {F : Type 0} where
  -- The index that the cycle gives after `k` others.
  unfoldable pub position : RoundRobin F → ℕ → ℕ
  position s k =
      if ltb (s.cycle + k) (length s.nodes) then s.cycle + k else s.cycle + k - length s.nodes

  position-advance :
      (s : RoundRobin F) (k : ℕ)
      → s.cycle < length s.nodes
      → suc k < length s.nodes
      → position (advance s) k ≡ position s (suc k)
  unfolding position advance
  position-advance s k v h = ground arith

  position_self : (s : RoundRobin F) → s.cycle < length s.nodes → position s 0 ≡ s.cycle
  unfolding position
  position_self s v = ground arith

  pub advance-IsValid :
      (s : RoundRobin F) → s.cycle < length s.nodes → (advance s).cycle < length s.nodes
  unfolding advance
  advance-IsValid s v = ground arith

module _ {F : Type 0} ⦃fl : Float F⦄ (request : Request F) where
  -- The nodes that the cycle gives before `k` others cannot take the request.
  abbrev pub PassesOver : RoundRobin F → ℕ → Type 0
  PassesOver s k =
      (j : ℕ) (n : Node F)
      → j < k
      → get_elem? s.nodes (position s j) ≡ some n
      → fits request n ≡ false

  -- The request went to the `turn`-th node that the cycle gives, the first that can take it.
  pub record IsFound (s : RoundRobin F) (rounds : ℕ) (t : RoundRobin F) (r : SchedulingResult F)
      : Type 0 where
    pub turn : ℕ
    pub node : Node F
    pub accepts : r.accepted ≡ true
    pub in_time : turn < rounds
    pub stands : get_elem? s.nodes (position s turn) ≡ some node
    pub able : fits request node ≡ true
    pub named : r.node_id ≡ some node.node_id
    pub charged : t.nodes ≡ allocate_at request (position s turn) s.nodes
    pub counted : t.counter ≡ s.counter + suc turn
    pub passed : PassesOver s turn

  -- No node that the cycle gave can take the request, and the nodes are as before.
  pub record IsMissed (s : RoundRobin F) (rounds : ℕ) (t : RoundRobin F) (r : SchedulingResult F)
      : Type 0 where
    pub refuses : r.accepted ≡ false
    pub unnamed : r.node_id ≡ none
    pub kept : t.nodes ≡ s.nodes
    pub counted : t.counter ≡ s.counter + rounds
    pub passed : PassesOver s rounds

  abbrev Outcome : RoundRobin F → ℕ → RoundRobin F × SchedulingResult F → Type 0
  Outcome s rounds p = IsFound s rounds p.0 p.1 ⊎ IsMissed s rounds p.0 p.1

  PassesOver-suc :
      (s : RoundRobin F) (node : Node F) (k : ℕ)
      → s.cycle < length s.nodes
      → suc k ≤ length s.nodes
      → get_elem? s.nodes s.cycle ≡ some node
      → fits request node ≡ false
      → PassesOver (advance s) k
      → PassesOver s (suc k)
  unfolding advance
  PassesOver-suc s node k v h here no_fit rest zero n j_lt e =
      let q : some node ≡ some n =
        sym here ∙ ap (get_elem? s.nodes) (sym (position_self s v)) ∙ e in
      cc
  PassesOver-suc s node k v h here no_fit rest (suc j) n j_lt e =
      rest j n (omega arith) (ap (get_elem? s.nodes) (position-advance s j v (omega arith)) ∙ e)

  Outcome_suc :
      (s : RoundRobin F) (node : Node F) (rounds : ℕ) (p : RoundRobin F × SchedulingResult F)
      → s.cycle < length s.nodes
      → suc rounds ≤ length s.nodes
      → get_elem? s.nodes s.cycle ≡ some node
      → fits request node ≡ false
      → Outcome (advance s) rounds p
      → Outcome s (suc rounds) p
  unfolding advance
  Outcome_suc s node rounds p v h here no_fit (inl f) =
      let e = position-advance s f.turn v (omega (arith, f.in_time)) in
      inl (record {
        turn = suc f.turn;
        node = f.node;
        accepts = f.accepts;
        in_time = omega (arith, f.in_time);
        stands = ap (get_elem? s.nodes) (sym e) ∙ f.stands;
        able = f.able;
        named = f.named;
        charged = f.charged ∙ ap (λ i. allocate_at request i s.nodes) e;
        counted = omega (arith, f.counted);
        passed = PassesOver-suc s node f.turn v (omega (arith, f.in_time)) here no_fit f.passed;
      })
  Outcome_suc s node rounds p v h here no_fit (inr m) = inr (record {
    refuses = m.refuses;
    unnamed = m.unnamed;
    kept = m.kept;
    counted = omega (arith, m.counted);
    passed = PassesOver-suc s node rounds v h here no_fit m.passed;
  })

  pub search_from_here :
      (rounds : ℕ) (s : RoundRobin F) (node : Node F)
      → get_elem? s.nodes s.cycle ≡ some node
      → fits request node ≡ true
      → search_from (suc rounds) request s ≡ (
        record (advance s) { nodes = allocate_at request s.cycle s.nodes },
        accepted_on request node (Float.of_nat fl 0),
      )
  unfolding search_from advance
  search_from_here rounds s node here able = rw (search_from, here, able) refl

  pub search_from_on :
      (rounds : ℕ) (s : RoundRobin F) (node : Node F)
      → get_elem? s.nodes s.cycle ≡ some node
      → fits request node ≡ false
      → search_from (suc rounds) request s ≡ search_from rounds request (advance s)
  unfolding search_from
  search_from_on rounds s node here no_fit = rw (search_from, here, no_fit) refl

  search_from_lem :
      (rounds : ℕ) (s : RoundRobin F)
      → s.cycle < length s.nodes
      → rounds ≤ length s.nodes
      → Outcome s rounds (search_from rounds request s)
  unfolding search_from advance
  search_from_lem zero s v h = inr (record {
    refuses = refl;
    unnamed = refl;
    kept = refl;
    counted = omega arith;
    passed = λ j n l e. absurd (omega arith);
  })
  search_from_lem (suc rounds) s v h =
      let (node, here) = get_elem?-some s.nodes s.cycle v in
      elim (Bool-cases (fits request node)) [
        | inl able ↦
            subst (Outcome s (suc rounds)) (sym (search_from_here rounds s node here able)) (
              inl (record {
                turn = 0;
                node = node;
                accepts = refl;
                in_time = omega arith;
                stands = ap (get_elem? s.nodes) (position_self s v) ∙ here;
                able = able;
                named = refl;
                charged = ap (λ i. allocate_at request i s.nodes) (sym (position_self s v));
                counted = refl;
                passed = λ j n l e. absurd (omega arith);
              }))
        | inr no_fit ↦
            subst (Outcome s (suc rounds)) (sym (search_from_on rounds s node here no_fit)) (
              Outcome_suc s node rounds _ v h here no_fit
                (search_from_lem rounds (advance s) (advance-IsValid s v) (omega arith)))
      ]

  pub schedule_lem :
      (s : RoundRobin F) → IsValid s → Outcome s (length s.nodes) (schedule request s)
  unfolding schedule
  schedule_lem s (inl v) = search_from_lem (length s.nodes) s v (omega arith)
  schedule_lem s (inr e) =
      subst (λ n. Outcome s n (search_from n request s)) (sym e)
        (inr (record {
          refuses = refl;
          unnamed = refl;
          kept = refl;
          counted = omega arith;
          passed = λ j n l e. absurd (omega arith);
        }))
