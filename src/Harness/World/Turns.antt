-- ===== src/Harness/World/Turns.antt =====
-- What RoundRobinScheduler leaves of the nodes that benchmarks/harness.py looks at: their ids, and that
-- no node has a zero to divide by.
use dynamo_serve.Base.{
  All, ℕ, zero, suc, ◌≡◌, refl, get_elem?, string_eq, Bool-cases, Option-cases, inl, inr,
}
use dynamo_serve.Float.{Float}
use dynamo_serve.Models.Node
use dynamo_serve.Models.Node.{Node}
use dynamo_serve.Models.Request.{Request}
use dynamo_serve.Runtime.{can_run, has_memory}
use dynamo_serve.Scheduler.Base.{allocate_at, fits}
use dynamo_serve.Scheduler.RoundRobin
use dynamo_serve.Scheduler.RoundRobin.{RoundRobin}
use dynamo_serve.Harness.World.Ids.{All-modify, ids_of, ids_of-modify}
use dynamo_serve.Harness.World.{Divides}

module _ {F : Type 0} ⦃fl : Float F⦄ where
  pub search_from-ids :
      (rounds : ℕ) (request : Request F) (s : RoundRobin F)
      → ids_of (RoundRobin.search_from rounds request s).0.nodes ≡ ids_of s.nodes
  unfolding RoundRobin.search_from RoundRobin.advance allocate_at
  search_from-ids zero request s = refl
  search_from-ids (suc rounds) request s = elim (Option-cases (get_elem? s.nodes s.cycle)) [
    | inl e ↦ rw (RoundRobin.search_from, e) (search_from-ids rounds request (RoundRobin.advance s))
    | inr (n, e) ↦ elim (Bool-cases (fits request n)) [
      | inl able ↦
          rw (RoundRobin.search_from, e) (rw able (ids_of-modify s.nodes s.cycle _ (λ m. refl)))
      | inr full ↦
          rw (RoundRobin.search_from, e)
            (rw full (search_from-ids rounds request (RoundRobin.advance s)))
    ]
  ]

  Divides-allocate :
      (n : Node F) (blocks : ℕ) (memory : F) → Divides n → Divides (Node.allocate n blocks memory)
  unfolding Node.allocate can_run has_memory
  Divides-allocate n blocks memory h = h

  pub Divides-release :
      (n : Node F) (blocks : ℕ) (memory : F) → Divides n → Divides (Node.release n blocks memory)
  unfolding Node.release can_run has_memory
  Divides-release n blocks memory h = h

  pub search_from-Divides :
      (rounds : ℕ) (request : Request F) (s : RoundRobin F)
      → All Divides s.nodes
      → All Divides (RoundRobin.search_from rounds request s).0.nodes
  unfolding RoundRobin.search_from RoundRobin.advance allocate_at
  search_from-Divides zero request s h = h
  search_from-Divides (suc rounds) request s h = elim (Option-cases (get_elem? s.nodes s.cycle)) [
    | inl e ↦
        rw (RoundRobin.search_from, e) (search_from-Divides rounds request (RoundRobin.advance s) h)
    | inr (n, e) ↦ elim (Bool-cases (fits request n)) [
      | inl able ↦
          rw (RoundRobin.search_from, e)
            (rw able (All-modify Divides s.nodes s.cycle _ (λ m. Divides-allocate m _ _) h))
      | inr full ↦
          rw (RoundRobin.search_from, e)
            (rw full (search_from-Divides rounds request (RoundRobin.advance s) h))
    ]
  ]
