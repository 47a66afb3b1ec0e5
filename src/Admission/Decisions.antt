-- ===== src/Admission/Decisions.antt =====
-- When `decide` accepts, queues and rejects.
use dynamo_serve.Base.{
  ℕ, ◌+◌, ◌≡◌, ◌↔◌, ap, refl, true, false, List, [], ◌∷◌, some, arith, Elem, Bool-cases,
  Option-cases, inl, inr, leb, leb→le,
}
use dynamo_serve.Base.Int.{ℤ, pos, pos_part, neg_part, ◌≤ℤ◌}
use dynamo_serve.Float.{Float}
use dynamo_serve.Models.Node.{Node}
use dynamo_serve.Models.Request.{batch, Request, kv_blocks_needed}
use dynamo_serve.Cache.Manager.{Manager, free_blocks}
use dynamo_serve.Sla.{SlaPolicy, Reason, ok, same_class, should_reject_at_load, no_reason}
use dynamo_serve.Admission.{
  Decision, accept, queue, reject, Controller, refuse, defer, admit, is_batch, any_free,
  check_headroom, check_pressure, check_spill, decide, cluster_pressure, cluster_load,
}

module _ {F : Type 0} where
  any_free-true :
      (needed : ℕ) (m : Manager F) (ns : List (Node F))
      → any_free needed m ns ≡ some true
      → (n : Node F) × (free : ℤ) × Elem n ns
        × (free_blocks n.node_id m ≡ some free)
        × (pos needed ≤ℤ free)
  unfolding any_free
  any_free-true needed m [] e = cc
  any_free-true needed m (n ∷ ns) e = elim (Option-cases (free_blocks n.node_id m)) [
    | inl gone ↦ absurd (ground arith)
    | inr (free, found) ↦ elim (Bool-cases (leb (needed + neg_part free) (pos_part free))) [
      | inl enough ↦ let h = leb→le _ _ enough in (n, free, inl refl, found, omega arith)
      | inr short ↦
          let rest : any_free needed m ns ≡ some true = ground arith in
          let (n', free', k, f, l) = any_free-true needed m ns rest in (n', free', inr k, f, l)
    ]
  ]

module _ {F : Type 0} ⦃fl : Float F⦄ (request : Request F) (nodes : List (Node F)) (m : Manager F)
    (c c' : Controller F) (why : Reason F) where
  headroom_accept :
      check_headroom request nodes m c ≡ some (c', accept, why)
      → (any_free (kv_blocks_needed request) m nodes ≡ some true) × (why ≡ ok)
  unfolding check_headroom refuse defer admit
  headroom_accept e = elim (Option-cases (any_free (kv_blocks_needed request) m nodes)) [
    | inl gone ↦ ground arith
    | inr (b, found) ↦ ground arith
  ]

  pressure_accept :
      check_pressure request nodes m c ≡ some (c', accept, why)
      → (any_free (kv_blocks_needed request) m nodes ≡ some true) × (why ≡ ok)
  unfolding check_pressure refuse defer
  pressure_accept e = ground (arith, headroom_accept)

  spill_accept :
      check_spill request nodes m c ≡ some (c', accept, why)
      → (any_free (kv_blocks_needed request) m nodes ≡ some true) × (why ≡ ok)
  unfolding check_spill refuse defer
  spill_accept e = ground (arith, pressure_accept)

  headroom_class :
      (d : Decision)
      → check_headroom request nodes m c ≡ some (c', d, why)
      → (d ≡ queue → is_batch request ≡ true) × (d ≡ reject → is_batch request ≡ false)
  unfolding check_headroom refuse defer admit
  headroom_class d e = elim (Option-cases (any_free (kv_blocks_needed request) m nodes)) [
    | inl gone ↦ ground arith
    | inr (b, found) ↦ ((λ q. ground arith), (λ q. ground arith))
  ]

  pressure_class :
      (d : Decision)
      → check_pressure request nodes m c ≡ some (c', d, why)
      → (d ≡ queue → is_batch request ≡ true) × (d ≡ reject → is_batch request ≡ false)
  unfolding check_pressure refuse defer
  pressure_class d e =
      ((λ q. ground (arith, headroom_class d)), (λ q. ground (arith, headroom_class d)))

  spill_class :
      (d : Decision)
      → check_spill request nodes m c ≡ some (c', d, why)
      → (d ≡ queue → is_batch request ≡ true) × (d ≡ reject → is_batch request ≡ false)
  unfolding check_spill refuse defer
  spill_class d e =
      ((λ q. ground (arith, pressure_class d)), (λ q. ground (arith, pressure_class d)))

  batch_no_veto :
      (load pressure draw : F) (p : SlaPolicy F)
      → is_batch request ≡ true
      → should_reject_at_load request load pressure draw p ≡ (false, no_reason)
  unfolding should_reject_at_load is_batch
  batch_no_veto load pressure draw p b = rw b refl

  -- An accepted request passed the veto of the SLA policy, met a memory pressure below the threshold
  -- for rejection, and there is a node on which the KV cache manager counts enough free blocks.
  pub decide_accept :
      (draw : F) (p : SlaPolicy F)
      → decide draw request nodes m p c ≡ some (c', accept, why)
      → ((should_reject_at_load request (cluster_load nodes) (cluster_pressure nodes) draw p).0
          ≡ false)
        × (fl.le c.mem_reject_thr (cluster_pressure nodes) ≡ false)
        × ((n : Node F) × (free : ℤ) × Elem n nodes
            × (free_blocks n.node_id m ≡ some free)
            × (pos (kv_blocks_needed request) ≤ℤ free))
  unfolding decide refuse
  decide_accept draw p e =
      let veto =
        should_reject_at_load request (cluster_load nodes) (cluster_pressure nodes) draw p in
      elim (Bool-cases veto.0) [
        | inl t ↦ absurd (ground arith)
        | inr f ↦ elim (Bool-cases (fl.le c.mem_reject_thr (cluster_pressure nodes))) [
          | inl t ↦ absurd (ground arith)
          | inr g ↦ (f, g, any_free-true _ m nodes (ground (arith, spill_accept)))
        ]
      ]

  class_of : is_batch request ≡ true → request.sla_class ≡ batch
  unfolding is_batch same_class
  class_of h = ground arith

  of_class : request.sla_class ≡ batch → is_batch request ≡ true
  unfolding is_batch same_class
  of_class h = ground arith

  -- Only BATCH requests are queued.
  pub decide_queue :
      (draw : F) (p : SlaPolicy F)
      → decide draw request nodes m p c ≡ some (c', queue, why)
      → request.sla_class ≡ batch
  unfolding decide refuse
  decide_queue draw p e = class_of (ground (arith, spill_class queue))

  -- A BATCH request is rejected exactly where the memory pressure has reached the threshold for
  -- rejection.
  pub decide-batch_reject :
      (draw : F) (p : SlaPolicy F) (d : Decision)
      → request.sla_class ≡ batch
      → decide draw request nodes m p c ≡ some (c', d, why)
      → (d ≡ reject) ↔ (fl.le c.mem_reject_thr (cluster_pressure nodes) ≡ true)
  unfolding decide refuse
  decide-batch_reject draw p d b e =
      let is_b = of_class b in
      let calm =
        ap (λ v. v.0) (batch_no_veto (cluster_load nodes) (cluster_pressure nodes) draw p is_b) in
      ((λ q. ground (arith, spill_class d)), (λ q. ground arith))
