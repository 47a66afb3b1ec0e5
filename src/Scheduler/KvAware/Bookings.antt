-- ===== src/Scheduler/KvAware/Bookings.antt =====
-- What `schedule` books for a request that it accepts, and that it books nothing for any other.
use dynamo_serve.Base.{
  ℕ, ◌+◌, ◌≡◌, refl, sym, ◌∙◌, ap, subst, true, false, some, String, bind-some, some_inj, lookup,
  insert, lookup-insert, beq_refl, string_eq, if◌then◌else◌,
}
use dynamo_serve.Float.{Float}
use dynamo_serve.Models.Node
use dynamo_serve.Models.Node.{Node}
use dynamo_serve.Models.Request.{Request, kv_blocks_needed, estimated_memory_gb}
use dynamo_serve.Cache.Allocation.{allocate}
use dynamo_serve.Placement.{Placement}
use dynamo_serve.Scheduler.Base.{SchedulingResult}
use dynamo_serve.Scheduler.KvAware.{KvAware, update_node, commit, schedule}
use dynamo_serve.Scheduler.KvAware.Shapes.{
  Preempts, idle, evicts, Schedules, gated, unplaced, placed, schedule-Schedules,
}

module _ {F : Type 0} ⦃fl : Float F⦄ (monotonic : ℕ → F) where
  -- The two states have the same nodes, requests in flight and scheduled requests.
  record SameBooks (s s' : KvAware F) : Type 0 where
    nodes : s'.nodes ≡ s.nodes
    inflight : s'.inflight ≡ s.inflight
    scheduled : s'.total_scheduled ≡ s.total_scheduled

  Preempts-SameBooks :
      (request : Request F) (s s' : KvAware F) → Preempts monotonic request s s' → SameBooks s s'
  Preempts-SameBooks request s s' (idle q) =
      subst (SameBooks s) (sym q) (record { nodes = refl; inflight = refl; scheduled = refl })
  Preempts-SameBooks request s s' (evicts target m n e q) =
      subst (SameBooks s) (sym q) (record { nodes = refl; inflight = refl; scheduled = refl })

  -- The request is in flight on the node of the answer, which alone is charged, and counted.
  record Books (request : Request F) (s s' : KvAware F) (r : SchedulingResult F) (node_id : String)
      : Type 0 where
    accepts : r.accepted ≡ true
    named : r.node_id ≡ some node_id
    inflight :
        s'.inflight
        ≡ insert request.request_id
            (node_id, kv_blocks_needed request, estimated_memory_gb request)
            s.inflight
    charged :
        update_node node_id
          (λ n. Node.allocate n (kv_blocks_needed request) (estimated_memory_gb request))
          s.nodes
        ≡ some s'.nodes
    scheduled : s'.total_scheduled ≡ s.total_scheduled + 1

  commit-Books :
      (request : Request F) (d : Placement F) (s s' : KvAware F) (r : SchedulingResult F)
      → commit monotonic request d s ≡ some (s', r)
      → Books request s s' r d.node_id
  unfolding commit
  commit-Books request d s s' r e =
      let ((m, blocks, hit), a, e₁) =
        bind-some (allocate monotonic d.node_id request s.kv_manager) _ e in
      let (nodes, u, e₂) = bind-some (update_node d.node_id _ s.nodes) _ e₁ in
      let same = some_inj e₂ in
      record {
        accepts = sym (ap (λ p. p.1.accepted) same);
        named = sym (ap (λ p. p.1.node_id) same);
        inflight = sym (ap (λ p. p.0.inflight) same);
        charged = u ∙ ap (λ p. some p.0.nodes) same;
        scheduled = sym (ap (λ p. p.0.total_scheduled) same);
      }

  Books-SameBooks :
      (request : Request F) (s t s' : KvAware F) (r : SchedulingResult F) (node_id : String)
      → SameBooks s t
      → Books request t s' r node_id
      → Books request s s' r node_id
  Books-SameBooks request s t s' r node_id k b = record {
    accepts = b.accepts;
    named = b.named;
    inflight = b.inflight ∙ ap (insert request.request_id _) k.inflight;
    charged = ap (update_node node_id _) (sym k.nodes) ∙ b.charged;
    scheduled = b.scheduled ∙ ap (λ n. n + 1) k.scheduled;
  }

  module _ (draw : F) (request : Request F) (s s' : KvAware F) (r : SchedulingResult F) where
    booked :
        schedule monotonic draw request s ≡ some (s', r)
        → r.accepted ≡ true
        → (node_id : String) × Books request s s' r node_id
    booked e yes_said = go (schedule-Schedules monotonic draw request s s' r e)
      where
        clash : r.accepted ≡ false → ⊥
        clash no_said = cc (sym no_said ∙ yes_said)

        go :
            Schedules monotonic draw request s s' r
            → (node_id : String) × Books request s s' r node_id
        go (gated c q no_said) = absurd (clash no_said)
        go (unplaced c w no_said) = absurd (clash no_said)
        go (placed c t d w k) =
            let same = Preempts-SameBooks request (record s { admission = c }) t w in
            (
              d.node_id,
              Books-SameBooks request s t s' r d.node_id
                  (record {
                    nodes = same.nodes;
                    inflight = same.inflight;
                    scheduled = same.scheduled;
                  })
                  (commit-Books request d t s' r k),
            )

    -- An accepted request is in flight on the node of the answer, with its KV blocks and its memory;
    -- that node and no other is charged with them, and the request is counted.
    pub schedule-Books :
        schedule monotonic draw request s ≡ some (s', r)
        → r.accepted ≡ true
        → (node_id : String) × (r.node_id ≡ some node_id)
          × (lookup request.request_id s'.inflight
              ≡ some (node_id, kv_blocks_needed request, estimated_memory_gb request))
          × (update_node node_id
                (λ n. Node.allocate n (kv_blocks_needed request) (estimated_memory_gb request))
                s.nodes
              ≡ some s'.nodes)
          × (s'.total_scheduled ≡ s.total_scheduled + 1)
    schedule-Books e yes_said =
        let (node_id, b) = booked e yes_said in
        (
          node_id,
          b.named,
          ap (lookup request.request_id) b.inflight
              ∙ lookup-insert request.request_id request.request_id _ s.inflight
              ∙ ap
                  (λ c.
                    if c
                    then some (node_id, kv_blocks_needed request, estimated_memory_gb request)
                    else lookup request.request_id s.inflight)
                  (beq_refl request.request_id),
          b.charged,
          b.scheduled,
        )

    -- A request that is not accepted changes no node, leaves what is in flight as it was and is not
    -- counted.
    pub schedule-SameBooks :
        schedule monotonic draw request s ≡ some (s', r)
        → r.accepted ≡ false
        → (s'.nodes ≡ s.nodes)
          × (s'.inflight ≡ s.inflight)
          × (s'.total_scheduled ≡ s.total_scheduled)
    schedule-SameBooks e no_said = go (schedule-Schedules monotonic draw request s s' r e)
      where
        go :
            Schedules monotonic draw request s s' r
            → (s'.nodes ≡ s.nodes)
              × (s'.inflight ≡ s.inflight)
              × (s'.total_scheduled ≡ s.total_scheduled)
        go (gated c q _) = (
          ap (λ (u : KvAware F). u.nodes) q,
          ap (λ (u : KvAware F). u.inflight) q,
          ap (λ (u : KvAware F). u.total_scheduled) q,
        )
        go (unplaced c w _) =
            let same = Preempts-SameBooks request (record s { admission = c }) s' w in
            (same.nodes, same.inflight, same.scheduled)
        go (placed c t d w k) = absurd (clash (commit-Books request d t s' r k).accepts)
          where
            clash : r.accepted ≡ true → ⊥
            clash yes_said = cc (sym no_said ∙ yes_said)
