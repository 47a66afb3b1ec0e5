-- ===== src/Scheduler/KvAware/Preemption.antt =====
-- The scheduler over time: its operations as steps, and what a preemption finds to evict.
use dynamo_serve.Base.{
  ℕ, ◌+◌, ◌≡◌, refl, sym, ◌∙◌, ap, subst, true, List, [], ◌∷◌, Option, none, some, String, Dict,
  bind-some, some_inj, lookup, delete, string_eq, ◌>>=◌,
}
use dynamo_serve.Float.{Float}
use dynamo_serve.Models.Node
use dynamo_serve.Models.Node.{Node}
use dynamo_serve.Models.Request.{Request, kv_blocks_needed}
use dynamo_serve.Cache.Policy.{Policy}
use dynamo_serve.Cache.Manager
use dynamo_serve.Cache.Manager.{Manager}
use dynamo_serve.Cache.Eviction.{force_evict}
use dynamo_serve.Cache.Allocation.{allocate, free}
use dynamo_serve.Admission.{pop_queued}
use dynamo_serve.Placement.{Placement}
use dynamo_serve.Scheduler.Base.{SchedulingResult}
use dynamo_serve.Scheduler.KvAware.{
  KvAware, update_node, commit, schedule, drain, finish, on_complete, on_fail,
}
use dynamo_serve.Scheduler.KvAware.Shapes.{
  Preempts, idle, evicts, Schedules, gated, unplaced, placed, schedule-Schedules,
}
use dynamo_serve.Scheduler.KvAware.Pins.{
  init-IsHeld, IsHeld, maybe_evict-IsHeld, allocate-IsHeld, free_nothing,
}

module _ {F : Type 0} ⦃fl : Float F⦄ (monotonic : ℕ → F) where
  -- The blocks in use stay pinned from `s` to `s'`, and `s'` counts the same preemptions.
  pub record Calm (s s' : KvAware F) : Type 0 where
    pub held : IsHeld s'.kv_manager.heap
    pub preempted : s'.total_preempted ≡ s.total_preempted

  Calm-trans : {s s' s'' : KvAware F} → Calm s s' → Calm s' s'' → Calm s s''
  Calm-trans a b = record { held = b.held; preempted = b.preempted ∙ a.preempted }

  -- Where every block in use is pinned, a preemption evicts nothing.
  Preempts-Calm :
      (request : Request F) (s s' : KvAware F)
      → IsHeld s.kv_manager.heap
      → Preempts monotonic request s s'
      → Calm s s'
  Preempts-Calm request s s' h (idle q) =
      subst (Calm s) (sym q) (record { held = h; preempted = refl })
  Preempts-Calm request s s' h (evicts target m n e q) =
      let (same, none_there) =
        maybe_evict-IsHeld monotonic target.node_id (kv_blocks_needed request) s.kv_manager m n h
          (unfold force_evict in e) in
      subst (Calm s) (sym q) (record {
        held = subst (λ (k : Manager F). IsHeld k.heap) (sym same) h;
        preempted = rw none_there refl;
      })

  commit-Calm :
      (request : Request F) (d : Placement F) (s s' : KvAware F) (r : SchedulingResult F)
      → IsHeld s.kv_manager.heap
      → commit monotonic request d s ≡ some (s', r)
      → Calm s s'
  unfolding commit
  commit-Calm request d s s' r h e =
      let ((m, blocks, hit), a, e₁) =
        bind-some (allocate monotonic d.node_id request s.kv_manager) _ e in
      let (nodes, u, e₂) = bind-some (update_node d.node_id _ s.nodes) _ e₁ in
      let same = ap (λ p. p.0) (some_inj e₂) in
      record {
        held =
            subst (λ (t : KvAware F). IsHeld t.kv_manager.heap) same
              (allocate-IsHeld monotonic d.node_id request s.kv_manager m blocks hit h a);
        preempted = ap (λ (t : KvAware F). t.total_preempted) (sym same);
      }

  pub schedule-Calm :
      (draw : F) (request : Request F) (s s' : KvAware F) (r : SchedulingResult F)
      → IsHeld s.kv_manager.heap
      → schedule monotonic draw request s ≡ some (s', r)
      → Calm s s'
  schedule-Calm draw request s s' r h e = go (schedule-Schedules monotonic draw request s s' r e)
    where
      go : Schedules monotonic draw request s s' r → Calm s s'
      go (gated c q no_said) = subst (Calm s) (sym q) (record { held = h; preempted = refl })
      go (unplaced c w no_said) =
          let calm = Preempts-Calm request (record s { admission = c }) s' h w in
          record { held = calm.held; preempted = calm.preempted }
      go (placed c t d w k) =
          let calm = Preempts-Calm request (record s { admission = c }) t h w in
          let last = commit-Calm request d t s' r calm.held k in
          record { held = last.held; preempted = last.preempted ∙ calm.preempted }

  drain-Calm :
      (draws : ℕ → F) (k : ℕ) (rs : List (Request F)) (s s' : KvAware F)
      → IsHeld s.kv_manager.heap
      → drain monotonic draws k rs s ≡ some s'
      → Calm s s'
  unfolding drain
  drain-Calm draws k [] s s' h e =
      subst (Calm s) (some_inj e) (record { held = h; preempted = refl })
  drain-Calm draws k (r ∷ rs) s s' h e =
      let ((t, result), a, e₁) = bind-some (schedule monotonic (draws k) r s) _ e in
      let first = schedule-Calm (draws k) r s t result h a in
      Calm-trans first (drain-Calm draws (k + 1) rs t s' first.held e₁)

  finish-Calm :
      (request : Request F) (node_id : String) (s s' : KvAware F)
      → IsHeld s.kv_manager.heap
      → finish monotonic request node_id s ≡ some s'
      → Calm s s'
  unfolding finish
  finish-Calm request node_id s s' h e = go (lookup request.request_id s.inflight) e
    where
      calm :
          (t : KvAware F)
          → t.kv_manager ≡ s.kv_manager
          → t.total_preempted ≡ s.total_preempted
          → t ≡ s'
          → Calm s s'
      calm t m p q =
          subst (Calm s) q
            (record { held = subst (λ (m : Manager F). IsHeld m.heap) (sym m) h; preempted = p })

      go :
          (entry : Option (String × ℕ × F))
          → ◌≡◌ {A = Option (KvAware F)}
              (elim entry [
                | none ↦ some s
                | some (placed_on, blocks, memory_gb) ↦
                    free monotonic placed_on [] true s.kv_manager >>= λ m.
                    update_node node_id (λ n. Node.release n blocks memory_gb) s.nodes >>= λ nodes.
                    some (record s {
                      nodes = nodes;
                      kv_manager = m;
                      inflight = delete request.request_id s.inflight;
                    })
              ])
              (some s')
          → Calm s s'
      go none q = calm s refl refl (some_inj q)
      go (some (placed_on, blocks, memory_gb)) q =
          let (m, a, q₁) = bind-some (free monotonic placed_on [] true s.kv_manager) _ q in
          let (nodes, b, q₂) = bind-some (update_node node_id _ s.nodes) _ q₁ in
          calm _ (free_nothing monotonic placed_on s.kv_manager m a) refl (some_inj q₂)

  pub on_complete-Calm :
      (draws : ℕ → F) (request : Request F) (node_id : String) (s s' : KvAware F)
      → IsHeld s.kv_manager.heap
      → on_complete monotonic draws request node_id s ≡ some s'
      → Calm s s'
  unfolding on_complete
  on_complete-Calm draws request node_id s s' h e =
      let (t, a, e₁) = bind-some (finish monotonic request node_id s) _ e in
      let first = finish-Calm request node_id s t h a in
      let (c, released) = pop_queued 16 t.nodes t.admission in
      let second = drain-Calm draws 0 released (record t { admission = c }) s' first.held e₁ in
      record { held = second.held; preempted = second.preempted ∙ first.preempted }

  pub on_fail-Calm :
      (request : Request F) (node : Option String) (s s' : KvAware F)
      → IsHeld s.kv_manager.heap
      → on_fail monotonic request node s ≡ some s'
      → Calm s s'
  unfolding on_fail
  on_fail-Calm request node s s' h e = go (lookup request.request_id s.inflight) node e
    where
      calm :
          (nodes : List (Node F)) (inflight : Dict String (String × ℕ × F))
          → record s { nodes = nodes; inflight = inflight } ≡ s'
          → Calm s s'
      calm nodes inflight q = subst (Calm s) q (record { held = h; preempted = refl })

      go :
          (entry : Option (String × ℕ × F)) (node : Option String)
          → ◌≡◌ {A = Option (KvAware F)}
              (elim entry [
                | none ↦ some s
                | some (placed_on, blocks, memory_gb) ↦ elim node [
                  | none ↦ some (record s { inflight = delete request.request_id s.inflight })
                  | some node_id ↦
                      update_node node_id (λ n. Node.release n blocks memory_gb) s.nodes
                      >>= λ nodes. some (record s {
                        nodes = nodes;
                        inflight = delete request.request_id s.inflight;
                      })
                ]
              ])
              (some s')
          → Calm s s'
      go none handed q = subst (Calm s) (some_inj q) (record { held = h; preempted = refl })
      go (some (placed_on, blocks, memory_gb)) none q = calm _ _ (some_inj q)
      go (some (placed_on, blocks, memory_gb)) (some node_id) q =
          let (nodes, b, q₁) = bind-some (update_node node_id _ s.nodes) _ q in
          calm _ _ (some_inj q₁)

  -- The runs of a scheduler: a request arrives, completes or fails.
  pub data Step : KvAware F → KvAware F → Type 0 where
    scheduled :
        {s s' : KvAware F} (draw : F) (request : Request F) (r : SchedulingResult F)
        → schedule monotonic draw request s ≡ some (s', r)
        → Step s s'
    completed :
        {s s' : KvAware F} (draws : ℕ → F) (request : Request F) (node_id : String)
        → on_complete monotonic draws request node_id s ≡ some s'
        → Step s s'
    failed :
        {s s' : KvAware F} (request : Request F) (node : Option String)
        → on_fail monotonic request node s ≡ some s'
        → Step s s'

  pub data Run : KvAware F → KvAware F → Type 0 where
    start : {s : KvAware F} → Run s s
    next : {s s' s'' : KvAware F} → Run s s' → Step s' s'' → Run s s''

  Step-Calm : {s s' : KvAware F} → IsHeld s.kv_manager.heap → Step s s' → Calm s s'
  Step-Calm h (scheduled draw request r e) = schedule-Calm draw request _ _ r h e
  Step-Calm h (completed draws request node_id e) = on_complete-Calm draws request node_id _ _ h e
  Step-Calm h (failed request node e) = on_fail-Calm request node _ _ h e

  pub Run-Calm : {s s' : KvAware F} → IsHeld s.kv_manager.heap → Run s s' → Calm s s'
  Run-Calm h start = record { held = h; preempted = refl }
  Run-Calm h (next run step) =
      let first = Run-Calm h run in Calm-trans first (Step-Calm first.held step)

  -- From a new KV cache manager, whatever is scheduled, completed and failed: every block in use
  -- stays pinned, so that no preemption evicts anything and the count of preemptions stays as it was.
  pub Run-preempts_nothing :
      (nodes : List (Node F)) (block_size : ℕ) (policy : Policy F) (s s' : KvAware F)
      → s.kv_manager ≡ Manager.init monotonic nodes block_size policy
      → Run s s'
      → (s'.total_preempted ≡ s.total_preempted) × IsHeld s'.kv_manager.heap
  Run-preempts_nothing nodes block_size policy s s' fresh run =
      let held =
        subst (λ (m : Manager F). IsHeld m.heap) (sym fresh)
          (init-IsHeld monotonic nodes block_size policy) in
      let calm = Run-Calm held run in (calm.preempted, calm.held)
