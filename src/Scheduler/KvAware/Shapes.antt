-- ===== src/Scheduler/KvAware/Shapes.antt =====
-- The ways in which a call of the scheduler can end, taken apart once for the theorems about it.
use dynamo_serve.Base.{
  ℕ, ◌+◌, ◌≡◌, refl, sym, ap, Bool, true, false, not, [], ◌∷◌, Option, none, some, String, Dict,
  bind-some, some_inj, ◌>>=◌, if◌then◌else◌, ltb, leb,
}
use dynamo_serve.Float.{Float}
use dynamo_serve.Models.Node.{Node}
use dynamo_serve.Models.Request.{Request, kv_blocks_needed, realtime}
use dynamo_serve.Sla.{same_class, Reason}
use dynamo_serve.Cache.Manager.{Manager}
use dynamo_serve.Cache.Eviction.{force_evict}
use dynamo_serve.Admission.{Controller, Decision, decide, accept, queue, reject}
use dynamo_serve.Placement.{Placement, place}
use dynamo_serve.Scheduler.Base.{SchedulingResult, rejected_with, no_placement, refused, queued}
use dynamo_serve.Scheduler.KvAware.{
  KvAware, most_loaded_node, engine, try_preempt_for, find_placement, commit, dispatch, schedule,
}

module _ {F : Type 0} ⦃fl : Float F⦄ (monotonic : ℕ → F) where
  abbrev pub preempted : ℕ → Manager F → KvAware F → KvAware F
  preempted evicted m s = record s {
    kv_manager = m;
    total_preempted = if ltb 0 evicted then s.total_preempted + 1 else s.total_preempted;
  }

  -- A preemption does nothing, or evicts on the node with the highest memory pressure.
  pub data Preempts (request : Request F) (s s' : KvAware F) : Type 0 where
    idle : s' ≡ s → Preempts request s s'
    evicts :
        (target : Node F) (m : Manager F) (n : ℕ)
        → force_evict monotonic target.node_id (kv_blocks_needed request) s.kv_manager ≡ some (m, n)
        → s' ≡ preempted n m s
        → Preempts request s s'

  pub try_preempt_for-Preempts :
      (request : Request F) (s s' : KvAware F) (evicted : Bool)
      → try_preempt_for monotonic request s ≡ some (s', evicted)
      → Preempts request s s'
  unfolding try_preempt_for
  try_preempt_for-Preempts request s s' evicted e =
      go s.preemption_enabled (same_class request.sla_class realtime) s.inflight e
    where
      unchanged :
          ◌≡◌ {A = Option (KvAware F × Bool)} (some (s, false)) (some (s', evicted))
          → Preempts request s s'
      unchanged q = idle (sym (ap (λ p. p.0) (some_inj q)))

      go :
          (enabled urgent : Bool) (inflight : Dict String (String × ℕ × F))
          → ◌≡◌ {A = Option (KvAware F × Bool)}
              (if not enabled
                then some (s, false)
                else if not urgent
                then some (s, false)
                else elim inflight [
                  | [] ↦ some (s, false)
                  | _ ∷ _ ↦ most_loaded_node s.nodes >>= λ target.
                      force_evict monotonic target.node_id (kv_blocks_needed request) s.kv_manager
                      >>= λ p. some (preempted p.1 p.0 s, leb (kv_blocks_needed request) p.1)
                ])
              (some (s', evicted))
          → Preempts request s s'
      go false urgent inflight q = unchanged q
      go true false inflight q = unchanged q
      go true true [] q = unchanged q
      go true true (x ∷ xs) q =
          let (target, a, q₁) = bind-some (most_loaded_node s.nodes) _ q in
          let ((m, n), b, q₂) =
            bind-some (force_evict monotonic target.node_id (kv_blocks_needed request) s.kv_manager)
              _ q₁ in
          evicts target m n b (sym (ap (λ p. p.0) (some_inj q₂)))

  -- A placement is found in the state as it is, or after a preemption.
  pub find_placement-Preempts :
      (request : Request F) (s s' : KvAware F) (found : Option (Placement F))
      → find_placement monotonic request s ≡ some (s', found)
      → Preempts request s s'
  unfolding find_placement
  find_placement-Preempts request s s' found e =
      let (first, a, e₁) = bind-some (place (engine s) request s.nodes) _ e in go first e₁
    where
      decided :
          (t : KvAware F) (evicted : Bool)
          → Preempts request s t
          → ◌≡◌ {A = Option (KvAware F × Option (Placement F))}
              (if evicted
                then place (engine t) request t.nodes >>= (λ second. some (t, second))
                else some (t, none))
              (some (s', found))
          → Preempts request s s'
      decided t true w q =
          let (second, b, q₁) = bind-some (place (engine t) request t.nodes) _ q in
          rw (← ap (λ p. p.0) (some_inj q₁)) w
      decided t false w q = rw (← ap (λ p. p.0) (some_inj q)) w

      go :
          (first : Option (Placement F))
          → ◌≡◌ {A = Option (KvAware F × Option (Placement F))}
              (elim first [
                | some d ↦ some (s, some d)
                | none ↦ try_preempt_for monotonic request s >>= λ p.
                    if p.1
                    then place (engine p.0) request p.0.nodes >>= (λ second. some (p.0, second))
                    else some (p.0, none)
              ])
              (some (s', found))
          → Preempts request s s'
      go (some d) q = idle (sym (ap (λ p. p.0) (some_inj q)))
      go none q =
          let ((t, evicted), a, q₁) = bind-some (try_preempt_for monotonic request s) _ q in
          decided t evicted (try_preempt_for-Preempts request s t evicted a) q₁

  -- A call of `schedule` ends at the admission gate, without a placement, or with one.
  pub data Schedules (draw : F) (request : Request F) (s s' : KvAware F) (r : SchedulingResult F)
      : Type 0 where
    gated :
        (c : Controller F)
        → s' ≡ record s { admission = c }
        → r.accepted ≡ false
        → Schedules draw request s s' r
    unplaced :
        (c : Controller F)
        → Preempts request (record s { admission = c }) s'
        → r.accepted ≡ false
        → Schedules draw request s s' r
    placed :
        (c : Controller F) (t : KvAware F) (d : Placement F)
        → Preempts request (record s { admission = c }) t
        → commit monotonic request d t ≡ some (s', r)
        → Schedules draw request s s' r

  pub schedule-Schedules :
      (draw : F) (request : Request F) (s s' : KvAware F) (r : SchedulingResult F)
      → schedule monotonic draw request s ≡ some (s', r)
      → Schedules draw request s s' r
  unfolding schedule dispatch
  schedule-Schedules draw request s s' r e =
      let ((c, decision, why), a, e₁) =
        bind-some (decide draw request s.nodes s.kv_manager s.sla_policy s.admission) _ e in
      go c decision why e₁
    where
      ends :
          (c : Controller F) (x : SchedulingResult F)
          → x.accepted ≡ false
          → ◌≡◌ {A = Option (KvAware F × SchedulingResult F)}
              (some (record s { admission = c }, x))
              (some (s', r))
          → Schedules draw request s s' r
      ends c x no_said q =
          gated c (sym (ap (λ p. p.0) (some_inj q)))
            (rw (← ap (λ p. p.1.accepted) (some_inj q)) no_said)

      continues :
          (c : Controller F) (t : KvAware F) (found : Option (Placement F))
          → Preempts request (record s { admission = c }) t
          → ◌≡◌ {A = Option (KvAware F × SchedulingResult F)}
              (elim found [
                | none ↦ some (t, rejected_with request no_placement)
                | some d ↦ commit monotonic request d t
              ])
              (some (s', r))
          → Schedules draw request s s' r
      continues c t none w q =
          unplaced c (rw (← ap (λ p. p.0) (some_inj q)) w)
            (sym (ap (λ p. p.1.accepted) (some_inj q)))
      continues c t (some d) w q = placed c t d w q

      go :
          (c : Controller F) (decision : Decision) (why : Reason F)
          → ◌≡◌ {A = Option (KvAware F × SchedulingResult F)}
              (elim decision [
                | reject ↦ some (record s { admission = c }, rejected_with request (refused why))
                | queue ↦ some (record s { admission = c }, rejected_with request (queued why))
                | accept ↦ dispatch monotonic request (record s { admission = c })
              ])
              (some (s', r))
          → Schedules draw request s s' r
      go c reject why q = ends c (rejected_with request (refused why)) refl q
      go c queue why q = ends c (rejected_with request (queued why)) refl q
      go c accept why q =
          let ((t, found), b, q₁) =
            bind-some (find_placement monotonic request (record s { admission = c })) _ q in
          continues c t found
            (find_placement-Preempts request (record s { admission = c }) t found b) q₁
