-- ===== src/Failure/Schedule.antt =====
-- When scheduled failures fire: the rounds of `step`, event by event.
use dynamo_serve.Base.{
  ◌≡◌, refl, ap, ◌∙◌, ℕ, zero, suc, ◌+◌, Bool, true, false, if◌then◌else◌, String, List, [], ◌∷◌,
  some, get_elem?, ◌==◌, string_eq, arith, inl, inr, Bool-cases, Option-cases, Elem, subst,
  some_inj,
}
use dynamo_serve.Float.{Float}
use dynamo_serve.Models.Node.{Node}
use dynamo_serve.Failure.{
  FailureEvent, Saved, nothing, saved_loss, saved_spike, saved_link, saved_speed, Cluster, Injector,
  find_node, change_node, restore, known_target, recover, strike, pick_target, apply, is_expired,
  should_trigger, step_event, step_all, step,
}
use dynamo_serve.Failure.Recovery.{pick_target-same, apply-cases, degrade-node_id}
use dynamo_serve.Failure.Rounds.{Round, ends, lasts, waits, starts, step_event-Round}

module _ {F : Type 0} where
  restore-node_id : (old : Saved F) (n : Node F) → (restore old n).node_id ≡ n.node_id
  unfolding restore
  restore-node_id nothing n = refl
  restore-node_id (saved_loss _ _ _) n = refl
  restore-node_id (saved_spike _ _) n = refl
  restore-node_id (saved_link _ _) n = refl
  restore-node_id (saved_speed _ _) n = refl

  abbrev pub Known : String → List (Node F) → Type 0
  Known a ns = (n : Node F) × (find_node a ns ≡ some n)

  -- No change of attributes makes a node unknown.
  change_node-Known :
      (a b : String) (f : Node F → Node F) (ns : List (Node F))
      → ((n : Node F) → (f n).node_id ≡ n.node_id)
      → Known a ns
      → Known a (change_node b f ns)
  unfolding find_node change_node
  change_node-Known a b f [] same (n, h) = cc
  change_node-Known a b f (x ∷ xs) same (n, h) = elim (Bool-cases (x.node_id == a)) [
    | inl e ↦ elim (Bool-cases (x.node_id == b)) [
      | inl k ↦ rw k (f x, rw (same x, e) refl)
      | inr k ↦ rw k (x, rw e refl)
    ]
    | inr e ↦
        let (m, found) = change_node-Known a b f xs same (n, rw e at h) in
        elim (Bool-cases (x.node_id == b)) [
          | inl k ↦ rw k (n, rw (same x, e) (rw e at h))
          | inr k ↦ rw k (m, rw e found)
        ]
  ]

  recover-Known :
      (a : String) (ev : FailureEvent F) (c : Cluster F)
      → Known a c.nodes
      → Known a (recover ev c).1.nodes
  unfolding recover
  recover-Known a ev c k = elim (Option-cases ev.target_node_id) [
    | inl e ↦ rw (recover, e) k
    | inr (b, e) ↦ elim (Bool-cases ev.active) [
      | inl on ↦
          rw (recover, e)
            (rw on (
              change_node-Known a b (restore ev.orig_state) c.nodes (restore-node_id ev.orig_state)
                k))
      | inr off ↦ rw (recover, e) (rw off k)
    ]
  ]

first_place :
    (fired : Bool) (i : ℕ) (places : List ℕ)
    → fired ≡ true
    → Elem (i + 0) (if fired then i ∷ places else places)
first_place fired i places h = rw h (inl (omega arith))

later_place :
    (fired : Bool) (i m : ℕ) (places : List ℕ)
    → Elem m places
    → Elem m (if fired then i ∷ places else places)
later_place true i m places h = inr h
later_place false i m places h = h

module _ {F : Type 0} ⦃fl : Float F⦄ (random : ℕ → F) (choice : ℕ → ℕ) where
  should_trigger-nodes :
      (now : F) (ev : FailureEvent F) (c : Cluster F)
      → (should_trigger random choice now ev c).1.nodes ≡ c.nodes
  unfolding should_trigger
  should_trigger-nodes now ev c = ground arith

  apply-Known :
      (a : String) (now : F) (ev : FailureEvent F) (c : Cluster F)
      → Known a c.nodes
      → Known a (apply random choice now ev c).1.nodes
  unfolding strike
  apply-Known a now ev c k =
      let (nodes, _) = pick_target-same random choice ev c in
      elim (apply-cases random choice now ev c) [
        | inl e ↦ rw (e, nodes) k
        | inr (b, n, _, _, hit) ↦
            rw hit (
              change_node-Known a b _ _ (degrade-node_id ev.failure_type ev.magnitude) (rw nodes k))
      ]

  Round-Known :
      (a : String) (now : F) (ev : FailureEvent F) (c : Cluster F)
      {r : FailureEvent F × Cluster F × Bool}
      → Round random choice now ev c r
      → Known a c.nodes
      → Known a r.1.nodes
  Round-Known a now ev c (ends e) k = recover-Known a ev c k
  Round-Known a now ev c (lasts on) k = k
  Round-Known a now ev c (waits off e) k = rw (should_trigger-nodes now ev c) k
  Round-Known a now ev c (starts off e) k =
      apply-Known a now ev _ (rw (should_trigger-nodes now ev c) k)

  step_all-Known :
      (a : String) (now : F) (i : ℕ) (evs : List (FailureEvent F)) (c : Cluster F)
      → Known a c.nodes
      → Known a (step_all random choice now i evs c).1.nodes
  unfolding step_all
  step_all-Known a now i [] c k = k
  step_all-Known a now i (ev ∷ evs) c k =
      step_all-Known a now (suc i) evs (step_event random choice now ev c).1
        (Round-Known a now ev c (step_event-Round random choice now ev c) k)

  -- The event at place `j` of the list has a round of its own, with the cluster as it is then.
  abbrev HasRound : String → F → ℕ → ℕ → List (FailureEvent F) → Cluster F → FailureEvent F → Type 0
  HasRound a now i j evs c ev =
      let (evs', _, places) = step_all random choice now i evs c in
      (c' : Cluster F) × Known a c'.nodes
      × (get_elem? evs' j ≡ some (step_event random choice now ev c').0)
      × ((step_event random choice now ev c').2 ≡ true → Elem (i + j) places)

  step_all-at :
      (a : String) (now : F) (i j : ℕ) (evs : List (FailureEvent F)) (c : Cluster F)
      {ev : FailureEvent F}
      → get_elem? evs j ≡ some ev
      → Known a c.nodes
      → HasRound a now i j evs c ev
  unfolding step_all
  step_all-at a now i j [] c h k = cc
  step_all-at a now i zero (e ∷ evs) c {ev} h k =
      subst (HasRound a now i zero (e ∷ evs) c) (some_inj h)
        (c, k, refl, λ fires. first_place (step_event random choice now e c).2 i _ fires)
  step_all-at a now i (suc j) (e ∷ evs) c {ev} h k =
      let r = step_event random choice now e c in
      let (c', k', at, fires) =
        step_all-at a now (suc i) j evs r.1 h
          (Round-Known a now e c (step_event-Round random choice now e c) k) in
      let places = (step_all random choice now (suc i) evs r.1).2 in
      let sum : suc i + j ≡ i + suc j = omega arith in
      (
        c',
        k',
        at,
        λ due. later_place r.2 i (i + suc j) places (subst (λ m. Elem m places) sum (fires due)),
      )

  is_expired-inactive :
      (now : F) (ev : FailureEvent F) → ev.active ≡ false → is_expired random choice now ev ≡ false
  unfolding is_expired
  is_expired-inactive now ev off = ground arith

  step_event-ends :
      (now : F) (ev : FailureEvent F) (c : Cluster F)
      → is_expired random choice now ev ≡ true
      → (step_event random choice now ev c).0 ≡ record ev { active = false }
  unfolding step_event recover
  step_event-ends now ev c up = elim (Option-cases ev.target_node_id) [
    | inl e ↦ ground (arith, up, e)
    | inr (a, e) ↦ ground (arith, up, e)
  ]

  -- A scheduled event that is due and has a known target fires.
  step_event-fires :
      (now : F) (ev : FailureEvent F) (c : Cluster F) (a : String) (due : F)
      → ev.active ≡ false
      → ev.trigger_time_s ≡ some due
      → fl.le due now ≡ true
      → ev.target_node_id ≡ some a
      → (a == "") ≡ false
      → Known a c.nodes
      → let (ev', _, fired) = step_event random choice now ev c in
        (ev'.active ≡ true) × (ev'.target_node_id ≡ some a) × (fired ≡ true)
  unfolding step_event is_expired should_trigger apply pick_target known_target strike
  step_event-fires now ev c a due off t late target named (n, found) =
      ground (arith, off, t, late, target, named, found)

  -- An event at a place of the list whose duration is over ends with a step and, if it has a trigger
  -- time that has passed by the next step and a known target that is not empty, is active again
  -- after the next step and among the events that this step returns.
  pub step-fires_again :
      (s : Injector F) (i : ℕ) (t1 t2 due : F) (a : String) {ev : FailureEvent F}
      → get_elem? s.events i ≡ some ev
      → is_expired random choice t1 ev ≡ true
      → ev.trigger_time_s ≡ some due
      → fl.le due t2 ≡ true
      → ev.target_node_id ≡ some a
      → (a == "") ≡ false
      → Known a s.cluster.nodes
      → let (s', _) = step random choice t1 s in
        let (s'', fired) = step random choice t2 s' in
        (get_elem? s'.events i ≡ some (record ev { active = false }))
        × ((ev' : FailureEvent F) × (get_elem? s''.events i ≡ some ev') × (ev'.active ≡ true))
        × Elem i fired
  unfolding step
  step-fires_again s i t1 t2 due a {ev} at up t late target named k =
      let (c', _, there, _) = step_all-at a t1 0 i s.events s.cluster at k in
      let gone = there ∙ ap some (step_event-ends t1 ev c' up) in
      let (c'', k'', there'', fires) =
        step_all-at a t2 0 i (step random choice t1 s).0.events (step random choice t1 s).0.cluster
          gone (step_all-Known a t1 0 s.events s.cluster k) in
      let (on, _, fired) =
        step_event-fires t2 (record ev { active = false }) c'' a due refl t late target named k'' in
      let sum : 0 + i ≡ i = omega arith in
      (
        gone,
        (_, there'', on),
        subst (λ m. Elem m (step random choice t2 (step random choice t1 s).0).1) sum (fires fired),
      )
