-- ===== src/Failure.antt =====
-- simulator/failure_injection/failure_injector.py: the choice of a target, the steps of the injector
-- and the ready-made scenarios. The injector's random numbers are two streams, one for `random()` and
-- one for the place that `choice` takes, of which `draws` have been taken. The callback is called
-- with the events that `step` returns, in their order.
mod State
mod Effects
pub mod Recovery
pub mod Rounds
pub mod Accounts
pub mod Deaths
pub mod Schedule
unfoldable pub use State.*
unfoldable pub use Effects.*
use dynamo_serve.Base.{
  ℕ, suc, ◌+◌, ◌%◌, Bool, true, false, ◌&&◌, not, if◌then◌else◌, String, List, [], ◌∷◌, ◌++◌,
  length, get_elem?, Option, none, some, get_or, select, ◌==◌, string_eq,
}
use dynamo_serve.Float.{Float, fmin}
use dynamo_serve.Models.Node.{Node}

module _ {F : Type 0} ⦃fl : Float F⦄ (random : ℕ → F) (choice : ℕ → ℕ) where
  open fl use {of_nat, sub, lt, le}

  -- `_pick_target`, with the cluster after the draw.
  unfoldable pub pick_target : FailureEvent F → Cluster F → Option String × Cluster F
  unfolding known_target alive_nodes draw
  pick_target ev c = elim (known_target c.nodes ev.target_node_id) [
    | some a ↦ (some a, c)
    | none ↦ elim (alive_nodes c) [
      | [] ↦ (none, c)
      | n ∷ ns ↦ (draw (choice c.draws) (n ∷ ns), record c { draws = c.draws + 1 })
    ]
  ]

  -- `_apply`; the target is the id of a node, so that `self._nodes[target]` finds one.
  unfoldable pub apply : F → FailureEvent F → Cluster F → FailureEvent F × Cluster F
  unfolding pick_target strike find_node
  apply now ev c =
      let (target, c') = pick_target ev c in
      elim target [
        | none ↦ (ev, c')
        | some a ↦ elim (find_node a c'.nodes) [ none ↦ (ev, c') | some n ↦ strike now a n ev c' ]
      ]

  unfoldable pub is_expired : F → FailureEvent F → Bool
  is_expired now ev = ev.active && ev.auto_recover && elim ev.duration_s [
    | none ↦ false
    | some d ↦ le d (sub now (get_or ev.triggered_at (of_nat 0)))
  ]

  -- `should_trigger`, with the cluster after the draw.
  unfoldable pub should_trigger : F → FailureEvent F → Cluster F → Bool × Cluster F
  should_trigger now ev c = elim ev.trigger_time_s [
    | some at ↦ (le at now, c)
    | none ↦
        if lt (of_nat 0) ev.trigger_prob
        then (lt (random c.draws) ev.trigger_prob, record c { draws = c.draws + 1 })
        else (false, c)
  ]

  -- One round of the loop of `step`: the event and the cluster after it, and whether it fired.
  unfoldable pub step_event : F → FailureEvent F → Cluster F → FailureEvent F × Cluster F × Bool
  unfolding is_expired recover should_trigger apply
  step_event now ev c =
      if is_expired now ev
      then (let (ev', c') = recover ev c in (ev', c', false))
      else if ev.active
      then (ev, c, false)
      else (let (due, c') = should_trigger now ev c in
          if due then (let (ev', c'') = apply now ev c' in (ev', c'', true)) else (ev, c', false))

  -- The loop of `step` on the events from place `i` on, with the places of those that fired.
  unfoldable pub step_all :
      F → ℕ → List (FailureEvent F) → Cluster F → List (FailureEvent F) × Cluster F × List ℕ
  unfolding step_event
  step_all now i [] c = ([], c, [])
  step_all now i (ev ∷ evs) c =
      let (ev', c', fired) = step_event now ev c in
      let (evs', c'', places) = step_all now (suc i) evs c' in
      (ev' ∷ evs', c'', if fired then i ∷ places else places)

  unfoldable pub step : F → Injector F → Injector F × List ℕ
  unfolding step_all
  step now s =
      let (evs, c, places) = step_all now 0 s.events s.cluster in
      (record s { events = evs; cluster = c }, places)

module _ {F : Type 0} where
  -- One round of the loop of `recover_all`.
  unfoldable pub recover_active : FailureEvent F → Cluster F → FailureEvent F × Cluster F
  unfolding recover
  recover_active ev c = if ev.active then recover ev c else (ev, c)

  unfoldable pub recover_each :
      List (FailureEvent F) → Cluster F → List (FailureEvent F) × Cluster F
  unfolding recover_active
  recover_each [] c = ([], c)
  recover_each (ev ∷ evs) c =
      let (ev', c') = recover_active ev c in
      let (evs', c'') = recover_each evs c' in (ev' ∷ evs', c'')

  unfoldable pub recover_all : Injector F → Injector F
  unfolding recover_each
  recover_all s =
      let (evs, c) = recover_each s.events s.cluster in record s { events = evs; cluster = c }

module _ {F : Type 0} ⦃fl : Float F⦄ where
  open fl use {of_nat, decimal}

  -- `FailureEvent(failure_type, label=label)` with the defaults of the other fields.
  abbrev new_event : FailureType → String → FailureEvent F
  new_event t label = record {
    failure_type = t;
    target_node_id = none;
    trigger_time_s = none;
    trigger_prob = of_nat 0;
    duration_s = none;
    magnitude = of_nat 1;
    auto_recover = true;
    label = label;
    active = false;
    triggered_at = none;
    orig_state = nothing;
  }

  unfoldable pub make_node_loss_scenario :
      (FailureType → ℕ → String) → List (Node F) → F → Injector F
  unfolding add init
  make_node_loss_scenario default_label nodes at =
      add default_label
        (record (new_event node_loss "node_loss_t30") {
          trigger_time_s = some at;
          duration_s = some (of_nat 20);
        })
        (init nodes)

  unfoldable pub make_memory_spike_scenario :
      (FailureType → ℕ → String) → List (Node F) → Injector F
  unfolding add init
  make_memory_spike_scenario default_label nodes =
      add default_label
        (record (new_event memory_spike "memory_spike_chaos") {
          trigger_prob = decimal 1 2;
          magnitude = decimal 30 2;
          duration_s = some (of_nat 5);
        })
        (init nodes)

  unfoldable pub make_nvlink_degrade_scenario :
      (FailureType → ℕ → String) → List (Node F) → F → Injector F
  unfolding add init
  make_nvlink_degrade_scenario default_label nodes at =
      add default_label
        (record (new_event nvlink_degrade "nvlink_degrade_t45") {
          trigger_time_s = some at;
          magnitude = decimal 50 2;
          auto_recover = false;
        })
        (init nodes)

  unfoldable pub make_chaos_scenario : (FailureType → ℕ → String) → List (Node F) → Injector F
  unfolding add init
  make_chaos_scenario default_label nodes =
      add default_label
        (record (new_event nvlink_degrade "") {
          trigger_time_s = some (of_nat 60);
          magnitude = decimal 40 2;
          duration_s = some (of_nat 30);
        })
        (add default_label
          (record (new_event memory_spike "") {
            trigger_prob = decimal 8 3;
            magnitude = decimal 25 2;
            duration_s = some (of_nat 8);
          })
          (add default_label
            (record (new_event node_loss "") {
              trigger_time_s = some (of_nat 20);
              duration_s = some (of_nat 15);
            })
            (init nodes)))
