-- ===== src/Failure/Rounds.antt =====
-- The cases of one round of `step` of the failure injector.
use dynamo_serve.Base.{
  ◌≡◌, refl, ℕ, Bool, true, false, if◌then◌else◌, string_eq, inl, inr, Bool-cases,
}
use dynamo_serve.Float.{Float}
use dynamo_serve.Failure.{
  FailureEvent, Cluster, recover, apply, is_expired, should_trigger, step_event,
}

module _ {F : Type 0} ⦃fl : Float F⦄ (random : ℕ → F) (choice : ℕ → ℕ) where
  -- One round of `step`: a recovery, a failure that lasts, one that waits, or one that is applied.
  pub data Round (now : F) (ev : FailureEvent F) (c : Cluster F)
      : FailureEvent F × Cluster F × Bool → Type 0 where
    ends :
        is_expired random choice now ev ≡ true
        → Round now ev c ((recover ev c).0, (recover ev c).1, false)
    lasts : ev.active ≡ true → Round now ev c (ev, c, false)
    waits :
        ev.active ≡ false
        → (should_trigger random choice now ev c).0 ≡ false
        → Round now ev c (ev, (should_trigger random choice now ev c).1, false)
    starts :
        ev.active ≡ false
        → (should_trigger random choice now ev c).0 ≡ true
        → Round now ev c (
          (apply random choice now ev (should_trigger random choice now ev c).1).0,
          (apply random choice now ev (should_trigger random choice now ev c).1).1,
          true,
        )

  unexpired-Round :
      (now : F) (ev : FailureEvent F) (c : Cluster F) (on due : Bool)
      → ev.active ≡ on
      → (should_trigger random choice now ev c).0 ≡ due
      → let c' = (should_trigger random choice now ev c).1 in
        let (ev'', c'') = apply random choice now ev c' in
        Round now ev c
          (if on then (ev, c, false) else if due then (ev'', c'', true) else (ev, c', false))
  unexpired-Round now ev c true due a d = lasts a
  unexpired-Round now ev c false true a d = starts a d
  unexpired-Round now ev c false false a d = waits a d

  pub step_event-Round :
      (now : F) (ev : FailureEvent F) (c : Cluster F)
      → Round now ev c (step_event random choice now ev c)
  unfolding step_event
  step_event-Round now ev c = elim (Bool-cases (is_expired random choice now ev)) [
    | inl e ↦ rw (step_event, e) (ends e)
    | inr e ↦
        rw (step_event, e)
          (unexpired-Round now ev c ev.active (should_trigger random choice now ev c).0 refl refl)
  ]
