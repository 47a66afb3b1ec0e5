-- ===== src/Failure/Deaths.antt =====
-- The nodes that are dead, against the events that keep them so: an invariant of the injector.
use dynamo_serve.Base.{
  ◌≡◌, refl, ap, ℕ, suc, Bool, true, false, not, if◌then◌else◌, String, List, [], ◌∷◌, ◌++◌,
  string_eq, arith, ◌⊎◌, inl, inr, Bool-cases, All, All-map_of,
}
use dynamo_serve.Float.{Float}
use dynamo_serve.Models.Node.{Node}
use dynamo_serve.Failure.{
  FailureType, FailureEvent, Cluster, Injector, contains, recover, alive_nodes, apply,
  should_trigger, step_event, step_all, step, recover_each, recover_active, recover_all, add, init,
}
use dynamo_serve.Failure.Recovery.{apply-cases, pick_target-same}
use dynamo_serve.Failure.Rounds.{Round, ends, lasts, waits, starts, step_event-Round}
use dynamo_serve.Failure.Accounts.{
  Kills, KillsAny, last_second, second_last, to_right, not_none, select_all, Accounts,
  recover-Accounts, strike-Accounts,
}

module _ {F : Type 0} ⦃fl : Float F⦄ (random : ℕ → F) (choice : ℕ → ℕ) where
  should_trigger-dead :
      (now : F) (ev : FailureEvent F) (c : Cluster F)
      → (should_trigger random choice now ev c).1.dead ≡ c.dead
  unfolding should_trigger
  should_trigger-dead now ev c = ground arith

  module _ (Q : String → Type 0) where
    idle-Accounts :
        (ev : FailureEvent F) (c : Cluster F) → ev.active ≡ false → Accounts Q ev c → All Q c.dead
    idle-Accounts ev c off h =
        All-map_of _ _ c.dead (λ d k. elim k [ inl q ↦ q | inr l ↦ absurd (cc) ]) h

    apply-Accounts :
        (now : F) (ev : FailureEvent F) (c : Cluster F)
        → All Q c.dead
        → let (ev', c') = apply random choice now ev c in Accounts Q ev' c'
    apply-Accounts now ev c h =
        let (_, dead) = pick_target-same random choice ev c in
        elim (apply-cases random choice now ev c) [
          | inl e ↦ rw (e, dead) (All-map_of _ _ c.dead (λ d q. inl q) h)
          | inr (a, n, _, _, hit) ↦ rw hit (strike-Accounts Q now a n ev _ (rw dead h))
        ]

    Round-Accounts :
        (now : F) (ev : FailureEvent F) (c : Cluster F) {r : FailureEvent F × Cluster F × Bool}
        → Round random choice now ev c r
        → Accounts Q ev c
        → Accounts Q r.0 r.1
    Round-Accounts now ev c (ends e) h = All-map_of _ _ _ (λ d q. inl q) (recover-Accounts Q ev c h)
    Round-Accounts now ev c (lasts on) h = h
    Round-Accounts now ev c (waits off e) h = rw (should_trigger-dead now ev c) h
    Round-Accounts now ev c (starts off e) h =
        apply-Accounts now ev _ (rw (should_trigger-dead now ev c) (idle-Accounts ev c off h))

  -- The loop of `step`, with what the events before keep dead.
  step_all-Accounts :
      (now : F) (i : ℕ) (evs : List (FailureEvent F)) (c : Cluster F) (Q : String → Type 0)
      → All (λ d. Q d ⊎ KillsAny evs d) c.dead
      → let (evs', c', _) = step_all random choice now i evs c in
        All (λ d. Q d ⊎ KillsAny evs' d) c'.dead
  unfolding step_all
  step_all-Accounts now i [] c Q h = h
  step_all-Accounts now i (ev ∷ evs) c Q h =
      let R : String → Type 0 = λ d. Q d ⊎ KillsAny evs d in
      let (ev', c', _) = step_event random choice now ev c in
      let one =
        Round-Accounts R now ev c (step_event-Round random choice now ev c)
          (All-map_of _ _ c.dead (λ d k. last_second k) h) in
      let rest =
        step_all-Accounts now (suc i) evs c' (λ d. Q d ⊎ Kills ev' d)
          (All-map_of _ _ c'.dead (λ d k. second_last k) one) in
      All-map_of _ _ _ (λ d k. to_right k) rest

module _ {F : Type 0} where
  recover-inactive : (ev : FailureEvent F) (c : Cluster F) → (recover ev c).0.active ≡ false
  unfolding recover
  recover-inactive ev c = ground arith

  recover_active-on :
      (ev : FailureEvent F) (c : Cluster F) → ev.active ≡ true → recover_active ev c ≡ recover ev c
  unfolding recover_active
  recover_active-on ev c on = ap (λ b. if b then recover ev c else (ev, c)) on

  recover_active-off :
      (ev : FailureEvent F) (c : Cluster F) → ev.active ≡ false → recover_active ev c ≡ (ev, c)
  unfolding recover_active
  recover_active-off ev c off = ap (λ b. if b then recover ev c else (ev, c)) off

  recover_active-clears :
      (ev : FailureEvent F) (c : Cluster F) (Q : String → Type 0)
      → Accounts Q ev c
      → let (ev', c') = recover_active ev c in All Q c'.dead × (ev'.active ≡ false)
  recover_active-clears ev c Q h = elim (Bool-cases ev.active) [
    | inl on ↦ rw (recover_active-on ev c on) (recover-Accounts Q ev c h, recover-inactive ev c)
    | inr off ↦
        rw (recover_active-off ev c off)
          (All-map_of _ _ c.dead (λ d k. elim k [ inl q ↦ q | inr l ↦ absurd (cc) ]) h, off)
  ]

  recover_each-clears :
      (evs : List (FailureEvent F)) (c : Cluster F) (Q : String → Type 0)
      → All (λ d. Q d ⊎ KillsAny evs d) c.dead
      → let (evs', c') = recover_each evs c in All Q c'.dead × All (λ ev. ev.active ≡ false) evs'
  unfolding recover_each
  recover_each-clears [] c Q h =
      (All-map_of _ _ c.dead (λ d k. elim k [ inl q ↦ q | inr n ↦ elim n [ ] ]) h, tt)
  recover_each-clears (ev ∷ evs) c Q h =
      let (kept, off) =
        recover_active-clears ev c (λ d. Q d ⊎ KillsAny evs d)
          (All-map_of _ _ c.dead (λ d k. last_second k) h) in
      let (clear, offs) = recover_each-clears evs (recover_active ev c).1 Q kept in
      (clear, (off, offs))

  -- Each dead node is the target of an active loss.
  abbrev pub IsAccounted : Injector F → Type 0
  IsAccounted s = All (λ d. KillsAny s.events d) s.cluster.dead

module _ {F : Type 0} ⦃fl : Float F⦄ (random : ℕ → F) (choice : ℕ → ℕ)
    (label : FailureType → ℕ → String) where
  -- What the simulation does with an injector.
  pub data Run : Injector F → Injector F → Type 0 where
    start : (s : Injector F) → Run s s
    added : {s t : Injector F} (ev : FailureEvent F) → Run s t → Run s (add label ev t)
    stepped : {s t : Injector F} (now : F) → Run s t → Run s (step random choice now t).0
    ended : {s t : Injector F} → Run s t → Run s (recover_all t)

  KillsAny-append :
      (evs more : List (FailureEvent F)) (d : String) → KillsAny evs d → KillsAny (evs ++ more) d
  KillsAny-append [] more d k = elim k [ ]
  KillsAny-append (ev ∷ evs) more d (inl k) = inl k
  KillsAny-append (ev ∷ evs) more d (inr k) = inr (KillsAny-append evs more d k)

  -- Whatever is added, stepped and recovered, from a state where it holds: a node is dead only while
  -- an active NODE_LOSS among the events has it as its target.
  pub Run-IsAccounted : {s t : Injector F} → Run s t → IsAccounted s → IsAccounted t
  unfolding add step recover_all
  Run-IsAccounted (start s) h = h
  Run-IsAccounted (added {t = t} ev r) h =
      All-map_of _ _ t.cluster.dead (λ d k. KillsAny-append t.events _ d k) (Run-IsAccounted r h)
  Run-IsAccounted (stepped {t = t} now r) h =
      let all =
        step_all-Accounts random choice now 0 t.events t.cluster (λ d. ⊥)
          (All-map_of _ _ t.cluster.dead (λ d k. inr k) (Run-IsAccounted r h)) in
      All-map_of _ _ _ (λ d k. not_none k) all
  Run-IsAccounted (ended {t = t} r) h =
      let (clear, off) =
        recover_each-clears t.events t.cluster (λ d. ⊥)
          (All-map_of _ _ t.cluster.dead (λ d k. inr k) (Run-IsAccounted r h)) in
      All-map_of _ _ _ (λ d k. elim k [ ]) clear

  nobody :
      (dead : List String) → All (λ d. ⊥) dead → (n : Node F) → not (contains n.node_id dead) ≡ true
  unfolding contains
  nobody [] h n = refl
  nobody (d ∷ ds) h n = elim h.0 [ ]

  -- After `recover_all`, on an injector that started from any nodes, every node is alive and no
  -- event is active.
  pub recover_all-alive :
      (nodes : List (Node F)) {t : Injector F}
      → Run (init nodes) t
      → let t' = recover_all t in
        (alive_nodes t'.cluster ≡ t'.cluster.nodes) × All (λ ev. ev.active ≡ false) t'.events
  unfolding recover_all init alive_nodes
  recover_all-alive nodes {t} r =
      let (clear, off) =
        recover_each-clears t.events t.cluster (λ d. ⊥)
          (All-map_of _ _ t.cluster.dead (λ d k. inr k) (Run-IsAccounted r tt)) in
      (select_all _ _ (nobody _ clear), off)
