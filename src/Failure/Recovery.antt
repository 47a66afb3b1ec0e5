-- ===== src/Failure/Recovery.antt =====
-- What a recovery gives back of what a failure took.
use dynamo_serve.Base.{
  ◌≡◌, refl, ap, ◌∙◌, ℕ, true, false, not, String, List, [], ◌∷◌, Option, none, some, ◌==◌,
  string_eq, beq_refl, arith, inl, inr, ◌⊎◌, Bool-cases, Option-cases, All, All-get_elem?,
  All-select_self, All-map_of, subst, length, get_elem?, ◌%◌,
}
use dynamo_serve.Float.{Float}
use dynamo_serve.Models.Node.{Node}
use dynamo_serve.Failure.{
  FailureType, node_loss, memory_spike, nvlink_degrade, slow_node, network_slowdown, FailureEvent,
  Saved, nothing, Cluster, contains, add_dead, discard, mark_dead, unmark_dead, find_node,
  change_node, save, restore, recover, degrade, strike, pick_target, alive_nodes, apply,
  known_target, draw, draw,
}

-- A name that is not in the set is the only one that adding and discarding it touches.
discard-not_in : (a : String) (xs : List String) → contains a xs ≡ false → discard a xs ≡ xs
unfolding discard contains
discard-not_in a [] h = refl
discard-not_in a (x ∷ xs) h = ground (arith, discard-not_in a xs)

discard-add_dead :
    (a : String) (xs : List String) → contains a xs ≡ false → discard a (add_dead a xs) ≡ xs
unfolding add_dead discard
discard-add_dead a xs h = rw (h, beq_refl a) (discard-not_in a xs h)

pub unmark-mark :
    (t : FailureType) (a : String) (xs : List String)
    → contains a xs ≡ false
    → unmark_dead t a (mark_dead t a xs) ≡ xs
unmark-mark node_loss a xs h = discard-add_dead a xs h
unmark-mark memory_spike a xs h = refl
unmark-mark nvlink_degrade a xs h = refl
unmark-mark slow_node a xs h = refl
unmark-mark network_slowdown a xs h = refl

module _ {F : Type 0} where
  -- Two changes of one node that together leave it as it is.
  pub change_node-undo :
      (a : String) (f g : Node F → Node F) (ns : List (Node F)) {n : Node F}
      → find_node a ns ≡ some n
      → (f n).node_id ≡ n.node_id
      → g (f n) ≡ n
      → change_node a g (change_node a f ns) ≡ ns
  unfolding find_node change_node
  change_node-undo a f g [] h p q = cc
  change_node-undo a f g (x ∷ xs) {n} h p q = elim (Bool-cases (x.node_id == a)) [
    | inl e ↦
        let same : x ≡ n = ground (arith, h) in
        let named : ((f x).node_id == a) ≡ true = rw (same, p, ← same) e in
        rw (e, named) (ap (λ y. y ∷ xs) (rw (same) q))
    | inr e ↦
        let rest : find_node a xs ≡ some n = rw e at h in
        rw (e, e) (ap (◌∷◌ x) (change_node-undo a f g xs rest p q))
  ]

  -- What the event saved before is used by NETWORK_SLOWDOWN alone, which never saves.
  abbrev pub IsFresh : FailureType → Saved F → Type 0
  IsFresh network_slowdown old = old ≡ nothing
  IsFresh _ old = Unit

module _ {F : Type 0} ⦃fl : Float F⦄ where
  pub degrade-node_id : (t : FailureType) (m : F) (n : Node F) → (degrade t m n).node_id ≡ n.node_id
  unfolding degrade
  degrade-node_id node_loss m n = refl
  degrade-node_id memory_spike m n = refl
  degrade-node_id nvlink_degrade m n = refl
  degrade-node_id slow_node m n = refl
  degrade-node_id network_slowdown m n = refl

  restore-save :
      (t : FailureType) (m : F) (n : Node F) (old : Saved F)
      → IsFresh t old
      → restore (save t n old) (degrade t m n) ≡ n
  unfolding restore save degrade
  restore-save node_loss m n old h = refl
  restore-save memory_spike m n old h = refl
  restore-save nvlink_degrade m n old h = refl
  restore-save slow_node m n old h = refl
  restore-save network_slowdown m n old h = rw h refl

  pub strike-recover :
      (now : F) (a : String) (ev : FailureEvent F) (c : Cluster F) {n : Node F}
      → find_node a c.nodes ≡ some n
      → contains a c.dead ≡ false
      → IsFresh ev.failure_type ev.orig_state
      → let (ev', c') = strike now a n ev c in
        ((recover ev' c').1.nodes ≡ c.nodes) × ((recover ev' c').1.dead ≡ c.dead)
  unfolding strike recover
  strike-recover now a ev c {n} found alive fresh = (
    change_node-undo a _ _ c.nodes found (degrade-node_id ev.failure_type ev.magnitude n)
        (restore-save ev.failure_type ev.magnitude n ev.orig_state fresh),
    unmark-mark ev.failure_type a c.dead alive,
  )

module _ {F : Type 0} ⦃fl : Float F⦄ (random : ℕ → F) (choice : ℕ → ℕ) where
  known_target-some :
      (ns : List (Node F)) (t : Option String) {a : String}
      → known_target ns t ≡ some a
      → t ≡ some a
  unfolding known_target
  known_target-some ns none h = cc
  known_target-some ns (some a) h = ground arith

  draw-alive :
      (place : ℕ) (ns : List (Node F)) (P : String → Type 0) {a : String}
      → draw place ns ≡ some a
      → All (λ n. P n.node_id) ns
      → P a
  unfolding draw
  draw-alive place ns P {a} h all = elim (Option-cases (get_elem? ns (place % length ns))) [
    | inl e ↦ absurd (ground (arith, e, h))
    | inr (n, e) ↦
        let same : n.node_id ≡ a = ground (arith, e, h) in
        subst P same (All-get_elem? (λ (n : Node F). P n.node_id) ns _ e all)
  ]

  alive_nodes-alive : (c : Cluster F) → All (λ n. contains n.node_id c.dead ≡ false) (alive_nodes c)
  unfolding alive_nodes
  alive_nodes-alive c =
      All-map_of _ _ (alive_nodes c) (λ n h. ground (arith, h))
        (All-select_self (λ (n : Node F). not (contains n.node_id c.dead)) c.nodes)

  -- A target that is given and known is taken; any other pick is a node that is alive.
  pick_target-alive :
      (ev : FailureEvent F) (c : Cluster F) {a : String}
      → ((b : String) → ev.target_node_id ≡ some b → contains b c.dead ≡ false)
      → (pick_target random choice ev c).0 ≡ some a
      → contains a c.dead ≡ false
  unfolding pick_target
  pick_target-alive ev c {a} given h =
      elim (Option-cases (known_target c.nodes ev.target_node_id)) [
        | inr (b, e) ↦
            let same : b ≡ a = ground (arith, e, h) in
            given a (known_target-some c.nodes ev.target_node_id (e ∙ ap some same))
        | inl e ↦
            draw-alive (choice c.draws) (alive_nodes c) (λ d. contains d c.dead ≡ false)
              (ground (arith, e, h)) (alive_nodes-alive c)
      ]

  pub pick_target-same :
      (ev : FailureEvent F) (c : Cluster F)
      → let c' = (pick_target random choice ev c).1 in (c'.nodes ≡ c.nodes) × (c'.dead ≡ c.dead)
  unfolding pick_target
  pick_target-same ev c = ground arith

  -- `_apply` finds no target, or strikes the node that it picked.
  pub apply-cases :
      (now : F) (ev : FailureEvent F) (c : Cluster F)
      → let (target, c') = pick_target random choice ev c in
        (apply random choice now ev c ≡ (ev, c'))
        ⊎ ((a : String) × (n : Node F) × (target ≡ some a)
            × (find_node a c'.nodes ≡ some n)
            × (apply random choice now ev c ≡ strike now a n ev c'))
  unfolding apply
  apply-cases now ev c = elim (Option-cases (pick_target random choice ev c).0) [
    | inl e ↦ inl (rw (apply, e) refl)
    | inr (a, e) ↦ elim (Option-cases (find_node a (pick_target random choice ev c).1.nodes)) [
      | inl f ↦ inl (rw (apply, e) (rw f refl))
      | inr (n, f) ↦ inr (a, n, e, f, rw (apply, e) (rw f refl))
    ]
  ]

  pub recover-idle :
      (ev : FailureEvent F) (c : Cluster F) → ev.active ≡ false → (recover ev c).1 ≡ c
  unfolding recover
  recover-idle ev c off = ground arith

  -- A failure that is not active, applied and then recovered from, leaves the nodes and the set of
  -- dead nodes as they were, where a target that it names is alive, and where a NETWORK_SLOWDOWN,
  -- which saves nothing, holds nothing saved.
  pub apply-recover :
      (now : F) (ev : FailureEvent F) (c : Cluster F)
      → ev.active ≡ false
      → IsFresh ev.failure_type ev.orig_state
      → ((b : String) → ev.target_node_id ≡ some b → contains b c.dead ≡ false)
      → let (ev', c') = apply random choice now ev c in
        ((recover ev' c').1.nodes ≡ c.nodes) × ((recover ev' c').1.dead ≡ c.dead)
  apply-recover now ev c off fresh given =
      let (nodes, dead) = pick_target-same ev c in
      elim (apply-cases now ev c) [
        | inl e ↦ rw (e, recover-idle ev (pick_target random choice ev c).1 off) (nodes, dead)
        | inr (a, n, e, f, hit) ↦
            let (back, alive) =
              strike-recover now a ev (pick_target random choice ev c).1 f
                (rw dead (pick_target-alive ev c given e)) fresh in
            rw hit (back ∙ nodes, alive ∙ dead)
      ]
