-- ===== src/Failure/Accounts.antt =====
-- What keeps a node dead, and how a failure and a recovery change it.
use dynamo_serve.Base.{
  ◌≡◌, refl, sym, ap, ◌∙◌, Bool, true, String, List, [], ◌∷◌, some, select, ◌==◌, string_eq, arith,
  eq_iff, ◌⊎◌, inl, inr, Bool-cases, Option-cases, some_inj, All, All-map_of,
}
use dynamo_serve.Float.{Float}
use dynamo_serve.Models.Node.{Node}
use dynamo_serve.Failure.{
  FailureType, node_loss, memory_spike, nvlink_degrade, slow_node, network_slowdown, FailureEvent,
  Cluster, contains, add_dead, discard, mark_dead, unmark_dead, recover, strike,
}

module _ {F : Type 0} where
  -- An active loss of the node.
  abbrev pub Kills : FailureEvent F → String → Type 0
  Kills ev a = (ev.active ≡ true) × (ev.failure_type ≡ node_loss) × (ev.target_node_id ≡ some a)

  abbrev pub KillsAny : List (FailureEvent F) → String → Type 0
  KillsAny [] a = ⊥
  KillsAny (ev ∷ evs) a = Kills ev a ⊎ KillsAny evs a

-- Three reasons in another order.
module _ {A B C : Type 0} where
  pub last_second : A ⊎ (B ⊎ C) → (A ⊎ C) ⊎ B
  last_second (inl a) = inl (inl a)
  last_second (inr (inl b)) = inr b
  last_second (inr (inr c)) = inl (inr c)

  pub second_last : (A ⊎ B) ⊎ C → (A ⊎ C) ⊎ B
  second_last (inl (inl a)) = inl (inl a)
  second_last (inl (inr b)) = inr b
  second_last (inr c) = inl (inr c)

  pub to_right : (A ⊎ B) ⊎ C → A ⊎ (B ⊎ C)
  to_right (inl (inl a)) = inl a
  to_right (inl (inr b)) = inr (inl b)
  to_right (inr c) = inr (inr c)

module _ {A : Type 0} where
  pub not_none : ⊥ ⊎ A → A
  not_none (inl n) = elim n [ ]
  not_none (inr a) = a

  pub select_all : (p : A → Bool) (xs : List A) → ((x : A) → p x ≡ true) → select p xs ≡ xs
  select_all p [] h = refl
  select_all p (x ∷ xs) h = rw (h x) (ap (◌∷◌ x) (select_all p xs h))

-- The failure is a loss of this node.
abbrev Lost : FailureType → String → String → Type 0
Lost t a d = (t ≡ node_loss) × (d ≡ a)

module _ (Q : String → Type 0) where
  discard-kept :
      (a : String) (xs : List String)
      → All (λ d. Q d ⊎ Lost node_loss a d) xs
      → All Q (discard a xs)
  unfolding discard
  discard-kept a [] h = tt
  discard-kept a (x ∷ xs) h = elim (Bool-cases (x == a)) [
    | inl e ↦ rw e (discard-kept a xs h.1)
    | inr e ↦ rw e (
      elim h.0 [ inl q ↦ q | inr l ↦ absurd (ground (arith, eq_iff x a)) ],
      discard-kept a xs h.1,
    )
  ]

  -- Whatever else keeps a node dead, discarding the target of a recovery leaves the others.
  unmark-kept :
      (t : FailureType) (a : String) (xs : List String)
      → All (λ d. Q d ⊎ Lost t a d) xs
      → All Q (unmark_dead t a xs)
  unmark-kept node_loss a xs h = discard-kept a xs h
  unmark-kept memory_spike a xs h = All-map_of _ _ xs (λ d q. ground arith) h
  unmark-kept nvlink_degrade a xs h = All-map_of _ _ xs (λ d q. ground arith) h
  unmark-kept slow_node a xs h = All-map_of _ _ xs (λ d q. ground arith) h
  unmark-kept network_slowdown a xs h = All-map_of _ _ xs (λ d q. ground arith) h

  mark-kept :
      (t : FailureType) (a : String) (xs : List String)
      → All Q xs
      → All (λ d. Q d ⊎ Lost t a d) (mark_dead t a xs)
  unfolding add_dead
  mark-kept node_loss a xs h = elim (Bool-cases (contains a xs)) [
    | inl e ↦ rw e (All-map_of _ _ xs (λ d q. inl q) h)
    | inr e ↦ rw e (inr (refl, refl), All-map_of _ _ xs (λ d q. inl q) h)
  ]
  mark-kept memory_spike a xs h = All-map_of _ _ xs (λ d q. inl q) h
  mark-kept nvlink_degrade a xs h = All-map_of _ _ xs (λ d q. inl q) h
  mark-kept slow_node a xs h = All-map_of _ _ xs (λ d q. inl q) h
  mark-kept network_slowdown a xs h = All-map_of _ _ xs (λ d q. inl q) h

module _ {F : Type 0} (Q : String → Type 0) where
  -- Every dead node has an active loss among the events, or another reason.
  abbrev pub Accounts : FailureEvent F → Cluster F → Type 0
  Accounts ev c = All (λ d. Q d ⊎ Kills ev d) c.dead

  pub recover-Accounts :
      (ev : FailureEvent F) (c : Cluster F) → Accounts ev c → All Q (recover ev c).1.dead
  unfolding recover
  recover-Accounts ev c h = elim (Option-cases ev.target_node_id) [
    | inl e ↦
        rw (recover, e)
          (All-map_of _ _ c.dead (λ d k. elim k [ inl q ↦ q | inr l ↦ absurd (cc) ]) h)
    | inr (a, e) ↦ elim (Bool-cases ev.active) [
      | inl on ↦
          rw (recover, e)
            (rw on (
              unmark-kept Q ev.failure_type a c.dead (
                All-map_of _ _ c.dead
                  (λ d k. elim k [ inl q ↦ inl q | inr l ↦ inr (l.1, some_inj (sym l.2 ∙ e)) ]) h)))
      | inr off ↦
          rw (recover, e)
            (rw off (All-map_of _ _ c.dead (λ d k. elim k [ inl q ↦ q | inr l ↦ absurd (cc) ]) h))
    ]
  ]

  pub strike-Accounts :
      ⦃fl : Float F⦄ (now : F) (a : String) (n : Node F) (ev : FailureEvent F) (c : Cluster F)
      → All Q c.dead
      → Accounts (strike now a n ev c).0 (strike now a n ev c).1
  unfolding strike
  strike-Accounts now a n ev c h =
      All-map_of _ _ (mark_dead ev.failure_type a c.dead)
        (λ d k. elim k [ inl q ↦ inl q | inr l ↦ inr (refl, l.0, ap some (sym l.1)) ])
        (mark-kept Q ev.failure_type a c.dead h)
