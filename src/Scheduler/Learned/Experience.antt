-- ===== src/Scheduler/Learned/Experience.antt =====
-- The experience that RLScheduler collects: its lists stay in step, and the returns are discounted sums.
use dynamo_serve.Base.{
  ℕ, suc, ◌≡◌, refl, ap, ap, ◌∙◌, Bool, true, false, not, ◌||◌, if◌then◌else◌, eqb, List, [], ◌∷◌,
  ◌++◌, length, some, get_elem?, arith, length-append, Bool-cases, Option-cases, inl, inr, map,
}
use mathlib.Core.List.{append-nil}
use dynamo_serve.Float.{Float}
use dynamo_serve.Models.Node.{Node}
use dynamo_serve.Models.Request.{Request}
use dynamo_serve.Scheduler.Base.{
  SchedulingResult, fits, allocate_at, on_complete, rl_policy_reject, accepted_on, rejected_with,
}
use dynamo_serve.Scheduler.Actor.{Networks, choose}
use dynamo_serve.Scheduler.Learned.{
  Rollout, Learned, append, clear, replace_last, reversed, accumulate, compute_returns,
  completion_reward, allowed, any_of, collect, learn, decline, assign, schedule, complete,
}

reversed-reversed :
    {A : Type 0} (xs ys zs : List A) → reversed (reversed xs ys) zs ≡ reversed ys (xs ++ zs)
reversed-reversed [] ys zs = refl
reversed-reversed (x ∷ xs) ys zs = reversed-reversed xs (x ∷ ys) zs

module _ {F : Type 0} ⦃fl : Float F⦄ (gamma : F) where
  open fl use {of_nat, add, mul}

  -- Each reward with the discounted return of what follows it.
  abbrev pub return_of : List F → F
  return_of [] = of_nat 0
  return_of (r ∷ rs) = add r (mul gamma (return_of rs))

  abbrev pub discounted : List F → List F
  discounted [] = []
  discounted (r ∷ rs) = return_of (r ∷ rs) ∷ discounted rs

  accumulate-discounted :
      (xs ts : List F)
      → accumulate gamma xs (return_of ts) (discounted ts) ≡ discounted (reversed xs ts)
  unfolding accumulate
  accumulate-discounted [] ts = refl
  accumulate-discounted (x ∷ xs) ts = accumulate-discounted xs (x ∷ ts)

  -- The backward loop of `compute_returns` gives each reward its discounted sum with what follows,
  -- one return for each reward, and changes nothing else.
  pub compute_returns_lem :
      {O : Type 0} (r : Rollout F O)
      → let r' = compute_returns gamma r in
        (r'.returns ≡ discounted r.rewards)
        × (length r'.returns ≡ length r.rewards)
        × (r' ≡ record r { returns = discounted r.rewards })
  unfolding compute_returns
  compute_returns_lem r =
      let same : accumulate gamma (reversed r.rewards []) (of_nat 0) [] ≡ discounted r.rewards =
        accumulate-discounted (reversed r.rewards []) []
        ∙ ap discounted (reversed-reversed r.rewards [] [] ∙ append-nil r.rewards) in
      (same, ap length same ∙ length-discounted r.rewards, ap (λ l. record r { returns = l }) same)
    where
      length-discounted : (rs : List F) → length (discounted rs) ≡ length rs
      length-discounted [] = refl
      length-discounted (r ∷ rs) = ap suc (length-discounted rs)

length-replace_last :
    {F : Type 0} (reward : F) (xs : List F) → length (replace_last reward xs) ≡ length xs
unfolding replace_last
length-replace_last reward [] = refl
length-replace_last reward (x ∷ []) = refl
length-replace_last reward (x ∷ y ∷ ys) = ap suc (length-replace_last reward (y ∷ ys))

-- The lists of the experience have an entry for each decision.
pub record IsAligned {F O : Type 0} (r : Rollout F O) : Type 0 where
  pub actions : length r.actions ≡ length r.obs
  pub rewards : length r.rewards ≡ length r.obs
  pub values : length r.values ≡ length r.obs
  pub log_probs : length r.log_probs ≡ length r.obs

append-IsAligned :
    {F O : Type 0} (o : O) (action : ℕ) (value log_prob reward : F) (r : Rollout F O)
    → IsAligned r
    → IsAligned (append o action value log_prob reward r)
unfolding append
append-IsAligned o action value log_prob reward r h = omega (
  arith,
  h,
  length-append r.obs (o ∷ []),
  length-append r.actions (action ∷ []),
  length-append r.values (value ∷ []),
  length-append r.log_probs (log_prob ∷ []),
  length-append r.rewards (reward ∷ []),
)

module _ {F P O : Type 0} ⦃fl : Float F⦄ (nets : Networks F P O)
    (update_ppo : P → Rollout F O → P) where
  -- A decision of the scheduler, or the end of a request on a node.
  pub data Run : Learned F P O → Learned F P O → Type 0 where
    start : (s : Learned F P O) → Run s s
    decided :
        {s t : Learned F P O} (draw : ℕ) (request : Request F)
        → Run s t
        → Run s (schedule nets update_ppo draw request t).0
    completed :
        {s t : Learned F P O} (request : Request F) (i : ℕ)
        → Run s t
        → Run s (complete nets update_ppo request i t)

  learn-IsAligned :
      (s : Learned F P O) → IsAligned s.rollout → IsAligned (learn nets update_ppo s).rollout
  unfolding learn clear
  learn-IsAligned s h = ground (arith, h)

  collect-IsAligned :
      (o : O) (mask : List Bool) (action : ℕ) (reward : F) (s : Learned F P O)
      → IsAligned s.rollout
      → IsAligned (collect nets update_ppo o mask action reward s).rollout
  unfolding collect
  collect-IsAligned o mask action reward s h = append-IsAligned o action _ _ reward s.rollout h

  decline-IsAligned :
      (o : O) (mask : List Bool) (action : ℕ) (s : Learned F P O)
      → IsAligned s.rollout
      → IsAligned (decline nets update_ppo o mask action s).rollout
  unfolding decline
  decline-IsAligned o mask action s h =
      ground (arith, h, collect-IsAligned o mask action (fl.sub (fl.of_nat 0) (fl.decimal 5 1)) s h)

  assign-IsAligned :
      (request : Request F) (o : O) (mask : List Bool) (action : ℕ) (s : Learned F P O)
      → IsAligned s.rollout
      → IsAligned (assign nets update_ppo request o mask action s).rollout
  unfolding assign
  assign-IsAligned request o mask action s h =
      let charged = record s { nodes = allocate_at request action s.nodes } in
      either s.train _ _
        (learn-IsAligned _ (collect-IsAligned o mask action (fl.of_nat 0) charged h)) h
    where
      either :
          (b : Bool) (x y : Learned F P O)
          → IsAligned x.rollout
          → IsAligned y.rollout
          → IsAligned (if b then x else y).rollout
      either true x y p q = p
      either false x y p q = q

  -- A decision declines the request, or assigns it to the node that was chosen.
  pub data Decides (draw : ℕ) (request : Request F) (s : Learned F P O)
      : Learned F P O × SchedulingResult F → Type 0 where
    declines : Decides draw request s (
      decline nets update_ppo
          (nets.observe request s.nodes)
          (allowed request s.nodes)
          (choose nets s.policy
            (nets.observe request s.nodes)
            (allowed request s.nodes)
            s.train
            draw)
          s,
      rejected_with request rl_policy_reject,
    )
    assigns :
        (n : Node F)
        → get_elem? s.nodes (
            choose nets s.policy
              (nets.observe request s.nodes)
              (allowed request s.nodes)
              s.train
              draw)
          ≡ some n
        → Decides draw request s (
          assign nets update_ppo request
              (nets.observe request s.nodes)
              (allowed request s.nodes)
              (choose nets s.policy
                (nets.observe request s.nodes)
                (allowed request s.nodes)
                s.train
                draw)
              s,
          accepted_on request n (fl.of_nat 0),
        )

  pub schedule-Decides :
      (draw : ℕ) (request : Request F) (s : Learned F P O)
      → Decides draw request s (schedule nets update_ppo draw request s)
  unfolding schedule
  schedule-Decides draw request s =
      let action =
        choose nets s.policy (nets.observe request s.nodes) (allowed request s.nodes) s.train
          draw in
      elim (Bool-cases (eqb action (length s.nodes) || not (any_of (map (fits request) s.nodes)))) [
        | inl e ↦ rw (schedule, e) declines
        | inr e ↦ elim (Option-cases (get_elem? s.nodes action)) [
          | inl f ↦ rw (schedule, e) (rw f declines)
          | inr (n, f) ↦ rw (schedule, e) (rw f (assigns n f))
        ]
      ]

  Decides-IsAligned :
      (draw : ℕ) (request : Request F) (s : Learned F P O) {r : Learned F P O × SchedulingResult F}
      → Decides draw request s r
      → IsAligned s.rollout
      → IsAligned r.0.rollout
  Decides-IsAligned draw request s declines h = decline-IsAligned _ _ _ s h
  Decides-IsAligned draw request s (assigns n e) h = assign-IsAligned request _ _ _ s h

  complete-IsAligned :
      (request : Request F) (i : ℕ) (s : Learned F P O)
      → IsAligned s.rollout
      → IsAligned (complete nets update_ppo request i s).rollout
  unfolding complete
  complete-IsAligned request i s h =
      elim (Option-cases (get_elem? (on_complete request i s.nodes) i)) [
        | inl e ↦ ground (arith, h, e)
        | inr (n, e) ↦
            ground (arith, h, e, length-replace_last (completion_reward n) s.rollout.rewards)
      ]

  -- Whatever is scheduled and completed, from a state where it holds: the actions, rewards, values
  -- and logarithmic probabilities of the experience have an entry for each observation.
  pub Run-IsAligned : {s t : Learned F P O} → Run s t → IsAligned s.rollout → IsAligned t.rollout
  Run-IsAligned (start s) h = h
  Run-IsAligned (decided {t = t} draw request r) h =
      Decides-IsAligned draw request t (schedule-Decides draw request t) (Run-IsAligned r h)
  Run-IsAligned (completed {t = t} request i r) h =
      complete-IsAligned request i t (Run-IsAligned r h)
