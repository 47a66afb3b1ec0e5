-- ===== src/Scheduler/Learned.antt =====
-- control_plane/scheduler/rl_scheduler/rl_scheduler.py: the decisions of RLScheduler and the experience
-- that it collects. The choice of an action is that of Scheduler.Actor; the update of the networks
-- from the collected experience is a parameter.
pub mod Experience
pub mod Placing
use dynamo_serve.Base.{
  ℕ, zero, suc, ◌+◌, ◌-◌, ◌*◌, ◌%◌, Bool, true, false, ◌&&◌, ◌||◌, not, if◌then◌else◌, eqb, leb,
  ltb, List, [], ◌∷◌, ◌++◌, length, map, Option, none, some, get_elem?, modify,
}
use dynamo_serve.Float.{Float}
use dynamo_serve.Models.Node.{Node, memory_pressure}
use dynamo_serve.Models.Request.{Request}
use dynamo_serve.Scheduler.Actor.{Networks, choose, log_prob}
use dynamo_serve.Scheduler.Base.{
  SchedulingResult, rl_policy_reject, accepted_on, rejected_with, fits, allocate_at, on_complete,
}

-- Collected experience, the newest last.
pub record Rollout (F O : Type 0) : Type 0 where
  pub obs : List O
  pub actions : List ℕ
  pub rewards : List F
  pub values : List F
  pub log_probs : List F
  pub returns : List F

pub record Learned (F P O : Type 0) : Type 0 where
  pub nodes : List (Node F)
  pub train : Bool
  pub policy : P
  pub rollout : Rollout F O
  pub step : ℕ
  pub updates : ℕ

abbrev pub train_every : ℕ
train_every = 256

abbrev pub batch : ℕ
batch = 64

module _ {F O : Type 0} where
  abbrev pub empty_rollout : Rollout F O
  empty_rollout = record {
    obs = [];
    actions = [];
    rewards = [];
    values = [];
    log_probs = [];
    returns = [];
  }

  unfoldable pub append : O → ℕ → F → F → F → Rollout F O → Rollout F O
  append o action value log_prob reward r = record r {
    obs = r.obs ++ o ∷ [];
    actions = r.actions ++ action ∷ [];
    values = r.values ++ value ∷ [];
    log_probs = r.log_probs ++ log_prob ∷ [];
    rewards = r.rewards ++ reward ∷ [];
  }

  unfoldable pub clear : Rollout F O → Rollout F O
  clear r = empty_rollout

unfoldable pub any_of : List Bool → Bool
any_of [] = false
any_of (b ∷ bs) = b || any_of bs

-- `rewards[-1] = reward`
unfoldable pub replace_last : {F : Type 0} → F → List F → List F
replace_last reward [] = []
replace_last reward (x ∷ []) = reward ∷ []
replace_last reward (x ∷ y ∷ ys) = x ∷ replace_last reward (y ∷ ys)

abbrev reversed : {A : Type 0} → List A → List A → List A
reversed [] acc = acc
reversed (x ∷ xs) acc = reversed xs (x ∷ acc)

module _ {F : Type 0} ⦃fl : Float F⦄ where
  open fl use {of_nat, decimal, add, sub, mul, lt}

  -- The loop of `compute_returns`, with `G` and the returns so far.
  unfoldable pub accumulate : F → List F → F → List F → List F
  accumulate gamma [] g returns = returns
  accumulate gamma (r ∷ rs) g returns =
      let g' = add r (mul gamma g) in accumulate gamma rs g' (g' ∷ returns)

  unfoldable pub compute_returns : {O : Type 0} → F → Rollout F O → Rollout F O
  unfolding accumulate
  compute_returns gamma r = record r {
    returns = accumulate gamma (reversed r.rewards []) (of_nat 0) [];
  }

  -- The reward of a completed request, from the memory pressure of its node after the release.
  unfoldable pub completion_reward : Node F → F
  unfolding memory_pressure
  completion_reward n =
      let sla_ok = if lt (memory_pressure n) (decimal 85 2) then of_nat 1 else of_nat 0 in
      let spill = if lt (decimal 90 2) (memory_pressure n) then of_nat 1 else of_nat 0 in
      sub (sub (mul (decimal 20 1) sla_ok) (mul (decimal 15 1) spill))
        (mul (decimal 5 1) (decimal 1 1))

  -- The actions that are allowed: the nodes that can take the request, and to reject.
  unfoldable pub allowed : Request F → List (Node F) → List Bool
  unfolding fits
  allowed request nodes = map (fits request) nodes ++ true ∷ []

module _ {F P O : Type 0} ⦃fl : Float F⦄ (nets : Networks F P O)
    (update_ppo : P → Rollout F O → P) where
  open fl use {of_nat, decimal, sub}

  -- Adds a decision to the experience and counts the step.
  unfoldable pub collect : O → List Bool → ℕ → F → Learned F P O → Learned F P O
  unfolding append log_prob
  collect o mask action reward s = record s {
    rollout =
        append o action (nets.value s.policy o) (log_prob nets s.policy o mask action) reward
          s.rollout;
    step = s.step + 1;
  }

  -- The update of the policy after every TRAIN_EVERY steps, once there is a batch.
  unfoldable pub learn : Learned F P O → Learned F P O
  unfolding compute_returns clear
  learn s =
      if eqb (s.step % train_every) 0 && leb batch (length s.rollout.obs)
      then record s {
        policy = update_ppo s.policy (compute_returns (decimal 99 2) s.rollout);
        rollout = clear s.rollout;
        updates = s.updates + 1;
      }
      else s

  unfoldable pub decline : O → List Bool → ℕ → Learned F P O → Learned F P O
  unfolding collect
  decline o mask action s =
      if s.train then collect o mask action (sub (of_nat 0) (decimal 5 1)) s else s

  unfoldable pub assign : Request F → O → List Bool → ℕ → Learned F P O → Learned F P O
  unfolding collect learn allocate_at
  assign request o mask action s =
      let charged = record s { nodes = allocate_at request action s.nodes } in
      if s.train then learn (collect o mask action (of_nat 0) charged) else charged

  -- An action past the last, which no choice gives, counts as a refusal.
  unfoldable pub schedule : ℕ → Request F → Learned F P O → Learned F P O × SchedulingResult F
  unfolding allowed any_of decline assign fits choose
  schedule draw request s =
      let o = nets.observe request s.nodes in
      let mask = allowed request s.nodes in
      let action = choose nets s.policy o mask s.train draw in
      let refused : Learned F P O × SchedulingResult F =
        (decline o mask action s, rejected_with request rl_policy_reject) in
      if eqb action (length s.nodes) || not (any_of (map (fits request) s.nodes))
      then refused
      else elim (get_elem? s.nodes action) [
        | none ↦ refused
        | some n ↦ (assign request o mask action s, accepted_on request n (of_nat 0))
      ]

  -- `on_complete` for the node at `i`.
  unfoldable pub complete : Request F → ℕ → Learned F P O → Learned F P O
  unfolding on_complete replace_last completion_reward
  complete request i s =
      let nodes = on_complete request i s.nodes in
      let rewards : List F = elim (get_elem? nodes i) [
        | none ↦ s.rollout.rewards
        | some n ↦
            if s.train
            then replace_last (completion_reward n) s.rollout.rewards
            else s.rollout.rewards
      ] in
      record s { nodes = nodes; rollout = record (s.rollout) { rewards = rewards } }
