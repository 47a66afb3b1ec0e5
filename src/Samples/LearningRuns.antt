-- ===== src/Samples/LearningRuns.antt =====
-- The learning scheduler and the workloads at concrete inputs.
use dynamo_serve.Base.{
  if◌then◌else◌, ℕ, suc, ◌*◌, ◌≤◌, ◌≡◌, refl, true, String, List, [], ◌∷◌, length, some, get_elem?,
  All, arith, IsSorted,
}
use dynamo_serve.Base.Int.{ℤ, pos, ltb_ℤ}
use dynamo_serve.Float.Fixed.{fixed_float, fixed_laws}
use dynamo_serve.Models.Request.{Request, interactive}
use dynamo_serve.Workload.{WorkloadProfile, Draws, generate}
use dynamo_serve.Workload.Traces.{IsWithin, generate-IsWithin, earlier}
use dynamo_serve.Workload.Sharegpt.{Conversation, human, gpt, load}
use dynamo_serve.Workload.Sharegpt.Limits
use dynamo_serve.Workload.Sharegpt.Limits.{load-IsWithin}
use dynamo_serve.Scheduler.Base.Capacity.{WithinBlocks}
use dynamo_serve.Scheduler.Actor.{Networks, probabilities, choose}
use dynamo_serve.Scheduler.Actor.Masking.{SoftmaxLaws}
use dynamo_serve.Scheduler.Learned.{
  Rollout, Learned, empty_rollout, compute_returns, schedule, allowed,
}
use dynamo_serve.Scheduler.Learned.Experience.{
  compute_returns_lem, IsAligned, start, decided, Run-IsAligned,
}
use dynamo_serve.Scheduler.Learned.Placing.{Places, schedule-Places}
use dynamo_serve.Samples.Data.{two_nodes, shared}

abbrev seconds : ℕ → ℤ
seconds n = pos (n * 1_000_000)

abbrev power : ℤ → ℤ → ℤ
power a b = pos 500_000

-- A policy that takes the first action that has a probability, and counts its updates.
abbrev first_positive : List ℤ → ℕ
first_positive [] = 0
first_positive (p ∷ ps) = if ltb_ℤ (pos 0) p then 0 else suc (first_positive ps)

-- A power that is one from zero on, and zero below.
abbrev step_power : ℤ → ℤ
step_power x = if ltb_ℤ x (pos 0) then pos 0 else pos 1_000_000

abbrev total : List ℤ → ℤ
total [] = pos 0
total (x ∷ xs) = fixed_float.add x (total xs)

abbrev nets : Networks ℤ ℕ ℕ
nets = record {
  observe = λ request ns. length ns;
  forward = λ policy o. pos 2_000_000 ∷ pos 2_000_000 ∷ pos 1_000_000 ∷ [];
  value = λ policy o. pos 0;
  exp = step_power;
  log = λ x. pos 0;
  sum = total;
  choice = λ ps draw. first_positive ps;
  argmax = first_positive;
}

abbrev learner : Learned ℤ ℕ ℕ
learner = record {
  nodes = two_nodes;
  train = true;
  policy = 0;
  rollout = empty_rollout;
  step = 0;
  updates = 0;
}

abbrev update_ppo : ℕ → Rollout ℤ ℕ → ℕ
update_ppo policy r = suc policy

nets-SoftmaxLaws : SoftmaxLaws nets
nets-SoftmaxLaws = record {
  add_zero = λ x. ground arith;
  underflow = λ x m h k. ground arith;
  zero_quotient = λ t. ground arith;
}

chosen_probability :
    get_elem?
      (probabilities nets 0 2 (allowed shared two_nodes))
      (choose nets 0 2 (allowed shared two_nodes) true 0)
    ≡ some (pos 1_000_000)
unfolding allowed choose
chosen_probability = refl

two_nodes-WithinBlocks : All WithinBlocks two_nodes
two_nodes-WithinBlocks = (omega arith, (omega arith, tt))

schedule-Places_example :
    Places nets update_ppo shared learner (schedule nets update_ppo 0 shared learner)
    × All WithinBlocks (schedule nets update_ppo 0 shared learner).0.nodes
schedule-Places_example =
    schedule-Places nets update_ppo fixed_laws nets-SoftmaxLaws 0 shared learner (pos 1_000_000)
      refl ((refl, refl), ((refl, refl), ((refl, refl), tt))) chosen_probability refl
      two_nodes-WithinBlocks

abbrev after_two : Learned ℤ ℕ ℕ
after_two = (schedule nets update_ppo 1 shared (schedule nets update_ppo 0 shared learner).0).0

Run-IsAligned_example : IsAligned after_two.rollout
Run-IsAligned_example =
    Run-IsAligned nets update_ppo (decided 1 shared (decided 0 shared (start learner)))
      (record { actions = refl; rewards = refl; values = refl; log_probs = refl })

abbrev experience : Rollout ℤ ℕ
experience = record {
  obs = 1 ∷ 2 ∷ [];
  actions = 0 ∷ 1 ∷ [];
  rewards = seconds 2 ∷ seconds 4 ∷ [];
  values = pos 0 ∷ pos 0 ∷ [];
  log_probs = pos 0 ∷ pos 0 ∷ [];
  returns = [];
}

compute_returns_lem_example :
    ((compute_returns (pos 500_000) experience).returns ≡ seconds 4 ∷ seconds 4 ∷ [])
    × (length (compute_returns (pos 500_000) experience).returns ≡ 2)
    × (compute_returns (pos 500_000) experience
        ≡ record experience { returns = seconds 4 ∷ seconds 4 ∷ [] })
compute_returns_lem_example = compute_returns_lem (pos 500_000) experience

abbrev profile : WorkloadProfile ℤ
profile = record {
  duration_s = seconds 3;
  arrival_rate_rps = seconds 1;
  burst_factor = seconds 1;
  burst_duration_s = pos 0;
  burst_interval_s = seconds 60;
  prompt_len_mean = 512;
  prompt_len_std = 0;
  output_len_mean = 256;
  output_len_std = 64;
  max_prompt_tokens = 400;
  max_output_tokens = 100;
  sla_realtime_fraction = pos 200_000;
  sla_interactive_fraction = pos 500_000;
  num_tenants = 2;
  tenant_skew = seconds 1;
  prefix_sharing_prob = pos 300_000;
  model_id = "m";
}

-- An arrival a second.
abbrev draws : Draws ℤ
draws = record {
  interarrival = λ k rate. seconds 1;
  prompt_len = λ k mean std. mean;
  output_len = λ k mean std. mean;
  class_roll = λ k. pos 100_000;
  tenant_roll = λ k. pos 900_000;
  prefix_roll = λ k. pos 100_000;
  prefix_choice = λ k. some "p";
}

abbrev tenant_name : ℕ → String
tenant_name i = "tenant"

abbrev fresh_id : ℕ → String
fresh_id k = "id"

generate-IsWithin_example :
    (rs : List (Request ℤ)) × (generate power power tenant_name fresh_id draws 4 profile ≡ some rs)
    × (length rs ≤ 3)
    × All (IsWithin power power tenant_name fresh_id draws profile) rs
    × IsSorted (earlier power power tenant_name fresh_id draws) rs
generate-IsWithin_example =
    generate-IsWithin power power tenant_name fresh_id draws fixed_laws 4 3 profile (omega arith)
      refl (omega arith)

-- A conversation of two exchanges, the first with an overlong prompt.
abbrev conversation : Conversation
conversation = record {
  id = "c";
  turns =
      record { speaker = human; words = 30_000 }
      ∷ record { speaker = gpt; words = 5 }
      ∷ record { speaker = human; words = 1 }
      ∷ record { speaker = gpt; words = 2 }
      ∷ [];
}

abbrev turn_hash : String → ℕ → String
turn_hash id turn = id

load-IsWithin_example :
    let rs =
      load
        (λ k. seconds 1)
        (λ k. pos 0)
        tenant_name
        fresh_id
        ((interactive, seconds 1) ∷ [])
        turn_hash
        (λ k. 100)
        (λ k. 100)
        (conversation ∷ [])
        2
        true in
    All
      (Limits.IsWithin
        (λ k. seconds 1)
        (λ k. pos 0)
        tenant_name
        fresh_id
        ((interactive, seconds 1) ∷ []))
      rs
    × (length rs ≤ 2)
load-IsWithin_example =
    load-IsWithin (λ k. seconds 1) (λ k. pos 0) tenant_name fresh_id ((interactive, seconds 1) ∷ [])
      turn_hash (λ k. 100) (λ k. 100) (conversation ∷ []) 2 true
