-- ===== src/Scheduler/Actor.antt =====
-- control_plane/scheduler/rl_scheduler/rl_scheduler.py: how RLScheduler.schedule comes from the outputs
-- of the actor to an action: the additive mask, the softmax, and the choice among the actions.
pub mod Masking
use dynamo_serve.Base.{
  ℕ, Bool, true, false, if◌then◌else◌, List, [], ◌∷◌, map, none, some, get_elem?,
}
use dynamo_serve.Float.{Float, fmax}
use dynamo_serve.Models.Node.{Node}
use dynamo_serve.Models.Request.{Request}

-- The networks, which are numpy arrays, and what numpy does. `observe` is `_make_obs`, `forward` the
-- outputs of the actor, and `draw` of `choice` counts the random choices.
pub record Networks (F P O : Type 0) : Type 0 where
  pub observe : Request F → List (Node F) → O
  pub forward : P → O → List F
  pub value : P → O → F
  pub exp : F → F
  pub log : F → F
  pub sum : List F → F
  pub choice : List F → ℕ → ℕ
  pub argmax : List F → ℕ

module _ {F : Type 0} ⦃fl : Float F⦄ where
  open fl use {of_nat, decimal, add, sub, div}

  -- `-1e9`
  abbrev pub penalty : F
  penalty = sub (of_nat 0) (of_nat 1_000_000_000)

  -- `logits + mask`: the mask is as long as the logits, zero at the actions that are allowed.
  unfoldable pub add_mask : List F → List Bool → List F
  add_mask [] mask = []
  add_mask (x ∷ xs) [] = add x penalty ∷ add_mask xs []
  add_mask (x ∷ xs) (allowed ∷ mask) =
      add x (if allowed then of_nat 0 else penalty) ∷ add_mask xs mask

  unfoldable pub max_from : F → List F → F
  unfolding fmax
  max_from x [] = x
  max_from x (y ∷ ys) = max_from (fmax x y) ys

  -- `masked_logits.max()`, of a list that is not empty.
  unfoldable pub max_of : List F → F
  unfolding max_from
  max_of [] = of_nat 0
  max_of (x ∷ xs) = max_from x xs

  module _ {P O : Type 0} (nets : Networks F P O) where
    unfoldable pub softmax : List F → List F
    unfolding max_of
    softmax logits =
        let m = max_of logits in
        let powers = map (λ x. nets.exp (sub x m)) logits in
        map (λ e. div e (nets.sum powers)) powers

    unfoldable pub probabilities : P → O → List Bool → List F
    unfolding softmax add_mask
    probabilities policy o mask = softmax (add_mask (nets.forward policy o) mask)

    -- A random action while training, and otherwise the one of the highest probability.
    unfoldable pub choose : P → O → List Bool → Bool → ℕ → ℕ
    unfolding probabilities
    choose policy o mask train draw =
        let probs = probabilities policy o mask in
        if train then nets.choice probs draw else nets.argmax probs

    -- `log(probs[action] + 1e-8)`, which raises past the last action, where no choice is.
    unfoldable pub log_prob : P → O → List Bool → ℕ → F
    unfolding probabilities
    log_prob policy o mask action = elim (get_elem? (probabilities policy o mask) action) [
      | none ↦ of_nat 0
      | some p ↦ nets.log (add p (decimal 1 8))
    ]
