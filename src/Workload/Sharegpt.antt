-- ===== src/Workload/Sharegpt.antt =====
-- simulator/workload_replay/sharegpt_loader.py: conversations cut into requests. A turn has the number
-- of its words, and its `from` field is one of the names that the loader knows or another. The random
-- numbers, the hash of a turn and the texts of tenants are parameters; so is the list of conversations
-- that `choices` gives.
pub mod Limits
use dynamo_serve.Base.{
  ℕ, zero, suc, ◌+◌, ◌*◌, ◌/◌, min, max, Bool, true, false, ◌&&◌, not, if◌then◌else◌, leb, ltb,
  String, List, [], ◌∷◌, ◌++◌, length, take, Option, none, some,
}
use dynamo_serve.Float.{Float}
use dynamo_serve.Models.Request.{Request, SlaClass, interactive}
use dynamo_serve.Workload.{class_priority}

pub data Speaker : Type 0 where
  human gpt neither : Speaker

pub record Turn : Type 0 where
  pub speaker : Speaker
  pub words : ℕ

pub record Conversation : Type 0 where
  pub id : String
  pub turns : List Turn

-- (prompt_tokens, output_tokens, prefix_hash)
pub record Exchange : Type 0 where
  pub prompt : ℕ
  pub output : ℕ
  pub prefix_hash : Option String

abbrev pub max_prompt_tokens : ℕ
max_prompt_tokens = 32_768

abbrev pub max_output_tokens : ℕ
max_output_tokens = 4_096

unfoldable pub is_human : Speaker → Bool
is_human human = true
is_human _ = false

unfoldable pub is_gpt : Speaker → Bool
is_gpt gpt = true
is_gpt _ = false

-- `_word_count_to_tokens`; the product is cut to an integer, as exact 1.35 of the words is here.
unfoldable pub word_count_to_tokens : ℕ → ℕ
word_count_to_tokens words = max 1 (words * 135 / 100)

module _ (turn_hash : String → ℕ → String) where
  -- The loop over the turns of a conversation from turn `i` on.
  unfoldable pub exchanges : Bool → String → ℕ → ℕ → Option String → List Turn → List Exchange
  unfolding is_human is_gpt word_count_to_tokens
  exchanges multi_turn id i context prefix [] = []
  exchanges multi_turn id i context prefix (h ∷ []) = []
  exchanges multi_turn id i context prefix (h ∷ g ∷ rest) =
      let prompt = word_count_to_tokens h.words in
      let output = word_count_to_tokens g.words in
      let prefix' = if multi_turn && ltb 0 context then some (turn_hash id i) else prefix in
      let skipped = exchanges multi_turn id (i + 2) context prefix rest in
      let later = exchanges multi_turn id (i + 2) (context + (prompt + output)) prefix' rest in
      if is_human h.speaker && is_gpt g.speaker
      then record { prompt = context + prompt; output = output; prefix_hash = prefix' }
        ∷ (if multi_turn then later else [])
      else skipped

  -- The loop over the conversations drawn, up to `n` pairs.
  unfoldable pub collect : Bool → ℕ → List Exchange → List Conversation → List Exchange
  unfolding exchanges
  collect multi_turn n pairs [] = pairs
  collect multi_turn n pairs (c ∷ cs) =
      let pairs' = pairs ++ exchanges multi_turn c.id 0 0 none c.turns in
      let rest = collect multi_turn n pairs' cs in if leb n (length pairs') then pairs' else rest

-- `_synthetic_pairs`, from the numbers that `lognormvariate` gives.
unfoldable pub synthetic_pairs : (ℕ → ℕ) → (ℕ → ℕ) → ℕ → ℕ → List Exchange
synthetic_pairs prompts outputs k zero = []
synthetic_pairs prompts outputs k (suc n) =
    record {
      prompt = min (max 16 (prompts k)) max_prompt_tokens;
      output = min (max 1 (outputs k)) max_output_tokens;
      prefix_hash = none;
    }
    ∷ synthetic_pairs prompts outputs (suc k) n

-- `_extract_pairs`: `drawn` is what `choices` gives of the conversations, if there are any.
unfoldable pub extract_pairs :
    (String → ℕ → String) → (ℕ → ℕ) → (ℕ → ℕ) → List Conversation → ℕ → Bool → List Exchange
unfolding collect synthetic_pairs
extract_pairs turn_hash prompts outputs [] n multi_turn = synthetic_pairs prompts outputs 0 n
extract_pairs turn_hash prompts outputs (c ∷ cs) n multi_turn =
    take n (collect turn_hash multi_turn n [] (c ∷ cs))

module _ {F : Type 0} ⦃fl : Float F⦄ where
  open fl use {add, lt}

  -- `_sample_sla`, over the classes and weights in their order.
  unfoldable pub sample_sla : F → F → List (SlaClass × F) → SlaClass
  sample_sla roll cum [] = interactive
  sample_sla roll cum ((c, w) ∷ ws) =
      let next = add cum w in let rest = sample_sla roll next ws in if lt roll next then c else rest

  module _ (interarrival : ℕ → F) (class_roll : ℕ → F) (tenant : ℕ → String) (fresh_id : ℕ → String)
      (weights : List (SlaClass × F)) where
    open fl use {of_nat}

    -- One request of `load`, the `k`-th, which arrives at `t`.
    unfoldable pub to_request : F → ℕ → Exchange → Request F
    unfolding sample_sla class_priority
    to_request t k e =
        let sla_class = sample_sla (class_roll k) (of_nat 0) weights in
        record {
          prompt_tokens = min e.prompt max_prompt_tokens;
          max_output_tokens = min e.output max_output_tokens;
          sla_class = sla_class;
          tenant_id = tenant k;
          priority = class_priority sla_class;
          model_id = "llama-3-70b";
          request_id = fresh_id k;
          arrival_time = t;
          prefix_hash = e.prefix_hash;
        }

    -- The loop of `load`, with the requests made so far counted by `k`.
    unfoldable pub load_from : ℕ → F → ℕ → List Exchange → List (Request F)
    unfolding to_request
    load_from n t k [] = []
    load_from n t k (e ∷ es) =
        let t' = add t (interarrival k) in
        let rest = load_from n t' (suc k) es in
        to_request t' k e ∷ (if leb n (suc k) then [] else rest)

    unfoldable pub load :
        (String → ℕ → String) → (ℕ → ℕ) → (ℕ → ℕ) → List Conversation → ℕ → Bool → List (Request F)
    unfolding extract_pairs load_from
    load turn_hash prompts outputs drawn n multi_turn =
        load_from n (of_nat 0) 0 (extract_pairs turn_hash prompts outputs drawn n multi_turn)
