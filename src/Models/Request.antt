-- ===== src/Models/Request.antt =====
-- core/models.py: SLAClass, TenantPriority, InferenceRequest and BatchJob.
use dynamo_serve.Base.{ℕ, ◌+◌, ◌*◌, ◌/◌, max, Bool, ltb, String, Option, List, [], ◌∷◌, length}
use dynamo_serve.Float.{Float}

pub data SlaClass : Type 0 where
  realtime interactive batch : SlaClass

pub data TenantPriority : Type 0 where
  critical high normal low background : TenantPriority

unfoldable pub priority_value : TenantPriority → ℕ
priority_value critical = 10
priority_value high = 7
priority_value normal = 5
priority_value low = 2
priority_value background = 1

pub record Request (F : Type 0) : Type 0 where
  pub prompt_tokens : ℕ
  pub max_output_tokens : ℕ
  pub sla_class : SlaClass
  pub tenant_id : String
  pub priority : TenantPriority
  pub model_id : String
  pub request_id : String
  pub arrival_time : F
  pub prefix_hash : Option String

module _ {F : Type 0} where
  unfoldable pub kv_blocks_needed : Request F → ℕ
  kv_blocks_needed r = max 1 ((r.prompt_tokens + r.max_output_tokens + 15) / 16)

  unfoldable pub is_long_context : Request F → Bool
  is_long_context r = ltb 8192 r.prompt_tokens

module _ {F : Type 0} ⦃fl : Float F⦄ where
  open fl use {of_nat, div}

  unfoldable pub estimated_memory_gb : Request F → F
  unfolding kv_blocks_needed
  estimated_memory_gb r = div (of_nat (kv_blocks_needed r * 2)) (of_nat 1024)

pub record BatchJob (F : Type 0) : Type 0 where
  pub requests : List (Request F)
  pub phase : String

module _ {F : Type 0} where
  -- `sum(f(r) for r in requests)`
  unfoldable pub sum_of : (Request F → ℕ) → List (Request F) → ℕ
  sum_of f [] = 0
  sum_of f (r ∷ rs) = f r + sum_of f rs

  unfoldable pub total_prompt_tokens : BatchJob F → ℕ
  unfolding sum_of
  total_prompt_tokens job = sum_of (λ r. r.prompt_tokens) job.requests

  unfoldable pub total_output_tokens : BatchJob F → ℕ
  unfolding sum_of
  total_output_tokens job = sum_of (λ r. r.max_output_tokens) job.requests

  unfoldable pub batch_size : BatchJob F → ℕ
  batch_size job = length job.requests
