-- ===== src/Models/Outcome.antt =====
-- core/models.py: RequestResult.
use dynamo_serve.Base.{ℕ, ◌+◌, Bool, ◌&&◌, if◌then◌else◌, String, Option}
use dynamo_serve.Float.{Float}
use dynamo_serve.Models.Request.{SlaClass, realtime, interactive, batch}

pub record RequestResult (F : Type 0) : Type 0 where
  pub request_id : String
  pub success : Bool
  pub rejected : Bool
  pub ttft_ms : F
  pub tpot_ms : F
  pub total_latency_ms : F
  pub queue_wait_ms : F
  pub prompt_tokens : ℕ
  pub output_tokens : ℕ
  pub gpu_node_id : Option String
  pub kv_blocks_allocated : ℕ
  pub kv_cache_hit : Bool
  pub kv_spilled : Bool
  pub cost_per_1m_tokens : F

module _ {F : Type 0} where
  unfoldable pub total_tokens : RequestResult F → ℕ
  total_tokens r = r.prompt_tokens + r.output_tokens

module _ {F : Type 0} ⦃fl : Float F⦄ where
  open fl use {of_nat, div, le}

  unfoldable pub tokens_per_second : RequestResult F → F
  tokens_per_second r =
      if le r.total_latency_ms (of_nat 0)
      then of_nat 0
      else div (of_nat r.output_tokens) (div r.total_latency_ms (of_nat 1000))

  -- The budgets of `sla_met`: TTFT and TPOT, in milliseconds.
  unfoldable pub met_budgets : SlaClass → F × F
  met_budgets realtime = (of_nat 200, of_nat 50)
  met_budgets interactive = (of_nat 1000, of_nat 100)
  met_budgets batch = (of_nat 30_000, of_nat 500)

  unfoldable pub sla_met : RequestResult F → SlaClass → Bool
  unfolding met_budgets
  sla_met r c = let (ttft, tpot) = met_budgets c in le r.ttft_ms ttft && le r.tpot_ms tpot
