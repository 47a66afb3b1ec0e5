-- ===== src/Runtime.antt =====
-- data_plane/mock_gpu_runtime/gpu_runtime.py. `gauss` is the stream of the generator's normal numbers:
-- the draw, the mean and the deviation give the number. `now` is the reading of the clock in the
-- execution whose first draw is given.
pub mod Bounds
use dynamo_serve.Base.{
  ℕ, suc, ◌+◌, ◌-◌, ◌*◌, ◌^◌, min, max, Bool, true, false, ◌&&◌, not, if◌then◌else◌, ltb, String,
  List, [], ◌∷◌, length, Option, none, some, get_or, Dict, lookup, string_eq,
}
use dynamo_serve.Float.{Float, fmax}
use dynamo_serve.Models.Node.{
  Node, GpuType, a10_24gb, a100_40gb, a100_80gb, h100_80gb, h100_nvl, b200_192gb,
}
use dynamo_serve.Models.Request.{Request, kv_blocks_needed, is_long_context}
use dynamo_serve.Models.Outcome.{RequestResult}

abbrev default_bytes : ℕ
default_bytes = 70 * 1024 ^ 3

unfoldable pub model_size_bytes : Dict String ℕ
model_size_bytes =
    ("llama-3-7b", 14 * 1024 ^ 3)
    ∷ ("llama-3-70b", 140 * 1024 ^ 3)
    ∷ ("mistral-7b", 14 * 1024 ^ 3)
    ∷ ("mixtral-8x7b", 90 * 1024 ^ 3)
    ∷ ("default", default_bytes)
    ∷ []

-- `MODEL_SIZE_BYTES.get(model_id, MODEL_SIZE_BYTES["default"])`
unfoldable pub model_bytes : String → ℕ
unfolding model_size_bytes lookup
model_bytes model_id = get_or (lookup model_id model_size_bytes) default_bytes

abbrev kv_bytes_per_token : ℕ
kv_bytes_per_token = 2 * 128 * 32 * 2

module _ {F : Type 0} ⦃fl : Float F⦄ where
  open fl use {of_nat, decimal, add, sub, mul, div, lt, le, to_nat}

  -- BASE_COST_PER_1M has every GPU type, so that `_compute_cost` is its entry.
  unfoldable pub compute_cost : Node F → F
  compute_cost n = rate n.gpu_type
    where
      rate : GpuType → F
      rate a10_24gb = decimal 250 2
      rate a100_40gb = decimal 400 2
      rate a100_80gb = decimal 500 2
      rate h100_80gb = decimal 800 2
      rate h100_nvl = decimal 900 2
      rate b200_192gb = decimal 1500 2

  -- `node.compute_tflops * 1e12 * COMPUTE_EFFICIENCY`
  abbrev flops_per_second : Node F → F
  flops_per_second n = mul (mul n.compute_tflops (of_nat 1_000_000_000_000)) (decimal 65 2)

  -- The prompt tokens to process: a quarter where the prefix is cached.
  unfoldable pub effective_tokens : Request F → Bool → ℕ
  effective_tokens request cache_hit =
      if cache_hit
      then max 1 (to_nat (mul (of_nat request.prompt_tokens) (decimal 25 2)))
      else request.prompt_tokens

  -- `node.memory_bandwidth_gbps * 1e9 * BANDWIDTH_EFFICIENCY`
  abbrev bytes_per_second : Node F → F
  bytes_per_second n = mul (mul n.memory_bandwidth_gbps (of_nat 1_000_000_000)) (decimal 80 2)

  unfoldable pub is_zero : F → Bool
  is_zero x = le x (of_nat 0) && le (of_nat 0) x

  -- No divisor of `_compute_ttft` and `_compute_tpot` is zero, so that `execute` does not raise.
  unfoldable pub can_run : Node F → Bool
  unfolding is_zero
  can_run n = not (is_zero (flops_per_second n)) && not (is_zero (bytes_per_second n))

  -- `memory_pressure` does not raise.
  unfoldable pub has_memory : Node F → Bool
  unfolding is_zero
  has_memory n = not (is_zero n.total_memory_gb)

  -- `_compute_ttft` before the noise.
  unfoldable pub base_ttft : Request F → Node F → Bool → F
  unfolding effective_tokens model_bytes is_long_context fmax
  base_ttft request n cache_hit =
      let tokens = effective_tokens request cache_hit in
      let flop_per_token = 2 * model_bytes request.model_id in
      let compute_time_ms =
        mul (div (of_nat (tokens * flop_per_token)) (flops_per_second n)) (of_nat 1000) in
      let contention_ms = mul (of_nat n.active_requests) (decimal 50 1) in
      let bonus_ms =
        if n.nvlink_enabled && is_long_context request
        then sub (of_nat 0) (of_nat 20)
        else of_nat 0 in
      let kv_read_ms =
        mul (div (of_nat (tokens * kv_bytes_per_token)) (bytes_per_second n)) (of_nat 1000) in
      fmax (of_nat 1) (add (add (add compute_time_ms kv_read_ms) contention_ms) bonus_ms)

  -- `_compute_tpot` before the noise.
  unfoldable pub base_tpot : Request F → Node F → F
  unfolding model_bytes fmax
  base_tpot request n =
      let base =
        mul (div (of_nat (model_bytes request.model_id)) (bytes_per_second n)) (of_nat 1000) in
      fmax (decimal 5 1) (add base (mul (of_nat n.active_requests) (of_nat 1)))

  -- `_add_noise`, with the noise that is drawn.
  unfoldable pub add_noise : F → F → F
  unfolding fmax
  add_noise noise value = fmax (decimal 1 1) (add value noise)

  -- `int(sampled)` between 1 and the maximum; what is below zero ends as 1 too.
  unfoldable pub clip_tokens : Request F → F → ℕ
  clip_tokens request sampled =
      max 1 (min request.max_output_tokens (if lt sampled (of_nat 0) then 0 else to_nat sampled))

  -- `result.ttft_ms + result.tpot_ms * result.output_tokens + result.queue_wait_ms`
  abbrev pub total_of : F → F → ℕ → F → F
  total_of ttft tpot tokens wait = add (add ttft (mul tpot (of_nat tokens))) wait

  -- The batching overhead on the result of one request.
  unfoldable pub slow_down : F → RequestResult F → RequestResult F
  slow_down factor result =
      let tpot_ms = mul result.tpot_ms factor in
      record result {
        tpot_ms = tpot_ms;
        total_latency_ms =
            total_of result.ttft_ms tpot_ms result.output_tokens result.queue_wait_ms;
      }

module _ {F : Type 0} ⦃fl : Float F⦄ (gauss : ℕ → F → F → F) (now : ℕ → F) where
  open fl use {of_nat, decimal, add, sub, mul}

  abbrev noise_for : ℕ → F → F
  noise_for draw value = gauss draw (of_nat 0) (mul (decimal 8 2) value)

  -- `execute`, which takes three random numbers from `draw` on.
  unfoldable pub execute : Request F → Node F → ℕ → Bool → ℕ → RequestResult F
  unfolding base_ttft base_tpot add_noise clip_tokens compute_cost kv_blocks_needed fmax
  execute request n blocks cache_hit draw =
      let wait = fmax (of_nat 0) (mul (sub (now draw) request.arrival_time) (of_nat 1000)) in
      let ttft = base_ttft request n cache_hit in
      let ttft_ms = add_noise (noise_for draw ttft) ttft in
      let tpot = base_tpot request n in
      let tpot_ms = add_noise (noise_for (suc draw) tpot) tpot in
      let most = of_nat request.max_output_tokens in
      let tokens =
        clip_tokens request
          (gauss (suc (suc draw)) (mul most (decimal 65 2)) (mul most (decimal 20 2))) in
      record {
        request_id = request.request_id;
        success = true;
        rejected = false;
        ttft_ms = ttft_ms;
        tpot_ms = tpot_ms;
        total_latency_ms = total_of ttft_ms tpot_ms tokens wait;
        queue_wait_ms = wait;
        prompt_tokens = request.prompt_tokens;
        output_tokens = tokens;
        gpu_node_id = some n.node_id;
        kv_blocks_allocated = blocks;
        kv_cache_hit = cache_hit;
        kv_spilled = ltb blocks (kv_blocks_needed request);
        cost_per_1m_tokens = compute_cost n;
      }

  -- The loop of `execute_batch`; the lists of blocks are known by their lengths.
  unfoldable pub execute_each :
      F → List (Request F) → Node F → Dict String ℕ → Dict String Bool → ℕ → List (RequestResult F)
  unfolding execute slow_down lookup
  execute_each factor [] n blocks hits draw = []
  execute_each factor (r ∷ rs) n blocks hits draw =
      let mine = get_or (lookup r.request_id blocks) 0 in
      let hit = get_or (lookup r.request_id hits) false in
      slow_down factor (execute r n mine hit draw) ∷ execute_each factor rs n blocks hits (draw + 3)

  -- `batch_size - 1` is used on batches only; for none the loop does nothing.
  unfoldable pub execute_batch :
      List (Request F) → Node F → Dict String ℕ → Dict String Bool → ℕ → List (RequestResult F)
  unfolding execute_each
  execute_batch requests n blocks hits draw =
      let factor = add (of_nat 1) (mul (decimal 2 2) (of_nat (length requests - 1))) in
      execute_each factor requests n blocks hits draw
