-- ===== src/Runtime/Bounds.antt =====
-- What the results of data_plane/mock_gpu_runtime/gpu_runtime.py keep to, whatever the random numbers.
use dynamo_serve.Base.{
  ℕ, ◌+◌, ◌≤◌, ◌<◌, max, ◌≡◌, ◌↔◌, refl, Bool, true, false, String, List, [], ◌∷◌, Dict, string_eq,
  arith,
}
use dynamo_serve.Float.{Float, FloatLaws, le-fmax_left}
use dynamo_serve.Models.Node.{Node}
use dynamo_serve.Models.Request.{Request, kv_blocks_needed}
use dynamo_serve.Models.Outcome.{RequestResult}
use dynamo_serve.Runtime.{
  add_noise, clip_tokens, execute, slow_down, execute_each, execute_batch, total_of,
}

module _ {F : Type 0} ⦃fl : Float F⦄ where
  clip_tokens_bounds :
      (request : Request F) (x : F)
      → (1 ≤ clip_tokens request x) × (clip_tokens request x ≤ max 1 request.max_output_tokens)
  unfolding clip_tokens
  clip_tokens_bounds request x = ground arith

  -- What a result says of its request.
  pub record IsResultOf (request : Request F) (result : RequestResult F) : Type 0 where
    pub same_request : result.request_id ≡ request.request_id
    pub succeeded : (result.success ≡ true) × (result.rejected ≡ false)
    pub some_output : 1 ≤ result.output_tokens
    pub output_bound : result.output_tokens ≤ max 1 request.max_output_tokens
    pub spilled :
        (result.kv_spilled ≡ true) ↔ (result.kv_blocks_allocated < kv_blocks_needed request)
    pub total :
        result.total_latency_ms
        ≡ total_of result.ttft_ms result.tpot_ms result.output_tokens result.queue_wait_ms

  slow_down-IsResultOf :
      (request : Request F) (factor : F) (result : RequestResult F)
      → IsResultOf request result
      → IsResultOf request (slow_down factor result)
  unfolding slow_down
  slow_down-IsResultOf request factor result r = record {
    same_request = r.same_request;
    succeeded = r.succeeded;
    some_output = r.some_output;
    output_bound = r.output_bound;
    spilled = r.spilled;
    total = refl;
  }

  -- One list is the results of the other, in its order.
  abbrev pub AreResultsOf : List (Request F) → List (RequestResult F) → Type 0
  AreResultsOf [] [] = Unit
  AreResultsOf (r ∷ rs) (x ∷ xs) = IsResultOf r x × AreResultsOf rs xs
  AreResultsOf _ _ = ⊥

module _ {F : Type 0} ⦃fl : Float F⦄ (gauss : ℕ → F → F → F) (now : ℕ → F) where
  open fl use {of_nat, decimal, le}

  pub execute-IsResultOf :
      (request : Request F) (n : Node F) (blocks : ℕ) (hit : Bool) (draw : ℕ)
      → IsResultOf request (execute gauss now request n blocks hit draw)
  unfolding execute
  execute-IsResultOf request n blocks hit draw = record {
    same_request = refl;
    succeeded = (refl, refl);
    some_output = (clip_tokens_bounds request _).0;
    output_bound = (clip_tokens_bounds request _).1;
    spilled = ground arith;
    total = refl;
  }

  -- The noise takes neither time below a tenth of a millisecond, and no wait is negative.
  pub execute-positive :
      FloatLaws F
      → (request : Request F) (n : Node F) (blocks : ℕ) (hit : Bool) (draw : ℕ)
      → let result = execute gauss now request n blocks hit draw in
        (le (decimal 1 1) result.ttft_ms ≡ true)
        × (le (decimal 1 1) result.tpot_ms ≡ true)
        × (le (of_nat 0) result.queue_wait_ms ≡ true)
  unfolding execute add_noise
  execute-positive laws request n blocks hit draw =
      (le-fmax_left laws _ _, le-fmax_left laws _ _, le-fmax_left laws _ _)

  execute_each-AreResultsOf :
      (factor : F) (requests : List (Request F)) (n : Node F) (blocks : Dict String ℕ)
      (hits : Dict String Bool) (draw : ℕ)
      → AreResultsOf requests (execute_each gauss now factor requests n blocks hits draw)
  unfolding execute_each
  execute_each-AreResultsOf factor [] n blocks hits draw = tt
  execute_each-AreResultsOf factor (r ∷ rs) n blocks hits draw = (
    slow_down-IsResultOf r factor _ (execute-IsResultOf r n _ _ draw),
    execute_each-AreResultsOf factor rs n blocks hits (draw + 3),
  )

  -- `execute_batch` returns one result for each request, in order, whatever the random numbers: it
  -- names the request, is a success, has at least one output token and at most those that the
  -- request allows, or one if that is less, says that KV blocks were spilled exactly if there were
  -- fewer than needed, and its total latency is the sum of its parts.
  pub execute_batch-AreResultsOf :
      (requests : List (Request F)) (n : Node F) (blocks : Dict String ℕ) (hits : Dict String Bool)
      (draw : ℕ)
      → AreResultsOf requests (execute_batch gauss now requests n blocks hits draw)
  unfolding execute_batch
  execute_batch-AreResultsOf requests n blocks hits draw =
      execute_each-AreResultsOf _ requests n blocks hits draw
