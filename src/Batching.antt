-- ===== src/Batching.antt =====
-- ml/batch_optimizer/batch_optimizer.py: the requests of a node grouped into batches. The fitted
-- regressor, where there is one, is a parameter: a function of the batch size and the memory
-- pressure.
pub mod Packing
use dynamo_serve.Base.{
  ℕ, ◌+◌, ◌-◌, ◌*◌, ◌^◌, ◌||◌, max, Bool, if◌then◌else◌, eqb, ltb, leb, List, [], ◌∷◌, ◌++◌, length,
  take, Option, none, some, sort,
}
use dynamo_serve.Float.{Float, fmax}
use dynamo_serve.Models.Node.{Node, memory_pressure}
use dynamo_serve.Models.Request.{
  SlaClass, realtime, interactive, batch, Request, BatchJob, batch_size, estimated_memory_gb,
}

unfoldable pub sla_priority : SlaClass → ℕ
sla_priority realtime = 3
sla_priority interactive = 2
sla_priority batch = 1

pub record BatchPlan (F : Type 0) : Type 0 where
  pub batches : List (BatchJob F)
  pub predicted_tokens_per_sec : F
  pub predicted_mean_tpot_ms : F
  pub estimated_memory_gb : F

pub record Optimizer (F : Type 0) : Type 0 where
  pub node : Node F
  pub tpot_model : Option (ℕ → F → F)
  pub max_tokens : ℕ
  pub max_size : ℕ

-- A row of the analysis.
pub record Tradeoff (F : Type 0) : Type 0 where
  pub batch_size : ℕ
  pub tpot_ms : F
  pub tokens_per_sec : F
  pub estimated_memory_gb : F

module _ {F : Type 0} where
  unfoldable pub make_job : List (Request F) → BatchJob F
  make_job requests = record { requests = requests; phase = "decode" }

  -- `if current_batch: batches.append(self._make_job(current_batch))`, before the batches to come.
  unfoldable pub close : List (Request F) → List (BatchJob F) → List (BatchJob F)
  unfolding make_job
  close [] batches = batches
  close (r ∷ rs) batches = make_job (r ∷ rs) ∷ batches

  abbrev pub request_tokens : Request F → ℕ
  request_tokens r = r.prompt_tokens + r.max_output_tokens

  -- The loop of `form_batches`, with `current_batch` and `current_tokens`.
  unfoldable pub pack : ℕ → ℕ → List (Request F) → List (Request F) → ℕ → List (BatchJob F)
  unfolding close
  pack max_size max_tokens [] current tokens = close current []
  pack max_size max_tokens (r ∷ rs) current tokens =
      let alone = pack max_size max_tokens rs (r ∷ []) (request_tokens r) in
      let joined = pack max_size max_tokens rs (current ++ r ∷ []) (tokens + request_tokens r) in
      if leb max_size (length current) || ltb max_tokens (tokens + request_tokens r)
      then close current alone
      else joined

module _ {F : Type 0} ⦃fl : Float F⦄ where
  open fl use {of_nat, decimal, add, sub, mul, div, lt}

  -- The order of the keys (-priority, arrival time).
  unfoldable pub goes_first : Request F → Request F → Bool
  unfolding sla_priority
  goes_first a b =
      if eqb (sla_priority a.sla_class) (sla_priority b.sla_class)
      then lt a.arrival_time b.arrival_time
      else ltb (sla_priority b.sla_class) (sla_priority a.sla_class)

  -- The heuristic, or the regressor; `batch.batch_size - 1` is exact, since no batch is empty.
  unfoldable pub predict_tpot : BatchJob F → Optimizer F → F
  unfolding fmax memory_pressure batch_size
  predict_tpot job o = elim o.tpot_model [
    | some predict ↦ fmax (decimal 5 1) (predict (batch_size job) (memory_pressure o.node))
    | none ↦
        let model_bytes : ℕ = 140 * 1024 ^ 3 in
        let bandwidth =
          mul (mul o.node.memory_bandwidth_gbps (of_nat 1_000_000_000)) (decimal 8 1) in
        let base = mul (div (of_nat model_bytes) bandwidth) (of_nat 1000) in
        fmax (decimal 5 1)
          (mul base (add (of_nat 1) (mul (decimal 2 2) (of_nat (batch_size job - 1)))))
  ]

  -- `sum(sum(f(r) for r in b.requests) for b in batches)`
  unfoldable pub sum_requests : (Request F → F) → F → List (Request F) → F
  sum_requests f acc [] = acc
  sum_requests f acc (r ∷ rs) = sum_requests f (add acc (f r)) rs

  unfoldable pub sum_batches : (Request F → F) → F → List (BatchJob F) → F
  unfolding sum_requests
  sum_batches f acc [] = acc
  sum_batches f acc (b ∷ bs) = sum_batches f (add acc (sum_requests f (of_nat 0) b.requests)) bs

  unfoldable pub sum_sizes : List (BatchJob F) → ℕ
  unfolding batch_size
  sum_sizes [] = 0
  sum_sizes (b ∷ bs) = batch_size b + sum_sizes bs

  unfoldable pub plan : List (BatchJob F) → Optimizer F → BatchPlan F
  unfolding predict_tpot sum_batches sum_sizes fmax estimated_memory_gb
  plan [] o = record {
    batches = [];
    predicted_tokens_per_sec = of_nat 0;
    predicted_mean_tpot_ms = of_nat 0;
    estimated_memory_gb = of_nat 0;
  }
  plan (b ∷ bs) o =
      let tpot = predict_tpot b o in
      let avg_bs = div (of_nat (sum_sizes (b ∷ bs))) (of_nat (max 1 (length (b ∷ bs)))) in
      record {
        batches = b ∷ bs;
        predicted_tokens_per_sec =
            if lt (of_nat 0) tpot
            then div avg_bs (fmax (decimal 1 3) (div tpot (of_nat 1000)))
            else of_nat 0;
        predicted_mean_tpot_ms = tpot;
        estimated_memory_gb = sum_batches estimated_memory_gb (of_nat 0) (b ∷ bs);
      }

  unfoldable pub form_batches : List (Request F) → Optimizer F → BatchPlan F
  unfolding plan pack goes_first
  form_batches [] o = plan [] o
  form_batches (r ∷ rs) o = plan (pack o.max_size o.max_tokens (sort goes_first (r ∷ rs)) [] 0) o

  abbrev pub tradeoff : ℕ → BatchPlan F → Tradeoff F
  tradeoff size p = record {
    batch_size = size;
    tpot_ms = p.predicted_mean_tpot_ms;
    tokens_per_sec = p.predicted_tokens_per_sec;
    estimated_memory_gb = p.estimated_memory_gb;
  }

  -- The loop of `analyze_tradeoff` over the sizes; it sets `_max_size` and leaves it set.
  unfoldable pub sweep : List (Request F) → List ℕ → Optimizer F → Optimizer F × List (Tradeoff F)
  unfolding form_batches
  sweep pending [] o = (o, [])
  sweep pending (size ∷ sizes) o =
      let o' = record o { max_size = size } in
      let row = tradeoff size (form_batches (take size pending) o') in
      let (o'', rows) = sweep pending sizes o' in (o'', row ∷ rows)

  -- `analyze_tradeoff`, with the sizes that are taken where none are given.
  unfoldable pub analyze_tradeoff :
      List (Request F) → Option (List ℕ) → Optimizer F → Optimizer F × List (Tradeoff F)
  unfolding sweep
  analyze_tradeoff pending none o = sweep pending (1 ∷ 2 ∷ 4 ∷ 8 ∷ 16 ∷ 32 ∷ 64 ∷ []) o
  analyze_tradeoff pending (some sizes) o = sweep pending sizes o

  -- `fit_tpot_model`, where `fit` is the regressor that comes of the samples (batch size, memory
  -- pressure, observed TPOT); fewer than ten change nothing.
  unfoldable pub fit_tpot_model :
      (List (ℕ × F × F) → ℕ → F → F) → List (ℕ × F × F) → Optimizer F → Optimizer F
  fit_tpot_model fit samples o =
      if ltb (length samples) 10 then o else record o { tpot_model = some (fit samples) }
