-- ===== src/Samples/Data.antt =====
-- The nodes, requests and managers of the samples.
use dynamo_serve.Base.{ℕ, ◌*◌, false, String, List, [], ◌∷◌, Option, some}
use dynamo_serve.Base.Int.{ℤ, pos}
use dynamo_serve.Float.Fixed.{fixed_float}
use dynamo_serve.Models.Node.{Node, a10_24gb}
use dynamo_serve.Models.Request.{Request, SlaClass, interactive, normal}
use dynamo_serve.Cache.Policy.{lru}
use dynamo_serve.Cache.Manager
use dynamo_serve.Cache.Manager.{Manager}

-- The `n`-th reading of the clock is `n` seconds.
abbrev pub clock : ℕ → ℤ
clock n = pos (n * 1_000_000)

abbrev pub node_with : String → ℕ → Node ℤ
node_with node_id used = record {
  node_id = node_id;
  gpu_type = a10_24gb;
  total_memory_gb = pos 24_000_000;
  memory_bandwidth_gbps = pos 600_000_000;
  compute_tflops = pos 125_000_000;
  nvlink_enabled = false;
  num_gpus = 1;
  used_memory_gb = pos 0;
  active_requests = used;
  kv_blocks_used = used;
  kv_blocks_total = 3;
}

abbrev pub two_nodes : List (Node ℤ)
two_nodes = node_with "a" 2 ∷ node_with "b" 0 ∷ []

-- A request for two KV blocks.
abbrev pub request_of : SlaClass → String → Option String → Request ℤ
request_of c request_id prefix = record {
  prompt_tokens = 20;
  max_output_tokens = 12;
  sla_class = c;
  tenant_id = "t";
  priority = normal;
  model_id = "m";
  request_id = request_id;
  arrival_time = pos 0;
  prefix_hash = prefix;
}

abbrev pub shared : Request ℤ
shared = request_of interactive "r" (some "p")

abbrev pub new_manager : Manager ℤ
new_manager = Manager.init clock two_nodes 16 (lru [])
