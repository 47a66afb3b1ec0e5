-- ===== src/Models/Node.antt =====
-- core/models.py: GPUType, GPUNode with its properties and methods, GPU_SPECS and make_gpu_node.
-- A node is a record; a method that changes it returns the new record.
use dynamo_serve.Base.{ℕ, ◌+◌, ◌-◌, Bool, true, false, ◌&&◌, if◌then◌else◌, leb, eqb, String}
use dynamo_serve.Float.{Float, fmax, fmin}

pub data GpuType : Type 0 where
  a100_40gb a100_80gb h100_80gb h100_nvl b200_192gb a10_24gb : GpuType

pub record Node (F : Type 0) : Type 0 where
  pub node_id : String
  pub gpu_type : GpuType
  pub total_memory_gb : F
  pub memory_bandwidth_gbps : F
  pub compute_tflops : F
  pub nvlink_enabled : Bool
  pub num_gpus : ℕ
  pub used_memory_gb : F
  pub active_requests : ℕ
  pub kv_blocks_used : ℕ
  pub kv_blocks_total : ℕ

module _ {F : Type 0} ⦃fl : Float F⦄ where
  open fl use {of_nat, decimal, add, sub, mul, div, le, to_nat}

  -- `__post_init__`: 60 % of the memory is for KV blocks of 2 MB.
  unfoldable pub post_init : Node F → Node F
  post_init n =
      let kv_memory_gb = mul n.total_memory_gb (decimal 60 2) in
      if eqb n.kv_blocks_total 0
      then record n { kv_blocks_total = to_nat (div (mul kv_memory_gb (of_nat 1024)) (of_nat 2)) }
      else n

  unfoldable pub free_memory_gb : Node F → F
  unfolding fmax
  free_memory_gb n = fmax (of_nat 0) (sub n.total_memory_gb n.used_memory_gb)

  unfoldable pub memory_pressure : Node F → F
  memory_pressure n = div n.used_memory_gb n.total_memory_gb

  -- `max(0, total - used)` is the subtraction of natural numbers.
  unfoldable pub kv_blocks_free : Node F → ℕ
  kv_blocks_free n = n.kv_blocks_total - n.kv_blocks_used

  unfoldable pub compute_utilization : Node F → F
  unfolding fmin
  compute_utilization n = fmin (of_nat 1) (mul (of_nat n.active_requests) (decimal 5 2))

  unfoldable pub can_fit : Node F → ℕ → F → Bool
  unfolding kv_blocks_free free_memory_gb
  can_fit n blocks_needed memory_needed_gb =
      leb blocks_needed (kv_blocks_free n) && le memory_needed_gb (free_memory_gb n)

  unfoldable pub allocate : Node F → ℕ → F → Node F
  allocate n blocks memory_gb = record n {
    kv_blocks_used = n.kv_blocks_used + blocks;
    used_memory_gb = add n.used_memory_gb memory_gb;
    active_requests = n.active_requests + 1;
  }

  unfoldable pub release : Node F → ℕ → F → Node F
  unfolding fmax
  release n blocks memory_gb = record n {
    kv_blocks_used = n.kv_blocks_used - blocks;
    used_memory_gb = fmax (of_nat 0) (sub n.used_memory_gb memory_gb);
    active_requests = n.active_requests - 1;
  }

-- A row of GPU_SPECS.
pub record GpuSpec (F : Type 0) : Type 0 where
  pub total_memory_gb : F
  pub memory_bandwidth_gbps : F
  pub compute_tflops : F
  pub nvlink_enabled : Bool

module _ {F : Type 0} ⦃fl : Float F⦄ where
  open fl use {of_nat}

  abbrev spec : ℕ → ℕ → ℕ → Bool → GpuSpec F
  spec memory bandwidth tflops nvlink = record {
    total_memory_gb = of_nat memory;
    memory_bandwidth_gbps = of_nat bandwidth;
    compute_tflops = of_nat tflops;
    nvlink_enabled = nvlink;
  }

  unfoldable pub gpu_specs : GpuType → GpuSpec F
  gpu_specs a100_40gb = spec 40 1555 312 false
  gpu_specs a100_80gb = spec 80 2000 312 true
  gpu_specs h100_80gb = spec 80 3350 989 false
  gpu_specs h100_nvl = spec 94 3900 989 true
  gpu_specs b200_192gb = spec 192 8000 4500 true
  gpu_specs a10_24gb = spec 24 600 125 false

  -- `overrides` is what the keyword arguments change of the row.
  unfoldable pub make_gpu_node : String → GpuType → (GpuSpec F → GpuSpec F) → Node F
  unfolding gpu_specs post_init
  make_gpu_node node_id gpu_type overrides =
      let row = overrides (gpu_specs gpu_type) in
      post_init (record {
        node_id = node_id;
        gpu_type = gpu_type;
        total_memory_gb = row.total_memory_gb;
        memory_bandwidth_gbps = row.memory_bandwidth_gbps;
        compute_tflops = row.compute_tflops;
        nvlink_enabled = row.nvlink_enabled;
        num_gpus = 1;
        used_memory_gb = of_nat 0;
        active_requests = 0;
        kv_blocks_used = 0;
        kv_blocks_total = 0;
      })
