-- ===== src/Failure/Effects.antt =====
-- simulator/failure_injection/failure_injector.py: what a failure does to a node, and what its
-- recovery undoes.
use dynamo_serve.Base.{true, false, if◌then◌else◌, String, [], ◌∷◌, ◌++◌, none, some, string_eq}
use dynamo_serve.Float.{Float, fmin}
use dynamo_serve.Models.Node.{Node}
use dynamo_serve.Failure.State.{
  FailureType, node_loss, memory_spike, nvlink_degrade, slow_node, network_slowdown, Saved, nothing,
  saved_loss, saved_spike, saved_link, saved_speed, FailureEvent, triggered, recovered, Cluster,
  add_dead, discard, mark_dead, unmark_dead, find_node, change_node,
}

module _ {F : Type 0} where
  -- The values that `_apply` saves; NETWORK_SLOWDOWN has no branch.
  unfoldable pub save : FailureType → Node F → Saved F → Saved F
  save node_loss n old = saved_loss n.used_memory_gb n.kv_blocks_used n.active_requests
  save memory_spike n old = saved_spike n.used_memory_gb n.kv_blocks_used
  save nvlink_degrade n old = saved_link n.nvlink_enabled n.memory_bandwidth_gbps
  save slow_node n old = saved_speed n.compute_tflops n.memory_bandwidth_gbps
  save network_slowdown n old = old

  unfoldable pub restore : Saved F → Node F → Node F
  restore nothing n = n
  restore (saved_loss memory blocks active) n = record n {
    used_memory_gb = memory;
    kv_blocks_used = blocks;
    active_requests = active;
  }
  restore (saved_spike memory blocks) n = record n {
    used_memory_gb = memory;
    kv_blocks_used = blocks;
  }
  restore (saved_link nvlink bandwidth) n = record n {
    nvlink_enabled = nvlink;
    memory_bandwidth_gbps = bandwidth;
  }
  restore (saved_speed tflops bandwidth) n = record n {
    compute_tflops = tflops;
    memory_bandwidth_gbps = bandwidth;
  }

  -- `_recover`
  unfoldable pub recover : FailureEvent F → Cluster F → FailureEvent F × Cluster F
  unfolding find_node change_node restore discard
  recover ev c =
      let idle = record ev { active = false } in
      elim ev.target_node_id [
        | none ↦ (idle, c)
        | some a ↦
            if ev.active
            then (
              idle,
              record c {
                nodes = change_node a (restore ev.orig_state) c.nodes;
                dead = unmark_dead ev.failure_type a c.dead;
                history =
                    c.history
                    ++ record {
                      event = ev.label;
                      kind = ev.failure_type;
                      node = a;
                      action = recovered;
                    }
                      ∷ [];
              },
            )
            else (idle, c)
      ]

module _ {F : Type 0} ⦃fl : Float F⦄ where
  open fl use {of_nat, decimal, add as add_float, sub, mul, div, lt, le, to_nat}

  -- What `_apply` does to the node.
  unfoldable pub degrade : FailureType → F → Node F → Node F
  unfolding fmin
  degrade node_loss magnitude n = record n {
    used_memory_gb = n.total_memory_gb;
    kv_blocks_used = n.kv_blocks_total;
  }
  degrade memory_spike magnitude n =
      let used =
        fmin n.total_memory_gb (add_float n.used_memory_gb (mul n.total_memory_gb magnitude)) in
      record n {
        used_memory_gb = used;
        kv_blocks_used = to_nat (mul (of_nat n.kv_blocks_total) (div used n.total_memory_gb));
      }
  degrade nvlink_degrade magnitude n = record n {
    memory_bandwidth_gbps = mul n.memory_bandwidth_gbps (sub (of_nat 1) magnitude);
  }
  degrade slow_node magnitude n = record n {
    compute_tflops = mul n.compute_tflops (sub (of_nat 1) magnitude);
    memory_bandwidth_gbps =
        mul n.memory_bandwidth_gbps (sub (of_nat 1) (mul magnitude (decimal 5 1)));
  }
  degrade network_slowdown magnitude n = n

  -- `_apply` on the node that was picked.
  unfoldable pub strike :
      F → String → Node F → FailureEvent F → Cluster F → FailureEvent F × Cluster F
  unfolding save degrade change_node add_dead
  strike now a n ev c = (
    record ev {
      active = true;
      triggered_at = some now;
      orig_state = save ev.failure_type n ev.orig_state;
      target_node_id = some a;
    },
    record c {
      nodes = change_node a (degrade ev.failure_type ev.magnitude) c.nodes;
      dead = mark_dead ev.failure_type a c.dead;
      history =
          c.history
          ++ record { event = ev.label; kind = ev.failure_type; node = a; action = triggered now }
            ∷ [];
    },
  )
