-- ===== src/Cache/Manager.antt =====
-- control_plane/kv_cache_manager/kv_cache_manager.py: the state of KVCacheManager, its construction
-- and its queries. The KVBlock objects live on a heap, at the index that is their block id, and the
-- lists of the source hold references to them, which are block ids here. Time comes from a stream of
-- clock readings, `monotonic`, of which `clock` have been taken.
use dynamo_serve.Base.{
  ℕ, zero, suc, ◌+◌, ◌-◌, Bool, false, if◌then◌else◌, String, List, [], ◌∷◌, ◌++◌, Option, none,
  some, Dict, lookup, insert, ◌>>=◌, get_elem?, modify, ◌==◌, string_eq,
}
use dynamo_serve.Base.Int.{ℤ, sub_ℕ}
use dynamo_serve.Float.{Float}
use dynamo_serve.Models.Node.{Node}
use dynamo_serve.Models.Block.{Block, CacheStats, ratio}
use dynamo_serve.Cache.Policy.{Policy, on_access, on_allocate, stamp}

pub record Manager (F : Type 0) : Type 0 where
  pub block_size : ℕ
  pub policy : Policy F
  pub heap : List (Block F)
  pub blocks : Dict String (List ℕ)
  pub prefix_cache : Dict String (List ℕ)
  pub stats : Dict String CacheStats
  pub next_block_id : ℕ
  pub clock : ℕ

-- A prefix hash counts as given only if it is not the empty string.
unfoldable pub given_hash : Option String → Option String
given_hash none = none
given_hash (some h) = if h == "" then none else some h

abbrev pub fresh_stats : String → ℕ → CacheStats
fresh_stats node_id total = record {
  node_id = node_id;
  total_blocks = total;
  used_blocks = 0;
  hit_count = 0;
  miss_count = 0;
  eviction_count = 0;
  spill_count = 0;
}

module _ {F : Type 0} where
  abbrev pub fresh_block : String → ℕ → ℕ → F → Block F
  fresh_block node_id block_id block_size now = record {
    block_id = block_id;
    node_id = node_id;
    token_capacity = block_size;
    tokens_used = 0;
    prefix_hash = none;
    last_accessed = now;
    pinned = false;
  }

  -- A property of the block that a reference leads to.
  unfoldable pub test_block : (Block F → Bool) → List (Block F) → ℕ → Bool
  test_block p heap i = elim (get_elem? heap i) [ none ↦ false | some b ↦ p b ]

  -- The blocks that references lead to.
  unfoldable pub blocks_at : List (Block F) → List ℕ → List (Block F)
  blocks_at heap [] = []
  blocks_at heap (i ∷ is) = elim (get_elem? heap i) [
    | none ↦ blocks_at heap is
    | some b ↦ b ∷ blocks_at heap is
  ]

  -- A write to the statistics of a node.
  unfoldable pub update_stats : String → (CacheStats → CacheStats) → Manager F → Manager F
  update_stats node_id f m = elim (lookup node_id m.stats) [
    | none ↦ m
    | some s ↦ record m { stats = insert node_id (f s) m.stats }
  ]

module _ {F : Type 0} ⦃fl : Float F⦄ (monotonic : ℕ → F) where
  open fl use {of_nat, decimal, mul, to_nat}

  -- `eviction_policy.on_access(b)`
  unfoldable pub access_block : ℕ → Manager F → Manager F
  unfolding on_access stamp
  access_block i m = record m {
    policy = on_access (monotonic m.clock) i m.policy;
    heap = modify m.heap i (stamp m.policy (monotonic m.clock));
    clock = m.clock + 1;
  }

  -- One round of the loop of `_init_node`: the clock is read for the block, then for the policy.
  unfoldable pub make_block : String → Manager F → Manager F
  unfolding on_allocate
  make_block node_id m = record m {
    heap = m.heap ++ fresh_block node_id m.next_block_id m.block_size (monotonic m.clock) ∷ [];
    policy = on_allocate (monotonic (m.clock + 1)) m.next_block_id m.policy;
    next_block_id = m.next_block_id + 1;
    clock = m.clock + 2;
  }

  unfoldable pub make_blocks : ℕ → String → Manager F → Manager F × List ℕ
  unfolding make_block
  make_blocks zero node_id m = (m, [])
  make_blocks (suc k) node_id m =
      let (m', ids) = make_blocks k node_id (make_block node_id m) in (m', m.next_block_id ∷ ids)

  unfoldable pub init_node : Node F → Manager F → Manager F
  unfolding make_blocks
  init_node node m =
      let (m', ids) = make_blocks node.kv_blocks_total node.node_id m in
      record m' {
        blocks = insert node.node_id ids m'.blocks;
        stats = insert node.node_id (fresh_stats node.node_id node.kv_blocks_total) m'.stats;
      }

  unfoldable pub add_node : Node F → Manager F → Manager F
  unfolding init_node
  add_node = init_node

  unfoldable pub init_nodes : List (Node F) → Manager F → Manager F
  unfolding init_node
  init_nodes [] m = m
  init_nodes (node ∷ nodes) m = init_nodes nodes (init_node node m)

  unfoldable pub init : List (Node F) → ℕ → Policy F → Manager F
  unfolding init_nodes
  init nodes block_size policy = init_nodes nodes (record {
    block_size = block_size;
    policy = policy;
    heap = [];
    blocks = [];
    prefix_cache = [];
    stats = [];
    next_block_id = 0;
    clock = 0;
  })

module _ {F : Type 0} where
  unfoldable pub get_stats : String → Manager F → Option CacheStats
  get_stats node_id m = lookup node_id m.stats

  unfoldable pub free_blocks : String → Manager F → Option ℤ
  free_blocks node_id m = do s ← lookup node_id m.stats; some (sub_ℕ s.total_blocks s.used_blocks)

module _ {F : Type 0} ⦃fl : Float F⦄ where
  open fl use {of_nat, decimal, mul, to_nat}

  unfoldable pub utilization : String → Manager F → Option F
  unfolding ratio
  utilization node_id m = do s ← lookup node_id m.stats; some (ratio s.used_blocks s.total_blocks)

  -- HIGH_WATERMARK is 0.90.
  unfoldable pub headroom_blocks : String → Manager F → Option ℕ
  headroom_blocks node_id m = do
    s ← lookup node_id m.stats
    some (to_nat (mul (of_nat s.total_blocks) (decimal 90 2)) - s.used_blocks)
