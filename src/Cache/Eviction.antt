-- ===== src/Cache/Eviction.antt =====
-- control_plane/kv_cache_manager/kv_cache_manager.py: `_maybe_evict` and `force_evict`.
pub mod Victims
pub mod Rounds
pub mod Promises
use dynamo_serve.Base.{
  ℕ, zero, suc, ◌+◌, ◌-◌, Bool, ◌&&◌, not, if◌then◌else◌, eqb, ltb, String, List, [], ◌∷◌, length,
  Option, none, some, Dict, lookup, insert, delete, ◌>>=◌, select, modify, string_eq,
}
use dynamo_serve.Float.{Float}
use dynamo_serve.Models.Block.{Block, CacheStats}
use dynamo_serve.Cache.Policy.{on_free, pick_victim}
use dynamo_serve.Cache.Manager.{Manager, given_hash, test_block, blocks_at, update_stats}

-- `if x in xs: xs.remove(x)`
unfoldable pub remove : ℕ → List ℕ → List ℕ
remove i [] = []
remove i (j ∷ js) = if eqb j i then js else j ∷ remove i js

-- Takes a victim out of the list of its prefix, and the prefix out with its last block.
unfoldable pub forget : Option String → ℕ → Dict String (List ℕ) → Dict String (List ℕ)
unfolding given_hash remove
forget prefix i cache = elim (given_hash prefix) [
  | none ↦ cache
  | some h ↦ elim (lookup h cache) [
    | none ↦ cache
    | some cached ↦ elim (remove i cached) [
      | [] ↦ delete h cache
      | j ∷ js ↦ insert h (j ∷ js) cache
    ]
  ]
]

unfoldable pub count_eviction : CacheStats → CacheStats
count_eviction s = record s {
  used_blocks = s.used_blocks - 1;
  eviction_count = s.eviction_count + 1;
}

module _ {F : Type 0} where
  unfoldable pub is_idle : Block F → Bool
  is_idle b = eqb b.tokens_used 0 && not b.pinned

  unfoldable pub is_candidate : Block F → Bool
  is_candidate b = not b.pinned && ltb 0 b.tokens_used

  unfoldable pub reset_block : F → Block F → Block F
  reset_block now b = record b { tokens_used = 0; prefix_hash = none; last_accessed = now }

  -- The candidates of the loop.
  unfoldable pub candidates : Manager F → List ℕ → List (Block F)
  unfolding is_candidate blocks_at
  candidates m ids = select is_candidate (blocks_at m.heap ids)

  -- `free_count`, before the loop.
  unfoldable pub idle_count : List (Block F) → List ℕ → ℕ
  unfolding is_idle test_block
  idle_count heap ids = length (select (test_block is_idle heap) ids)

module _ {F : Type 0} ⦃fl : Float F⦄ (monotonic : ℕ → F) where
  -- The body of the loop, for the victim that was picked.
  unfoldable pub evict_block : String → Block F → Manager F → Manager F
  unfolding forget on_free reset_block update_stats count_eviction
  evict_block node_id victim m = update_stats node_id count_eviction (record m {
    prefix_cache = forget victim.prefix_hash victim.block_id m.prefix_cache;
    policy = on_free victim.block_id m.policy;
    heap = modify m.heap victim.block_id (reset_block (monotonic m.clock));
    clock = m.clock + 1;
  })

  -- `while free_count < n_needed`: a round adds one to `free_count`, so the rounds left are
  -- `n_needed - free_count`. The second result is `evicted`.
  unfoldable pub evict_loop : ℕ → String → List ℕ → Manager F → Manager F × ℕ
  unfolding evict_block candidates pick_victim
  evict_loop zero node_id ids m = (m, 0)
  evict_loop (suc missing) node_id ids m = elim (pick_victim m.policy (candidates m ids)) [
    | none ↦ (m, 0)
    | some victim ↦
        let (m', evicted) = evict_loop missing node_id ids (evict_block node_id victim m) in
        (m', evicted + 1)
  ]

  unfoldable pub maybe_evict : String → ℕ → Manager F → Option (Manager F × ℕ)
  unfolding evict_loop idle_count
  maybe_evict node_id n_needed m = do
    _ ← lookup node_id m.stats
    ids ← lookup node_id m.blocks
    some (evict_loop (n_needed - idle_count m.heap ids) node_id ids m)

  unfoldable pub force_evict : String → ℕ → Manager F → Option (Manager F × ℕ)
  unfolding maybe_evict
  force_evict = maybe_evict
