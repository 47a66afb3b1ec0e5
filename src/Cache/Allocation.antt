-- ===== src/Cache/Allocation.antt =====
-- control_plane/kv_cache_manager/kv_cache_manager.py: `allocate` and `free`.
pub mod Pinning
pub mod Filling
pub mod Reuse
pub mod Registering
pub mod Outcome
pub mod Contract
pub mod Freeing
pub mod Promises
pub mod Nodes
use dynamo_serve.Base.{
  ℕ, ◌+◌, ◌-◌, Bool, true, false, ◌&&◌, not, if◌then◌else◌, eqb, ltb, String, List, [], ◌∷◌, ◌++◌,
  length, take, Option, none, some, lookup, insert, ◌>>=◌, select, modify, ◌==◌, string_eq,
}
use dynamo_serve.Float.{Float}
use dynamo_serve.Models.Block.{Block, CacheStats}
use dynamo_serve.Models.Request.{Request, kv_blocks_needed}
use dynamo_serve.Cache.Manager.{Manager, given_hash, test_block, update_stats, access_block}
use dynamo_serve.Cache.Eviction.{maybe_evict}

unfoldable pub count_hit : CacheStats → CacheStats
count_hit s = record s { hit_count = s.hit_count + 1 }

unfoldable pub count_miss : CacheStats → CacheStats
count_miss s = record s { miss_count = s.miss_count + 1 }

unfoldable pub count_spill : CacheStats → CacheStats
count_spill s = record s { spill_count = s.spill_count + 1 }

unfoldable pub count_used : ℕ → CacheStats → CacheStats
count_used n s = record s { used_blocks = s.used_blocks + n }

module _ {F : Type 0} where
  unfoldable pub has_prefix : Block F → Bool
  has_prefix b = elim b.prefix_hash [ none ↦ false | some h ↦ true ]

  -- A block that `allocate` takes: unused, not pinned, without a prefix.
  unfoldable pub is_free : Block F → Bool
  unfolding has_prefix
  is_free b = eqb b.tokens_used 0 && not b.pinned && not (has_prefix b)

  unfoldable pub pin_block : Block F → Block F
  pin_block b = record b { pinned = true }

  -- The cached blocks of the request's prefix that are on the node.
  unfoldable pub reusable : String → Request F → Manager F → List ℕ
  unfolding given_hash test_block
  reusable node_id request m = elim (given_hash request.prefix_hash) [
    | none ↦ []
    | some h ↦ elim (lookup h m.prefix_cache) [
      | none ↦ []
      | some cached ↦ select (test_block (λ b. b.node_id == node_id) m.heap) cached
    ]
  ]

  -- What `allocate` writes to a block that it takes.
  unfoldable pub fill_block : ℕ → Option String → F → Block F → Block F
  unfolding given_hash
  fill_block block_size prefix now b = record b {
    tokens_used = block_size;
    prefix_hash = elim (given_hash prefix) [ none ↦ b.prefix_hash | some h ↦ some h ];
    pinned = true;
    last_accessed = now;
  }

  unfoldable pub empty_block : Block F → Block F
  empty_block b = record b { tokens_used = 0; prefix_hash = none }

  unfoldable pub unpin_block : Block F → Block F
  unpin_block b = record b { pinned = false }

  -- `_prefix_cache[prefix] = all_blocks`, if there is a prefix and a new block.
  unfoldable pub register : Option String → List ℕ → List ℕ → Manager F → Manager F
  unfolding given_hash
  register prefix reused [] m = m
  register prefix reused (i ∷ is) m = elim (given_hash prefix) [
    | none ↦ m
    | some h ↦ record m { prefix_cache = insert h (reused ++ i ∷ is) m.prefix_cache }
  ]

module _ {F : Type 0} ⦃fl : Float F⦄ (monotonic : ℕ → F) where
  -- Pins the reused blocks.
  unfoldable pub pin_all : List ℕ → Manager F → Manager F
  unfolding access_block pin_block
  pin_all [] m = m
  pin_all (i ∷ is) m =
      pin_all is (access_block monotonic i (record m { heap = modify m.heap i pin_block }))

  -- Step 1: the new state, and the blocks that are reused; there is a hit if there are any.
  unfoldable pub reuse : String → Request F → Manager F → Manager F × List ℕ
  unfolding reusable update_stats count_hit count_miss pin_all
  reuse node_id request m = elim (reusable node_id request m) [
    | [] ↦ (update_stats node_id count_miss m, [])
    | i ∷ is ↦ (update_stats node_id count_hit (pin_all (i ∷ is) m), i ∷ is)
  ]

  -- The loop over the new blocks: the clock is read for the block, then for the policy.
  unfoldable pub fill_all : Option String → List ℕ → Manager F → Manager F
  unfolding access_block fill_block
  fill_all prefix [] m = m
  fill_all prefix (i ∷ is) m = fill_all prefix is (
      access_block monotonic i (record m {
        heap = modify m.heap i (fill_block m.block_size prefix (monotonic m.clock));
        clock = m.clock + 1;
      }))

  -- Step 3: takes `n_needed` of the free blocks, or all of them, which counts as a spill.
  unfoldable pub take_free :
      String → Option String → ℕ → List ℕ → List ℕ → Manager F → Manager F × List ℕ
  unfolding is_free test_block update_stats count_spill count_used fill_all register
  take_free node_id prefix n_needed ids reused m =
      let free = select (test_block is_free m.heap) ids in
      let spilled = if ltb (length free) n_needed then update_stats node_id count_spill m else m in
      let new = take (if ltb (length free) n_needed then length free else n_needed) free in
      let filled = fill_all prefix new spilled in
      let counted = update_stats node_id (count_used (length new)) filled in
      (register prefix reused new counted, new)

  unfoldable pub allocate : String → Request F → Manager F → Option (Manager F × List ℕ × Bool)
  unfolding reuse maybe_evict take_free kv_blocks_needed
  allocate node_id request m = do
    _ ← lookup node_id m.stats
    let (reused_m, reused) = reuse node_id request m
    let n_needed = kv_blocks_needed request - length reused
    (evicted_m, _) ← maybe_evict monotonic node_id n_needed reused_m
    ids ← lookup node_id evicted_m.blocks
    let (m', new) = take_free node_id request.prefix_hash n_needed ids reused evicted_m
    some (m', reused ++ new, ltb 0 (length reused))

  -- The loop of `free`.
  unfoldable pub free_all : String → List ℕ → Bool → Manager F → Manager F
  unfolding unpin_block empty_block update_stats access_block
  free_all node_id [] keep_prefix m = m
  free_all node_id (i ∷ is) keep_prefix m =
      let unpinned = record m { heap = modify m.heap i unpin_block } in
      let emptied =
        if keep_prefix
        then unpinned
        else update_stats node_id (λ s. record s { used_blocks = s.used_blocks - 1 })
            (record unpinned { heap = modify unpinned.heap i empty_block }) in
      free_all node_id is keep_prefix (access_block monotonic i emptied)

  unfoldable pub free : String → List ℕ → Bool → Manager F → Option (Manager F)
  unfolding free_all
  free node_id blocks keep_prefix m = do
    _ ← lookup node_id m.stats
    some (free_all node_id blocks keep_prefix m)
