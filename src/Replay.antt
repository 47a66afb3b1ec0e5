-- ===== src/Replay.antt =====
-- simulator/cache_eviction/cache_sim.py: a trace of requests replayed against an eviction policy. The
-- blocks of the pool stand on a heap, at the index that is their block id.
pub mod Counts
use dynamo_serve.Base.{
  ℕ, zero, suc, ◌+◌, ◌-◌, Bool, true, false, ◌&&◌, not, if◌then◌else◌, eqb, String, List, [], ◌∷◌,
  ◌++◌, length, take, Option, none, some, get_or, Dict, lookup, insert, modify, select, string_eq,
}
use dynamo_serve.Float.{Float}
use dynamo_serve.Models.Block.{Block, ratio}
use dynamo_serve.Models.Request.{Request, kv_blocks_needed}
use dynamo_serve.Cache.Policy.{Policy, on_access, on_allocate, on_free, stamp, pick_victim}
use dynamo_serve.Cache.Manager.{given_hash, fresh_block, test_block}
use dynamo_serve.Cache.Eviction.{forget, is_idle, is_candidate}

pub record CacheSimResult : Type 0 where
  pub policy_name : String
  pub total_requests : ℕ
  pub hits : ℕ
  pub misses : ℕ
  pub evictions : ℕ
  pub spills : ℕ
  pub total_blocks : ℕ

pub record Simulation (F : Type 0) : Type 0 where
  pub block_size : ℕ
  pub block_pool : List (Block F)
  pub used_blocks : Dict String (List ℕ)
  pub policy : Policy F
  pub result : CacheSimResult
  pub clock : ℕ

module _ {F : Type 0} ⦃fl : Float F⦄ where
  unfoldable pub hit_rate : CacheSimResult → F
  unfolding ratio
  hit_rate r = ratio r.hits (r.hits + r.misses)

  unfoldable pub spill_rate : CacheSimResult → F
  unfolding ratio
  spill_rate r = ratio r.spills r.total_requests

unfoldable pub count_lookup : Bool → CacheSimResult → CacheSimResult
count_lookup hit r =
    if hit then record r { hits = r.hits + 1 } else record r { misses = r.misses + 1 }

-- The cached blocks of a prefix, where there is an entry.
unfoldable pub cached_of : Option String → Dict String (List ℕ) → Option (List ℕ)
unfolding given_hash
cached_of prefix used = elim (given_hash prefix) [ none ↦ none | some h ↦ lookup h used ]

module _ {F : Type 0} where
  -- The pool, from the block with the id `i` on.
  unfoldable pub pool_from : ℕ → ℕ → ℕ → (ℕ → F) → List (Block F)
  pool_from zero block_size i monotonic = []
  pool_from (suc n) block_size i monotonic =
      fresh_block "sim" i block_size (monotonic i) ∷ pool_from n block_size (i + 1) monotonic

  -- The references to the blocks of the pool with a property, in order.
  unfoldable pub pool_where : (Block F → Bool) → ℕ → List (Block F) → List ℕ
  pool_where p i [] = []
  pool_where p i (b ∷ bs) = if p b then i ∷ pool_where p (suc i) bs else pool_where p (suc i) bs

module _ {F : Type 0} ⦃fl : Float F⦄ (monotonic : ℕ → F) where
  -- `for b in cached: policy.on_access(b)`
  unfoldable pub access_all : List ℕ → Simulation F → Simulation F
  unfolding on_access stamp
  access_all [] s = s
  access_all (i ∷ is) s = access_all is (record s {
    policy = on_access (monotonic s.clock) i s.policy;
    block_pool = modify s.block_pool i (stamp s.policy (monotonic s.clock));
    clock = s.clock + 1;
  })

  -- The body of the loop, for the victim that was picked.
  unfoldable pub evict : Block F → Simulation F → Simulation F
  unfolding forget on_free
  evict victim s = record s {
    used_blocks = forget victim.prefix_hash victim.block_id s.used_blocks;
    policy = on_free victim.block_id s.policy;
    block_pool =
        modify s.block_pool victim.block_id (λ b. record b { tokens_used = 0; prefix_hash = none });
    result = record s.result { evictions = s.result.evictions + 1 };
  }

  -- `while len(free) < n_needed`: a round adds one block to `free`, so the rounds left are
  -- `n_needed - len(free)`.
  unfoldable pub evict_until : ℕ → List ℕ → Simulation F → Simulation F × List ℕ
  unfolding evict pick_victim is_candidate
  evict_until zero free s = (s, free)
  evict_until (suc missing) free s =
      elim (pick_victim s.policy (select is_candidate s.block_pool)) [
        | none ↦ (record s { result = record s.result { spills = s.result.spills + 1 } }, free)
        | some victim ↦ evict_until missing (free ++ victim.block_id ∷ []) (evict victim s)
      ]

  -- The loop over the new blocks.
  unfoldable pub fill : Option String → List ℕ → Simulation F → Simulation F
  unfolding on_allocate
  fill prefix [] s = s
  fill prefix (i ∷ is) s = fill prefix is (record s {
    block_pool =
        modify s.block_pool i (λ b. record b { tokens_used = s.block_size; prefix_hash = prefix });
    policy = on_allocate (monotonic s.clock) i s.policy;
    clock = s.clock + 1;
  })

  unfoldable pub keep_prefix : Option String → List ℕ → Simulation F → Simulation F
  unfolding given_hash
  keep_prefix prefix new s = elim (given_hash prefix) [
    | none ↦ s
    | some h ↦ record s {
      used_blocks = insert h (get_or (lookup h s.used_blocks) [] ++ new) s.used_blocks;
    }
  ]

  -- The part of a round after the lookup, for `n_needed` blocks.
  unfoldable pub place_blocks : Option String → ℕ → Simulation F → Simulation F
  unfolding pool_where is_idle evict_until fill keep_prefix
  place_blocks prefix n_needed s =
      let free = pool_where is_idle 0 s.block_pool in
      let (s', free') = evict_until (n_needed - length free) free s in
      let new = take n_needed free' in keep_prefix prefix new (fill prefix new s')

  -- A round of the loop of `run`.
  unfoldable pub step : Request F → Simulation F → Simulation F
  unfolding cached_of access_all count_lookup place_blocks kv_blocks_needed
  step request s = elim (cached_of request.prefix_hash s.used_blocks) [
    | none ↦
        place_blocks request.prefix_hash (kv_blocks_needed request)
          (record s { result = count_lookup false s.result })
    | some cached ↦
        let accessed = access_all cached s in
        place_blocks request.prefix_hash (kv_blocks_needed request - length cached)
          (record accessed { result = count_lookup true accessed.result })
  ]

  unfoldable pub run_all : List (Request F) → Simulation F → Simulation F
  unfolding step
  run_all [] s = s
  run_all (r ∷ rs) s = run_all rs (step r s)

  unfoldable pub run : ℕ → ℕ → List (Request F) → Policy F → String → CacheSimResult
  unfolding run_all pool_from
  run total_blocks block_size requests policy policy_name =
      (run_all requests (record {
        block_size = block_size;
        block_pool = pool_from total_blocks block_size 0 monotonic;
        used_blocks = [];
        policy = policy;
        result = record {
          policy_name = policy_name;
          total_requests = length requests;
          hits = 0;
          misses = 0;
          evictions = 0;
          spills = 0;
          total_blocks = total_blocks;
        };
        clock = total_blocks;
      })).result
