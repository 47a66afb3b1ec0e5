-- ===== src/Models/Block.antt =====
-- core/models.py: KVBlock and KVCacheStats.
use dynamo_serve.Base.{ℕ, ◌+◌, Bool, if◌then◌else◌, leb, ltb, String, Option}
use dynamo_serve.Float.{Float}

pub record Block (F : Type 0) : Type 0 where
  pub block_id : ℕ
  pub node_id : String
  pub token_capacity : ℕ
  pub tokens_used : ℕ
  pub prefix_hash : Option String
  pub last_accessed : F
  pub pinned : Bool

pub record CacheStats : Type 0 where
  pub node_id : String
  pub total_blocks : ℕ
  pub used_blocks : ℕ
  pub hit_count : ℕ
  pub miss_count : ℕ
  pub eviction_count : ℕ
  pub spill_count : ℕ

module _ {F : Type 0} where
  unfoldable pub is_full : Block F → Bool
  is_full b = leb b.token_capacity b.tokens_used

module _ {F : Type 0} ⦃fl : Float F⦄ where
  open fl use {of_nat, div}

  -- `a / b if b > 0 else 0.0`, for counts.
  unfoldable pub ratio : ℕ → ℕ → F
  ratio a b = if ltb 0 b then div (of_nat a) (of_nat b) else of_nat 0

  unfoldable pub hit_rate : CacheStats → F
  unfolding ratio
  hit_rate s = ratio s.hit_count (s.hit_count + s.miss_count)

  unfoldable pub utilization : CacheStats → F
  unfolding ratio
  utilization s = ratio s.used_blocks s.total_blocks
