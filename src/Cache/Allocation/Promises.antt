-- ===== src/Cache/Allocation/Promises.antt =====
-- What the callers of `allocate` and `free` can rely on.
use dynamo_serve.Base.{
  ℕ, ◌+◌, ◌<◌, ◌≤◌, ◌≡◌, refl, sym, ◌∙◌, subst, Bool, true, false, String, List, length, some,
  lookup, ◌⊎◌, All, Elem, Distinct, some_inj, if◌then◌else◌, string_eq,
}
use dynamo_serve.Float.{Float}
use dynamo_serve.Models.Block.{CacheStats}
use dynamo_serve.Models.Request.{Request, kv_blocks_needed}
use dynamo_serve.Cache.Manager.{Manager, test_block}
use dynamo_serve.Cache.Heap.{in_use}
use dynamo_serve.Cache.Invariant.{IsValid}
use dynamo_serve.Cache.Invariant.Counts.{Knows}
use dynamo_serve.Cache.Allocation.{allocate, free, free_all}
use dynamo_serve.Cache.Allocation.Pinning.{is_pinned}
use dynamo_serve.Cache.Allocation.Contract.{Allocates, allocate_lem}
use dynamo_serve.Cache.Allocation.Freeing.{free_all-keep, free_all-drop}

module _ {F : Type 0} ⦃fl : Float F⦄ (monotonic : ℕ → F) (node_id : String) (ids : List ℕ)
    (counts : CacheStats) (m : Manager F) where
  Knows-of :
      IsValid m
      → lookup node_id m.blocks ≡ some ids
      → lookup node_id m.stats ≡ some counts
      → Knows node_id ids m
  Knows-of v listed found = record { valid = v; listed = listed; counts = counts; found = found }

  -- On a valid manager that has been given the node, `allocate` never raises and keeps the manager
  -- valid: the statistics of every node count its blocks and those in use.
  pub allocate-IsValid :
      (request : Request F)
      → IsValid m
      → lookup node_id m.blocks ≡ some ids
      → lookup node_id m.stats ≡ some counts
      → (m' : Manager F) × (blocks : List ℕ) × (hit : Bool) × (allocate monotonic node_id request m
          ≡ some (m', blocks, hit))
        × IsValid m'
  allocate-IsValid request v listed found =
      let (m', blocks, hit, e, a) =
        allocate_lem monotonic node_id ids request m (Knows-of v listed found) in
      (m', blocks, hit, e, a.knows.valid)

  module _ (request : Request F) (m' : Manager F) (blocks : List ℕ) (hit : Bool) where
    abbrev AllocatesHere : Type 0
    AllocatesHere = Allocates node_id ids (kv_blocks_needed request) m m' blocks hit

    allocates :
        IsValid m
        → lookup node_id m.blocks ≡ some ids
        → lookup node_id m.stats ≡ some counts
        → allocate monotonic node_id request m ≡ some (m', blocks, hit)
        → AllocatesHere
    allocates v listed found e =
        let (m₁, blocks₁, hit₁, e₁, a) =
          allocate_lem monotonic node_id ids request m (Knows-of v listed found) in
        subst
          (λ (p : Manager F × List ℕ × Bool).
            Allocates node_id ids (kv_blocks_needed request) m p.0 p.1 p.2)
          (some_inj (sym e₁ ∙ e)) a

    -- On a valid manager that has been given the node, `allocate` returns at least the blocks that
    -- the request needs, or fewer and then the spill count of the node goes up by one; it goes up
    -- in no other case.
    pub allocate-serves :
        (counts' : CacheStats)
        → IsValid m
        → lookup node_id m.blocks ≡ some ids
        → lookup node_id m.stats ≡ some counts
        → allocate monotonic node_id request m ≡ some (m', blocks, hit)
        → lookup node_id m'.stats ≡ some counts'
        → (kv_blocks_needed request ≤ length blocks) × (counts'.spill_count ≡ counts.spill_count)
          ⊎ (length blocks < kv_blocks_needed request)
            × (counts'.spill_count ≡ counts.spill_count + 1)
    allocate-serves counts' v listed found e found' =
        (allocates v listed found e).served counts counts' found found'

    -- On a valid manager that has been given the node, each call of `allocate` counts one lookup
    -- there, as a hit if its third result says so and as a miss otherwise.
    pub allocate-counts :
        (counts' : CacheStats)
        → IsValid m
        → lookup node_id m.blocks ≡ some ids
        → lookup node_id m.stats ≡ some counts
        → allocate monotonic node_id request m ≡ some (m', blocks, hit)
        → lookup node_id m'.stats ≡ some counts'
        → (counts'.hit_count + counts'.miss_count ≡ counts.hit_count + counts.miss_count + 1)
          × (counts'.hit_count ≡ counts.hit_count + (if hit then 1 else 0))
    allocate-counts counts' v listed found e found' =
        (allocates v listed found e).looked_up counts counts' found found'

    -- Every block that `allocate` returns is pinned.
    pub allocate-pins :
        IsValid m
        → lookup node_id m.blocks ≡ some ids
        → lookup node_id m.stats ≡ some counts
        → allocate monotonic node_id request m ≡ some (m', blocks, hit)
        → All (λ i. test_block is_pinned m'.heap i ≡ true) blocks
    allocate-pins v listed found e = (allocates v listed found e).held

  -- `free` with the prefixes kept, whatever the blocks: it never raises, keeps the manager valid, and
  -- changes no statistics.
  pub free-keep :
      (blocks : List ℕ)
      → IsValid m
      → lookup node_id m.blocks ≡ some ids
      → lookup node_id m.stats ≡ some counts
      → (m' : Manager F) × (free monotonic node_id blocks true m ≡ some m')
        × IsValid m'
        × (m'.stats ≡ m.stats)
  unfolding free
  free-keep blocks v listed found =
      let (k, same) = free_all-keep monotonic node_id ids blocks m (Knows-of v listed found) in
      (free_all monotonic node_id blocks true m, rw found refl, k.valid, same)

  -- `free` without the prefixes, on distinct blocks of the node that are in use, never raises and
  -- keeps the manager valid, so that the statistics count exactly the blocks that are left in use.
  pub free-drop :
      (blocks : List ℕ)
      → IsValid m
      → lookup node_id m.blocks ≡ some ids
      → lookup node_id m.stats ≡ some counts
      → Distinct blocks
      → All (λ i. Elem i ids) blocks
      → All (λ i. test_block in_use m.heap i ≡ true) blocks
      → (m' : Manager F) × (free monotonic node_id blocks false m ≡ some m') × IsValid m'
  unfolding free
  free-drop blocks v listed found d inside busy =
      let k =
        free_all-drop monotonic node_id ids blocks m (Knows-of v listed found) d inside busy in
      (free_all monotonic node_id blocks false m, rw found refl, k.valid)
