-- ===== src/Cache/Eviction/Promises.antt =====
-- What the callers of `force_evict` can rely on.
use dynamo_serve.Base.{
  ℕ, ◌+◌, ◌-◌, ◌≡◌, sym, ◌∙◌, subst, true, String, List, some, lookup, get_elem?, min, some_inj,
  string_eq,
}
use dynamo_serve.Float.{Float}
use dynamo_serve.Models.Block.{Block, CacheStats}
use dynamo_serve.Cache.Manager.{Manager}
use dynamo_serve.Cache.Heap.{count_where}
use dynamo_serve.Cache.Invariant.{IsValid}
use dynamo_serve.Cache.Invariant.Counts.{Knows}
use dynamo_serve.Cache.Eviction.{is_idle, is_candidate, idle_count, force_evict}
use dynamo_serve.Cache.Eviction.Rounds.{Evicts, maybe_evict_lem}

module _ {F : Type 0} ⦃fl : Float F⦄ (monotonic : ℕ → F) (node_id : String) (ids : List ℕ)
    (counts : CacheStats) (n_needed : ℕ) (m : Manager F) where
  -- `force_evict` on a valid manager that has been given the node never raises and keeps the
  -- manager valid; it evicts what is missing to `n_needed` idle blocks, or else every block in use
  -- that is not pinned, and each block evicted is idle afterwards.
  pub force_evict-IsValid :
      IsValid m
      → lookup node_id m.blocks ≡ some ids
      → lookup node_id m.stats ≡ some counts
      → (m' : Manager F) × (n : ℕ) × (force_evict monotonic node_id n_needed m ≡ some (m', n))
        × IsValid m'
        × (n ≡ min (n_needed - idle_count m.heap ids) (count_where is_candidate m.heap ids))
        × (count_where is_idle m'.heap ids ≡ count_where is_idle m.heap ids + n)
  unfolding force_evict
  force_evict-IsValid v listed found =
      let k : Knows node_id ids m = record {
        valid = v;
        listed = listed;
        counts = counts;
        found = found;
      } in
      let (m', n, e, evicts) = maybe_evict_lem monotonic node_id ids n_needed m k in
      (m', n, e, evicts.knows.valid, evicts.evicted, evicts.idle)

  -- No pinned block is touched, and the evictions are counted.
  pub force_evict-pinned :
      (m' : Manager F) (n i : ℕ) (b : Block F) (counts' : CacheStats)
      → IsValid m
      → lookup node_id m.blocks ≡ some ids
      → lookup node_id m.stats ≡ some counts
      → force_evict monotonic node_id n_needed m ≡ some (m', n)
      → get_elem? m.heap i ≡ some b
      → b.pinned ≡ true
      → lookup node_id m'.stats ≡ some counts'
      → (get_elem? m'.heap i ≡ some b) × (counts'.eviction_count ≡ counts.eviction_count + n)
  unfolding force_evict
  force_evict-pinned m' n i b counts' v listed found e here p found' =
      let k : Knows node_id ids m = record {
        valid = v;
        listed = listed;
        counts = counts;
        found = found;
      } in
      let (m₁, n₁, e₁, evicts₁) = maybe_evict_lem monotonic node_id ids n_needed m k in
      let evicts =
        subst
          (λ (q : Manager F × ℕ).
            Evicts monotonic node_id ids (n_needed - idle_count m.heap ids) m q.0 q.1)
          (some_inj (sym e₁ ∙ e)) evicts₁ in
      (evicts.pinned i b here p, (evicts.tally counts counts' found found').3)
