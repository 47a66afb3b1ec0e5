-- ===== src/Cache/Allocation/Contract.antt =====
-- The contract of `allocate`: on a valid manager that knows the node it never raises, and this is
-- what it returns.
use dynamo_serve.Base.{
  Option, get_elem?, ℕ, ◌+◌, ◌-◌, ◌<◌, ◌≤◌, ◌≡◌, ◌∙◌, Bool, true, String, List, ◌++◌, length, some,
  lookup, arith, ◌⊎◌, All, All-append, All-map_of, length-append, ltb, if◌then◌else◌, string_eq,
}
use dynamo_serve.Float.{Float}
use dynamo_serve.Models.Block.{Block, CacheStats}
use dynamo_serve.Models.Request.{Request, kv_blocks_needed}
use dynamo_serve.Cache.Manager.{Manager, test_block}
use dynamo_serve.Cache.Eviction.Rounds.{Evicts, maybe_evict_lem}
use dynamo_serve.Cache.Allocation.{reuse, allocate}
use dynamo_serve.Cache.Allocation.Pinning.{is_pinned, Holds}
use dynamo_serve.Cache.Allocation.Reuse.{Reuses, reuse-Reuses}
use dynamo_serve.Cache.Allocation.Outcome.{Takes, take_free-Takes}
use dynamo_serve.Cache.Heap.{test_block-true, test_block-some}
use dynamo_serve.Cache.Invariant.Counts.{Knows}

module _ {F : Type 0} (node_id : String) (ids : List ℕ) where
  -- What `allocate` for `needed` blocks makes of `m`, where it returns `blocks` and `hit`.
  pub record Allocates (needed : ℕ) (m m' : Manager F) (blocks : List ℕ) (hit : Bool) : Type 0 where
    pub knows : Knows node_id ids m'
    -- every block returned is pinned, and no pin was taken away
    pub held : All (λ i. test_block is_pinned m'.heap i ≡ true) blocks
    pub pinned :
        (i : ℕ) → test_block is_pinned m.heap i ≡ true → test_block is_pinned m'.heap i ≡ true
    -- what was pinned has kept its tokens and its prefix
    pub contents :
        (tokens : ℕ) (prefix : Option String) (i : ℕ)
        → Holds tokens prefix m.heap i
        → Holds tokens prefix m'.heap i
    -- one lookup was counted, as a hit if and only if `hit`
    pub looked_up :
        (s s' : CacheStats)
        → lookup node_id m.stats ≡ some s
        → lookup node_id m'.stats ≡ some s'
        → (s'.hit_count + s'.miss_count ≡ s.hit_count + s.miss_count + 1)
          × (s'.hit_count ≡ s.hit_count + (if hit then 1 else 0))
    -- enough blocks, or a spill is counted
    pub served :
        (s s' : CacheStats)
        → lookup node_id m.stats ≡ some s
        → lookup node_id m'.stats ≡ some s'
        → (needed ≤ length blocks) × (s'.spill_count ≡ s.spill_count)
          ⊎ (length blocks < needed) × (s'.spill_count ≡ s.spill_count + 1)

  pinned-Evicts :
      (h h' : List (Block F)) (i : ℕ)
      → ((b : Block F) → get_elem? h i ≡ some b → b.pinned ≡ true → get_elem? h' i ≡ some b)
      → test_block is_pinned h i ≡ true
      → test_block is_pinned h' i ≡ true
  pinned-Evicts h h' i keep p =
      let (b, e, q) = test_block-true is_pinned h i p in
      test_block-some is_pinned h' i (keep b e q) ∙ q

  Holds-Evicts :
      (tokens : ℕ) (prefix : Option String) (h h' : List (Block F)) (i : ℕ)
      → ((b : Block F) → get_elem? h i ≡ some b → b.pinned ≡ true → get_elem? h' i ≡ some b)
      → Holds tokens prefix h i
      → Holds tokens prefix h' i
  Holds-Evicts tokens prefix h h' i keep (b, e, p, t, x) = (b, keep b e p, p, t, x)

module _ {F : Type 0} ⦃fl : Float F⦄ (monotonic : ℕ → F) (node_id : String) (ids : List ℕ) where
  module _ (needed : ℕ) (m m₁ m₂ m₃ : Manager F) (reused new : List ℕ) (evicted missing : ℕ) where
    assemble :
        Reuses node_id ids m m₁ reused
        → Evicts monotonic node_id ids missing m₁ m₂ evicted
        → Takes monotonic node_id ids (needed - length reused) m₂ m₃ new
        → Allocates node_id ids needed m m₃ (reused ++ new) (ltb 0 (length reused))
    assemble r e t = record {
      knows = t.knows;
      held =
          All-append _ reused new (All-map_of _ _ reused (λ i p. t.pinned i (evict i p)) r.held)
            t.filled;
      pinned = λ i p. t.pinned i (evict i (r.pinned i p));
      contents = λ tokens prefix i h. t.contents tokens prefix i (
          Holds-Evicts node_id ids tokens prefix m₁.heap m₂.heap i (λ b. e.pinned i b)
            (r.contents tokens prefix i h));
      looked_up = λ s s' es es'.
          let one = r.tally s r.knows.counts es r.knows.found in
          let two = e.tally r.knows.counts e.knows.counts r.knows.found e.knows.found in
          let three = t.tally e.knows.counts s' e.knows.found es' in (omega arith, omega arith);
      served = λ s s' es es'.
          let one = r.tally s r.knows.counts es r.knows.found in
          let two = e.tally r.knows.counts e.knows.counts r.knows.found e.knows.found in
          let three = t.tally e.knows.counts s' e.knows.found es' in
          let size = t.taken in let total = length-append reused new in ground arith;
    }
      where
        evict :
            (i : ℕ) → test_block is_pinned m₁.heap i ≡ true → test_block is_pinned m₂.heap i ≡ true
        evict i p = pinned-Evicts node_id ids m₁.heap m₂.heap i (λ b. e.pinned i b) p

  pub allocate_lem :
      (request : Request F) (m : Manager F)
      → Knows node_id ids m
      → (m' : Manager F) × (blocks : List ℕ) × (hit : Bool) × (allocate monotonic node_id request m
          ≡ some (m', blocks, hit))
        × Allocates node_id ids (kv_blocks_needed request) m m' blocks hit
  unfolding allocate
  allocate_lem request m k =
      let r = reuse-Reuses monotonic node_id ids request m k in
      let (m₁, reused) = reuse monotonic node_id request m in
      let n_needed = kv_blocks_needed request - length reused in
      let (m₂, n, done, e) = maybe_evict_lem monotonic node_id ids n_needed m₁ r.knows in
      let t =
        take_free-Takes monotonic node_id ids request.prefix_hash n_needed reused m₂ e.knows in
      (
        _,
        _,
        _,
        rw (k.found, done, e.knows.listed),
        assemble (kv_blocks_needed request) m m₁ m₂ _ reused _ n _ r e t,
      )
