-- ===== src/Cache/Allocation/Reuse.antt =====
-- Step 1 of `allocate`, and the operations that leave every count as it is.
use dynamo_serve.Base.{
  Option, ℕ, ◌+◌, ◌≡◌, refl, sym, ◌∙◌, ap, subst, true, String, List, [], ◌∷◌, length, some, lookup,
  Option-cases, inl, inr, arith, All, All-select_self, ltb, if◌then◌else◌, string_eq,
}
use dynamo_serve.Float.{Float}
use dynamo_serve.Models.Block.{CacheStats}
use dynamo_serve.Models.Request.{Request}
use dynamo_serve.Cache.Manager.{Manager, test_block, update_stats, given_hash}
use dynamo_serve.Cache.Allocation.{reusable, reuse, count_hit, count_miss, pin_all}
use dynamo_serve.Cache.Allocation.Pinning.{Marks, pin_all-Marks, pin_all-pinned, is_pinned, Holds}
use dynamo_serve.Cache.Heap.{used_count}
use dynamo_serve.Cache.Invariant.{on_node, Keeps, IsValid-Keeps}
use dynamo_serve.Cache.Invariant.Writes.{Keeps-update_stats, heap-update_stats}
use dynamo_serve.Cache.Invariant.Counts.{Knows, IsCounted-of, self-update_stats, other-update_stats}

module _ {F : Type 0} (node_id : String) (ids : List ℕ) where
  -- A write to the statistics that leaves both block counts alone.
  pub tally-Knows :
      (f : CacheStats → CacheStats) (m : Manager F)
      → ((s : CacheStats)
          → ((f s).used_blocks ≡ s.used_blocks) × ((f s).total_blocks ≡ s.total_blocks))
      → Knows node_id ids m
      → Knows node_id ids (update_stats node_id f m)
  tally-Knows f m same k = record {
    valid = IsValid-Keeps k.valid keeps (
        IsCounted-of {m' = update_stats node_id f m} k.valid k.listed (record {
          same_blocks = keeps.blocks;
          mine = λ s e. now s (cc (e, self-update_stats node_id f m k.found));
          other_stats = other-update_stats node_id f m k.found;
          other_blocks = λ ids' _. ap (λ h. used_count h ids') (heap-update_stats node_id f m);
        }));
    listed = ap (lookup node_id) keeps.blocks ∙ k.listed;
    counts = f k.counts;
    found = self-update_stats node_id f m k.found;
  }
    where
      keeps : Keeps m (update_stats node_id f m)
      keeps = Keeps-update_stats node_id f m

      now :
          (s : CacheStats)
          → s ≡ f k.counts
          → (s.used_blocks ≡ used_count (update_stats node_id f m).heap ids)
            × (s.total_blocks ≡ length ids)
      now s e =
          let old = k.valid.counted node_id ids k.counts k.listed k.found in
          rw (e, heap-update_stats node_id f m)
            ((same k.counts).0 ∙ old.0, (same k.counts).1 ∙ old.1)

  -- An operation that keeps the statistics and every count of blocks in use.
  pub Same-Knows :
      (m m' : Manager F)
      → Keeps m m'
      → m'.stats ≡ m.stats
      → ((is : List ℕ) → used_count m'.heap is ≡ used_count m.heap is)
      → Knows node_id ids m
      → Knows node_id ids m'
  Same-Knows m m' keeps stats used k = record {
    valid = IsValid-Keeps k.valid keeps (λ n is s eb es.
        let old =
          k.valid.counted n is s (sym (ap (lookup n) keeps.blocks) ∙ eb)
            (sym (ap (lookup n) stats) ∙ es) in
        (old.0 ∙ sym (used is), old.1));
    listed = ap (lookup node_id) keeps.blocks ∙ k.listed;
    counts = k.counts;
    found = ap (lookup node_id) stats ∙ k.found;
  }

  pub Marks-Knows : (m m' : Manager F) → Marks m m' → Knows node_id ids m → Knows node_id ids m'
  Marks-Knows m m' c = Same-Knows m m' c.keeps c.stats c.used

  -- What step 1 leaves: `m'` with the blocks `reused` pinned, and a hit or a miss counted.
  pub record Reuses (m m' : Manager F) (reused : List ℕ) : Type 0 where
    pub knows : Knows node_id ids m'
    pub pinned :
        (i : ℕ) → test_block is_pinned m.heap i ≡ true → test_block is_pinned m'.heap i ≡ true
    pub contents :
        (tokens : ℕ) (prefix : Option String) (i : ℕ)
        → Holds tokens prefix m.heap i
        → Holds tokens prefix m'.heap i
    pub held : All (λ i. test_block is_pinned m'.heap i ≡ true) reused
    pub tally :
        (s s' : CacheStats)
        → lookup node_id m.stats ≡ some s
        → lookup node_id m'.stats ≡ some s'
        → (s'.hit_count + s'.miss_count ≡ s.hit_count + s.miss_count + 1)
          × (s'.hit_count ≡ s.hit_count + (if ltb 0 (length reused) then 1 else 0))
          × (s'.spill_count ≡ s.spill_count)
          × (s'.eviction_count ≡ s.eviction_count)

  -- The reusable blocks are on the node.
  reusable-on_node :
      (request : Request F) (m : Manager F)
      → All (λ i. test_block (on_node node_id) m.heap i ≡ true) (reusable node_id request m)
  unfolding reusable
  reusable-on_node request m = elim (Option-cases (given_hash request.prefix_hash)) [
    | inl e ↦ rw (e, reusable) tt
    | inr (h, e) ↦ elim (Option-cases (lookup h m.prefix_cache)) [
      | inl e' ↦ rw (e, e', reusable) tt
      | inr (cached, e') ↦
          rw (e, e', reusable) (All-select_self (test_block (on_node node_id) m.heap) cached)
    ]
  ]

module _ {F : Type 0} ⦃fl : Float F⦄ (monotonic : ℕ → F) (node_id : String) (ids : List ℕ) where
  reuse_cases :
      (request : Request F) (m : Manager F) (reused : List ℕ)
      → Knows node_id ids m
      → reusable node_id request m ≡ reused
      → Reuses node_id ids m
          (reuse monotonic node_id request m).0
          (reuse monotonic node_id request m).1
  unfolding reuse
  reuse_cases request m [] k e =
      rw (e, reuse)
        (record {
          knows = tally-Knows node_id ids count_miss m (λ s. unfold count_miss in (refl, refl)) k;
          pinned = λ i p. rw (heap-update_stats node_id count_miss m) p;
          contents = λ _ _ i h. rw (heap-update_stats node_id count_miss m) h;
          held = tt;
          tally = λ s s' es es'.
              let now = self-update_stats node_id count_miss m es in
              unfold count_miss in ground arith;
        })
  reuse_cases request m (i ∷ is) k e =
      let pins = pin_all-Marks monotonic (i ∷ is) m in
      let pinned_m = pin_all monotonic (i ∷ is) m in
      rw (e, reuse)
        (record {
          knows =
              tally-Knows node_id ids count_hit pinned_m (λ s. unfold count_hit in (refl, refl))
                (Marks-Knows node_id ids m pinned_m pins k);
          pinned = λ j p. rw (heap-update_stats node_id count_hit pinned_m) (pins.pinned j p);
          contents = λ tokens prefix j h.
              rw (heap-update_stats node_id count_hit pinned_m) (pins.held tokens prefix j h);
          held =
              subst (λ h. All (λ j. test_block is_pinned h j ≡ true) (i ∷ is))
                (sym (heap-update_stats node_id count_hit pinned_m))
                (pin_all-pinned monotonic (on_node node_id) (i ∷ is) m
                  (λ m m' j keeps h. keeps.heaps.same_node node_id j ∙ h)
                  (rw e at (reusable-on_node node_id ids request m)));
          tally = λ s s' es es'.
              let now =
                self-update_stats node_id count_hit pinned_m
                  (ap (lookup node_id) pins.stats ∙ es) in
              unfold count_hit in ground arith;
        })

  pub reuse-Reuses :
      (request : Request F) (m : Manager F)
      → Knows node_id ids m
      → Reuses node_id ids m
          (reuse monotonic node_id request m).0
          (reuse monotonic node_id request m).1
  reuse-Reuses request m k = reuse_cases request m (reusable node_id request m) k refl
