-- ===== src/Cache/Allocation/Outcome.antt =====
-- `allocate` as a whole: it never raises on a valid manager that knows the node, and what it returns.
use dynamo_serve.Base.{
  All-Elem, ℕ, ◌+◌, ◌≡◌, refl, sym, ◌∙◌, ap, subst, true, not, String, List, length, take, min,
  Option, some, lookup, select, Bool-cases, inl, inr, arith, Elem, All, All-take, All-select_self,
  All-map_of, Elem-All, Elem-take, Elem-select, select-Distinct, take-Distinct, length-take, ltb,
  if◌then◌else◌, string_eq,
}
use dynamo_serve.Float.{Float}
use dynamo_serve.Models.Block.{CacheStats}
use dynamo_serve.Cache.Manager.{Manager, test_block, update_stats}
use dynamo_serve.Cache.Allocation.{is_free, count_spill, count_used, fill_all, register, take_free}
use dynamo_serve.Cache.Allocation.Pinning.{is_pinned, Holds}
use dynamo_serve.Cache.Allocation.Filling.{Fills, fill_all-Fills}
use dynamo_serve.Cache.Allocation.Registering.{
  free-not-in_use, free-not-Holds, heap-register, stats-register, register-Knows,
}
use dynamo_serve.Cache.Allocation.Reuse.{tally-Knows}
use dynamo_serve.Cache.Heap.{in_use, used_count, count_where}
use dynamo_serve.Cache.Invariant.{Keeps, Keeps-trans, IsValid-Keeps}
use dynamo_serve.Cache.Invariant.Writes.{Keeps-update_stats, heap-update_stats}
use dynamo_serve.Cache.Invariant.Counts.{Knows, IsCounted-of, self-update_stats, other-update_stats}

module _ {F : Type 0} ⦃fl : Float F⦄ (monotonic : ℕ → F) (node_id : String) (ids : List ℕ) where
  count_used-Knows :
      (new : List ℕ) (m m' : Manager F)
      → Knows node_id ids m
      → Fills monotonic new m m'
      → All (λ i. Elem i ids) new
      → Knows node_id ids (update_stats node_id (count_used (length new)) m')
  count_used-Knows new m m' k f listed = record {
    valid = IsValid-Keeps k.valid keeps (
        IsCounted-of {m' = m''} k.valid k.listed (record {
          same_blocks = keeps.blocks;
          mine =
              λ s e. now s (cc (e, self-update_stats node_id (count_used (length new)) m' found));
          other_stats = λ j ne.
              other-update_stats node_id (count_used (length new)) m' found j ne
              ∙ ap (lookup j) f.stats;
          other_blocks = λ ids' apart.
              ap (λ h. used_count h ids') (heap-update_stats node_id (count_used (length new)) m')
              ∙ f.others ids' (All-map_of _ _ new apart listed);
        }));
    listed = ap (lookup node_id) keeps.blocks ∙ k.listed;
    counts = count_used (length new) k.counts;
    found = self-update_stats node_id (count_used (length new)) m' found;
  }
    where
      m'' : Manager F
      m'' = update_stats node_id (count_used (length new)) m'

      keeps : Keeps m m''
      keeps = Keeps-trans f.keeps (Keeps-update_stats node_id _ m')

      found : lookup node_id m'.stats ≡ some k.counts
      found = ap (lookup node_id) f.stats ∙ k.found

      now :
          (s : CacheStats)
          → s ≡ count_used (length new) k.counts
          → (s.used_blocks ≡ used_count m''.heap ids) × (s.total_blocks ≡ length ids)
      now s e =
          let old = k.valid.counted node_id ids k.counts k.listed k.found in
          let more = f.used ids (k.valid.owns node_id ids k.listed).distinct listed in
          rw (heap-update_stats node_id (count_used (length new)) m')
            (unfold count_used in ground arith)

  -- What step 3 does: `new` are `n_needed` of the free blocks, or all of them, which is a spill.
  pub record Takes (n_needed : ℕ) (m m' : Manager F) (new : List ℕ) : Type 0 where
    pub knows : Knows node_id ids m'
    pub pinned :
        (i : ℕ) → test_block is_pinned m.heap i ≡ true → test_block is_pinned m'.heap i ≡ true
    pub contents :
        (tokens : ℕ) (prefix : Option String) (i : ℕ)
        → Holds tokens prefix m.heap i
        → Holds tokens prefix m'.heap i
    pub filled : All (λ i. test_block is_pinned m'.heap i ≡ true) new
    pub taken : length new ≡ min n_needed (count_where is_free m.heap ids)
    pub tally :
        (s s' : CacheStats)
        → lookup node_id m.stats ≡ some s
        → lookup node_id m'.stats ≡ some s'
        → (s'.hit_count ≡ s.hit_count)
          × (s'.miss_count ≡ s.miss_count)
          × (s'.eviction_count ≡ s.eviction_count)
          × (s'.spill_count
              ≡ s.spill_count + (if ltb (count_where is_free m.heap ids) n_needed then 1 else 0))

  module _ (prefix : Option String) (n : ℕ) (reused : List ℕ) (m : Manager F) where
    abbrev free : List ℕ
    free = select (test_block is_free m.heap) ids

    -- The end of the step, from a state `m₁` with the spill counted or not.
    finish :
        (n_needed : ℕ) (m₁ : Manager F)
        → Knows node_id ids m
        → Knows node_id ids m₁
        → m₁.heap ≡ m.heap
        → length (take n free) ≡ min n_needed (length free)
        → ((s s₁ : CacheStats)
            → lookup node_id m.stats ≡ some s
            → lookup node_id m₁.stats ≡ some s₁
            → (s₁.hit_count ≡ s.hit_count)
              × (s₁.miss_count ≡ s.miss_count)
              × (s₁.eviction_count ≡ s.eviction_count)
              × (s₁.spill_count ≡ s.spill_count + (if ltb (length free) n_needed then 1 else 0)))
        → Takes n_needed m
            (register prefix reused (take n free) (
              update_stats node_id
                (count_used (length (take n free)))
                (fill_all monotonic prefix (take n free) m₁)))
            (take n free)
    finish n_needed m₁ k k₁ same size tally = record {
      knows =
          register-Knows node_id ids prefix reused new m₃
            (count_used-Knows new m₁ m₂ k₁ fills inside);
      pinned = λ i p.
          subst (λ h. test_block is_pinned h i ≡ true) (sym end)
            (fills.pinned i (subst (λ h. test_block is_pinned h i ≡ true) (sym same) p));
      contents = λ tokens hash i h.
          subst (λ h. Holds tokens hash h i) (sym end)
            (fills.contents tokens hash i
              (λ k. free-not-Holds m.heap i tokens hash (All-Elem _ new free_here k) h)
              (subst (λ h. Holds tokens hash h i) (sym same) h));
      filled = subst (λ h. All (λ i. test_block is_pinned h i ≡ true) new) (sym end) fills.filled;
      taken = unfold count_where in size;
      tally = λ s s' e e'.
          let first = tally s k₁.counts e k₁.found in
          let found : lookup node_id m₂.stats ≡ some k₁.counts =
            ap (lookup node_id) fills.stats ∙ k₁.found in
          let now = self-update_stats node_id (count_used (length new)) m₂ found in
          let last : some s' ≡ some (count_used (length new) k₁.counts) =
            sym e' ∙ ap (lookup node_id) (stats-register prefix reused new m₃) ∙ now in
          unfold count_used count_where in ground arith;
    }
      where
        new : List ℕ
        new = take n free

        m₂ : Manager F
        m₂ = fill_all monotonic prefix new m₁

        m₃ : Manager F
        m₃ = update_stats node_id (count_used (length new)) m₂

        free_here : All (λ i. test_block is_free m.heap i ≡ true) new
        free_here = All-take _ n free (All-select_self (test_block is_free m.heap) ids)

        inside : All (λ i. Elem i ids) new
        inside =
            Elem-All _ new
              (λ i e. Elem-select (test_block is_free m.heap) ids i (Elem-take n free i e))

        fills : Fills monotonic new m₁ m₂
        fills =
            fill_all-Fills monotonic prefix new m₁ k₁.valid.size
              (take-Distinct n free (
                select-Distinct (test_block is_free m.heap) ids
                  (k.valid.owns node_id ids k.listed).distinct))
              (subst (λ h. All (λ i. test_block (λ b. not (in_use b)) h i ≡ true) new) (sym same)
                (All-take _ n free (
                  All-map_of _ _ free (free-not-in_use m.heap)
                    (All-select_self (test_block is_free m.heap) ids))))

        end : (register prefix reused new m₃).heap ≡ m₂.heap
        end = heap-register prefix reused new m₃ ∙ heap-update_stats node_id _ m₂

  pub take_free-Takes :
      (prefix : Option String) (n_needed : ℕ) (reused : List ℕ) (m : Manager F)
      → Knows node_id ids m
      → Takes n_needed m
          (take_free monotonic node_id prefix n_needed ids reused m).0
          (take_free monotonic node_id prefix n_needed ids reused m).1
  unfolding take_free
  take_free-Takes prefix n_needed reused m k =
      elim (Bool-cases (ltb (length (free prefix n_needed reused m)) n_needed)) [
        | inl short ↦
            rw (short, take_free)
              (finish prefix (length (free prefix n_needed reused m)) reused m n_needed
                (update_stats node_id count_spill m) k
                (tally-Knows node_id ids count_spill m (λ s. unfold count_spill in (refl, refl)) k)
                (heap-update_stats node_id count_spill m) (length-take _ _ ∙ ground arith)
                (λ s s₁ e e₁.
                  let now = self-update_stats node_id count_spill m e in
                  unfold count_spill in ground arith))
        | inr enough ↦
            rw (enough, take_free)
              (finish prefix n_needed reused m n_needed m k k refl (length-take _ _)
                (λ s s₁ e e₁. ground arith))
      ]
