-- ===== src/Cache/Allocation/Freeing.antt =====
-- `free`: giving blocks back with their prefix kept, and without.
use dynamo_serve.Base.{
  ℕ, ◌-◌, ◌≡◌, refl, sym, ◌∙◌, ap, true, false, String, List, [], ◌∷◌, length, lookup, modify,
  arith, Elem, Distinct, All, string_eq, inl, inr,
}
use dynamo_serve.Float.{Float}
use dynamo_serve.Models.Block.{Block, CacheStats}
use dynamo_serve.Cache.Manager.{Manager, test_block, update_stats, access_block}
use dynamo_serve.Cache.Allocation.{unpin_block, empty_block, free_all}
use dynamo_serve.Cache.Allocation.Pinning.{access_block-Marks}
use dynamo_serve.Cache.Allocation.Reuse.{Same-Knows, Marks-Knows}
use dynamo_serve.Cache.Heap.{
  in_use, used_count, count_where-modify_keep, count_where-modify_down, count_where-modify_absent,
  test_block-modify_ne, test_block-modify_keep, test_block-true,
}
use dynamo_serve.Cache.Invariant.{Keeps, Keeps-trans, IsValid-Keeps}
use dynamo_serve.Cache.Invariant.Writes.{
  IsGentle, HeapKeeps-modify, Keeps-update_stats, heap-update_stats, in_use-stamp,
}
use dynamo_serve.Cache.Invariant.Counts.{Knows, IsCounted-of, self-update_stats, other-update_stats}

-- `stats.used_blocks = max(0, stats.used_blocks - 1)`
abbrev drop_used : CacheStats → CacheStats
drop_used s = record s { used_blocks = s.used_blocks - 1 }

module _ {F : Type 0} where
  unpin_block-IsGentle : IsGentle {F = F} unpin_block
  unfolding unpin_block
  unpin_block-IsGentle b = (refl, refl, λ h. h)

  empty_block-IsGentle : IsGentle {F = F} empty_block
  unfolding empty_block
  empty_block-IsGentle b = (refl, refl, λ _ _. refl)

  abbrev unpin_at : ℕ → Manager F → Manager F
  unpin_at i m = record m { heap = modify m.heap i unpin_block }

  abbrev empty_at : ℕ → Manager F → Manager F
  empty_at i m = record m { heap = modify m.heap i empty_block }

  Keeps-unpin_at : (i : ℕ) (m : Manager F) → Keeps m (unpin_at i m)
  Keeps-unpin_at i m = record {
    heaps = HeapKeeps-modify m.heap i unpin_block unpin_block-IsGentle;
    size = refl;
    blocks = refl;
    next = refl;
  }

  Keeps-empty_at : (i : ℕ) (m : Manager F) → Keeps m (empty_at i m)
  Keeps-empty_at i m = record {
    heaps = HeapKeeps-modify m.heap i empty_block empty_block-IsGentle;
    size = refl;
    blocks = refl;
    next = refl;
  }

  in_use-unpin_block : (b : Block F) → in_use (unpin_block b) ≡ in_use b
  unfolding in_use unpin_block
  in_use-unpin_block b = refl

  module _ (node_id : String) (ids : List ℕ) where
    unpin_at-Knows :
        (i : ℕ) (m : Manager F) → Knows node_id ids m → Knows node_id ids (unpin_at i m)
    unpin_at-Knows i m k =
        Same-Knows node_id ids m (unpin_at i m) (Keeps-unpin_at i m) refl
          (λ is. count_where-modify_keep in_use m.heap i unpin_block is in_use-unpin_block) k

    drop_at-Knows :
        (i : ℕ) (m : Manager F)
        → Knows node_id ids m
        → Elem i ids
        → test_block in_use m.heap i ≡ true
        → Knows node_id ids (update_stats node_id drop_used (empty_at i m))
    drop_at-Knows i m k listed busy = record {
      valid = IsValid-Keeps k.valid keeps (
          IsCounted-of {m' = m'} k.valid k.listed (record {
            same_blocks = keeps.blocks;
            mine =
                λ s e. now s (cc (e, self-update_stats node_id drop_used (empty_at i m) k.found));
            other_stats = other-update_stats node_id drop_used (empty_at i m) k.found;
            other_blocks = λ ids' apart.
                ap (λ h. used_count h ids') (heap-update_stats node_id drop_used (empty_at i m))
                ∙ count_where-modify_absent in_use m.heap i empty_block ids' (apart i listed);
          }));
      listed = ap (lookup node_id) keeps.blocks ∙ k.listed;
      counts = drop_used k.counts;
      found = self-update_stats node_id drop_used (empty_at i m) k.found;
    }
      where
        m' : Manager F
        m' = update_stats node_id drop_used (empty_at i m)

        keeps : Keeps m m'
        keeps =
            Keeps-trans (Keeps-empty_at i m) (Keeps-update_stats node_id drop_used (empty_at i m))

        now :
            (s : CacheStats)
            → s ≡ drop_used k.counts
            → (s.used_blocks ≡ used_count m'.heap ids) × (s.total_blocks ≡ length ids)
        now s e =
            let (b, at, inn) = test_block-true in_use m.heap i busy in
            let less =
              count_where-modify_down in_use m.heap i empty_block ids
                (k.valid.owns node_id ids k.listed).distinct listed at inn
                (unfold in_use empty_block in refl) in
            let old = k.valid.counted node_id ids k.counts k.listed k.found in
            rw (e, heap-update_stats node_id drop_used (empty_at i m)) (omega arith, old.1)

module _ {F : Type 0} ⦃fl : Float F⦄ (monotonic : ℕ → F) (node_id : String) (ids : List ℕ) where
  -- `free(node_id, blocks)` with the prefixes kept, whatever the blocks: it never raises, keeps the
  -- manager valid, and changes no statistics.
  pub free_all-keep :
      (blocks : List ℕ) (m : Manager F)
      → Knows node_id ids m
      → Knows node_id ids (free_all monotonic node_id blocks true m)
        × ((free_all monotonic node_id blocks true m).stats ≡ m.stats)
  unfolding free_all
  free_all-keep [] m k = (k, refl)
  free_all-keep (i ∷ is) m k =
      let marks = access_block-Marks monotonic i (unpin_at i m) in
      let rest =
        free_all-keep is (access_block monotonic i (unpin_at i m))
          (Marks-Knows node_id ids (unpin_at i m) _ marks (unpin_at-Knows node_id ids i m k)) in
      (rest.0, rest.1 ∙ marks.stats)

  abbrev drop_one : ℕ → Manager F → Manager F
  drop_one i m =
      access_block monotonic i (update_stats node_id drop_used (empty_at i (unpin_at i m)))

  drop_one-others :
      (i j : ℕ) (m : Manager F)
      → ¬ (i ≡ j)
      → test_block in_use m.heap j ≡ true
      → test_block in_use (drop_one i m).heap j ≡ true
  drop_one-others i j m ne h =
      unfold access_block in
      (test_block-modify_keep in_use _ i j _ (in_use-stamp _ _)
        ∙ ap (λ heap. test_block in_use heap j)
            (heap-update_stats node_id drop_used (empty_at i (unpin_at i m)))
        ∙ test_block-modify_ne in_use (unpin_at i m).heap i j empty_block (λ q. ne (sym q))
        ∙ test_block-modify_ne in_use m.heap i j unpin_block (λ q. ne (sym q))
        ∙ h)

  drop_each_others :
      (i : ℕ) (is : List ℕ) (m : Manager F)
      → ¬ Elem i is
      → All (λ j. test_block in_use m.heap j ≡ true) is
      → All (λ j. test_block in_use (drop_one i m).heap j ≡ true) is
  drop_each_others i [] m out h = tt
  drop_each_others i (j ∷ is) m out h = (
    drop_one-others i j m (λ q. out (inl (sym q))) h.0,
    drop_each_others i is m (λ k. out (inr k)) h.1,
  )

  -- Without the prefixes, on distinct blocks of the node that are in use: the manager stays valid,
  -- so that the statistics count exactly the blocks that are left in use.
  pub free_all-drop :
      (blocks : List ℕ) (m : Manager F)
      → Knows node_id ids m
      → Distinct blocks
      → All (λ i. Elem i ids) blocks
      → All (λ i. test_block in_use m.heap i ≡ true) blocks
      → Knows node_id ids (free_all monotonic node_id blocks false m)
  unfolding free_all
  free_all-drop [] m k d listed busy = k
  free_all-drop (i ∷ is) m k d listed busy =
      let unpinned = unpin_at-Knows node_id ids i m k in
      let still =
        test_block-modify_keep in_use m.heap i i unpin_block in_use-unpin_block ∙ busy.0 in
      let dropped = drop_at-Knows node_id ids i (unpin_at i m) unpinned listed.0 still in
      let marks =
        access_block-Marks monotonic i
          (update_stats node_id drop_used (empty_at i (unpin_at i m))) in
      free_all-drop is (drop_one i m) (Marks-Knows node_id ids _ _ marks dropped) d.1 listed.1
        (drop_each_others i is m d.0 busy.1)
