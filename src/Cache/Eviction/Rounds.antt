-- ===== src/Cache/Eviction/Rounds.antt =====
-- The loop of `_maybe_evict`, and `force_evict`: what they keep, and how many blocks they free.
use dynamo_serve.Base.{
  ℕ, zero, suc, ◌+◌, ◌-◌, ◌≡◌, sym, ◌∙◌, ap, true, String, List, length, none, some, lookup,
  get_elem?, Option-cases, inl, inr, arith, min, string_eq,
}
use dynamo_serve.Float.{Float}
use dynamo_serve.Models.Block.{Block, CacheStats}
use dynamo_serve.Cache.Policy.{pick_victim}
use dynamo_serve.Cache.Manager.{Manager}
use dynamo_serve.Cache.Eviction.{
  is_idle, is_candidate, count_eviction, evict_block, candidates, evict_loop, idle_count,
  maybe_evict,
}
use dynamo_serve.Cache.Heap.{count_where, used_count, in_use, count_where-modify_absent}
use dynamo_serve.Cache.Invariant.{Keeps, Keeps-refl, Keeps-trans, IsValid-Keeps}
use dynamo_serve.Cache.Invariant.Counts.{
  Knows, CountsAt, IsCounted-of, self-update_stats, other-update_stats,
}
use dynamo_serve.Cache.Eviction.Victims.{
  IsVictim, pick_victim-IsVictim, pick_victim-no_candidate, Keeps-evict_block, heap_of_victim,
  pinned-evict_block, used-evict_block, candidates-evict_block, idle-evict_block,
}

module _ {F : Type 0} ⦃fl : Float F⦄ (monotonic : ℕ → F) (node_id : String) (ids : List ℕ) where
  module _ (m : Manager F) (k : Knows node_id ids m) (b : Block F) (w : IsVictim m ids b) where
    abbrev after : Manager F
    after = evict_block monotonic node_id b m

    evict_block-CountsAt : CountsAt m after node_id ids
    unfolding evict_block
    evict_block-CountsAt = record {
      same_blocks = (Keeps-evict_block monotonic node_id ids b m).blocks;
      mine = λ s e.
          let now : some s ≡ some (count_eviction k.counts) =
            sym e ∙ self-update_stats node_id count_eviction _ k.found in
          counted s (cc);
      other_stats = other-update_stats node_id count_eviction _ k.found;
      other_blocks = λ ids' apart.
          ap (λ h. used_count h ids') (heap_of_victim monotonic node_id ids b m k.valid.sound w)
          ∙ count_where-modify_absent in_use m.heap w.ref _ ids' (apart w.ref w.listed);
    }
      where
        counted :
            (s : CacheStats)
            → s ≡ count_eviction k.counts
            → (s.used_blocks ≡ used_count after.heap ids) × (s.total_blocks ≡ length ids)
        counted s e =
            let one =
              used-evict_block monotonic node_id ids b m k.valid.sound w
                (k.valid.owns node_id ids k.listed).distinct in
            let old = k.valid.counted node_id ids k.counts k.listed k.found in
            unfold count_eviction in rw e (omega arith, old.1)

    evict_block-Knows : Knows node_id ids after
    evict_block-Knows = record {
      valid = IsValid-Keeps k.valid keeps (IsCounted-of k.valid k.listed evict_block-CountsAt);
      listed = ap (lookup node_id) keeps.blocks ∙ k.listed;
      counts = count_eviction k.counts;
      found = unfold evict_block in self-update_stats node_id count_eviction _ k.found;
    }
      where
        keeps : Keeps m after
        keeps = Keeps-evict_block monotonic node_id ids b m

  -- What the loop does to a valid manager `m` that it leaves as `m'`, having evicted `n` blocks.
  pub record Evicts (missing : ℕ) (m m' : Manager F) (n : ℕ) : Type 0 where
    pub knows : Knows node_id ids m'
    pub keeps : Keeps m m'
    pub pinned :
        (i : ℕ) (c : Block F)
        → get_elem? m.heap i ≡ some c
        → c.pinned ≡ true
        → get_elem? m'.heap i ≡ some c
    pub evicted : n ≡ min missing (count_where is_candidate m.heap ids)
    pub idle : count_where is_idle m'.heap ids ≡ count_where is_idle m.heap ids + n
    pub tally :
        (s s' : CacheStats)
        → lookup node_id m.stats ≡ some s
        → lookup node_id m'.stats ≡ some s'
        → (s'.hit_count ≡ s.hit_count)
          × (s'.miss_count ≡ s.miss_count)
          × (s'.spill_count ≡ s.spill_count)
          × (s'.eviction_count ≡ s.eviction_count + n)

  tally_none :
      (m : Manager F) (s s' : CacheStats)
      → lookup node_id m.stats ≡ some s
      → lookup node_id m.stats ≡ some s'
      → (s'.hit_count ≡ s.hit_count)
        × (s'.miss_count ≡ s.miss_count)
        × (s'.spill_count ≡ s.spill_count)
        × (s'.eviction_count ≡ s.eviction_count + 0)
  tally_none m s s' e e' = ground arith

  evict_loop_none :
      (missing : ℕ) (m : Manager F)
      → Knows node_id ids m
      → pick_victim m.policy (candidates m ids) ≡ none
      → Evicts missing m m 0
  evict_loop_none missing m k e = record {
    knows = k;
    keeps = Keeps-refl m;
    pinned = λ i c h _. h;
    evicted = let no = pick_victim-no_candidate m ids e in omega arith;
    idle = omega arith;
    tally = tally_none m;
  }

  evict_loop_step :
      (missing n : ℕ) (m m' : Manager F) (b : Block F)
      → Knows node_id ids m
      → IsVictim m ids b
      → Evicts missing (evict_block monotonic node_id b m) m' n
      → Evicts (suc missing) m m' (n + 1)
  evict_loop_step missing n m m' b k w r =
      let d = (k.valid.owns node_id ids k.listed).distinct in
      let c = candidates-evict_block monotonic node_id ids b m k.valid.sound w d in
      let i = idle-evict_block monotonic node_id ids b m k.valid.sound w d in
      let old = r.evicted in
      let more = r.idle in
      record {
        knows = r.knows;
        keeps = Keeps-trans (Keeps-evict_block monotonic node_id ids b m) r.keeps;
        pinned = λ j x e p.
            r.pinned j x (pinned-evict_block monotonic node_id ids b m k.valid.sound w j x e p) p;
        evicted = omega arith;
        idle = omega arith;
        tally = λ s s' e e'.
            let first : lookup node_id (evict_block monotonic node_id b m).stats
                ≡ some (count_eviction s) =
              unfold evict_block in self-update_stats node_id count_eviction _ e in
            let rest = r.tally (count_eviction s) s' first e' in
            unfold count_eviction in ground arith;
      }

  pub evict_loop-Evicts :
      (missing : ℕ) (m : Manager F)
      → Knows node_id ids m
      → Evicts missing m
          (evict_loop monotonic missing node_id ids m).0
          (evict_loop monotonic missing node_id ids m).1
  unfolding evict_loop
  evict_loop-Evicts zero m k = record {
    knows = k;
    keeps = Keeps-refl m;
    pinned = λ i c h _. h;
    evicted = omega arith;
    idle = omega arith;
    tally = tally_none m;
  }
  evict_loop-Evicts (suc missing) m k =
      elim (Option-cases (pick_victim m.policy (candidates m ids))) [
        | inl e ↦ rw (e, evict_loop) (evict_loop_none (suc missing) m k e)
        | inr (b, e) ↦
            let w = pick_victim-IsVictim m ids b e in
            rw (e, evict_loop)
              (evict_loop_step missing _ m _ b k w (
                evict_loop-Evicts missing (evict_block monotonic node_id b m)
                  (evict_block-Knows m k b w)))
      ]

  -- `_maybe_evict` on a valid manager that knows the node: it never raises, keeps the manager valid
  -- and every pinned block as it is, evicts the missing blocks or else every candidate, and each
  -- block that it evicts is idle afterwards.
  pub maybe_evict_lem :
      (n_needed : ℕ) (m : Manager F)
      → Knows node_id ids m
      → (m' : Manager F) × (n : ℕ) × (maybe_evict monotonic node_id n_needed m ≡ some (m', n))
        × Evicts (n_needed - idle_count m.heap ids) m m' n
  unfolding maybe_evict
  maybe_evict_lem n_needed m k =
      let missing = n_needed - idle_count m.heap ids in
      (
        (evict_loop monotonic missing node_id ids m).0,
        (evict_loop monotonic missing node_id ids m).1,
        rw (k.found, k.listed),
        evict_loop-Evicts missing m k,
      )
