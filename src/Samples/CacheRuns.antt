-- ===== src/Samples/CacheRuns.antt =====
-- The KV cache manager at work: two requests with one prefix on node `a`.
use dynamo_serve.Base.{
  ℕ, ◌+◌, ◌<◌, ◌≡◌, refl, sym, ap, ◌∙◌, subst, inl, inr, some_inj, All, Distinct, ◌≤◌, ◌⊎◌, ◌-◌,
  min, get_elem?, Bool, true, false, List, [], ◌∷◌, some, lookup, arith, get_or, string_eq, nat_eq,
  insert,
}
use dynamo_serve.Base.Int.{ℤ}
use dynamo_serve.Float.Fixed.{fixed_float, fixed_laws}
use dynamo_serve.Models.Block.{CacheStats, Block}
use dynamo_serve.Models.Request.{kv_blocks_needed}
use dynamo_serve.Cache.Manager
use dynamo_serve.Cache.Manager.{Manager, fresh_stats, test_block, fresh_block}
use dynamo_serve.Cache.Invariant.{IsValid}
use dynamo_serve.Cache.Invariant.Construction.{init-IsValid}
use dynamo_serve.Cache.Allocation.{allocate, free}
use dynamo_serve.Cache.Heap.{in_use, count_where}
use dynamo_serve.Cache.Policy.{Policy, lru, better, pick_victim}
use dynamo_serve.Cache.Policy.Choice.{pick_victim_lem, Outranks}
use dynamo_serve.Cache.Eviction.{force_evict, idle_count, is_candidate, is_idle}
use dynamo_serve.Cache.Eviction.Promises.{force_evict-IsValid}
use dynamo_serve.Cache.Allocation.Promises.{
  allocate-IsValid, allocate-serves, allocate-counts, free-keep, free-drop,
}
use dynamo_serve.Samples.Data.{clock, two_nodes, shared, new_manager}

abbrev ids_a : List ℕ
ids_a = 0 ∷ 1 ∷ 2 ∷ []

new_manager-IsValid : IsValid new_manager
new_manager-IsValid = init-IsValid clock two_nodes 16 _ (omega arith)

-- The manager after the first request.
abbrev first_manager : Manager ℤ
first_manager = (get_or (allocate clock "a" shared new_manager) (new_manager, [], false)).0

first_allocate : allocate clock "a" shared new_manager ≡ some (first_manager, 0 ∷ 1 ∷ [], false)
unfolding Manager.init allocate lookup insert
first_allocate = refl

new_listed : lookup "a" new_manager.blocks ≡ some ids_a
unfolding Manager.init lookup insert
new_listed = refl

new_found : lookup "a" new_manager.stats ≡ some (fresh_stats "a" 3)
unfolding Manager.init lookup insert
new_found = refl

allocate-IsValid_example :
    (m' : Manager ℤ) × (blocks : List ℕ) × (hit : Bool) × (allocate clock "a" shared new_manager
      ≡ some (m', blocks, hit))
    × IsValid m'
allocate-IsValid_example =
    allocate-IsValid clock "a" ids_a (fresh_stats "a" 3) new_manager shared new_manager-IsValid
      new_listed new_found

first_manager-IsValid : IsValid first_manager
first_manager-IsValid =
    let (m', blocks, hit, e, v) = allocate-IsValid_copy in
    subst IsValid (ap (λ p. p.0) (some_inj (sym e ∙ first_allocate))) v
  where
    allocate-IsValid_copy :
        (m' : Manager ℤ) × (blocks : List ℕ) × (hit : Bool) × (allocate clock "a" shared new_manager
          ≡ some (m', blocks, hit))
        × IsValid m'
    allocate-IsValid_copy =
        allocate-IsValid clock "a" ids_a (fresh_stats "a" 3) new_manager shared new_manager-IsValid
          new_listed new_found

abbrev first_stats : CacheStats
first_stats = record (fresh_stats "a" 3) { used_blocks = 2; miss_count = 1 }

first_listed : lookup "a" first_manager.blocks ≡ some ids_a
unfolding Manager.init allocate lookup insert
first_listed = refl

first_found : lookup "a" first_manager.stats ≡ some first_stats
unfolding Manager.init allocate lookup insert
first_found = refl

allocate-serves_example :
    (2 ≤ 2) × (first_stats.spill_count ≡ 0) ⊎ (2 < 2) × (first_stats.spill_count ≡ 0 + 1)
unfolding kv_blocks_needed
allocate-serves_example =
    allocate-serves clock "a" ids_a (fresh_stats "a" 3) new_manager shared first_manager
      (0 ∷ 1 ∷ []) false first_stats new_manager-IsValid new_listed new_found first_allocate
      first_found

-- The second request finds the prefix of the first.
abbrev second_manager : Manager ℤ
second_manager = (get_or (allocate clock "a" shared first_manager) (new_manager, [], false)).0

second_allocate : allocate clock "a" shared first_manager ≡ some (second_manager, 0 ∷ 1 ∷ [], true)
unfolding Manager.init allocate lookup insert
second_allocate = refl

abbrev second_stats : CacheStats
second_stats = record first_stats { hit_count = 1 }

second_found : lookup "a" second_manager.stats ≡ some second_stats
unfolding Manager.init allocate lookup insert
second_found = refl

allocate-counts_example :
    (second_stats.hit_count + second_stats.miss_count
      ≡ first_stats.hit_count + first_stats.miss_count + 1)
    × (second_stats.hit_count ≡ first_stats.hit_count + 1)
allocate-counts_example =
    allocate-counts clock "a" ids_a first_stats first_manager shared second_manager (0 ∷ 1 ∷ [])
      true second_stats first_manager-IsValid first_listed first_found second_allocate second_found

first_busy : All (λ i. test_block in_use first_manager.heap i ≡ true) (0 ∷ 1 ∷ [])
unfolding Manager.init allocate lookup insert test_block in_use
first_busy = (refl, (refl, tt))

Distinct-ids : Distinct {A = ℕ} (0 ∷ 1 ∷ [])
Distinct-ids = ((λ m. elim m [ inl e ↦ omega (arith, e) | inr k ↦ k ]), ((λ m. m), tt))

free-drop_example :
    (m' : Manager ℤ) × (free clock "a" (0 ∷ 1 ∷ []) false first_manager ≡ some m') × IsValid m'
free-drop_example =
    free-drop clock "a" ids_a first_stats first_manager (0 ∷ 1 ∷ []) first_manager-IsValid
      first_listed first_found Distinct-ids (inl refl, (inr (inl refl), tt)) first_busy

-- Block 0 is given back, and its prefix stays cached.
abbrev freed_manager : Manager ℤ
freed_manager = get_or (free clock "a" (0 ∷ []) true first_manager) new_manager

first_free : free clock "a" (0 ∷ []) true first_manager ≡ some freed_manager
unfolding Manager.init allocate lookup insert free
first_free = refl

freed_manager-IsValid : IsValid freed_manager
freed_manager-IsValid =
    let (m', e, v, s) =
      free-keep clock "a" ids_a first_stats first_manager (0 ∷ []) first_manager-IsValid
        first_listed first_found in
    subst IsValid (some_inj (sym e ∙ first_free)) v

freed_listed : lookup "a" freed_manager.blocks ≡ some ids_a
unfolding Manager.init allocate lookup insert free
freed_listed = refl

freed_found : lookup "a" freed_manager.stats ≡ some first_stats
unfolding Manager.init allocate lookup insert free
freed_found = refl

force_evict-IsValid_example :
    (m' : Manager ℤ) × (n : ℕ) × (force_evict clock "a" 2 freed_manager ≡ some (m', n))
    × IsValid m'
    × (n
        ≡ min
            (2 - idle_count freed_manager.heap ids_a)
            (count_where is_candidate freed_manager.heap ids_a))
    × (count_where is_idle m'.heap ids_a ≡ count_where is_idle freed_manager.heap ids_a + n)
force_evict-IsValid_example =
    force_evict-IsValid clock "a" ids_a first_stats 2 freed_manager freed_manager-IsValid
      freed_listed freed_found

abbrev evicted_manager : Manager ℤ
evicted_manager = (get_or (force_evict clock "a" 2 freed_manager) (new_manager, 0)).0

freed_evict : force_evict clock "a" 2 freed_manager ≡ some (evicted_manager, 1)
unfolding Manager.init allocate lookup insert free force_evict
freed_evict = refl

abbrev block_1 : Block ℤ
block_1 = get_or (get_elem? freed_manager.heap 1) (fresh_block "a" 0 16 (clock 0))

freed_block : get_elem? freed_manager.heap 1 ≡ some block_1
unfolding Manager.init allocate lookup insert free
freed_block = refl

freed_block_pinned : block_1.pinned ≡ true
unfolding Manager.init allocate lookup insert free
freed_block_pinned = refl

abbrev evicted_stats : CacheStats
evicted_stats = record first_stats { used_blocks = 1; eviction_count = 1 }

evicted_found : lookup "a" evicted_manager.stats ≡ some evicted_stats
unfolding Manager.init allocate lookup insert free force_evict
evicted_found = refl

abbrev old_block : Block ℤ
old_block = fresh_block "a" 0 16 (clock 1)

abbrev new_block : Block ℤ
new_block = fresh_block "a" 1 16 (clock 2)

abbrev accesses : Policy ℤ
accesses = lru ((0, clock 1) ∷ (1, clock 2) ∷ [])

picks : pick_victim accesses (new_block ∷ old_block ∷ []) ≡ some old_block
unfolding pick_victim better lookup
picks = refl

pick_victim_lem_example : Outranks accesses old_block new_block
pick_victim_lem_example =
    pick_victim_lem fixed_laws accesses (new_block ∷ old_block ∷ []) old_block new_block picks
      (inl refl) refl
