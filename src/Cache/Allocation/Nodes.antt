-- ===== src/Cache/Allocation/Nodes.antt =====
-- The nodes that a KVCacheManager knows: no allocation and no freeing makes it forget one.
pub mod Built
use dynamo_serve.Base.{
  ℕ, zero, suc, ◌-◌, ◌≡◌, refl, ◌∙◌, ap, Bool, true, false, if◌then◌else◌, ltb, String, List, [],
  ◌∷◌, length, take, select, Option, some, lookup, ◌==◌, string_eq, Option-cases, Bool-cases, inl,
  inr, eq_iff, arith, subst, map, Elem, ◌⊎◌, lookup-insert, bind-some, some_inj,
}
use dynamo_serve.Float.{Float}
use dynamo_serve.Models.Block.{Block, CacheStats}
use dynamo_serve.Models.Request.{Request}
use dynamo_serve.Models.Node.{Node}
use dynamo_serve.Cache.Policy.{Policy, pick_victim}
use dynamo_serve.Cache.Manager
use dynamo_serve.Cache.Manager.{
  Manager, update_stats, access_block, given_hash, test_block, make_block, make_blocks, fresh_stats,
  init_node, init_nodes,
}
use dynamo_serve.Cache.Eviction.{evict_block, evict_loop, maybe_evict, candidates, idle_count}
use dynamo_serve.Cache.Allocation.{
  pin_all, reuse, reusable, fill_all, register, take_free, allocate, free_all, free, count_miss,
  count_hit, count_spill, count_used, is_free,
}

module _ {F : Type 0} where
  -- The manager has blocks and statistics for the node.
  pub record HasNode (a : String) (m : Manager F) : Type 0 where
    pub ids : List ℕ
    pub listed : lookup a m.blocks ≡ some ids
    pub counts : CacheStats
    pub found : lookup a m.stats ≡ some counts

  abbrev pub KeepsNodes : Manager F → Manager F → Type 0
  KeepsNodes m m' = (a : String) → HasNode a m → HasNode a m'

  pub HasNode-update_stats :
      (node_id : String) (f : CacheStats → CacheStats) (m : Manager F)
      → KeepsNodes m (update_stats node_id f m)
  unfolding update_stats
  HasNode-update_stats node_id f m a h = elim (Option-cases (lookup node_id m.stats)) [
    | inl e ↦ rw (update_stats, e) h
    | inr (s, e) ↦
        rw (update_stats, e)
          (elim (Bool-cases (node_id == a)) [
            | inl q ↦ record {
              ids = h.ids;
              listed = h.listed;
              counts = f s;
              found = lookup-insert node_id a (f s) m.stats ∙ rw q refl;
            }
            | inr q ↦ record {
              ids = h.ids;
              listed = h.listed;
              counts = h.counts;
              found = lookup-insert node_id a (f s) m.stats ∙ rw q h.found;
            }
          ])
  ]

  -- What changes neither the blocks nor the statistics of a manager.
  pub same_tables : (m m' : Manager F) → m'.blocks ≡ m.blocks → m'.stats ≡ m.stats → KeepsNodes m m'
  same_tables m m' b s a h = record {
    ids = h.ids;
    listed = ap (lookup a) b ∙ h.listed;
    counts = h.counts;
    found = ap (lookup a) s ∙ h.found;
  }

  pub register-KeepsNodes :
      (prefix : Option String) (reused new : List ℕ) (m : Manager F)
      → KeepsNodes m (register prefix reused new m)
  unfolding register
  register-KeepsNodes prefix reused [] m a h = h
  register-KeepsNodes prefix reused (i ∷ is) m a h = elim (Option-cases (given_hash prefix)) [
    | inl e ↦ rw (register, e) h
    | inr (x, e) ↦ rw (register, e) (same_tables m _ refl refl a h)
  ]

module _ {F : Type 0} ⦃fl : Float F⦄ (monotonic : ℕ → F) where
  pin_all-KeepsNodes : (is : List ℕ) (m : Manager F) → KeepsNodes m (pin_all monotonic is m)
  unfolding pin_all access_block
  pin_all-KeepsNodes [] m a h = h
  pin_all-KeepsNodes (i ∷ is) m a h = pin_all-KeepsNodes is _ a (same_tables m _ refl refl a h)

  fill_all-KeepsNodes :
      (prefix : Option String) (is : List ℕ) (m : Manager F)
      → KeepsNodes m (fill_all monotonic prefix is m)
  unfolding fill_all access_block
  fill_all-KeepsNodes prefix [] m a h = h
  fill_all-KeepsNodes prefix (i ∷ is) m a h =
      fill_all-KeepsNodes prefix is _ a (same_tables m _ refl refl a h)

  reuse-KeepsNodes :
      (node_id : String) (request : Request F) (m : Manager F)
      → KeepsNodes m (reuse monotonic node_id request m).0
  unfolding reuse
  reuse-KeepsNodes node_id request m a h =
      elim (reusable node_id request m)
        as (λ is.
          HasNode a
            (elim is as (λ _. Manager F × List ℕ) [
              | [] ↦ (update_stats node_id count_miss m, [])
              | i ∷ is' ↦ (update_stats node_id count_hit (pin_all monotonic (i ∷ is') m), i ∷ is')
            ]).0) [
              | [] ↦ HasNode-update_stats node_id count_miss m a h
              | i ∷ is ↦
                  HasNode-update_stats node_id count_hit (pin_all monotonic (i ∷ is) m) a
                    (pin_all-KeepsNodes (i ∷ is) m a h)
            ]

  evict_block-KeepsNodes :
      (node_id : String) (victim : Block F) (m : Manager F)
      → KeepsNodes m (evict_block monotonic node_id victim m)
  unfolding evict_block
  evict_block-KeepsNodes node_id victim m a h =
      HasNode-update_stats node_id _ _ a (same_tables m _ refl refl a h)

  evict_loop-KeepsNodes :
      (missing : ℕ) (node_id : String) (ids : List ℕ) (m : Manager F)
      → KeepsNodes m (evict_loop monotonic missing node_id ids m).0
  unfolding evict_loop
  evict_loop-KeepsNodes zero node_id ids m a h = h
  evict_loop-KeepsNodes (suc missing) node_id ids m a h =
      elim (Option-cases (pick_victim m.policy (candidates m ids))) [
        | inl e ↦ rw (evict_loop, e) h
        | inr (victim, e) ↦
            rw (evict_loop, e)
              (evict_loop-KeepsNodes missing node_id ids (evict_block monotonic node_id victim m) a
                (evict_block-KeepsNodes node_id victim m a h))
      ]

  maybe_evict-KeepsNodes :
      (node_id : String) (needed : ℕ) (m : Manager F) {m' : Manager F} {evicted : ℕ}
      → maybe_evict monotonic node_id needed m ≡ some (m', evicted)
      → KeepsNodes m m'
  unfolding maybe_evict
  maybe_evict-KeepsNodes node_id needed m {m'} e a h =
      let (_, _, e₁) = bind-some (lookup node_id m.stats) _ e in
      let (ids, _, e₂) = bind-some (lookup node_id m.blocks) _ e₁ in
      subst (HasNode a) (ap (λ (p : Manager F × ℕ). p.0) (some_inj e₂))
        (evict_loop-KeepsNodes (needed - idle_count m.heap ids) node_id ids m a h)

  spill-KeepsNodes :
      (node_id : String) (short : Bool) (m : Manager F)
      → KeepsNodes m (if short then update_stats node_id count_spill m else m)
  spill-KeepsNodes node_id true m a h = HasNode-update_stats node_id count_spill m a h
  spill-KeepsNodes node_id false m a h = h

  take_free-KeepsNodes :
      (node_id : String) (prefix : Option String) (needed : ℕ) (ids reused : List ℕ) (m : Manager F)
      → KeepsNodes m (take_free monotonic node_id prefix needed ids reused m).0
  unfolding take_free
  take_free-KeepsNodes node_id prefix needed ids reused m a h =
      let free = select (test_block is_free m.heap) ids in
      let short = ltb (length free) needed in
      let new = take (if short then length free else needed) free in
      register-KeepsNodes prefix reused _ _ a (
        HasNode-update_stats node_id (count_used (length new)) _ a
          (fill_all-KeepsNodes prefix new _ a (spill-KeepsNodes node_id short m a h)))

  pub allocate-KeepsNodes :
      (node_id : String) (request : Request F) (m : Manager F) {m' : Manager F} {blocks : List ℕ}
      {hit : Bool}
      → allocate monotonic node_id request m ≡ some (m', blocks, hit)
      → KeepsNodes m m'
  unfolding allocate
  allocate-KeepsNodes node_id request m e a h =
      let (_, _, e₁) = bind-some (lookup node_id m.stats) _ e in
      let reused = reuse monotonic node_id request m in
      let ((m₁, n), e₂, e₃) = bind-some (maybe_evict monotonic node_id _ reused.0) _ e₁ in
      let (ids, _, e₄) = bind-some (lookup node_id m₁.blocks) _ e₃ in
      subst (HasNode a) (ap (λ (p : Manager F × List ℕ × Bool). p.0) (some_inj e₄)) (
        take_free-KeepsNodes node_id request.prefix_hash _ ids reused.1 m₁ a
          (maybe_evict-KeepsNodes node_id _ reused.0 e₂ a (reuse-KeepsNodes node_id request m a h)))

  free_all-KeepsNodes :
      (node_id : String) (blocks : List ℕ) (m : Manager F)
      → KeepsNodes m (free_all monotonic node_id blocks true m)
  unfolding free_all access_block
  free_all-KeepsNodes node_id [] m a h = h
  free_all-KeepsNodes node_id (i ∷ is) m a h =
      free_all-KeepsNodes node_id is _ a (same_tables m _ refl refl a h)

  pub free-KeepsNodes :
      (node_id : String) (blocks : List ℕ) (m : Manager F) {m' : Manager F}
      → free monotonic node_id blocks true m ≡ some m'
      → KeepsNodes m m'
  unfolding free
  free-KeepsNodes node_id blocks m e a h =
      let (_, _, e₁) = bind-some (lookup node_id m.stats) _ e in
      subst (HasNode a) (some_inj e₁) (free_all-KeepsNodes node_id blocks m a h)
