-- ===== src/Scheduler/KvAware/Pins.antt =====
-- What becomes of the KV blocks that the scheduler takes: `on_complete` gives none of them back, so
-- that every block in use stays pinned and the eviction behind a preemption has no candidates.
use dynamo_serve.Base.{
  take, length, bind-some, some_inj, ℕ, zero, suc, ◌+◌, ◌-◌, ◌≡◌, refl, sym, ◌∙◌, ap, subst, Bool,
  true, false, List, [], ◌∷◌, Option, none, some, String, get_elem?, modify, inl, inr, All,
  All-append, All-modify_each, All-get_elem?, select_none, select, Option-cases, lookup, string_eq,
  if◌then◌else◌, ltb,
}
use dynamo_serve.Float.{Float}
use dynamo_serve.Models.Node.{Node}
use dynamo_serve.Models.Block.{Block}
use dynamo_serve.Models.Request.{Request, kv_blocks_needed}
use dynamo_serve.Cache.Policy.{pick_victim, stamp, Policy, lru, lfu, belady}
use dynamo_serve.Cache.Policy.Choice.{pick_victim_pinned}
use dynamo_serve.Cache.Manager
use dynamo_serve.Cache.Manager.{
  Manager, test_block, blocks_at, update_stats, access_block, make_block, make_blocks, init_node,
  init_nodes,
}
use dynamo_serve.Cache.Eviction.{is_candidate, candidates, idle_count, evict_loop, maybe_evict}
use dynamo_serve.Cache.Allocation.{
  is_free, pin_block, fill_block, pin_all, fill_all, reuse, take_free, allocate, free_all, free,
  count_hit, count_miss, count_spill, reusable,
}
use dynamo_serve.Cache.Allocation.Registering.{heap-register}
use dynamo_serve.Cache.Invariant.Writes.{heap-update_stats}

module _ {F : Type 0} where
  -- Every block in use is pinned.
  abbrev pub IsHeld : List (Block F) → Type 0
  IsHeld heap = All (λ b. is_candidate b ≡ false) heap

  IsHeld-if :
      (b : Bool) (m m' : Manager F)
      → IsHeld m.heap
      → IsHeld m'.heap
      → IsHeld (if b then m' else m).heap
  IsHeld-if true m m' h h' = h'
  IsHeld-if false m m' h h' = h

  IsHeld-update_stats :
      (node_id : String)
      (f : dynamo_serve.Models.Block.CacheStats → dynamo_serve.Models.Block.CacheStats)
      (m : Manager F)
      → IsHeld m.heap
      → IsHeld (update_stats node_id f m).heap
  IsHeld-update_stats node_id f m h = subst IsHeld (sym (heap-update_stats node_id f m)) h

  blocks_at-IsHeld :
      (heap : List (Block F)) (ids : List ℕ) → IsHeld heap → IsHeld (blocks_at heap ids)
  unfolding blocks_at
  blocks_at-IsHeld heap [] h = tt
  blocks_at-IsHeld heap (i ∷ ids) h = elim (Option-cases (get_elem? heap i)) [
    | inl e ↦ rw (blocks_at, e) (blocks_at-IsHeld heap ids h)
    | inr (b, e) ↦ rw (blocks_at, e) (All-get_elem? _ heap i e h, blocks_at-IsHeld heap ids h)
  ]

  candidates-IsHeld : (m : Manager F) (ids : List ℕ) → IsHeld m.heap → candidates m ids ≡ []
  unfolding candidates
  candidates-IsHeld m ids h = select_none is_candidate _ (blocks_at-IsHeld m.heap ids h)

module _ {F : Type 0} ⦃fl : Float F⦄ (monotonic : ℕ → F) where
  candidate-stamp :
      (p : Policy F) (now : F) (b : Block F) → is_candidate (stamp p now b) ≡ is_candidate b
  unfolding stamp is_candidate
  candidate-stamp (lru times) now b = refl
  candidate-stamp (lfu freq) now b = refl
  candidate-stamp (belady future) now b = refl

  IsHeld-access_block :
      (i : ℕ) (m : Manager F) → IsHeld m.heap → IsHeld (access_block monotonic i m).heap
  unfolding access_block
  IsHeld-access_block i m h =
      All-modify_each _ m.heap i _ (λ b p. candidate-stamp m.policy _ b ∙ p) h

  IsHeld-pin_all :
      (is : List ℕ) (m : Manager F) → IsHeld m.heap → IsHeld (pin_all monotonic is m).heap
  unfolding pin_all pin_block is_candidate
  IsHeld-pin_all [] m h = h
  IsHeld-pin_all (i ∷ is) m h = IsHeld-pin_all is _ (
      IsHeld-access_block i (record m { heap = modify m.heap i pin_block })
        (All-modify_each _ m.heap i _ (λ b p. refl) h))

  IsHeld-fill_all :
      (prefix : Option String) (is : List ℕ) (m : Manager F)
      → IsHeld m.heap
      → IsHeld (fill_all monotonic prefix is m).heap
  unfolding fill_all fill_block is_candidate
  IsHeld-fill_all prefix [] m h = h
  IsHeld-fill_all prefix (i ∷ is) m h = IsHeld-fill_all prefix is _ (
      IsHeld-access_block i
        (record m {
          heap = modify m.heap i (fill_block m.block_size prefix (monotonic m.clock));
          clock = m.clock + 1;
        })
        (All-modify_each _ m.heap i _ (λ b p. refl) h))

  IsHeld-reuse :
      (node_id : String) (request : Request F) (m : Manager F)
      → IsHeld m.heap
      → IsHeld (reuse monotonic node_id request m).0.heap
  unfolding reuse
  IsHeld-reuse node_id request m h = go (reusable node_id request m) refl
    where
      go :
          (is : List ℕ)
          → reusable node_id request m ≡ is
          → IsHeld (reuse monotonic node_id request m).0.heap
      go [] e = rw (reuse, e) (IsHeld-update_stats node_id count_miss m h)
      go (i ∷ is) e =
          rw (reuse, e) (IsHeld-update_stats node_id count_hit _ (IsHeld-pin_all (i ∷ is) m h))

  -- Nothing is evicted where every block in use is pinned, and nothing changes.
  pub evict_loop-IsHeld :
      (missing : ℕ) (node_id : String) (ids : List ℕ) (m : Manager F)
      → IsHeld m.heap
      → evict_loop monotonic missing node_id ids m ≡ (m, 0)
  unfolding evict_loop
  evict_loop-IsHeld zero node_id ids m h = refl
  evict_loop-IsHeld (suc missing) node_id ids m h =
      let none_there : pick_victim m.policy (candidates m ids) ≡ none =
        ap (pick_victim m.policy) (candidates-IsHeld m ids h) ∙ pick_victim_pinned m.policy [] tt in
      rw (evict_loop, none_there) refl

  pub maybe_evict-IsHeld :
      (node_id : String) (n_needed : ℕ) (m m' : Manager F) (evicted : ℕ)
      → IsHeld m.heap
      → maybe_evict monotonic node_id n_needed m ≡ some (m', evicted)
      → (m' ≡ m) × (evicted ≡ 0)
  unfolding maybe_evict
  maybe_evict-IsHeld node_id n_needed m m' evicted h e =
      let (s, found, e₁) = bind-some (lookup node_id m.stats) _ e in
      let (ids, listed, e₂) = bind-some (lookup node_id m.blocks) _ e₁ in
      let q =
        sym e₂ ∙ ap some (evict_loop-IsHeld (n_needed - idle_count m.heap ids) node_id ids m h) in
      (ap (λ p. p.0) (some_inj q), ap (λ p. p.1) (some_inj q))

  IsHeld-take_free :
      (node_id : String) (prefix : Option String) (n_needed : ℕ) (ids reused : List ℕ)
      (m : Manager F)
      → IsHeld m.heap
      → IsHeld (take_free monotonic node_id prefix n_needed ids reused m).0.heap
  unfolding take_free
  IsHeld-take_free node_id prefix n_needed ids reused m h =
      let free = select (test_block is_free m.heap) ids in
      let new = take (if ltb (length free) n_needed then length free else n_needed) free in
      subst IsHeld (sym (heap-register prefix reused new _)) (
        IsHeld-update_stats node_id _ _ (
          IsHeld-fill_all prefix new
            (if ltb (length free) n_needed then update_stats node_id count_spill m else m)
            (IsHeld-if _ m _ h (IsHeld-update_stats node_id count_spill m h))))

  -- `allocate` pins what it takes.
  pub allocate-IsHeld :
      (node_id : String) (request : Request F) (m m' : Manager F) (blocks : List ℕ) (hit : Bool)
      → IsHeld m.heap
      → allocate monotonic node_id request m ≡ some (m', blocks, hit)
      → IsHeld m'.heap
  unfolding allocate
  allocate-IsHeld node_id request m m' blocks hit h e =
      let (s, found, e₁) = bind-some (lookup node_id m.stats) _ e in
      let (m₁, reused) = reuse monotonic node_id request m in
      let held = IsHeld-reuse node_id request m h in
      let ((m₂, evicted), evict, e₂) =
        bind-some (maybe_evict monotonic node_id (kv_blocks_needed request - length reused) m₁) _
          e₁ in
      let (same, zero_evicted) = maybe_evict-IsHeld node_id _ m₁ m₂ evicted held evict in
      let (ids, listed, e₃) = bind-some (lookup node_id m₂.blocks) _ e₂ in
      subst IsHeld (ap (λ p. p.0.heap) (some_inj e₃))
        (IsHeld-take_free node_id request.prefix_hash _ ids reused m₂ (rw same held))

  -- A call of `free` with no blocks gives nothing back.
  pub free_nothing :
      (node_id : String) (m m' : Manager F) → free monotonic node_id [] true m ≡ some m' → m' ≡ m
  unfolding free free_all
  free_nothing node_id m m' e =
      let (s, found, e₁) = bind-some (lookup node_id m.stats) _ e in sym (some_inj e₁)

  -- A new manager has no block in use.
  make_blocks-IsHeld :
      (k : ℕ) (node_id : String) (m : Manager F)
      → IsHeld m.heap
      → IsHeld (make_blocks monotonic k node_id m).0.heap
  unfolding make_blocks make_block is_candidate
  make_blocks-IsHeld zero node_id m h = h
  make_blocks-IsHeld (suc k) node_id m h =
      make_blocks-IsHeld k node_id (make_block monotonic node_id m)
        (All-append _ m.heap _ h (refl, tt))

  init_nodes-IsHeld :
      (nodes : List (Node F)) (m : Manager F)
      → IsHeld m.heap
      → IsHeld (init_nodes monotonic nodes m).heap
  unfolding init_nodes init_node
  init_nodes-IsHeld [] m h = h
  init_nodes-IsHeld (node ∷ nodes) m h =
      init_nodes-IsHeld nodes (init_node monotonic node m)
        (make_blocks-IsHeld node.kv_blocks_total node.node_id m h)

  pub init-IsHeld :
      (nodes : List (Node F)) (block_size : ℕ) (policy : Policy F)
      → IsHeld (Manager.init monotonic nodes block_size policy).heap
  unfolding Manager.init
  init-IsHeld nodes block_size policy = init_nodes-IsHeld nodes _ tt
