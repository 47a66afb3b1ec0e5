-- ===== src/Cache/Eviction/Victims.antt =====
-- One round of the loop of `_maybe_evict`: which block it resets, and what that does to the counts.
use dynamo_serve.Base.{
  ℕ, suc, ◌≡◌, ◌≢◌, refl, sym, ◌∙◌, ap, Bool, true, false, String, List, [], ◌∷◌, length, select,
  none, some, Elem, Distinct, All, All-Elem, All-select_self, Elem-select, modify, get_elem?,
  get_elem?-modify_ne, Option-cases, inl, inr, arith, ◌⊎◌, ltb,
}
use dynamo_serve.Float.{Float}
use dynamo_serve.Models.Block.{Block}
use dynamo_serve.Cache.Policy.{pick_victim}
use dynamo_serve.Cache.Policy.Choice.{pick_victim-Elem, pick_victim-none}
use dynamo_serve.Cache.Manager.{Manager, test_block, blocks_at}
use dynamo_serve.Cache.Eviction.{
  is_idle, is_candidate, reset_block, count_eviction, evict_block, candidates,
}
use dynamo_serve.Cache.Heap.{
  in_use, count_where, used_count, count_where-modify_up, count_where-modify_down,
}
use dynamo_serve.Cache.Invariant.{IsSound, Keeps, Keeps-trans}
use dynamo_serve.Cache.Invariant.Writes.{
  IsGentle, HeapKeeps-modify, Keeps-update_stats, heap-update_stats,
}

module _ {F : Type 0} where
  Elem-blocks_at :
      (h : List (Block F)) (ids : List ℕ) (b : Block F)
      → Elem b (blocks_at h ids)
      → (i : ℕ) × Elem i ids × (get_elem? h i ≡ some b)
  unfolding blocks_at
  Elem-blocks_at h [] b m = elim m [ ]
  Elem-blocks_at h (i ∷ ids) b m = elim (Option-cases (get_elem? h i)) [
    | inl e ↦ later (Elem-blocks_at h ids b (rw (e, blocks_at) at m))
    | inr (c, e) ↦ split c e (Elem-blocks_at h ids b) (rw (e, blocks_at) at m)
  ]
    where
      later :
          (j : ℕ) × Elem j ids × (get_elem? h j ≡ some b)
          → (j : ℕ) × Elem j (i ∷ ids) × (get_elem? h j ≡ some b)
      later (j, k, q) = (j, inr k, q)

      split :
          (c : Block F)
          → get_elem? h i ≡ some c
          → (Elem b (blocks_at h ids) → (j : ℕ) × Elem j ids × (get_elem? h j ≡ some b))
          → (c ≡ b) ⊎ Elem b (blocks_at h ids)
          → (j : ℕ) × Elem j (i ∷ ids) × (get_elem? h j ≡ some b)
      split c e rec (inl q) = (i, inl refl, e ∙ ap some q)
      split c e rec (inr k) = later (rec k)

  length-select-blocks_at :
      (p : Block F → Bool) (h : List (Block F)) (ids : List ℕ)
      → length (select p (blocks_at h ids)) ≡ count_where p h ids
  unfolding blocks_at count_where test_block
  length-select-blocks_at p h [] = refl
  length-select-blocks_at p h (i ∷ ids) = ground (arith, length-select-blocks_at p h ids)

  pub reset_block-IsGentle : (now : F) → IsGentle (reset_block now)
  unfolding reset_block
  reset_block-IsGentle now b = (refl, refl, λ _ _. refl)

module _ {F : Type 0} ⦃fl : Float F⦄ where
  -- What the loop knows of the victim that it found.
  pub record IsVictim (m : Manager F) (ids : List ℕ) (b : Block F) : Type 0 where
    pub ref : ℕ
    pub listed : Elem ref ids
    pub here : get_elem? m.heap ref ≡ some b
    pub loose : b.pinned ≡ false
    pub busy : in_use b ≡ true

  pub pick_victim-IsVictim :
      (m : Manager F) (ids : List ℕ) (b : Block F)
      → pick_victim m.policy (candidates m ids) ≡ some b
      → IsVictim m ids b
  unfolding candidates is_candidate in_use
  pick_victim-IsVictim m ids b h =
      let found = pick_victim-Elem m.policy (candidates m ids) b h in
      let fits = All-Elem _ _ (All-select_self is_candidate (blocks_at m.heap ids)) found.0 in
      let at =
        Elem-blocks_at m.heap ids b (Elem-select is_candidate (blocks_at m.heap ids) b found.0) in
      record { ref = at.0; listed = at.1; here = at.2; loose = found.1; busy = ground arith }

  -- The loop finds no victim exactly where there is no candidate.
  pub pick_victim-no_candidate :
      (m : Manager F) (ids : List ℕ)
      → pick_victim m.policy (candidates m ids) ≡ none
      → count_where is_candidate m.heap ids ≡ 0
  unfolding candidates
  pick_victim-no_candidate m ids h =
      sym (length-select-blocks_at is_candidate m.heap ids)
      ∙ empty _ (All-select_self is_candidate (blocks_at m.heap ids))
          (pick_victim-none m.policy (candidates m ids) h)
    where
      empty :
          (bs : List (Block F))
          → All (λ b. is_candidate b ≡ true) bs
          → All (λ b. b.pinned ≡ true) bs
          → length bs ≡ 0
      empty [] p q = refl
      empty (b ∷ bs) p q = absurd (clash b p.0 q.0)
        where
          clash : (b : Block F) → is_candidate b ≡ true → b.pinned ≡ true → ⊥
          clash b p q = unfold is_candidate in cc

module _ {F : Type 0} ⦃fl : Float F⦄ (monotonic : ℕ → F) where
  heap-evict_block :
      (node_id : String) (b : Block F) (m : Manager F)
      → (evict_block monotonic node_id b m).heap
        ≡ modify m.heap b.block_id (reset_block (monotonic m.clock))
  unfolding evict_block
  heap-evict_block node_id b m = heap-update_stats node_id count_eviction _

  module _ (node_id : String) (ids : List ℕ) (b : Block F) (m : Manager F) where
    pub Keeps-evict_block : Keeps m (evict_block monotonic node_id b m)
    unfolding evict_block
    Keeps-evict_block =
        Keeps-trans
          (record {
            heaps = HeapKeeps-modify m.heap b.block_id _ (reset_block-IsGentle (monotonic m.clock));
            size = refl;
            blocks = refl;
            next = refl;
          })
          (Keeps-update_stats node_id count_eviction _)

    module _ (sound : IsSound m.heap) (w : IsVictim m ids b) where
      -- The heap after the round, in terms of the reference to the victim.
      pub heap_of_victim :
          (evict_block monotonic node_id b m).heap
          ≡ modify m.heap w.ref (reset_block (monotonic m.clock))
      heap_of_victim = rw (← (sound w.ref b w.here).0) (heap-evict_block node_id b m)

      pub pinned-evict_block :
          (i : ℕ) (c : Block F)
          → get_elem? m.heap i ≡ some c
          → c.pinned ≡ true
          → get_elem? (evict_block monotonic node_id b m).heap i ≡ some c
      pinned-evict_block i c e p =
          rw heap_of_victim (get_elem?-modify_ne m.heap w.ref i _ differ ∙ e)
        where
          differ : w.ref ≢ i
          differ q = clash (sym w.here ∙ ap (get_elem? m.heap) q ∙ e)
            where
              clash : some b ≡ some c → ⊥
              clash h = cc (w.loose, p)

      module _ (d : Distinct ids) where
        pub used-evict_block :
            suc (used_count (evict_block monotonic node_id b m).heap ids) ≡ used_count m.heap ids
        used-evict_block =
            rw heap_of_victim
              (count_where-modify_down in_use m.heap w.ref _ ids d w.listed w.here w.busy idle)
          where
            idle : in_use (reset_block (monotonic m.clock) b) ≡ false
            idle = unfold in_use reset_block in refl

        pub candidates-evict_block :
            suc (count_where is_candidate (evict_block monotonic node_id b m).heap ids)
            ≡ count_where is_candidate m.heap ids
        candidates-evict_block =
            rw heap_of_victim
              (count_where-modify_down is_candidate m.heap w.ref _ ids d w.listed w.here was now)
          where
            was : is_candidate b ≡ true
            was = unfold is_candidate in ground (arith, busy_of w.busy)
              where
                busy_of : in_use b ≡ true → ltb 0 b.tokens_used ≡ true
                busy_of h = unfold in_use in h

            now : is_candidate (reset_block (monotonic m.clock) b) ≡ false
            now = unfold is_candidate reset_block in ground arith

        pub idle-evict_block :
            count_where is_idle (evict_block monotonic node_id b m).heap ids
            ≡ suc (count_where is_idle m.heap ids)
        idle-evict_block =
            rw heap_of_victim
              (count_where-modify_up is_idle m.heap w.ref _ ids d w.listed w.here was now)
          where
            was : is_idle b ≡ false
            was = unfold is_idle in_use in ground arith

            now : is_idle (reset_block (monotonic m.clock) b) ≡ true
            now = unfold is_idle reset_block in ground arith
