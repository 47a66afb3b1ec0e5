-- ===== src/Cache/Invariant/Writes.antt =====
-- The single writes of the manager: to a block, to the statistics, and an access.
use dynamo_serve.Base.{
  ℕ, ◌≡◌, refl, sym, ◌∙◌, ap, String, List, none, some, lookup, lookup-insert, ◌==◌, string_eq,
  modify, get_elem?, length-modify, modify-none, get_elem?-modify_self, get_elem?-modify_ne,
  ℕ_discrete, Option-cases, inl, inr, arith, if◌then◌else◌,
}
use dynamo_serve.Float.{Float}
use dynamo_serve.Models.Block.{Block, CacheStats}
use dynamo_serve.Cache.Policy.{Policy, lru, lfu, belady, stamp}
use dynamo_serve.Cache.Manager.{Manager, update_stats, access_block}
use dynamo_serve.Cache.Heap.{in_use, used_count, test_block-modify_keep, count_where-modify_keep}
use dynamo_serve.Cache.Invariant.{on_node, IsSound, HeapKeeps, Keeps, HeapKeeps-refl, Keeps-refl}

module _ {F : Type 0} where
  -- A write that keeps a block's identity and gives no prefix to an unused block.
  abbrev pub IsGentle : (Block F → Block F) → Type 0
  IsGentle f =
      (b : Block F)
      → ((f b).block_id ≡ b.block_id)
        × ((f b).node_id ≡ b.node_id)
        × ((b.tokens_used ≡ 0 → b.prefix_hash ≡ none)
            → (f b).tokens_used ≡ 0
            → (f b).prefix_hash ≡ none)

  modify-IsSound :
      (h : List (Block F)) (i : ℕ) (f : Block F → Block F)
      → IsGentle f
      → IsSound h
      → IsSound (modify h i f)
  modify-IsSound h i f g s j b e = elim (ℕ_discrete i j) [
    | no ne ↦ s j b (sym (get_elem?-modify_ne h i j f ne) ∙ e)
    | yes q ↦ elim (Option-cases (get_elem? h i)) [
      | inl gone ↦ absurd (lost gone (rw (← q) at e))
      | inr (b', e') ↦
          let here : some (f b') ≡ some b =
            sym (get_elem?-modify_self h i f e') ∙ (rw (← q) at e) in
          found b' (rw q at e') (cc)
    ]
  ]
    where
      lost : get_elem? h i ≡ none → get_elem? (modify h i f) i ≡ some b → ⊥
      lost gone e' = cc (ap (λ l. get_elem? l i) (modify-none h i f gone))

      found :
          (b' : Block F)
          → get_elem? h j ≡ some b'
          → f b' ≡ b
          → (b.block_id ≡ j) × (b.tokens_used ≡ 0 → b.prefix_hash ≡ none)
      found b' e' q = rw (← q) ((g b').0 ∙ (s j b' e').0, (g b').2 (s j b' e').1)

  pub HeapKeeps-modify :
      (h : List (Block F)) (i : ℕ) (f : Block F → Block F) → IsGentle f → HeapKeeps h (modify h i f)
  HeapKeeps-modify h i f g = record {
    same_length = length-modify h i f;
    sound = modify-IsSound h i f g;
    same_node = λ n j. test_block-modify_keep (on_node n) h i j f (λ b. ap (λ x. x == n) (g b).1);
  }

  pub Keeps-update_stats :
      (node_id : String) (f : CacheStats → CacheStats) (m : Manager F)
      → Keeps m (update_stats node_id f m)
  unfolding update_stats
  Keeps-update_stats node_id f m = elim (Option-cases (lookup node_id m.stats)) [
    | inl e ↦ rw (e, update_stats) (Keeps-refl m)
    | inr (s, e) ↦
        rw (e, update_stats)
          (record { heaps = HeapKeeps-refl m.heap; size = refl; blocks = refl; next = refl })
  ]

  pub heap-update_stats :
      (node_id : String) (f : CacheStats → CacheStats) (m : Manager F)
      → (update_stats node_id f m).heap ≡ m.heap
  unfolding update_stats
  heap-update_stats node_id f m = ground arith

  -- The statistics of the other nodes stay.
  pub lookup-update_stats :
      (node_id j : String) (f : CacheStats → CacheStats) (m : Manager F) {s : CacheStats}
      → lookup node_id m.stats ≡ some s
      → lookup j (update_stats node_id f m).stats
        ≡ (if node_id == j then some (f s) else lookup j m.stats)
  unfolding update_stats
  lookup-update_stats node_id j f m {s} e =
      rw (e, update_stats) (lookup-insert node_id j (f s) m.stats)

module _ {F : Type 0} ⦃fl : Float F⦄ where
  pub stamp-IsGentle : (p : Policy F) (now : F) → IsGentle (stamp p now)
  unfolding stamp
  stamp-IsGentle (lru _) now b = (refl, refl, λ h. h)
  stamp-IsGentle (lfu _) now b = (refl, refl, λ h. h)
  stamp-IsGentle (belady _) now b = (refl, refl, λ h. h)

  pub in_use-stamp : (p : Policy F) (now : F) (b : Block F) → in_use (stamp p now b) ≡ in_use b
  unfolding stamp in_use
  in_use-stamp (lru _) now b = refl
  in_use-stamp (lfu _) now b = refl
  in_use-stamp (belady _) now b = refl

  module _ (monotonic : ℕ → F) where
    pub Keeps-access_block : (i : ℕ) (m : Manager F) → Keeps m (access_block monotonic i m)
    unfolding access_block
    Keeps-access_block i m = record {
      heaps = HeapKeeps-modify m.heap i _ (stamp-IsGentle m.policy (monotonic m.clock));
      size = refl;
      blocks = refl;
      next = refl;
    }

    pub used_count-access_block :
        (i : ℕ) (m : Manager F) (ids : List ℕ)
        → used_count (access_block monotonic i m).heap ids ≡ used_count m.heap ids
    unfolding access_block
    used_count-access_block i m ids =
        count_where-modify_keep in_use m.heap i _ ids (in_use-stamp m.policy (monotonic m.clock))
