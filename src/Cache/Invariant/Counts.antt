-- ===== src/Cache/Invariant/Counts.antt =====
-- The statistics of one node change, and the other nodes keep theirs.
use dynamo_serve.Base.{
  ℕ, ◌≡◌, ◌≢◌, refl, sym, ◌∙◌, ap, true, false, String, List, length, some, All-Elem, Elem, lookup,
  ◌==◌, string_eq, eq_iff, Bool-cases, inl, inr,
}
use dynamo_serve.Models.Block.{Block, CacheStats}
use dynamo_serve.Cache.Manager.{Manager, update_stats}
use dynamo_serve.Cache.Heap.{used_count, test_block-true}
use dynamo_serve.Cache.Invariant.{on_node, IsCounted, IsValid, Owns}
use dynamo_serve.Cache.Invariant.Writes.{lookup-update_stats}

module _ {F : Type 0} where
  -- A block belongs to one node.
  Owns-disjoint :
      {h : List (Block F)} {n n' : String} {ids ids' : List ℕ} (i : ℕ)
      → Owns h n ids
      → Owns h n' ids'
      → n ≢ n'
      → Elem i ids
      → ¬ Elem i ids'
  Owns-disjoint {h} {n} {n'} {ids} {ids'} i o o' ne m m' =
      let (b, e, on) = test_block-true (on_node n) h i (All-Elem _ ids o.local m) in
      let (b', e', on') = test_block-true (on_node n') h i (All-Elem _ ids' o'.local m') in
      ne (cc ((eq_iff b.node_id n).0 on, (eq_iff b'.node_id n').0 on'))

  -- A valid manager that knows a node, with the references to its blocks.
  pub record Knows (node_id : String) (ids : List ℕ) (m : Manager F) : Type 0 where
    pub valid : IsValid m
    pub listed : lookup node_id m.blocks ≡ some ids
    pub counts : CacheStats
    pub found : lookup node_id m.stats ≡ some counts

  -- What is left to show of an operation on one node.
  pub record CountsAt (m m' : Manager F) (node_id : String) (ids : List ℕ) : Type 0 where
    pub same_blocks : m'.blocks ≡ m.blocks
    pub mine :
        (s : CacheStats)
        → lookup node_id m'.stats ≡ some s
        → (s.used_blocks ≡ used_count m'.heap ids) × (s.total_blocks ≡ length ids)
    pub other_stats : (j : String) → node_id ≢ j → lookup j m'.stats ≡ lookup j m.stats
    pub other_blocks :
        (ids' : List ℕ)
        → ((i : ℕ) → Elem i ids → ¬ Elem i ids')
        → used_count m'.heap ids' ≡ used_count m.heap ids'

  pub IsCounted-of :
      {m m' : Manager F} {node_id : String} {ids : List ℕ}
      → IsValid m
      → lookup node_id m.blocks ≡ some ids
      → CountsAt m m' node_id ids
      → IsCounted m'
  IsCounted-of {m} {m'} {node_id} {ids} v at c j ids' s eb es = elim (Bool-cases (node_id == j)) [
    | inl q ↦ same ((eq_iff node_id j).0 q)
    | inr q ↦ other (λ (e : node_id ≡ j). absurd_of q ((eq_iff node_id j).1 e))
  ]
    where
      absurd_of : (node_id == j) ≡ false → (node_id == j) ≡ true → ⊥
      absurd_of f t = cc

      eb' : lookup j m.blocks ≡ some ids'
      eb' = sym (ap (lookup j) c.same_blocks) ∙ eb

      same :
          node_id ≡ j → (s.used_blocks ≡ used_count m'.heap ids') × (s.total_blocks ≡ length ids')
      same q =
          let e : ids ≡ ids' = some_eq (sym at ∙ ap (λ k. lookup k m.blocks) q ∙ eb') in
          rw (← e) (c.mine s (ap (λ k. lookup k m'.stats) q ∙ es))
        where
          some_eq : some ids ≡ some ids' → ids ≡ ids'
          some_eq h = cc

      other :
          node_id ≢ j → (s.used_blocks ≡ used_count m'.heap ids') × (s.total_blocks ≡ length ids')
      other ne =
          let old = v.counted j ids' s eb' (sym (c.other_stats j ne) ∙ es) in
          let apart = λ (i : ℕ) (k : Elem i ids).
            Owns-disjoint i (v.owns node_id ids at) (v.owns j ids' eb') ne k in
          (old.0 ∙ sym (c.other_blocks ids' apart), old.1)

  pub other-update_stats :
      (node_id : String) (f : CacheStats → CacheStats) (m : Manager F) {s : CacheStats}
      → lookup node_id m.stats ≡ some s
      → (j : String) → node_id ≢ j
      → lookup j (update_stats node_id f m).stats ≡ lookup j m.stats
  other-update_stats node_id f m e j ne = elim (Bool-cases (node_id == j)) [
    | inl q ↦ absurd (ne ((eq_iff node_id j).0 q))
    | inr q ↦ rw q at (lookup-update_stats node_id j f m e)
  ]

  pub self-update_stats :
      (node_id : String) (f : CacheStats → CacheStats) (m : Manager F) {s : CacheStats}
      → lookup node_id m.stats ≡ some s
      → lookup node_id (update_stats node_id f m).stats ≡ some (f s)
  self-update_stats node_id f m e =
      rw ((eq_iff node_id node_id).1 refl) at (lookup-update_stats node_id node_id f m e)
