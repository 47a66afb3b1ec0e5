-- ===== src/Cache/Invariant/Construction.antt =====
-- The manager that is built, also with nodes added later, is valid.
use dynamo_serve.Base.{
  ℕ, zero, suc, ◌+◌, ◌<◌, ◌≤◌, ◌≡◌, refl, sym, ◌∙◌, ap, true, false, String, List, [], ◌∷◌, length,
  length-append, some, lookup, lookup-insert, get_elem?, arith, Elem, Distinct, All, All-map_of,
  ◌==◌, string_eq, eq_iff, Bool-cases, inl, inr,
}
use dynamo_serve.Float.{Float}
use dynamo_serve.Models.Node.{Node}
use dynamo_serve.Models.Block.{Block, CacheStats}
use dynamo_serve.Cache.Policy.{Policy}
use dynamo_serve.Cache.Manager.{
  Manager, test_block, make_block, make_blocks, init_node, init_nodes, init, fresh_stats,
  fresh_block,
}
use dynamo_serve.Cache.Heap.{in_use, count_where, used_count, test_block-some}
use dynamo_serve.Cache.Invariant.{on_node, IsSound, IsValid, Owns}
use dynamo_serve.Cache.Invariant.Growth.{
  Extends, get_elem?-snoc, get_elem?-snoc_old, get_elem?-snoc_last, test_block-Extends,
  count_where-Extends,
}

module _ {F : Type 0} ⦃fl : Float F⦄ (monotonic : ℕ → F) where
  -- What the set-up loop has made when it has run `k` times for `node_id`.
  record Makes (k : ℕ) (node_id : String) (m m' : Manager F) (ids : List ℕ) : Type 0 where
    size : m'.block_size ≡ m.block_size
    blocks : m'.blocks ≡ m.blocks
    stats : m'.stats ≡ m.stats
    next : m'.next_block_id ≡ length m'.heap
    sound : IsSound m'.heap
    extends : Extends m.heap m'.heap
    many : length ids ≡ k
    above : All (λ i. m.next_block_id ≤ i) ids
    distinct : Distinct ids
    local : All (λ i. test_block (on_node node_id) m'.heap i ≡ true) ids
    unused : All (λ i. test_block in_use m'.heap i ≡ false) ids

  make_block-IsSound :
      (node_id : String) (m : Manager F)
      → m.next_block_id ≡ length m.heap
      → IsSound m.heap
      → IsSound (make_block monotonic node_id m).heap
  unfolding make_block
  make_block-IsSound node_id m next s i b e = elim (get_elem?-snoc m.heap _ i b e) [
    | inl old ↦ s i b old
    | inr (at, new) ↦
        (ap (λ c. c.block_id) (sym new) ∙ next ∙ sym at, λ _. ap (λ c. c.prefix_hash) (sym new))
  ]

  make_block-last :
      (node_id : String) (m : Manager F)
      → m.next_block_id ≡ length m.heap
      → (b : Block F) × (get_elem? (make_block monotonic node_id m).heap m.next_block_id ≡ some b)
        × (on_node node_id b ≡ true)
        × (in_use b ≡ false)
  unfolding make_block in_use
  make_block-last node_id m next = (
    fresh_block node_id m.next_block_id m.block_size (monotonic m.clock),
    rw next (get_elem?-snoc_last m.heap _),
    (eq_iff node_id node_id).1 refl,
    refl,
  )

  above-not_Elem : (n : ℕ) (ids : List ℕ) → All (λ i. n + 1 ≤ i) ids → ¬ Elem n ids
  above-not_Elem n [] h m = m
  above-not_Elem n (i ∷ ids) h (inl e) = absurd (omega arith)
  above-not_Elem n (i ∷ ids) h (inr m) = above-not_Elem n ids h.1 m

  make_blocks-Makes :
      (k : ℕ) (node_id : String) (m : Manager F)
      → m.next_block_id ≡ length m.heap
      → IsSound m.heap
      → Makes k node_id m
          (make_blocks monotonic k node_id m).0
          (make_blocks monotonic k node_id m).1
  unfolding make_blocks
  make_blocks-Makes zero node_id m next s = record {
    size = refl;
    blocks = refl;
    stats = refl;
    next = next;
    sound = s;
    extends = λ i c e. e;
    many = refl;
    above = tt;
    distinct = tt;
    local = tt;
    unused = tt;
  }
  make_blocks-Makes (suc k) node_id m next s =
      let m₁ = make_block monotonic node_id m in
      let next₁ : m₁.next_block_id ≡ length m₁.heap =
        unfold make_block in omega (arith, length-append {0} m.heap (_ ∷ [])) in
      let r = make_blocks-Makes k node_id m₁ next₁ (make_block-IsSound node_id m next s) in
      let (b, at, on, idle) = make_block-last node_id m next in
      let above₁ : All (λ i. m.next_block_id + 1 ≤ i) (make_blocks monotonic k node_id m₁).1 =
        unfold make_block in r.above in
      record {
        size = r.size ∙ unfold make_block in refl;
        blocks = r.blocks ∙ unfold make_block in refl;
        stats = r.stats ∙ unfold make_block in refl;
        next = r.next;
        sound = r.sound;
        extends = λ i c e. r.extends i c (unfold make_block in get_elem?-snoc_old m.heap _ i c e);
        many = ap suc r.many;
        above = (omega arith, All-map_of _ _ _ (λ i h. omega arith) above₁);
        distinct = (above-not_Elem m.next_block_id _ above₁, r.distinct);
        local =
            (test_block-some (on_node node_id) _ m.next_block_id (r.extends _ b at) ∙ on, r.local);
        unused = (test_block-some in_use _ m.next_block_id (r.extends _ b at) ∙ idle, r.unused);
      }

  unused_count :
      (h : List (Block F)) (ids : List ℕ)
      → All (λ i. test_block in_use h i ≡ false) ids
      → used_count h ids ≡ 0
  unfolding count_where
  unused_count h [] all = refl
  unused_count h (i ∷ ids) all = rw all.0 (unused_count h ids all.1)

  -- Setting up a node, also one that is added later, keeps the manager valid.
  pub init_node-IsValid :
      (node : Node F) (m : Manager F) → IsValid m → IsValid (init_node monotonic node m)
  unfolding init_node
  init_node-IsValid node m v =
      let r = make_blocks-Makes node.kv_blocks_total node.node_id m v.next v.sound in
      let (m', ids) = make_blocks monotonic node.kv_blocks_total node.node_id m in
      record {
        size = rw r.size v.size;
        next = r.next;
        sound = r.sound;
        owns = λ j is e. elim (Bool-cases (node.node_id == j)) [
          | inl q ↦
              let q' = (eq_iff node.node_id j).0 q in
              let e' : some ids ≡ some is =
                sym (rw q at (lookup-insert node.node_id j ids m'.blocks)) ∙ e in
              owns_new j is ids r q' (cc)
          | inr q ↦
              let e' = sym (rw q at (lookup-insert node.node_id j ids m'.blocks)) ∙ e in
              let o = v.owns j is (ap (lookup j) (sym r.blocks) ∙ e') in
              record {
                distinct = o.distinct;
                local =
                    All-map_of _ _ is
                      (λ i t. test_block-Extends (on_node j) m.heap m'.heap i r.extends t) o.local;
              }
        ];
        counted = λ j is s e es. elim (Bool-cases (node.node_id == j)) [
          | inl q ↦
              let e' : some ids ≡ some is =
                sym (rw q at (lookup-insert node.node_id j ids m'.blocks)) ∙ e in
              let es' : some (fresh_stats node.node_id node.kv_blocks_total) ≡ some s =
                sym (
                  rw q at (
                    lookup-insert node.node_id j (fresh_stats node.node_id node.kv_blocks_total)
                      m'.stats))
                ∙ es in
              fresh_counts s ids is r (cc) (cc)
          | inr q ↦
              let e' = sym (rw q at (lookup-insert node.node_id j ids m'.blocks)) ∙ e in
              let es' =
                sym (
                  rw q at (
                    lookup-insert node.node_id j (fresh_stats node.node_id node.kv_blocks_total)
                      m'.stats))
                ∙ es in
              let eb = ap (lookup j) (sym r.blocks) ∙ e' in
              let old = v.counted j is s eb (ap (lookup j) (sym r.stats) ∙ es') in
              (
                old.0
                    ∙ sym (
                        count_where-Extends in_use (on_node j) m.heap m'.heap is r.extends
                          (v.owns j is eb).local),
                old.1,
              )
        ];
      }
    where
      owns_new :
          {m' : Manager F} (j : String) (is ids : List ℕ)
          → Makes node.kv_blocks_total node.node_id m m' ids
          → node.node_id ≡ j
          → ids ≡ is
          → Owns m'.heap j is
      owns_new {m'} j is ids r q e = subst2 (record { distinct = r.distinct; local = r.local })
        where
          subst2 : Owns m'.heap node.node_id ids → Owns m'.heap j is
          subst2 o = rw (← q, ← e) o

      fresh_counts :
          {m' : Manager F} (s : CacheStats) (ids is : List ℕ)
          → Makes node.kv_blocks_total node.node_id m m' ids
          → ids ≡ is
          → fresh_stats node.node_id node.kv_blocks_total ≡ s
          → (s.used_blocks ≡ used_count m'.heap is) × (s.total_blocks ≡ length is)
      fresh_counts {m'} s ids is r e q =
          rw (← q, ← e) (sym (unused_count m'.heap ids r.unused), sym r.many)

  init_nodes-IsValid :
      (nodes : List (Node F)) (m : Manager F) → IsValid m → IsValid (init_nodes monotonic nodes m)
  unfolding init_nodes
  init_nodes-IsValid [] m v = v
  init_nodes-IsValid (node ∷ nodes) m v =
      init_nodes-IsValid nodes (init_node monotonic node m) (init_node-IsValid node m v)

  -- A manager that is built for any nodes, with a positive block size, is valid.
  pub init-IsValid :
      (nodes : List (Node F)) (block_size : ℕ) (policy : Policy F)
      → 0 < block_size
      → IsValid (init monotonic nodes block_size policy)
  unfolding init
  init-IsValid nodes block_size policy pos = init_nodes-IsValid nodes _ (record {
    size = pos;
    next = refl;
    sound = λ i b e. cc;
    owns = λ j is e. absurd (nothing j e);
    counted = λ j is s e es. absurd (nothing j e);
  })
    where
      nothing : (j : String) {is : List ℕ} → lookup {V = List ℕ} j [] ≡ some is → ⊥
      nothing j e = unfold lookup in cc
