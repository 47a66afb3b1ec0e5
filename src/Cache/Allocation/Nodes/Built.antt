-- ===== src/Cache/Allocation/Nodes/Built.antt =====
-- A KVCacheManager knows the nodes that it is built for.
use dynamo_serve.Base.{
  ℕ, zero, suc, ◌≡◌, refl, ◌∙◌, ap, String, List, [], ◌∷◌, lookup, ◌==◌, string_eq, Bool-cases, inl,
  inr, eq_iff, arith, map, Elem, ◌⊎◌, lookup-insert,
}
use dynamo_serve.Float.{Float}
use dynamo_serve.Models.Node.{Node}
use dynamo_serve.Cache.Policy.{Policy}
use dynamo_serve.Cache.Manager
use dynamo_serve.Cache.Manager.{
  Manager, update_stats, access_block, given_hash, test_block, make_block, make_blocks, fresh_stats,
  init_node, init_nodes,
}
use dynamo_serve.Cache.Allocation.Nodes.{HasNode}

module _ {F : Type 0} ⦃fl : Float F⦄ (monotonic : ℕ → F) where
  make_blocks-tables :
      (k : ℕ) (node_id : String) (m : Manager F)
      → let m' = (make_blocks monotonic k node_id m).0 in
        (m'.blocks ≡ m.blocks) × (m'.stats ≡ m.stats)
  unfolding make_blocks make_block
  make_blocks-tables zero node_id m = (refl, refl)
  make_blocks-tables (suc k) node_id m =
      make_blocks-tables k node_id (make_block monotonic node_id m)

  -- A node that is set up is known, and those before it still are.
  init_node-HasNode :
      (node : Node F) (m : Manager F) (a : String)
      → (node.node_id ≡ a) ⊎ HasNode a m
      → HasNode a (init_node monotonic node m)
  unfolding init_node
  init_node-HasNode node m a h =
      let (m', ids) = make_blocks monotonic node.kv_blocks_total node.node_id m in
      let (blocks, stats) = make_blocks-tables node.kv_blocks_total node.node_id m in
      elim (Bool-cases (node.node_id == a)) [
        | inl q ↦ record {
          ids = ids;
          listed = lookup-insert node.node_id a ids m'.blocks ∙ rw q refl;
          counts = fresh_stats node.node_id node.kv_blocks_total;
          found =
              lookup-insert node.node_id a (fresh_stats node.node_id node.kv_blocks_total) m'.stats
              ∙ rw q refl;
        }
        | inr q ↦ elim h [
          | inl e ↦ absurd (ground (arith, eq_iff node.node_id a, q, e))
          | inr h' ↦ record {
            ids = h'.ids;
            listed =
                lookup-insert node.node_id a ids m'.blocks
                ∙ rw q (ap (lookup a) blocks ∙ h'.listed);
            counts = h'.counts;
            found =
                lookup-insert node.node_id a (fresh_stats node.node_id node.kv_blocks_total)
                  m'.stats
                ∙ rw q (ap (lookup a) stats ∙ h'.found);
          }
        ]
      ]

  init_nodes-HasNode :
      (nodes : List (Node F)) (m : Manager F) (a : String)
      → Elem a (map (λ n. n.node_id) nodes) ⊎ HasNode a m
      → HasNode a (init_nodes monotonic nodes m)
  unfolding init_nodes
  init_nodes-HasNode [] m a (inl e) = elim e [ ]
  init_nodes-HasNode [] m a (inr h) = h
  init_nodes-HasNode (n ∷ ns) m a (inl (inl e)) =
      init_nodes-HasNode ns _ a (inr (init_node-HasNode n m a (inl e)))
  init_nodes-HasNode (n ∷ ns) m a (inl (inr e)) = init_nodes-HasNode ns _ a (inl e)
  init_nodes-HasNode (n ∷ ns) m a (inr h) =
      init_nodes-HasNode ns _ a (inr (init_node-HasNode n m a (inr h)))

  -- A new manager knows all the nodes that it is built for.
  pub init-HasNode :
      (nodes : List (Node F)) (block_size : ℕ) (policy : Policy F) (a : String)
      → Elem a (map (λ n. n.node_id) nodes)
      → HasNode a (Manager.init monotonic nodes block_size policy)
  unfolding Manager.init
  init-HasNode nodes block_size policy a e = init_nodes-HasNode nodes _ a (inl e)
