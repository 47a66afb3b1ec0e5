-- ===== src/Scheduler/Base/Capacity.antt =====
-- What `allocate` and `release` of a node do to what the schedulers read of it.
use dynamo_serve.Base.{
  ℕ, ◌+◌, ◌≤◌, ◌≡◌, true, List, some, get_elem?, arith, All, All-modify, All-get_elem?,
  Elem-enumerate, enumerate-Elem, Elem, All-Elem, All-select_self, Elem-select, Elem-select_of,
  subst, enumerate,
}
use dynamo_serve.Float.{Float}
use dynamo_serve.Models.Node
use dynamo_serve.Models.Node.{Node, can_fit, kv_blocks_free, free_memory_gb}
use dynamo_serve.Models.Request.{Request}
use dynamo_serve.Scheduler.Base.{fits, feasible_nodes, allocate_at}

-- A node has room for the KV blocks that it counts as used.
abbrev pub WithinBlocks : {F : Type 0} → Node F → Type 0
WithinBlocks n = n.kv_blocks_used ≤ n.kv_blocks_total

module _ {F : Type 0} ⦃fl : Float F⦄ where
  -- A node that `can_fit` accepts is still within its blocks after `allocate`, with exactly the
  -- blocks of the request fewer free.
  pub allocate-fits :
      (n : Node F) (blocks : ℕ) (memory_gb : F)
      → WithinBlocks n
      → can_fit n blocks memory_gb ≡ true
      → WithinBlocks (Node.allocate n blocks memory_gb)
        × (kv_blocks_free (Node.allocate n blocks memory_gb) + blocks ≡ kv_blocks_free n)
  unfolding can_fit kv_blocks_free Node.allocate
  allocate-fits n blocks memory_gb w h = (ground arith, ground arith)

  -- `release` takes the blocks and the request of `allocate` back.
  pub release-allocate :
      (n : Node F) (blocks : ℕ) (memory_gb : F)
      → ((Node.release (Node.allocate n blocks memory_gb) blocks memory_gb).kv_blocks_used
          ≡ n.kv_blocks_used)
        × ((Node.release (Node.allocate n blocks memory_gb) blocks memory_gb).active_requests
            ≡ n.active_requests)
  unfolding Node.allocate Node.release
  release-allocate n blocks memory_gb = (omega arith, omega arith)

  -- Every node stays within its blocks when a request goes to one that can take it.
  pub allocate_at-WithinBlocks :
      (request : Request F) (nodes : List (Node F)) (i : ℕ) (n : Node F)
      → get_elem? nodes i ≡ some n
      → fits request n ≡ true
      → All WithinBlocks nodes
      → All WithinBlocks (allocate_at request i nodes)
  unfolding allocate_at fits
  allocate_at-WithinBlocks request nodes i n e able w =
      All-modify WithinBlocks nodes i _ e
        ((allocate-fits n _ _ (All-get_elem? WithinBlocks nodes i e w) able).0) w

  -- The feasible nodes are the nodes of the list that can take the request, with their places.
  pub feasible_nodes_sound :
      (request : Request F) (nodes : List (Node F)) (i : ℕ) (n : Node F)
      → Elem (i, n) (feasible_nodes request nodes)
      → (get_elem? nodes i ≡ some n) × (fits request n ≡ true)
  unfolding feasible_nodes
  feasible_nodes_sound request nodes i n m = (
    subst (λ j. get_elem? nodes j ≡ some n) (omega arith)
        (Elem-enumerate nodes 0 i n (Elem-select _ (enumerate 0 nodes) (i, n) m)).1,
    All-Elem _ _ (All-select_self (λ c. fits request c.1) (enumerate 0 nodes)) m,
  )

  pub feasible_nodes_complete :
      (request : Request F) (nodes : List (Node F)) (i : ℕ) (n : Node F)
      → get_elem? nodes i ≡ some n
      → fits request n ≡ true
      → Elem (i, n) (feasible_nodes request nodes)
  unfolding feasible_nodes
  feasible_nodes_complete request nodes i n e able =
      Elem-select_of _ (enumerate 0 nodes) (i, n)
        (subst (λ j. Elem (j, n) (enumerate 0 nodes)) (omega arith) (enumerate-Elem nodes 0 i n e))
        able
