-- ===== src/Cache/Invariant.antt =====
-- What holds of the KV cache manager at all times, and what the single writes keep of it.
pub mod Writes
pub mod Counts
pub mod Growth
pub mod Construction
use dynamo_serve.Base.{
  ℕ, ◌+◌, ◌<◌, ◌≡◌, refl, sym, ◌∙◌, ap, Bool, true, String, List, length, Option, none, some, All,
  Elem, Distinct, lookup, ◌==◌, string_eq, modify, get_elem?, length-modify, All-map_of, arith,
}
use dynamo_serve.Models.Block.{Block, CacheStats}
use dynamo_serve.Cache.Manager.{Manager, test_block}
use dynamo_serve.Cache.Heap.{used_count}

module _ {F : Type 0} where
  abbrev pub on_node : String → Block F → Bool
  on_node node_id b = b.node_id == node_id

  -- Every block stands at its id, and an unused block has no prefix.
  abbrev pub IsSound : List (Block F) → Type 0
  IsSound heap =
      (i : ℕ) (b : Block F)
      → get_elem? heap i ≡ some b
      → (b.block_id ≡ i) × (b.tokens_used ≡ 0 → b.prefix_hash ≡ none)

  -- The references of a node are distinct, and lead to blocks of that node.
  pub record Owns (heap : List (Block F)) (node_id : String) (ids : List ℕ) : Type 0 where
    pub distinct : Distinct ids
    pub local : All (λ i. test_block (on_node node_id) heap i ≡ true) ids

  -- The statistics of every node count its blocks, and those of them that are in use.
  abbrev pub IsCounted : Manager F → Type 0
  IsCounted m =
      (node_id : String) (ids : List ℕ) (s : CacheStats)
      → lookup node_id m.blocks ≡ some ids
      → lookup node_id m.stats ≡ some s
      → (s.used_blocks ≡ used_count m.heap ids) × (s.total_blocks ≡ length ids)

  pub record IsValid (m : Manager F) : Type 0 where
    pub size : 0 < m.block_size
    pub next : m.next_block_id ≡ length m.heap
    pub sound : IsSound m.heap
    pub owns :
        (node_id : String) (ids : List ℕ)
        → lookup node_id m.blocks ≡ some ids
        → Owns m.heap node_id ids
    pub counted : IsCounted m

  -- What every operation on a built manager keeps.
  pub record HeapKeeps (h h' : List (Block F)) : Type 0 where
    pub same_length : length h' ≡ length h
    pub sound : IsSound h → IsSound h'
    pub same_node :
        (node_id : String) (i : ℕ)
        → test_block (on_node node_id) h' i ≡ test_block (on_node node_id) h i

  pub record Keeps (m m' : Manager F) : Type 0 where
    pub heaps : HeapKeeps m.heap m'.heap
    pub size : m'.block_size ≡ m.block_size
    pub blocks : m'.blocks ≡ m.blocks
    pub next : m'.next_block_id ≡ m.next_block_id

  pub HeapKeeps-refl : (h : List (Block F)) → HeapKeeps h h
  HeapKeeps-refl h = record { same_length = refl; sound = λ s. s; same_node = λ n i. refl }

  pub HeapKeeps-trans :
      {h h' h'' : List (Block F)} → HeapKeeps h h' → HeapKeeps h' h'' → HeapKeeps h h''
  HeapKeeps-trans k l = record {
    same_length = l.same_length ∙ k.same_length;
    sound = λ s. l.sound (k.sound s);
    same_node = λ n i. l.same_node n i ∙ k.same_node n i;
  }

  pub Keeps-refl : (m : Manager F) → Keeps m m
  Keeps-refl m = record { heaps = HeapKeeps-refl m.heap; size = refl; blocks = refl; next = refl }

  pub Keeps-trans : {m m' m'' : Manager F} → Keeps m m' → Keeps m' m'' → Keeps m m''
  Keeps-trans k l = record {
    heaps = HeapKeeps-trans k.heaps l.heaps;
    size = l.size ∙ k.size;
    blocks = l.blocks ∙ k.blocks;
    next = l.next ∙ k.next;
  }

  Owns-HeapKeeps :
      {h h' : List (Block F)} (node_id : String) (ids : List ℕ)
      → HeapKeeps h h'
      → Owns h node_id ids
      → Owns h' node_id ids
  Owns-HeapKeeps node_id ids k o = record {
    distinct = o.distinct;
    local = All-map_of _ _ ids (λ i e. k.same_node node_id i ∙ e) o.local;
  }

  -- Only the counts are left to show of what an operation makes of a valid manager.
  pub IsValid-Keeps : {m m' : Manager F} → IsValid m → Keeps m m' → IsCounted m' → IsValid m'
  IsValid-Keeps v k c = record {
    size = rw k.size v.size;
    next = k.next ∙ v.next ∙ sym k.heaps.same_length;
    sound = k.heaps.sound v.sound;
    owns =
        λ n ids e. Owns-HeapKeeps n ids k.heaps (v.owns n ids (sym (ap (lookup n) k.blocks) ∙ e));
    counted = c;
  }
