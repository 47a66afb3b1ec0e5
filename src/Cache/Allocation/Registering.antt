-- ===== src/Cache/Allocation/Registering.antt =====
-- The free blocks that `allocate` takes, and the entry of the prefix cache that it makes of them.
use dynamo_serve.Base.{
  ℕ, ◌≡◌, refl, sym, ◌∙◌, true, not, String, List, [], ◌∷◌, Option, Option-cases, inl, inr, arith,
  string_eq,
}
use dynamo_serve.Models.Block.{Block}
use dynamo_serve.Cache.Manager.{Manager, test_block, given_hash}
use dynamo_serve.Cache.Allocation.{is_free, register}
use dynamo_serve.Cache.Allocation.Pinning.{Holds}
use dynamo_serve.Cache.Heap.{in_use, test_block-true, test_block-some}
use dynamo_serve.Cache.Invariant.{IsValid-Keeps, HeapKeeps-refl}
use dynamo_serve.Cache.Invariant.Counts.{Knows}

module _ {F : Type 0} where
  pub free-not-in_use :
      (h : List (Block F)) (i : ℕ)
      → test_block is_free h i ≡ true
      → test_block (λ b. not (in_use b)) h i ≡ true
  unfolding is_free in_use
  free-not-in_use h i e =
      let (b, at, free) = test_block-true is_free h i e in
      test_block-some (λ b. not (in_use b)) h i at ∙ idle b free
    where
      idle : (b : Block F) → is_free b ≡ true → not (in_use b) ≡ true
      idle b free = ground arith

  -- A free block is not pinned, so it holds nothing.
  pub free-not-Holds :
      (h : List (Block F)) (i tokens : ℕ) (prefix : Option String)
      → test_block is_free h i ≡ true
      → ¬ Holds tokens prefix h i
  unfolding is_free
  free-not-Holds h i tokens prefix e (b, at, p, _, _) =
      let free = sym (test_block-some is_free h i at) ∙ e in absurd (ground arith)

  pub heap-register :
      (prefix : Option String) (reused new : List ℕ) (m : Manager F)
      → (register prefix reused new m).heap ≡ m.heap
  unfolding register
  heap-register prefix reused [] m = refl
  heap-register prefix reused (i ∷ is) m = ground arith

  pub stats-register :
      (prefix : Option String) (reused new : List ℕ) (m : Manager F)
      → (register prefix reused new m).stats ≡ m.stats
  unfolding register
  stats-register prefix reused [] m = refl
  stats-register prefix reused (i ∷ is) m = ground arith

  module _ (node_id : String) (ids : List ℕ) where
    pub register-Knows :
        (prefix : Option String) (reused new : List ℕ) (m : Manager F)
        → Knows node_id ids m
        → Knows node_id ids (register prefix reused new m)
    unfolding register
    register-Knows prefix reused [] m k = k
    register-Knows prefix reused (i ∷ is) m k = elim (Option-cases (given_hash prefix)) [
      | inl e ↦ rw (e, register) k
      | inr (h, e) ↦
          rw (e, register)
            (record {
              valid =
                  IsValid-Keeps k.valid
                    (record {
                      heaps = HeapKeeps-refl m.heap;
                      size = refl;
                      blocks = refl;
                      next = refl;
                    })
                    k.valid.counted;
              listed = k.listed;
              counts = k.counts;
              found = k.found;
            })
    ]
