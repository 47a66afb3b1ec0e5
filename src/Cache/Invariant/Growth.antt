-- ===== src/Cache/Invariant/Growth.antt =====
-- What a heap that grows by new blocks keeps of the old ones.
use dynamo_serve.Base.{
  ℕ, zero, suc, ◌≡◌, refl, sym, ◌∙◌, Bool, true, List, [], ◌∷◌, ◌++◌, length, some, get_elem?,
  arith, All, All-Elem, string_eq, inl, inr, ◌⊎◌,
}
use dynamo_serve.Models.Block.{Block}
use dynamo_serve.Cache.Manager.{test_block}
use dynamo_serve.Cache.Heap.{count_where, length-select_congr, test_block-true, test_block-some}

module _ {F : Type 0} where
  pub get_elem?-snoc :
      (h : List (Block F)) (b : Block F) (i : ℕ) (c : Block F)
      → get_elem? (h ++ b ∷ []) i ≡ some c
      → (get_elem? h i ≡ some c) ⊎ (i ≡ length h) × (b ≡ c)
  get_elem?-snoc [] b zero c e = inr (refl, cc)
  get_elem?-snoc [] b (suc i) c e = cc
  get_elem?-snoc (x ∷ h) b zero c e = inl e
  get_elem?-snoc (x ∷ h) b (suc i) c e = ground (arith, get_elem?-snoc h b i c e)

  pub get_elem?-snoc_old :
      (h : List (Block F)) (b : Block F) (i : ℕ) (c : Block F)
      → get_elem? h i ≡ some c
      → get_elem? (h ++ b ∷ []) i ≡ some c
  get_elem?-snoc_old [] b i c e = cc
  get_elem?-snoc_old (x ∷ h) b zero c e = e
  get_elem?-snoc_old (x ∷ h) b (suc i) c e = get_elem?-snoc_old h b i c e

  pub get_elem?-snoc_last :
      (h : List (Block F)) (b : Block F) → get_elem? (h ++ b ∷ []) (length h) ≡ some b
  get_elem?-snoc_last [] b = refl
  get_elem?-snoc_last (x ∷ h) b = get_elem?-snoc_last h b

  -- The heap only grows while nodes are set up.
  abbrev pub Extends : List (Block F) → List (Block F) → Type 0
  Extends h h' = (i : ℕ) (c : Block F) → get_elem? h i ≡ some c → get_elem? h' i ≡ some c

  pub test_block-Extends :
      (p : Block F → Bool) (h h' : List (Block F)) (i : ℕ)
      → Extends h h'
      → test_block p h i ≡ true
      → test_block p h' i ≡ true
  test_block-Extends p h h' i x t =
      let (b, e, q) = test_block-true p h i t in test_block-some p h' i (x i b e) ∙ q

  -- On blocks that the old heap has, a test has the old result.
  pub count_where-Extends :
      (p q : Block F → Bool) (h h' : List (Block F)) (ids : List ℕ)
      → Extends h h'
      → All (λ i. test_block q h i ≡ true) ids
      → count_where p h' ids ≡ count_where p h ids
  unfolding count_where
  count_where-Extends p q h h' ids x all = length-select_congr _ _ ids λ i m.
      let (b, e, _) = test_block-true q h i (All-Elem _ ids all m) in
      test_block-some p h' i (x i b e) ∙ sym (test_block-some p h i e)
