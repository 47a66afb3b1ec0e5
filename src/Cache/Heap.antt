-- ===== src/Cache/Heap.antt =====
-- The heap of KVBlock objects under writes: which blocks are in use, what a write at one reference
-- keeps of the others, and how it moves the number of blocks in use.
use dynamo_serve.Base.{
  ℕ, zero, suc, ◌≡◌, ◌≢◌, refl, sym, ◌∙◌, ap, Bool, true, false, List, [], ◌∷◌, length, get_elem?,
  modify, select, some, Elem, Distinct, get_elem?-modify_self, get_elem?-modify_ne, Option-cases,
  inl, inr, arith, ltb,
}
use dynamo_serve.Models.Block.{Block}
use dynamo_serve.Cache.Manager.{test_block}

-- Two tests that agree on a list select equally many.
pub length-select_congr :
    {A : Type 0} (p q : A → Bool) (xs : List A)
    → ((x : A) → Elem x xs → p x ≡ q x)
    → length (select p xs) ≡ length (select q xs)
length-select_congr p q [] h = refl
length-select_congr p q (x ∷ xs) h =
    ground (arith, h x (inl refl), length-select_congr p q xs (λ y m. h y (inr m)))

-- One more, where they differ at one element of distinct ones.
pub length-select_one :
    {A : Type 0} (p q : A → Bool) (xs : List A) (a : A)
    → Distinct xs
    → Elem a xs
    → p a ≡ false
    → q a ≡ true
    → ((x : A) → x ≢ a → p x ≡ q x)
    → length (select q xs) ≡ suc (length (select p xs))
length-select_one p q [] a d m pa qa h = elim m [ ]
length-select_one p q (x ∷ xs) a d (inl e) pa qa h =
    let rest = length-select_congr p q xs (λ y m. h y (λ k. d.0 (rw (e ∙ sym k) m))) in
    let px : p x ≡ false = ap p e ∙ pa in let qx : q x ≡ true = ap q e ∙ qa in ground arith
length-select_one p q (x ∷ xs) a d (inr m) pa qa h =
    let rest = length-select_one p q xs a d.1 m pa qa h in
    let same = h x (λ e. d.0 (rw e m)) in ground arith

module _ {F : Type 0} where
  unfoldable pub in_use : Block F → Bool
  in_use b = ltb 0 b.tokens_used

  -- How many of the references lead to a block with the property.
  unfoldable pub count_where : (Block F → Bool) → List (Block F) → List ℕ → ℕ
  count_where p heap ids = length (select (test_block p heap) ids)

  abbrev pub used_count : List (Block F) → List ℕ → ℕ
  used_count = count_where in_use

  pub test_block-modify_ne :
      (p : Block F → Bool) (heap : List (Block F)) (i j : ℕ) (f : Block F → Block F)
      → j ≢ i
      → test_block p (modify heap i f) j ≡ test_block p heap j
  unfolding test_block
  test_block-modify_ne p heap i j f h =
      rw (get_elem?-modify_ne heap i j f (λ e. h (sym e)), test_block)

  pub test_block-modify_self :
      (p : Block F → Bool) (heap : List (Block F)) (i : ℕ) (f : Block F → Block F) {b : Block F}
      → get_elem? heap i ≡ some b
      → test_block p (modify heap i f) i ≡ p (f b)
  unfolding test_block
  test_block-modify_self p heap i f h = rw (get_elem?-modify_self heap i f h, test_block)

  pub test_block-some :
      (p : Block F → Bool) (heap : List (Block F)) (i : ℕ) {b : Block F}
      → get_elem? heap i ≡ some b
      → test_block p heap i ≡ p b
  unfolding test_block
  test_block-some p heap i h = rw (h, test_block)

  pub test_block-true :
      (p : Block F → Bool) (heap : List (Block F)) (i : ℕ)
      → test_block p heap i ≡ true
      → (b : Block F) × (get_elem? heap i ≡ some b) × (p b ≡ true)
  unfolding test_block
  test_block-true p heap i h = elim (Option-cases (get_elem? heap i)) [
    | inl e ↦ absurd (ground arith)
    | inr (b, e) ↦ (b, e, ground arith)
  ]

  -- A write that keeps what the test reads keeps the test everywhere.
  pub test_block-modify_keep :
      (p : Block F → Bool) (heap : List (Block F)) (i j : ℕ) (f : Block F → Block F)
      → ((b : Block F) → p (f b) ≡ p b)
      → test_block p (modify heap i f) j ≡ test_block p heap j
  unfolding test_block
  test_block-modify_keep p [] i j f h = refl
  test_block-modify_keep p (x ∷ heap) zero zero f h = h x
  test_block-modify_keep p (x ∷ heap) zero (suc j) f h = refl
  test_block-modify_keep p (x ∷ heap) (suc i) zero f h = refl
  test_block-modify_keep p (x ∷ heap) (suc i) (suc j) f h = test_block-modify_keep p heap i j f h

  pub select-modify_keep :
      (p : Block F → Bool) (heap : List (Block F)) (i : ℕ) (f : Block F → Block F) (ids : List ℕ)
      → ((b : Block F) → p (f b) ≡ p b)
      → select (test_block p (modify heap i f)) ids ≡ select (test_block p heap) ids
  select-modify_keep p heap i f [] h = refl
  select-modify_keep p heap i f (j ∷ ids) h =
      rw (test_block-modify_keep p heap i j f h, select-modify_keep p heap i f ids h)

  pub count_where-modify_keep :
      (p : Block F → Bool) (heap : List (Block F)) (i : ℕ) (f : Block F → Block F) (ids : List ℕ)
      → ((b : Block F) → p (f b) ≡ p b)
      → count_where p (modify heap i f) ids ≡ count_where p heap ids
  unfolding count_where
  count_where-modify_keep p heap i f ids h = ap length (select-modify_keep p heap i f ids h)

  -- A write to a block that is not in the list keeps the list's count.
  pub count_where-modify_absent :
      (p : Block F → Bool) (heap : List (Block F)) (i : ℕ) (f : Block F → Block F) (ids : List ℕ)
      → ¬ Elem i ids
      → count_where p (modify heap i f) ids ≡ count_where p heap ids
  unfolding count_where
  count_where-modify_absent p heap i f ids h =
      length-select_congr _ _ ids (λ j m. test_block-modify_ne p heap i j f (λ e. h (rw e at m)))

  -- A write that takes an idle block of the list into use adds one.
  pub count_where-modify_up :
      (p : Block F → Bool) (heap : List (Block F)) (i : ℕ) (f : Block F → Block F) (ids : List ℕ)
      {b : Block F}
      → Distinct ids
      → Elem i ids
      → get_elem? heap i ≡ some b
      → p b ≡ false
      → p (f b) ≡ true
      → count_where p (modify heap i f) ids ≡ suc (count_where p heap ids)
  unfolding count_where
  count_where-modify_up p heap i f ids d m e idle busy =
      length-select_one _ _ ids i d m (test_block-some p heap i e ∙ idle)
        (test_block-modify_self p heap i f e ∙ busy)
        (λ j h. sym (test_block-modify_ne p heap i j f h))

  -- A write that gives a block of the list back takes one away.
  pub count_where-modify_down :
      (p : Block F → Bool) (heap : List (Block F)) (i : ℕ) (f : Block F → Block F) (ids : List ℕ)
      {b : Block F}
      → Distinct ids
      → Elem i ids
      → get_elem? heap i ≡ some b
      → p b ≡ true
      → p (f b) ≡ false
      → suc (count_where p (modify heap i f) ids) ≡ count_where p heap ids
  unfolding count_where
  count_where-modify_down p heap i f ids d m e busy idle = sym (
      length-select_one _ _ ids i d m (test_block-modify_self p heap i f e ∙ idle)
        (test_block-some p heap i e ∙ busy) (λ j h. test_block-modify_ne p heap i j f h))
