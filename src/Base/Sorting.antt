-- ===== src/Base/Sorting.antt =====
-- `sorted` with a key: a stable sort, here by insertion. `before x y` says that `x` must stand before
-- `y`; elements of which neither must stay in their order.
use mathlib.Core.Path.{◌≡◌, refl, sym, ◌∙◌, ap}
use mathlib.Core.Logic.{◌⊎◌, inl, inr}
use mathlib.Core.List.{List, [], ◌∷◌, Perm, head?}
use mathlib.Core.List.Perm
use mathlib.Core.Option.{Option, none, some}
use mathlib.Core.Bool.{Bool, false}
use native.Mathlib.Omega.{arith}
use dynamo_serve.Base.Tests.{if◌then◌else◌, Bool-cases}
use dynamo_serve.Base.Lists.{best_from, best, length}
use Prim.Native.Nat.{suc}
use dynamo_serve.Base.Members.{All, Elem, Distinct, IsStrictOrder}

module _ {A : Type 0} (before : A → A → Bool) where
  unfoldable pub insert_sorted : A → List A → List A
  insert_sorted x [] = x ∷ []
  insert_sorted x (y ∷ ys) = if before y x then y ∷ insert_sorted x ys else x ∷ y ∷ ys

  unfoldable pub sort : List A → List A
  unfolding insert_sorted
  sort [] = []
  sort (x ∷ xs) = insert_sorted x (sort xs)

  insert_sorted-perm : (x : A) (ys : List A) → Perm (insert_sorted x ys) (x ∷ ys)
  unfolding insert_sorted
  insert_sorted-perm x [] = Perm.refl (x ∷ [])
  insert_sorted-perm x (y ∷ ys) = elim (Bool-cases (before y x)) [
    | inl e ↦ rw e (Perm.trans (Perm.cons y (insert_sorted-perm x ys)) (Perm.swap x y ys))
    | inr e ↦ rw e (Perm.refl (x ∷ y ∷ ys))
  ]

  pub sort-perm : (xs : List A) → Perm (sort xs) xs
  unfolding sort
  sort-perm [] = Perm.refl []
  sort-perm (x ∷ xs) = Perm.trans (insert_sorted-perm x (sort xs)) (Perm.cons x (sort-perm xs))

  Elem-insert_sorted :
      (x : A) (ys : List A) (a : A) → Elem a (insert_sorted x ys) → (x ≡ a) ⊎ Elem a ys
  unfolding insert_sorted
  Elem-insert_sorted x [] a m = m
  Elem-insert_sorted x (y ∷ ys) a m = elim (Bool-cases (before y x)) [
    | inr e ↦ rw e at m
    | inl e ↦
        let m' : (y ≡ a) ⊎ Elem a (insert_sorted x ys) = rw e at m in
        elim m' [
          | inl q ↦ inr (inl q)
          | inr k ↦ elim (Elem-insert_sorted x ys a k) [ inl q ↦ inl q | inr k' ↦ inr (inr k') ]
        ]
  ]

  pub Elem-sort : (xs : List A) (a : A) → Elem a (sort xs) → Elem a xs
  unfolding sort
  Elem-sort [] a m = m
  Elem-sort (x ∷ xs) a m = elim (Elem-insert_sorted x (sort xs) a m) [
    | inl q ↦ inl q
    | inr k ↦ inr (Elem-sort xs a k)
  ]

  insert_sorted-Elem :
      (x : A) (ys : List A) (a : A) → (x ≡ a) ⊎ Elem a ys → Elem a (insert_sorted x ys)
  unfolding insert_sorted
  insert_sorted-Elem x [] a m = m
  insert_sorted-Elem x (y ∷ ys) a m = elim (Bool-cases (before y x)) [
    | inr e ↦ rw e m
    | inl e ↦ rw e (elim m [
      | inl q ↦ inr (insert_sorted-Elem x ys a (inl q))
      | inr (inl q) ↦ inl q
      | inr (inr k) ↦ inr (insert_sorted-Elem x ys a (inr k))
    ])
  ]

  pub sort-Elem : (xs : List A) (a : A) → Elem a xs → Elem a (sort xs)
  unfolding sort
  sort-Elem [] a m = m
  sort-Elem (x ∷ xs) a (inl q) = insert_sorted-Elem x (sort xs) a (inl q)
  sort-Elem (x ∷ xs) a (inr k) = insert_sorted-Elem x (sort xs) a (inr (sort-Elem xs a k))

  insert_sorted-Distinct :
      (x : A) (ys : List A) → ¬ Elem x ys → Distinct ys → Distinct (insert_sorted x ys)
  unfolding insert_sorted
  insert_sorted-Distinct x [] out d = (out, d)
  insert_sorted-Distinct x (y ∷ ys) out d = elim (Bool-cases (before y x)) [
    | inr e ↦ rw e (out, d)
    | inl e ↦ rw e (
      (λ m. elim (Elem-insert_sorted x ys y m) [ inl q ↦ out (inl (sym q)) | inr k ↦ d.0 k ]),
      insert_sorted-Distinct x ys (λ m. out (inr m)) d.1,
    )
  ]

  pub sort-Distinct : (xs : List A) → Distinct xs → Distinct (sort xs)
  unfolding sort
  sort-Distinct [] d = d
  sort-Distinct (x ∷ xs) d =
      insert_sorted-Distinct x (sort xs) (λ m. d.0 (Elem-sort xs x m)) (sort-Distinct xs d.1)

  length-insert_sorted : (x : A) (ys : List A) → length (insert_sorted x ys) ≡ suc (length ys)
  unfolding insert_sorted
  length-insert_sorted x [] = refl
  length-insert_sorted x (y ∷ ys) = elim (Bool-cases (before y x)) [
    | inr e ↦ rw e refl
    | inl e ↦ rw e (ap suc (length-insert_sorted x ys))
  ]

  pub length-sort : (xs : List A) → length (sort xs) ≡ length xs
  unfolding sort
  length-sort [] = refl
  length-sort (x ∷ xs) = length-insert_sorted x (sort xs) ∙ ap suc (length-sort xs)

  -- No element must stand before an earlier one.
  abbrev pub IsSorted : List A → Type 0
  IsSorted [] = Unit
  IsSorted (x ∷ xs) = All (λ y. before y x ≡ false) xs × IsSorted xs

  module _ (o : IsStrictOrder before) where
    All-insert_sorted :
        (a x : A) (ys : List A)
        → before x a ≡ false
        → All (λ y. before y a ≡ false) ys
        → All (λ y. before y a ≡ false) (insert_sorted x ys)
    unfolding insert_sorted
    All-insert_sorted a x [] h k = (h, tt)
    All-insert_sorted a x (y ∷ ys) h k = elim (Bool-cases (before y x)) [
      | inl e ↦ rw e (k.0, All-insert_sorted a x ys h k.1)
      | inr e ↦ rw e (h, k)
    ]

    All-below :
        (x y : A) (ys : List A)
        → before y x ≡ false
        → All (λ z. before z y ≡ false) ys
        → All (λ z. before z x ≡ false) ys
    All-below x y [] h k = tt
    All-below x y (z ∷ ys) h k = (o.not_trans z y x k.0 h, All-below x y ys h k.1)

    insert_sorted-IsSorted : (x : A) (ys : List A) → IsSorted ys → IsSorted (insert_sorted x ys)
    unfolding insert_sorted
    insert_sorted-IsSorted x [] s = (tt, tt)
    insert_sorted-IsSorted x (y ∷ ys) s = elim (Bool-cases (before y x)) [
      | inl e ↦ rw e (All-insert_sorted y x ys (o.asymm y x e) s.0, insert_sorted-IsSorted x ys s.1)
      | inr e ↦ rw e ((e, All-below x y ys e s.0), s)
    ]

    pub sort-IsSorted : (xs : List A) → IsSorted (sort xs)
    unfolding sort
    sort-IsSorted [] = tt
    sort-IsSorted (x ∷ xs) = insert_sorted-IsSorted x (sort xs) (sort-IsSorted xs)

    abbrev merge : A → Option A → A
    merge x none = x
    merge x (some y) = if before y x then y else x

    best_from-merge :
        (held : A) (xs : List A) → best_from before held xs ≡ merge held (best before xs)
    best_from-merge held [] = refl
    best_from-merge held (x ∷ xs) =
        best_from-merge (if before x held then x else held) xs
        ∙ cases (best before xs)
        ∙ ap (λ y. if before y held then y else held) (sym (best_from-merge x xs))
      where
        cases :
            (r : Option A)
            → merge (if before x held then x else held) r
              ≡ (if before (merge x r) held then merge x r else held)
        cases none = refl
        cases (some y) = ground (
          arith,
          o.not_trans y x held,
          o.asymm y x,
          o.asymm x held,
          o.asymm y held,
          o.not_trans x y held,
          o.not_trans held y x,
          o.not_trans held x y,
        )

    head?-insert_sorted :
        (x : A) (ys : List A) → head? (insert_sorted x ys) ≡ some (merge x (head? ys))
    unfolding insert_sorted
    head?-insert_sorted x [] = refl
    head?-insert_sorted x (y ∷ ys) = ground arith

    -- The first of the sorted list is the element that `max` or `min` chooses.
    pub head?-sort : (xs : List A) → head? (sort xs) ≡ best before xs
    unfolding sort
    head?-sort [] = refl
    head?-sort (x ∷ xs) =
        head?-insert_sorted x (sort xs)
        ∙ ap (λ r. some (merge x r)) (head?-sort xs)
        ∙ ap some (sym (best_from-merge x xs))
