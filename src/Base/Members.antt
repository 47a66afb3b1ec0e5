-- ===== src/Base/Members.antt =====
-- Predicates on lists by recursion, which the tactics take apart, and what the operations on lists
-- keep of them.
use Prim.Native.Nat.{ℕ, zero, suc}
use mathlib.Core.Path.{◌≡◌, refl, ap, ◌∙◌}
use mathlib.Core.Logic.{◌⊎◌, inl, inr}
use mathlib.Core.List.{List, [], ◌∷◌, ◌++◌}
use mathlib.Core.Option.{none, some}
use mathlib.Core.Bool.{Bool, true, false}
use dynamo_serve.Base.Tests.{Bool-cases}
use dynamo_serve.Base.Lists.{take, select, best_from, best}

module _ {ℓ} {A : Type ℓ} where
  abbrev pub All {κ} : (A → Type κ) → List A → Type κ
  All P [] = Unit
  All P (x ∷ xs) = P x × All P xs

  pub All-append {κ} : (P : A → Type κ) (xs ys : List A) → All P xs → All P ys → All P (xs ++ ys)
  All-append P [] ys p q = q
  All-append P (x ∷ xs) ys p q = (p.0, All-append P xs ys p.1 q)

  pub All-select {κ} :
      (P : A → Type κ) (p : A → Bool) (xs : List A) → All P xs → All P (select p xs)
  All-select P p [] h = tt
  All-select P p (x ∷ xs) h = elim (Bool-cases (p x)) [
    | inl e ↦ rw e (h.0, All-select P p xs h.1)
    | inr e ↦ rw e (All-select P p xs h.1)
  ]

  pub All-take {κ} : (P : A → Type κ) (n : ℕ) (xs : List A) → All P xs → All P (take n xs)
  All-take P zero xs h = tt
  All-take P (suc n) [] h = tt
  All-take P (suc n) (x ∷ xs) h = (h.0, All-take P n xs h.1)

  pub All-map_of {κ μ} :
      (P : A → Type κ) (Q : A → Type μ) (xs : List A) → ((x : A) → P x → Q x) → All P xs → All Q xs
  All-map_of P Q [] f h = tt
  All-map_of P Q (x ∷ xs) f h = (f x h.0, All-map_of P Q xs f h.1)

  pub All-select_self : (p : A → Bool) (xs : List A) → All (λ x. p x ≡ true) (select p xs)
  All-select_self p [] = tt
  All-select_self p (x ∷ xs) = elim (Bool-cases (p x)) [
    | inl e ↦ rw e (e, All-select_self p xs)
    | inr e ↦ rw e (All-select_self p xs)
  ]

module _ {A : Type 0} where
  abbrev pub Elem : A → List A → Type 0
  Elem a [] = ⊥
  Elem a (x ∷ xs) = (x ≡ a) ⊎ Elem a xs

  abbrev pub Distinct : List A → Type 0
  Distinct [] = Unit
  Distinct (x ∷ xs) = ¬ Elem x xs × Distinct xs

  pub All-Elem {κ} : (P : A → Type κ) (xs : List A) {a : A} → All P xs → Elem a xs → P a
  All-Elem P [] h m = elim m [ ]
  All-Elem P (x ∷ xs) h (inl e) = rw e at h.0
  All-Elem P (x ∷ xs) h (inr m) = All-Elem P xs h.1 m

  pub Elem-All {κ} : (P : A → Type κ) (xs : List A) → ((a : A) → Elem a xs → P a) → All P xs
  Elem-All P [] h = tt
  Elem-All P (x ∷ xs) h = (h x (inl refl), Elem-All P xs (λ a m. h a (inr m)))

  pub Elem-append_left : (xs ys : List A) (a : A) → Elem a xs → Elem a (xs ++ ys)
  Elem-append_left [] ys a m = elim m [ ]
  Elem-append_left (x ∷ xs) ys a (inl e) = inl e
  Elem-append_left (x ∷ xs) ys a (inr m) = inr (Elem-append_left xs ys a m)

  pub Elem-append_right : (xs ys : List A) (a : A) → Elem a ys → Elem a (xs ++ ys)
  Elem-append_right [] ys a m = m
  Elem-append_right (x ∷ xs) ys a m = inr (Elem-append_right xs ys a m)

  pub Elem-select : (p : A → Bool) (xs : List A) (a : A) → Elem a (select p xs) → Elem a xs
  Elem-select p [] a m = elim m [ ]
  Elem-select p (x ∷ xs) a m = elim (Bool-cases (p x)) [
    | inl e ↦
        let m' : (x ≡ a) ⊎ Elem a (select p xs) = rw e at m in
        elim m' [ inl q ↦ inl q | inr t ↦ inr (Elem-select p xs a t) ]
    | inr e ↦ inr (Elem-select p xs a (rw e at m))
  ]

  pub Elem-select_of :
      (p : A → Bool) (xs : List A) (a : A) → Elem a xs → p a ≡ true → Elem a (select p xs)
  Elem-select_of p [] a m h = elim m [ ]
  Elem-select_of p (x ∷ xs) a (inl e) h = rw (ap p e ∙ h) (inl e)
  Elem-select_of p (x ∷ xs) a (inr m) h = elim (Bool-cases (p x)) [
    | inl e ↦ rw e (inr (Elem-select_of p xs a m h))
    | inr e ↦ rw e (Elem-select_of p xs a m h)
  ]

  pub Elem-take : (n : ℕ) (xs : List A) (a : A) → Elem a (take n xs) → Elem a xs
  Elem-take zero xs a m = elim m [ ]
  Elem-take (suc n) [] a m = elim m [ ]
  Elem-take (suc n) (x ∷ xs) a (inl e) = inl e
  Elem-take (suc n) (x ∷ xs) a (inr m) = inr (Elem-take n xs a m)

  pub select-Distinct : (p : A → Bool) (xs : List A) → Distinct xs → Distinct (select p xs)
  select-Distinct p [] d = tt
  select-Distinct p (x ∷ xs) d = elim (Bool-cases (p x)) [
    | inl e ↦ rw e ((λ m. d.0 (Elem-select p xs x m)), select-Distinct p xs d.1)
    | inr e ↦ rw e (select-Distinct p xs d.1)
  ]

  pub take-Distinct : (n : ℕ) (xs : List A) → Distinct xs → Distinct (take n xs)
  take-Distinct zero xs d = tt
  take-Distinct (suc n) [] d = tt
  take-Distinct (suc n) (x ∷ xs) d = ((λ m. d.0 (Elem-take n xs x m)), take-Distinct n xs d.1)

  best_from-Elem :
      (better : A → A → Bool) (held : A) (xs : List A) {r : A}
      → best_from better held xs ≡ r
      → (held ≡ r) ⊎ Elem r xs
  best_from-Elem better held [] h = inl h
  best_from-Elem better held (x ∷ xs) {r} h = elim (Bool-cases (better x held)) [
    | inl e ↦ inr (best_from-Elem better x xs (rw e at h))
    | inr e ↦ skip (best_from-Elem better held xs (rw e at h))
  ]
    where
      skip : (held ≡ r) ⊎ Elem r xs → (held ≡ r) ⊎ Elem r (x ∷ xs)
      skip (inl q) = inl q
      skip (inr m) = inr (inr m)

  pub best-Elem :
      (better : A → A → Bool) (xs : List A) (a : A) → best better xs ≡ some a → Elem a xs
  best-Elem better [] a h = cc
  best-Elem better (x ∷ xs) a h = best_from-Elem better x xs (cc)

  pub best-none : (better : A → A → Bool) (xs : List A) → best better xs ≡ none → xs ≡ []
  best-none better [] h = refl
  best-none better (x ∷ xs) h = cc

-- A test that is the strict part of a total preorder.
pub record IsStrictOrder {ℓ} {A : Type ℓ} (better : A → A → Bool) : Type ℓ where
  pub asymm : (a b : A) → better a b ≡ true → better b a ≡ false
  pub not_trans : (a b c : A) → better a b ≡ false → better b c ≡ false → better a c ≡ false

module _ {ℓ} {A : Type ℓ} (better : A → A → Bool) (o : IsStrictOrder better) where
  irrefl : (a : A) → better a a ≡ false
  irrefl a = elim (Bool-cases (better a a)) [ inl e ↦ o.asymm a a e | inr e ↦ e ]

  best_from-best :
      (held : A) (xs : List A) {r : A}
      → best_from better held xs ≡ r
      → (better held r ≡ false) × All (λ x. better x r ≡ false) xs
  best_from-best held [] h = (rw (← h) (irrefl held), tt)
  best_from-best held (x ∷ xs) h = elim (Bool-cases (better x held)) [
    | inl e ↦
        let rest = best_from-best x xs (rw e at h) in
        (o.not_trans held x _ (o.asymm x held e) rest.0, rest)
    | inr e ↦
        let rest = best_from-best held xs (rw e at h) in
        (rest.0, (o.not_trans x held _ e rest.0, rest.1))
  ]

  -- Nothing in the list is better than what `min` or `max` chooses.
  pub best_lem : (xs : List A) (a : A) → best better xs ≡ some a → All (λ x. better x a ≡ false) xs
  best_lem [] a h = tt
  best_lem (x ∷ xs) a h = best_from-best x xs (cc)
