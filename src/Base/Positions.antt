-- ===== src/Base/Positions.antt =====
-- Predicates on lists by position, and what a write at a position keeps of them.
use Prim.Native.Nat.{ℕ, zero, suc, ◌+◌, ◌-◌, ◌≤◌}
use mathlib.Core.Path.{◌≡◌, refl, ap, ◌∙◌, subst}
use mathlib.Core.Logic.{inl, inr}
use mathlib.Core.List.{List, [], ◌∷◌}
use mathlib.Core.Option.{some}
use mathlib.Core.Bool.{Bool, false}
use native.Mathlib.Omega.{arith}
use dynamo_serve.Base.Lists.{get_elem?, modify, select, enumerate}
use dynamo_serve.Base.Members.{All, Elem}

module _ {A : Type 0} where
  pub All-modify_each :
      (P : A → Type 0) (xs : List A) (i : ℕ) (f : A → A)
      → ((x : A) → P x → P (f x))
      → All P xs
      → All P (modify xs i f)
  All-modify_each P [] i f h p = p
  All-modify_each P (x ∷ xs) zero f h p = (h x p.0, p.1)
  All-modify_each P (x ∷ xs) (suc i) f h p = (p.0, All-modify_each P xs i f h p.1)

  pub select_none : (p : A → Bool) (xs : List A) → All (λ x. p x ≡ false) xs → select p xs ≡ []
  select_none p [] h = refl
  select_none p (x ∷ xs) h = rw h.0 (select_none p xs h.1)

  pub All-modify :
      (P : A → Type 0) (xs : List A) (i : ℕ) (f : A → A) {a : A}
      → get_elem? xs i ≡ some a
      → P (f a)
      → All P xs
      → All P (modify xs i f)
  All-modify P [] i f e q p = p
  All-modify P (x ∷ xs) zero f {a} e q p = let same : x ≡ a = cc in (rw same q, p.1)
  All-modify P (x ∷ xs) (suc i) f e q p = (p.0, All-modify P xs i f e q p.1)

  pub All-get_elem? :
      (P : A → Type 0) (xs : List A) (i : ℕ) {a : A} → get_elem? xs i ≡ some a → All P xs → P a
  All-get_elem? P [] i e p = cc
  All-get_elem? P (x ∷ xs) zero {a} e p = let same : a ≡ x = cc in rw same p.0
  All-get_elem? P (x ∷ xs) (suc i) e p = All-get_elem? P xs i e p.1

  pub Elem-enumerate :
      (xs : List A) (k i : ℕ) (a : A)
      → Elem (i, a) (enumerate k xs)
      → (k ≤ i) × (get_elem? xs (i - k) ≡ some a)
  Elem-enumerate [] k i a m = elim m [ ]
  Elem-enumerate (x ∷ xs) k i a (inl e) =
      let first : k ≡ i = ap (λ p. p.0) e in
      let zero_there : i - k ≡ 0 = omega (arith, first) in
      (omega (arith, first), rw zero_there (ap (λ p. some p.1) e))
  Elem-enumerate (x ∷ xs) k i a (inr m) =
      let (low, there) = Elem-enumerate xs (suc k) i a m in
      let next : i - k ≡ suc (i - suc k) = omega (arith, low) in (omega (arith, low), rw next there)

  pub enumerate-Elem :
      (xs : List A) (k i : ℕ) (a : A) → get_elem? xs i ≡ some a → Elem (k + i, a) (enumerate k xs)
  enumerate-Elem [] k i a e = cc
  enumerate-Elem (x ∷ xs) k zero a e =
      let same : x ≡ a = cc in
      let sum : k ≡ k + 0 = omega arith in inl (ap (λ n. (n, x)) sum ∙ ap (λ y. (k + 0, y)) same)
  enumerate-Elem (x ∷ xs) k (suc i) a e =
      let sum : suc k + i ≡ k + suc i = omega arith in
      inr (subst (λ n. Elem (n, a) (enumerate (suc k) xs)) sum (enumerate-Elem xs (suc k) i a e))

  pub All-of_get_elem? :
      (P : A → Type 0) (xs : List A) → ((j : ℕ) (x : A) → get_elem? xs j ≡ some x → P x) → All P xs
  All-of_get_elem? P [] h = tt
  All-of_get_elem? P (x ∷ xs) h = (h 0 x refl, All-of_get_elem? P xs (λ j y e. h (suc j) y e))
