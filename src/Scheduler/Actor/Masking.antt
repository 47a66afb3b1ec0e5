-- ===== src/Scheduler/Actor/Masking.antt =====
-- The mask of RLScheduler does what it is for: an action that it forbids has no probability.
use dynamo_serve.Base.{
  ℕ, zero, suc, ◌+◌, ◌≡◌, refl, sym, ap, ◌∙◌, Bool, true, false, List, [], ◌∷◌, ◌++◌, length, map,
  some, get_elem?, ◌⊎◌, inl, inr, arith, Elem, All, All-Elem, some_inj,
}
use dynamo_serve.Float.{Float, FloatLaws, fmax, le-fmax_left, le-fmax_right, le_self}
use dynamo_serve.Scheduler.Actor.{
  Networks, penalty, add_mask, max_from, max_of, softmax, probabilities,
}

-- What numpy and IEEE 754 say where the outputs of the actor are of moderate size: zero added changes
-- nothing, what is as far below the maximum as a masked output has a power that underflows to zero,
-- and zero has no positive quotient.
pub record SoftmaxLaws {F P O : Type 0} ⦃fl : Float F⦄ (nets : Networks F P O) : Type 0 where
  pub add_zero : (x : F) → fl.add x (fl.of_nat 0) ≡ x
  pub underflow :
      (x m : F)
      → fl.le x (fl.of_nat 100_000_000) ≡ true
      → fl.le (fl.sub (fl.of_nat 0) (fl.of_nat 100_000_000)) m ≡ true
      → nets.exp (fl.sub (fl.add x penalty) m) ≡ fl.of_nat 0
  pub zero_quotient : (t : F) → fl.lt (fl.of_nat 0) (fl.div (fl.of_nat 0) t) ≡ false

get_elem?-map :
    {A B : Type 0} (f : A → B) (xs : List A) (i : ℕ) {b : B}
    → get_elem? (map f xs) i ≡ some b
    → (a : A) × (get_elem? xs i ≡ some a) × (f a ≡ b)
get_elem?-map f [] i e = absurd (ground (arith, e))
get_elem?-map f (x ∷ xs) zero e = (x, refl, some_inj e)
get_elem?-map f (x ∷ xs) (suc i) e = get_elem?-map f xs i e

Elem-get_elem? : {A : Type 0} (xs : List A) (i : ℕ) {a : A} → get_elem? xs i ≡ some a → Elem a xs
Elem-get_elem? [] i e = absurd (ground (arith, e))
Elem-get_elem? (x ∷ xs) zero e = inl (some_inj e)
Elem-get_elem? (x ∷ xs) (suc i) e = inr (Elem-get_elem? xs i e)

module _ {F : Type 0} ⦃fl : Float F⦄ where
  open fl use {of_nat, add, sub, div, lt, le}

  abbrev pub IsModerate : F → Type 0
  IsModerate x =
      (le (sub (of_nat 0) (of_nat 100_000_000)) x ≡ true) × (le x (of_nat 100_000_000) ≡ true)

  -- An output that the mask does not allow has the penalty.
  get_elem?-add_mask :
      (xs : List F) (mask : List Bool) (i : ℕ) {y : F}
      → get_elem? (add_mask xs mask) i ≡ some y
      → (get_elem? mask i ≡ some true) ⊎ ((x : F) × Elem x xs × (add x penalty ≡ y))
  unfolding add_mask
  get_elem?-add_mask [] mask i e = absurd (ground (arith, e))
  get_elem?-add_mask (x ∷ xs) [] zero e = inr (x, inl refl, some_inj e)
  get_elem?-add_mask (x ∷ xs) [] (suc i) e = elim (get_elem?-add_mask xs [] i e) [
    | inl h ↦ inl h
    | inr (z, k, q) ↦ inr (z, inr k, q)
  ]
  get_elem?-add_mask (x ∷ xs) (true ∷ mask) zero e = inl refl
  get_elem?-add_mask (x ∷ xs) (false ∷ mask) zero e = inr (x, inl refl, some_inj e)
  get_elem?-add_mask (x ∷ xs) (allowed ∷ mask) (suc i) e = elim (get_elem?-add_mask xs mask i e) [
    | inl h ↦ inl h
    | inr (z, k, q) ↦ inr (z, inr k, q)
  ]

  -- The output of the last action, which is always allowed, is there as it was.
  Elem-add_mask :
      (xs : List F) (mask : List Bool)
      → length xs ≡ length mask + 1
      → (x : F) × Elem x xs × Elem (add x (of_nat 0)) (add_mask xs (mask ++ true ∷ []))
  unfolding add_mask
  Elem-add_mask [] mask e = absurd (omega (arith, e))
  Elem-add_mask (x ∷ xs) [] e = (x, inl refl, inl refl)
  Elem-add_mask (x ∷ xs) (allowed ∷ mask) e =
      let (z, k, l) = Elem-add_mask xs mask (omega (arith, e)) in (z, inr k, inr l)

  module _ (laws : FloatLaws F) where
    open laws use {le_trans}

    le-max_from_first : (x : F) (ys : List F) → le x (max_from x ys) ≡ true
    unfolding max_from
    le-max_from_first x [] = le_self laws x
    le-max_from_first x (y ∷ ys) =
        le_trans x (fmax x y) _ (le-fmax_left laws x y) (le-max_from_first (fmax x y) ys)

    le-max_from : (x : F) (ys : List F) {z : F} → Elem z (x ∷ ys) → le z (max_from x ys) ≡ true
    unfolding max_from
    le-max_from x ys (inl e) = rw (sym e) (le-max_from_first x ys)
    le-max_from x [] (inr m) = elim m [ ]
    le-max_from x (y ∷ ys) (inr (inl e)) =
        rw (sym e)
          (le_trans y (fmax x y) _ (le-fmax_right laws x y) (le-max_from_first (fmax x y) ys))
    le-max_from x (y ∷ ys) (inr (inr m)) = le-max_from (fmax x y) ys (inr m)

    le-max_of : (xs : List F) {z : F} → Elem z xs → le z (max_of xs) ≡ true
    unfolding max_of
    le-max_of [] m = elim m [ ]
    le-max_of (x ∷ xs) m = le-max_from x xs m

    module _ {P O : Type 0} (nets : Networks F P O) (soft : SoftmaxLaws nets) where
      -- An action of positive probability is one that the mask allows.
      pub probabilities-allowed :
          (policy : P) (o : O) (mask : List Bool) (i : ℕ) {p : F}
          → length (nets.forward policy o) ≡ length mask + 1
          → All IsModerate (nets.forward policy o)
          → get_elem? (probabilities nets policy o (mask ++ true ∷ [])) i ≡ some p
          → lt (of_nat 0) p ≡ true
          → get_elem? (mask ++ true ∷ []) i ≡ some true
      unfolding probabilities softmax
      probabilities-allowed policy o mask i {p} size moderate here positive =
          let logits = nets.forward policy o in
          let masked = add_mask logits (mask ++ true ∷ []) in
          let (e, at_e, quotient) = get_elem?-map _ _ i here in
          let (y, at_y, power) = get_elem?-map _ masked i at_e in
          let (r, r_in, r_masked) = Elem-add_mask logits mask size in
          let low =
            le_trans _ r (max_of masked) (All-Elem IsModerate logits moderate r_in).0
              (rw (soft.add_zero r) at (le-max_of masked r_masked)) in
          elim (get_elem?-add_mask logits (mask ++ true ∷ []) i at_y) [
            | inl ok ↦ ok
            | inr (x, x_in, add_x) ↦
                let none_left =
                  soft.underflow x (max_of masked) (All-Elem IsModerate logits moderate x_in).1
                    low in
                absurd (
                  impossible e p _
                    (sym power ∙ ap (λ z. nets.exp (sub z (max_of masked))) (sym add_x) ∙ none_left)
                    quotient positive)
          ]
        where
          impossible : (e p t : F) → e ≡ of_nat 0 → div e t ≡ p → lt (of_nat 0) p ≡ true → ⊥
          impossible e p t zero_e q pos =
              let clash : false ≡ true =
                sym (soft.zero_quotient t)
                ∙ ap (λ z. lt (of_nat 0) (div z t)) (sym zero_e)
                ∙ ap (lt (of_nat 0)) q
                ∙ pos in
              absurd (ground (arith, clash))
