-- ===== src/Moe/Selection.antt =====
-- Which experts a request is routed to, and how the load counters move.
use dynamo_serve.Base.{
  ℕ, zero, suc, ◌+◌, ◌*◌, ◌≤◌, ◌<◌, ◌≡◌, refl, sym, ◌∙◌, ap, subst, min, inl, inr, Bool, false,
  List, [], ◌∷◌, length, take, drop, some, bind-some, some_inj, modify, length-modify, length-take,
  arith, All, Elem, Distinct, Elem-take, take-Distinct, All-Elem, Elem-All, Elem-sort, sort-Elem,
  ◌⊎◌, true, sort-Distinct, length-sort, sort-IsSorted, IsSorted,
}
use dynamo_serve.Float.{Float, FloatLaws, le_of_not_lt, max_key-IsStrictOrder}
use dynamo_serve.Models.Request.{Request}
use dynamo_serve.Moe.{
  range, sum, Router, RoutingDecision, count_tokens, ranked, scores_higher, score_expert, route,
  groups_of, kv_partition_plan, load_imbalance,
}

pub Elem-range : (start n i : ℕ) → Elem i (range start n) → (start ≤ i) × (i < start + n)
Elem-range start zero i m = elim m [ ]
Elem-range start (suc n) i (inl e) = (omega (arith, e), omega (arith, e))
Elem-range start (suc n) i (inr m) =
    let (low, high) = Elem-range (suc start) n i m in (omega (arith, low), omega (arith, high))

range-Distinct : (start n : ℕ) → Distinct (range start n)
range-Distinct start zero = tt
range-Distinct start (suc n) = (
  (λ m. absurd (omega (arith, (Elem-range (suc start) n start m).0))),
  range-Distinct (suc start) n,
)

length-range : (start n : ℕ) → length (range start n) ≡ n
length-range start zero = refl
length-range start (suc n) = ap suc (length-range (suc start) n)

sum-modify :
    (counts : List ℕ) (i tokens : ℕ)
    → i < length counts
    → sum (modify counts i (λ n. n + tokens)) ≡ sum counts + tokens
sum-modify [] i tokens h = absurd (omega arith)
sum-modify (c ∷ counts) zero tokens h = omega arith
sum-modify (c ∷ counts) (suc i) tokens h = omega (arith, sum-modify counts i tokens (omega arith))

sum-count_tokens :
    (tokens : ℕ) (is counts : List ℕ)
    → All (λ i. i < length counts) is
    → sum (count_tokens tokens is counts) ≡ sum counts + tokens * length is
unfolding count_tokens
sum-count_tokens tokens [] counts h = omega arith
sum-count_tokens tokens (i ∷ is) counts h =
    let more = sum-modify counts i tokens h.0 in
    let rest =
      sum-count_tokens tokens is (modify counts i (λ n. n + tokens))
        (subst (λ k. All (λ j. j < k) is) (sym (length-modify counts i (λ n. n + tokens))) h.1) in
    rest ∙ ap (λ n. n + tokens * length is) more ∙ last (length is)
  where
    last : (k : ℕ) → sum counts + tokens + tokens * k ≡ sum counts + tokens * suc k
    last k = omega arith

module _ {A : Type 0} (before : A → A → Bool) where
  take-IsSorted :
      (k : ℕ) (xs : List A) (x y : A)
      → IsSorted before xs
      → Elem x (take k xs)
      → Elem y (drop k xs)
      → before y x ≡ false
  take-IsSorted zero xs x y s mx my = elim mx [ ]
  take-IsSorted (suc k) [] x y s mx my = elim mx [ ]
  take-IsSorted (suc k) (z ∷ xs) x y s (inl e) my =
      subst (λ a. before y a ≡ false) e (All-Elem _ xs s.0 (Elem-drop k xs y my))
    where
      Elem-drop : (k : ℕ) (xs : List A) (a : A) → Elem a (drop k xs) → Elem a xs
      Elem-drop zero xs a m = m
      Elem-drop (suc k) [] a m = m
      Elem-drop (suc k) (x ∷ xs) a m = inr (Elem-drop k xs a m)
  take-IsSorted (suc k) (z ∷ xs) x y s (inr mx) my = take-IsSorted k xs x y s.1 mx my

Elem-take-drop :
    {A : Type 0} (k : ℕ) (xs : List A) (a : A) → Elem a xs → Elem a (take k xs) ⊎ Elem a (drop k xs)
Elem-take-drop zero xs a m = inr m
Elem-take-drop (suc k) [] a m = inl m
Elem-take-drop (suc k) (x ∷ xs) a (inl e) = inl (inl e)
Elem-take-drop (suc k) (x ∷ xs) a (inr m) = elim (Elem-take-drop k xs a m) [
  | inl t ↦ inl (inr t)
  | inr d ↦ inr d
]

module _ {F : Type 0} ⦃fl : Float F⦄ (request : Request F) (s s' : Router F)
    (d : RoutingDecision F) where
  -- What a routing that does not raise returns.
  route_parts :
      route request s ≡ some (s', d)
      → (d.selected_experts ≡ take s.top_k (ranked request s))
        × (s'.expert_token_counts
            ≡ count_tokens request.prompt_tokens
                (take s.top_k (ranked request s))
                s.expert_token_counts)
  unfolding route
  route_parts e =
      let (kv_plan, p, e₁) =
        bind-some
          (kv_partition_plan request (groups_of (take s.top_k (ranked request s)) s.groups) s) _
          e in
      let (imbalance, q, e₂) = bind-some (load_imbalance s) _ e₁ in
      let same = some_inj e₂ in
      (sym (ap (λ p. p.1.selected_experts) same), sym (ap (λ p. p.0.expert_token_counts) same))

  -- The experts selected are distinct, each is one of the experts of the model, and there are `top_k`
  -- of them, or all if there are fewer.
  pub route_selected :
      route request s ≡ some (s', d)
      → Distinct d.selected_experts
        × All (λ i. i < s.num_experts) d.selected_experts
        × (length d.selected_experts ≡ min s.top_k s.num_experts)
  unfolding ranked
  route_selected e =
      let (q, c) = route_parts e in
      let all = range 0 s.num_experts in
      let r = ranked request s in
      rw q (
        take-Distinct s.top_k r
            (sort-Distinct (scores_higher request s) all (range-Distinct 0 s.num_experts)),
        Elem-All _ _ (λ i m.
            let bound =
              (Elem-range 0 s.num_experts i
                (Elem-sort (scores_higher request s) all i (Elem-take s.top_k r i m))).1 in
            omega (arith, bound)),
        length-take s.top_k r
            ∙ ap (min s.top_k)
                (length-sort (scores_higher request s) all ∙ length-range 0 s.num_experts),
      )

  -- The load counters together grow by the prompt tokens of the request for each expert selected,
  -- where there is a counter for every expert.
  pub route-counts :
      length s.expert_token_counts ≡ s.num_experts
      → route request s ≡ some (s', d)
      → sum s'.expert_token_counts
        ≡ sum s.expert_token_counts + request.prompt_tokens * min s.top_k s.num_experts
  route-counts full e =
      let (q, c) = route_parts e in
      let (distinct, inside, size) = route_selected e in
      let inside' =
        subst (All (λ i. i < length s.expert_token_counts)) q
          (subst (λ k. All (λ i. i < k) d.selected_experts) (sym full) inside) in
      ap sum c
      ∙ sum-count_tokens request.prompt_tokens _ s.expert_token_counts inside'
      ∙ ap (λ k. sum s.expert_token_counts + request.prompt_tokens * k) (ap length (sym q) ∙ size)

  -- No expert that is left out has a higher score than one that is selected.
  pub route-best :
      (laws : FloatLaws F) (i j : ℕ)
      → route request s ≡ some (s', d)
      → Elem i d.selected_experts
      → Elem j (drop s.top_k (ranked request s))
      → scores_higher request s j i ≡ false
  unfolding ranked scores_higher
  route-best laws i j e chosen left_out =
      let (q, c) = route_parts e in
      take-IsSorted (scores_higher request s) s.top_k (ranked request s) i j
        (sort-IsSorted (scores_higher request s)
          (max_key-IsStrictOrder laws (score_expert request s)) (range 0 s.num_experts))
        (subst (Elem i) q chosen) left_out

  -- Under the laws of comparison, the experts selected are distinct, each is one of the experts of
  -- the model, and there are `top_k` of them, or all if there are fewer; every expert of the model
  -- is selected or has a score that is at most the score of each expert selected.
  pub route_lem :
      FloatLaws F
      → route request s ≡ some (s', d)
      → Distinct d.selected_experts
        × All (λ i. i < s.num_experts) d.selected_experts
        × (length d.selected_experts ≡ min s.top_k s.num_experts)
        × All
            (λ j.
              Elem j d.selected_experts
              ⊎ All
                  (λ i. fl.le (score_expert request s j) (score_expert request s i) ≡ true)
                  d.selected_experts)
            (range 0 s.num_experts)
  unfolding ranked scores_higher
  route_lem laws e =
      let (distinct, inside, size) = route_selected e in
      let (q, c) = route_parts e in
      (
        distinct,
        inside,
        size,
        Elem-All _ (range 0 s.num_experts) λ j m.
            elim (Elem-take-drop s.top_k (ranked request s) j
              (sort-Elem (scores_higher request s) (range 0 s.num_experts) j m)) [
                | inl chosen ↦ inl (subst (Elem j) (sym q) chosen)
                | inr left_out ↦
                    inr
                      (Elem-All _ _ λ i k. le_of_not_lt laws _ _ (route-best laws i j e k left_out))
              ],
      )
