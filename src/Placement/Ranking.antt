-- ===== src/Placement/Ranking.antt =====
-- What the placement engine chooses among the nodes.
use dynamo_serve.Base.{
  bind-some, some_inj, ◌≡◌, refl, sym, ◌∙◌, ap, Bool, true, false, List, [], ◌∷◌, Option, none,
  some, arith, Elem, All, All-Elem, Elem-All, Bool-cases, Option-cases, inl, inr, ◌⊎◌, ◌>>=◌,
  best-Elem, best-none, best_lem, head?-sort, IsStrictOrder,
}
use mathlib.Core.List.{head?}
use dynamo_serve.Float.{Float, FloatLaws, max_key-IsStrictOrder, le_of_not_lt}
use dynamo_serve.Models.Node.{Node, can_fit}
use dynamo_serve.Models.Request.{Request, kv_blocks_needed, estimated_memory_gb}
use dynamo_serve.Placement.{
  Placement, Engine, prefix_affinity, score_node, score_nodes, higher_score, place, rank_nodes,
  keep,
}

module _ {F : Type 0} ⦃fl : Float F⦄ (engine : Engine F) (request : Request F) where
  abbrev pub fits : Node F → Bool
  fits n = can_fit n (kv_blocks_needed request) (estimated_memory_gb request)

  -- A decision comes from a node that can take the request.
  record IsScored (n : Node F) (d : Placement F) : Type 0 where
    able : fits n ≡ true
    named : d.node_id ≡ n.node_id
    scored : score_node engine request n ≡ some (some d)

  score_node-IsScored :
      (n : Node F) (d : Placement F) → score_node engine request n ≡ some (some d) → IsScored n d
  score_node-IsScored n d e = record { able = able_of e; named = named_of e; scored = e }
    where
      able_of : score_node engine request n ≡ some (some d) → fits n ≡ true
      able_of e =
          unfold score_node in
          elim (Bool-cases (fits n)) [ inl t ↦ t | inr f ↦ absurd (ground arith) ]

      named_of : score_node engine request n ≡ some (some d) → d.node_id ≡ n.node_id
      named_of e =
          unfold score_node in
          elim (Option-cases (prefix_affinity engine request n)) [
            | inl none_there ↦ ground arith
            | inr (a, there) ↦ ground arith
          ]

  score_node-none : (n : Node F) → score_node engine request n ≡ some none → fits n ≡ false
  unfolding score_node
  score_node-none n e = elim (Option-cases (prefix_affinity engine request n)) [
    | inl gone ↦ ground arith
    | inr (a, there) ↦ ground arith
  ]

  score_nodes_sound :
      (ns : List (Node F)) (ds : List (Placement F)) (d : Placement F)
      → score_nodes engine request ns ≡ some ds
      → Elem d ds
      → (n : Node F) × Elem n ns × IsScored n d
  unfolding score_nodes
  score_nodes_sound [] ds d e m = absurd (none_there (cc) m)
    where
      none_there : ds ≡ [] → Elem d ds → ⊥
      none_there q m = rw q at m
  score_nodes_sound (n ∷ ns) ds d e m = elim (Option-cases (score_node engine request n)) [
    | inl gone ↦ absurd (ground arith)
    | inr (r, here) ↦ elim (Option-cases (score_nodes engine request ns)) [
      | inl gone ↦ absurd (ground arith)
      | inr (ds', rest) ↦
          let whole : keep r ds' ≡ ds = ground arith in
          first r ds' here (score_nodes_sound ns ds' d rest) (rw (← whole) at m)
    ]
  ]
    where
      first :
          (r : Option (Placement F)) (ds' : List (Placement F))
          → score_node engine request n ≡ some r
          → (Elem d ds' → (n' : Node F) × Elem n' ns × IsScored n' d)
          → Elem d (keep r ds')
          → (n' : Node F) × Elem n' (n ∷ ns) × IsScored n' d
      first none ds' here rest m = let (n', k, s) = rest m in (n', inr k, s)
      first (some x) ds' here rest (inl q) = (n, inl refl, score_node-IsScored n d (rw q at here))
      first (some x) ds' here rest (inr m) = let (n', k, s) = rest m in (n', inr k, s)

  score_nodes_complete :
      (ns : List (Node F)) (ds : List (Placement F)) (n : Node F)
      → score_nodes engine request ns ≡ some ds
      → Elem n ns
      → fits n ≡ true
      → (d : Placement F) × Elem d ds × IsScored n d
  unfolding score_nodes
  score_nodes_complete [] ds n e m f = elim m [ ]
  score_nodes_complete (x ∷ ns) ds n e m f = elim (Option-cases (score_node engine request x)) [
    | inl gone ↦ absurd (ground arith)
    | inr (r, here) ↦ elim (Option-cases (score_nodes engine request ns)) [
      | inl gone ↦ absurd (ground arith)
      | inr (ds', rest) ↦
          let whole : keep r ds' ≡ ds = ground arith in
          let (d, k, s) = first r ds' here (λ k. score_nodes_complete ns ds' n rest k f) m in
          (d, rw (← whole) k, s)
    ]
  ]
    where
      first :
          (r : Option (Placement F)) (ds' : List (Placement F))
          → score_node engine request x ≡ some r
          → (Elem n ns → (d : Placement F) × Elem d ds' × IsScored n d)
          → Elem n (x ∷ ns)
          → (d : Placement F) × Elem d (keep r ds') × IsScored n d
      first none ds' here rest (inl q) = absurd (clash (score_node-none x here))
        where
          clash : fits x ≡ false → ⊥
          clash no_fit = cc (sym (ap fits q) ∙ no_fit)
      first none ds' here rest (inr k) = rest k
      first (some d) ds' here rest (inl q) = (d, inl refl, rw q at (score_node-IsScored x d here))
      first (some d) ds' here rest (inr k) = let (d', k', s) = rest k in (d', inr k', s)

  higher_score-IsStrictOrder : FloatLaws F → IsStrictOrder (higher_score {F = F})
  unfolding higher_score
  higher_score-IsStrictOrder laws = max_key-IsStrictOrder laws (λ d. d.score)

  -- `place` returns the first of what `rank_nodes` returns.
  pub place-rank_nodes :
      (laws : FloatLaws F) (nodes : List (Node F))
      → place engine request nodes ≡ (rank_nodes engine request nodes >>= λ ds. some (head? ds))
  unfolding place rank_nodes
  place-rank_nodes laws nodes = elim (Option-cases (score_nodes engine request nodes)) [
    | inl e ↦ rw e refl
    | inr (ds, e) ↦
        rw e (ap some (sym (head?-sort higher_score (higher_score-IsStrictOrder laws) ds)))
  ]

  -- The decision that `place` chooses is one of those made for the nodes, and no other has a higher
  -- score.
  place_best :
      (laws : FloatLaws F) (nodes : List (Node F)) (d : Placement F)
      → place engine request nodes ≡ some (some d)
      → (ds : List (Placement F)) × (score_nodes engine request nodes ≡ some ds)
        × Elem d ds
        × All (λ x. higher_score x d ≡ false) ds
  unfolding place
  place_best laws nodes d e =
      let (ds, found, e₁) = bind-some (score_nodes engine request nodes) _ e in
      let chosen = some_inj e₁ in
      (
        ds,
        found,
        best-Elem higher_score ds d chosen,
        best_lem higher_score (higher_score-IsStrictOrder laws) ds d chosen,
      )

  -- A placement is on one of the nodes, and that node can take the request.
  pub place-fits :
      (laws : FloatLaws F) (nodes : List (Node F)) (d : Placement F)
      → place engine request nodes ≡ some (some d)
      → (n : Node F) × Elem n nodes × (fits n ≡ true) × (d.node_id ≡ n.node_id)
  place-fits laws nodes d e =
      let (ds, found, k, top) = place_best laws nodes d e in
      let (n, k', s) = score_nodes_sound nodes ds d found k in (n, k', s.able, s.named)

  -- Every node that can take the request gets a score, and none a higher one than the placement.
  pub place-optimal :
      (laws : FloatLaws F) (nodes : List (Node F)) (d : Placement F) (n : Node F)
      → place engine request nodes ≡ some (some d)
      → Elem n nodes
      → fits n ≡ true
      → (d' : Placement F) × (score_node engine request n ≡ some (some d'))
        × (fl.le d'.score d.score ≡ true)
  unfolding higher_score
  place-optimal laws nodes d n e k able =
      let (ds, found, k', top) = place_best laws nodes d e in
      let (d', k'', s) = score_nodes_complete nodes ds n found k able in
      (d', s.scored, le_of_not_lt laws _ _ (All-Elem _ ds top k''))

  -- Under the laws of comparison, a placement is on one of the nodes, which can take the request;
  -- and each of the nodes cannot take it or has a score, which is not higher than the placement's.
  pub place_lem :
      (laws : FloatLaws F) (nodes : List (Node F)) (d : Placement F)
      → place engine request nodes ≡ some (some d)
      → ((n : Node F) × Elem n nodes × (fits n ≡ true) × (d.node_id ≡ n.node_id))
        × All
            (λ n.
              (fits n ≡ false)
              ⊎ ((d' : Placement F) × (score_node engine request n ≡ some (some d'))
                  × (fl.le d'.score d.score ≡ true)))
            nodes
  place_lem laws nodes d e = (
    place-fits laws nodes d e,
    Elem-All _ nodes λ n k. elim (Bool-cases (fits n)) [
      | inl able ↦ inr (place-optimal laws nodes d n e k able)
      | inr unable ↦ inl unable
    ],
  )

  -- There is no placement only where no node can take the request.
  pub place-none :
      (nodes : List (Node F))
      → place engine request nodes ≡ some none
      → All (λ n. fits n ≡ false) nodes
  unfolding place
  place-none nodes e = elim (Option-cases (score_nodes engine request nodes)) [
    | inl gone ↦ absurd (ground arith)
    | inr (ds, found) ↦
        let empty = best-none higher_score ds (ground arith) in
        Elem-All _ nodes λ n k. elim (Bool-cases (fits n)) [
          | inr f ↦ f
          | inl t ↦
              let (d, k', s) = score_nodes_complete nodes ds n found k t in absurd (rw empty at k')
        ]
  ]
