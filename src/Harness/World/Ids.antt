-- ===== src/Harness/World/Ids.antt =====
-- The node ids of a list of nodes, which no update of a node changes.
use dynamo_serve.Base.{
  ℕ, zero, suc, ◌≡◌, refl, ap, String, List, [], ◌∷◌, map, length, modify, get_elem?, some, ◌==◌,
  string_eq, eq_iff, Bool-cases, Option-cases, inl, inr, Elem, All, arith, some_inj,
}
use dynamo_serve.Models.Node.{Node}
use dynamo_serve.Scheduler.KvAware.{update_node}
use dynamo_serve.Harness.World.{find_node}

module _ {F : Type 0} where
  abbrev pub ids_of : List (Node F) → List String
  ids_of ns = map (λ n. n.node_id) ns

  pub find_node-Elem :
      (a : String) (ns : List (Node F)) {n : Node F} → find_node a ns ≡ some n → Elem a (ids_of ns)
  unfolding find_node
  find_node-Elem a [] e = cc
  find_node-Elem a (x ∷ xs) e = elim (Option-cases (find_node a xs)) [
    | inr (m, f) ↦ inr (find_node-Elem a xs f)
    | inl f ↦ elim (Bool-cases (x.node_id == a)) [
      | inl q ↦ inl ((eq_iff x.node_id a).0 q)
      | inr q ↦ absurd (ground (arith, e, f, q))
    ]
  ]

  pub Elem-find_node :
      (a : String) (ns : List (Node F))
      → Elem a (ids_of ns)
      → (n : Node F) × (find_node a ns ≡ some n)
  unfolding find_node
  Elem-find_node a [] m = elim m [ ]
  Elem-find_node a (x ∷ xs) m = elim (Option-cases (find_node a xs)) [
    | inr (n, f) ↦ (n, rw f refl)
    | inl f ↦ elim m [
      | inl q ↦ (x, rw (f, (eq_iff x.node_id a).1 q) refl)
      | inr r ↦ let (n, g) = Elem-find_node a xs r in absurd (ground (arith, f, g))
    ]
  ]

  pub ids_of-modify :
      (ns : List (Node F)) (i : ℕ) (f : Node F → Node F)
      → ((n : Node F) → (f n).node_id ≡ n.node_id)
      → ids_of (modify ns i f) ≡ ids_of ns
  ids_of-modify [] i f same = refl
  ids_of-modify (n ∷ ns) zero f same = ap (λ a. a ∷ ids_of ns) (same n)
  ids_of-modify (n ∷ ns) (suc i) f same = ap (◌∷◌ n.node_id) (ids_of-modify ns i f same)

  pub length-ids_of : (ns : List (Node F)) → length ns ≡ length (ids_of ns)
  length-ids_of [] = refl
  length-ids_of (n ∷ ns) = ap suc (length-ids_of ns)

  pub get_elem?-ids_of :
      (ns : List (Node F)) (i : ℕ) {n : Node F}
      → get_elem? ns i ≡ some n
      → Elem n.node_id (ids_of ns)
  get_elem?-ids_of [] i e = cc
  get_elem?-ids_of (x ∷ xs) zero e = inl (ap (λ (n : Node F). n.node_id) (some_inj e))
  get_elem?-ids_of (x ∷ xs) (suc i) e = inr (get_elem?-ids_of xs i e)

  pub update_node-ids :
      (a : String) (f : Node F → Node F) (ns : List (Node F)) {ns' : List (Node F)}
      → ((n : Node F) → (f n).node_id ≡ n.node_id)
      → update_node a f ns ≡ some ns'
      → ids_of ns' ≡ ids_of ns
  unfolding update_node
  update_node-ids a f [] same e = cc
  update_node-ids a f (x ∷ xs) {ns'} same e = elim (Option-cases (update_node a f xs)) [
    | inr (ms, u) ↦
        let here : x ∷ ms ≡ ns' = some_inj (rw u at e) in
        rw (← here) (ap (◌∷◌ x.node_id) (update_node-ids a f xs same u))
    | inl u ↦ elim (Bool-cases (x.node_id == a)) [
      | inl q ↦
          let here : f x ∷ xs ≡ ns' = some_inj (rw q at (rw u at e)) in
          rw (← here) (ap (λ b. b ∷ ids_of xs) (same x))
      | inr q ↦ absurd (ground (arith, u, q, e))
    ]
  ]

  pub All-modify :
      (P : Node F → Type 0) (ns : List (Node F)) (i : ℕ) (f : Node F → Node F)
      → ((n : Node F) → P n → P (f n))
      → All P ns
      → All P (modify ns i f)
  All-modify P [] i f k h = tt
  All-modify P (n ∷ ns) zero f k h = (k n h.0, h.1)
  All-modify P (n ∷ ns) (suc i) f k h = (h.0, All-modify P ns i f k h.1)

  pub update_node-All :
      (P : Node F → Type 0) (a : String) (f : Node F → Node F) (ns : List (Node F))
      {ns' : List (Node F)}
      → ((n : Node F) → P n → P (f n))
      → update_node a f ns ≡ some ns'
      → All P ns
      → All P ns'
  unfolding update_node
  update_node-All P a f [] k e h = cc
  update_node-All P a f (x ∷ xs) {ns'} k e h = elim (Option-cases (update_node a f xs)) [
    | inr (ms, u) ↦
        let here : x ∷ ms ≡ ns' = some_inj (rw u at e) in
        rw (← here) (h.0, update_node-All P a f xs k u h.1)
    | inl u ↦ elim (Bool-cases (x.node_id == a)) [
      | inl q ↦
          let here : f x ∷ xs ≡ ns' = some_inj (rw q at (rw u at e)) in rw (← here) (k x h.0, h.1)
      | inr q ↦ absurd (ground (arith, u, q, e))
    ]
  ]

  -- A known node is updated.
  pub update_node-some :
      (a : String) (f : Node F → Node F) (ns : List (Node F))
      → Elem a (ids_of ns)
      → (ns' : List (Node F)) × (update_node a f ns ≡ some ns')
  unfolding update_node
  update_node-some a f [] m = elim m [ ]
  update_node-some a f (x ∷ xs) m = elim (Option-cases (update_node a f xs)) [
    | inr (ns, e) ↦ (x ∷ ns, rw e refl)
    | inl e ↦ elim m [
      | inl q ↦ (f x ∷ xs, rw (e, (eq_iff x.node_id a).1 q) refl)
      | inr r ↦ let (ns, u) = update_node-some a f xs r in absurd (ground (arith, e, u))
    ]
  ]
