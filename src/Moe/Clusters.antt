-- ===== src/Moe/Clusters.antt =====
-- What make_moe_cluster builds, and that one expert is a case that raises.
use dynamo_serve.Base.{
  ℕ, zero, suc, ◌-◌, ◌%◌, ◌<◌, ◌≡◌, refl, ap, subst, inl, inr, eqb, List, [], ◌∷◌, length, Option,
  none, some, ◌>>=◌, get_elem?, arith, All, Elem, select, enumerate, map, Elem-enumerate,
  enumerate-Elem, Elem-select, Elem-select_of, bind-some, some_inj, take, Option-cases,
}
use dynamo_serve.Float.{Float}
use dynamo_serve.Models.Node.{Node}
use dynamo_serve.Models.Request.{Request}
use dynamo_serve.Moe.{
  ExpertGroup, Router, nodes_of, make_groups, route, load_imbalance, kv_partition_plan, groups_of,
  ranked,
}

module _ {F : Type 0} where
  -- A group has nodes, and they are nodes of the cluster.
  pub record IsStaffed (all_nodes : List (Node F)) (g : ExpertGroup F) : Type 0 where
    pub some_node : 0 < length g.nodes
    pub known : All (λ n. Elem n all_nodes) g.nodes

  Elem-map_second :
      (cs : List (ℕ × Node F)) (P : ℕ × Node F → Type 0) (Q : Node F → Type 0)
      → ((c : ℕ × Node F) → Elem c cs → Q c.1)
      → All Q (map (λ c. c.1) cs)
  Elem-map_second [] P Q h = tt
  Elem-map_second (c ∷ cs) P Q h = (h c (inl refl), Elem-map_second cs P Q (λ c' m. h c' (inr m)))

  get_elem?-Elem : (ns : List (Node F)) (i : ℕ) {n : Node F} → get_elem? ns i ≡ some n → Elem n ns
  get_elem?-Elem [] i e = cc
  get_elem?-Elem (x ∷ ns) zero e = inl (some_inj e)
  get_elem?-Elem (x ∷ ns) (suc i) e = inr (get_elem?-Elem ns i e)

  own_nodes : List (Node F) → ℕ → ℕ → List (Node F)
  own_nodes all_nodes num_experts eid =
      map (λ c. c.1)
        (select (λ (c : ℕ × Node F). eqb (c.0 % num_experts) eid) (enumerate 0 all_nodes))

  own_nodes_known :
      (all_nodes : List (Node F)) (num_experts eid : ℕ)
      → All (λ n. Elem n all_nodes) (own_nodes all_nodes num_experts eid)
  unfolding own_nodes
  own_nodes_known all_nodes num_experts eid =
      Elem-map_second _ (λ c. Unit) _
        λ c m.
          let (low, here) =
            Elem-enumerate all_nodes 0 c.0 c.1 (Elem-select _ (enumerate 0 all_nodes) c m) in
          get_elem?-Elem all_nodes (c.0 - 0) here

  nodes_of-IsStaffed :
      (all_nodes : List (Node F)) (num_experts eid : ℕ) (ns : List (Node F))
      → nodes_of all_nodes num_experts eid ≡ some ns
      → (0 < length ns) × All (λ n. Elem n all_nodes) ns
  unfolding nodes_of own_nodes
  nodes_of-IsStaffed all_nodes num_experts eid ns e =
      go (own_nodes all_nodes num_experts eid) (own_nodes_known all_nodes num_experts eid) e
    where
      go :
          (own : List (Node F))
          → All (λ n. Elem n all_nodes) own
          → ◌≡◌ {A = Option (List (Node F))}
              (elim own [
                | n ∷ ns ↦ some (n ∷ ns)
                | [] ↦ get_elem? all_nodes (eid % length all_nodes) >>= λ n. some (n ∷ [])
              ])
              (some ns)
          → (0 < length ns) × All (λ n. Elem n all_nodes) ns
      go (n ∷ own) h q =
          subst (λ ms. (0 < length ms) × All (λ n. Elem n all_nodes) ms) (some_inj q)
            (omega arith, h)
      go [] h q =
          let (n, here, q₁) = bind-some (get_elem? all_nodes (eid % length all_nodes)) _ q in
          subst (λ ms. (0 < length ms) × All (λ n. Elem n all_nodes) ms) (some_inj q₁)
            (omega arith, (get_elem?-Elem all_nodes (eid % length all_nodes) here, tt))

  -- A cluster that is built has one group for each expert id, in order, and every group has nodes, all
  -- of them nodes of the cluster.
  pub make_groups-IsStaffed :
      (all_nodes : List (Node F)) (num_experts : ℕ) (eids : List ℕ) (groups : List (ExpertGroup F))
      → make_groups all_nodes num_experts eids ≡ some groups
      → (map (λ (g : ExpertGroup F). g.expert_id) groups ≡ eids) × All (IsStaffed all_nodes) groups
  unfolding make_groups
  make_groups-IsStaffed all_nodes num_experts [] groups e =
      subst
        (λ gs. (map (λ (g : ExpertGroup F). g.expert_id) gs ≡ []) × All (IsStaffed all_nodes) gs)
        (some_inj e) (refl, tt)
  make_groups-IsStaffed all_nodes num_experts (eid ∷ eids) groups e =
      let (ns, a, e₁) = bind-some (nodes_of all_nodes num_experts eid) _ e in
      let (rest, b, e₂) = bind-some (make_groups all_nodes num_experts eids) _ e₁ in
      let (ids, staffed) = make_groups-IsStaffed all_nodes num_experts eids rest b in
      let (some_there, known) = nodes_of-IsStaffed all_nodes num_experts eid ns a in
      subst
        (λ gs.
          (map (λ (g : ExpertGroup F). g.expert_id) gs ≡ eid ∷ eids) × All (IsStaffed all_nodes) gs)
        (some_inj e₂)
        (ap (◌∷◌ eid) ids, (record { some_node = some_there; known = known }, staffed))

  map-Elem :
      (cs : List (ℕ × Node F)) (k : ℕ) (n : Node F) → Elem (k, n) cs → Elem n (map (λ c. c.1) cs)
  map-Elem [] k n m = m
  map-Elem (c ∷ cs) k n (inl e) = inl (ap (λ c. c.1) e)
  map-Elem (c ∷ cs) k n (inr m) = inr (map-Elem cs k n m)

  -- Every node of the cluster is in the group whose expert id is its place modulo the experts.
  pub nodes_of-covers :
      (all_nodes : List (Node F)) (num_experts i : ℕ) (n : Node F) (ns : List (Node F))
      → get_elem? all_nodes i ≡ some n
      → nodes_of all_nodes num_experts (i % num_experts) ≡ some ns
      → Elem n ns
  unfolding nodes_of own_nodes
  nodes_of-covers all_nodes num_experts i n ns here e =
      go (own_nodes all_nodes num_experts (i % num_experts)) own e
    where
      own : Elem n (own_nodes all_nodes num_experts (i % num_experts))
      own = map-Elem _ i n (
          Elem-select_of (λ (c : ℕ × Node F). eqb (c.0 % num_experts) (i % num_experts))
            (enumerate 0 all_nodes) (i, n)
            (subst (λ j. Elem (j, n) (enumerate 0 all_nodes)) (omega arith)
              (enumerate-Elem all_nodes 0 i n here))
            (ground arith))

      go :
          (own : List (Node F))
          → Elem n own
          → ◌≡◌ {A = Option (List (Node F))}
              (elim own [
                | n ∷ ns ↦ some (n ∷ ns)
                | [] ↦
                    get_elem? all_nodes (i % num_experts % length all_nodes) >>= λ n. some (n ∷ [])
              ])
              (some ns)
          → Elem n ns
      go (x ∷ xs) m q = subst (Elem n) (some_inj q) m
      go [] m q = absurd m

module _ {F : Type 0} ⦃fl : Float F⦄ where
  load_imbalance_one : (s : Router F) → s.num_experts ≡ 1 → load_imbalance s ≡ none
  unfolding load_imbalance
  load_imbalance_one s e = rw (load_imbalance, e) refl

  -- A router for a model of one expert raises on every request.
  pub route_one : (request : Request F) (s : Router F) → s.num_experts ≡ 1 → route request s ≡ none
  unfolding route
  route_one request s e =
      elim (Option-cases
        (kv_partition_plan request (groups_of (take s.top_k (ranked request s)) s.groups) s)) [
          | inl gone ↦ rw (route, gone) refl
          | inr (p, there) ↦ rw (route, there, load_imbalance_one s e) refl
        ]
