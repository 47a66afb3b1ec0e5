-- ===== src/Topology/Mesh.antt =====
-- The transfer times inside a server or a rack that is a full mesh.
use dynamo_serve.Base.{
  ℕ, zero, suc, ◌+◌, ◌<◌, ◌≡◌, ◌≢◌, refl, ◌∙◌, true, false, String, List, [], ◌∷◌, ◌++◌, none, some,
  ◌==◌, string_eq, eq_iff, beq_refl, Bool-cases, inl, inr, Elem, arith, subst, ℕ_discrete,
}
use dynamo_serve.Float.{Float}
use dynamo_serve.Models.Node.{GpuType}
use dynamo_serve.Moe.{range}
use dynamo_serve.Topology.{
  InterconnectLink, ClusterTopology, link, get_link, mesh_row, mesh, transfer_cost_ms,
  make_single_node, make_blackwell_rack,
}

Elem-range : (start n i : ℕ) → i < n → Elem (start + i) (range start n)
Elem-range start zero i h = absurd (omega arith)
Elem-range start (suc n) zero h = inl (omega arith)
Elem-range start (suc n) (suc i) h =
    let e : suc start + i ≡ start + suc i = omega arith in
    inr
      (subst (λ m. Elem m (range (suc start) n)) e (Elem-range (suc start) n i (omega (arith, h))))

tail : {k j : ℕ} (js : List ℕ) → k ≢ j → Elem j (k ∷ js) → Elem j js
tail js d (inl e) = absurd (d e)
tail js d (inr m) = m

differ : (a b : String) → a ≢ b → (a == b) ≡ false
differ a b h = elim (Bool-cases (a == b)) [ inl e ↦ absurd (h ((eq_iff a b).0 e)) | inr e ↦ e ]

below : (n i : ℕ) → i < n → Elem i (range 0 n)
below n i h =
    let e : 0 + i ≡ i = omega arith in subst (λ m. Elem m (range 0 n)) e (Elem-range 0 n i h)

module _ {F : Type 0} where
  get_link-append_right :
      (a b : String) (ls ms : List (InterconnectLink F))
      → get_link a b ls ≡ none
      → get_link a b (ls ++ ms) ≡ get_link a b ms
  unfolding get_link
  get_link-append_right a b [] ms h = refl
  get_link-append_right a b (l ∷ ls) ms h = ground (arith, h, get_link-append_right a b ls ms)

  get_link-append_left :
      (a b : String) (ls ms : List (InterconnectLink F)) {l : InterconnectLink F}
      → get_link a b ls ≡ some l
      → get_link a b (ls ++ ms) ≡ some l
  unfolding get_link
  get_link-append_left a b [] ms h = grind (arith, h)
  get_link-append_left a b (l' ∷ ls) ms {l = l} h =
      ground (arith, h, get_link-append_left a b ls ms {l = l})

  module _ (name : ℕ → String) (injective : (i j : ℕ) → name i ≡ name j → i ≡ j) (bw lat : F) where
    apart : (i j : ℕ) → i ≢ j → (name i == name j) ≡ false
    apart i j h = differ (name i) (name j) (λ e. h (injective i j e))

    row-other :
        (i i' : ℕ) (b : String) (js : List ℕ)
        → i' ≢ i
        → get_link (name i) b (mesh_row name bw lat i' js) ≡ none
    unfolding mesh_row get_link
    row-other i i' b [] h = refl
    row-other i i' b (j ∷ js) h = ground (arith, apart i' i h, row-other i i' b js h)

    row-own :
        (i j : ℕ) (js : List ℕ)
        → i ≢ j
        → Elem j js
        → get_link (name i) (name j) (mesh_row name bw lat i js)
          ≡ some (link (name i) (name j) bw lat true)
    unfolding mesh_row get_link
    row-own i j [] h m = elim m [ ]
    row-own i j (k ∷ js) h m = elim (ℕ_discrete k j) [
      | yes e ↦ rw e (ground (arith, h, beq_refl (name i), beq_refl (name j)))
      | no d ↦ ground (arith, apart k j d, row-own i j js h (tail _ d m))
    ]

    -- The mesh joins any two of its nodes.
    pub mesh-joins :
        (i j : ℕ) (is js : List ℕ)
        → i ≢ j
        → Elem i is
        → Elem j js
        → get_link (name i) (name j) (mesh name bw lat is js)
          ≡ some (link (name i) (name j) bw lat true)
    unfolding mesh
    mesh-joins i j [] js h m k = elim m [ ]
    mesh-joins i j (i' ∷ is) js h m k = elim (ℕ_discrete i' i) [
      | yes e ↦ rw e (get_link-append_left _ _ (mesh_row name bw lat i js) _ (row-own i j js h k))
      | no d ↦
          get_link-append_right _ _ (mesh_row name bw lat i' js) _ (row-other i i' (name j) js d)
          ∙ mesh-joins i j is js h (tail _ d m) k
    ]

module _ {F : Type 0} ⦃fl : Float F⦄ (name : String → ℕ → String)
    (injective : (prefix : String) (i j : ℕ) → name prefix i ≡ name prefix j → i ≡ j) where
  open fl use {of_nat, decimal, add, mul, div}

  linked-cost :
      (a b : String) (size bw lat : F) (t : ClusterTopology F)
      → a ≢ b
      → get_link a b t.links ≡ some (link a b bw lat true)
      → transfer_cost_ms a b size t
        ≡ add (div lat (of_nat 1000)) (mul (div (mul size (of_nat 8)) bw) (of_nat 1000))
  unfolding transfer_cost_ms
  linked-cost a b size bw lat t d h = rw (transfer_cost_ms, differ a b d) (rw h refl)

  -- Where numbers give different node ids, a transfer between any two GPUs of a single node takes its
  -- time at 600 Gbps and one microsecond, and between any two of a Blackwell rack at 1,800 Gbps and
  -- half a microsecond; a transfer to oneself takes none.
  pub transfer_cost_ms-mesh :
      (gpu_type : GpuType) (n i j : ℕ) (size : F)
      → i ≢ j
      → i < n
      → j < n
      → (transfer_cost_ms (name "gpu_" i) (name "gpu_" j) size (make_single_node name gpu_type n)
          ≡ add
              (div (of_nat 1) (of_nat 1000))
              (mul (div (mul size (of_nat 8)) (of_nat 600)) (of_nat 1000)))
        × (transfer_cost_ms (name "b200_" i) (name "b200_" j) size (make_blackwell_rack name n)
            ≡ add
                (div (decimal 5 1) (of_nat 1000))
                (mul (div (mul size (of_nat 8)) (of_nat 1800)) (of_nat 1000)))
        × (transfer_cost_ms (name "gpu_" i) (name "gpu_" i) size (make_single_node name gpu_type n)
            ≡ of_nat 0)
  unfolding make_single_node make_blackwell_rack transfer_cost_ms
  transfer_cost_ms-mesh gpu_type n i j size d hi hj = (
    linked-cost _ _ size (of_nat 600) (of_nat 1) (make_single_node name gpu_type n)
        (λ e. d (injective _ i j e))
        (mesh-joins (name "gpu_") (injective "gpu_") (of_nat 600) (of_nat 1) i j (range 0 n)
          (range 0 n) d (below n i hi) (below n j hj)),
    linked-cost _ _ size (of_nat 1800) (decimal 5 1) (make_blackwell_rack name n)
        (λ e. d (injective _ i j e))
        (mesh-joins (name "b200_") (injective "b200_") (of_nat 1800) (decimal 5 1) i j (range 0 n)
          (range 0 n) d (below n i hi) (below n j hj)),
    rw (transfer_cost_ms, beq_refl (name "gpu_" i)) refl,
  )
