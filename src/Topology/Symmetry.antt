-- ===== src/Topology/Symmetry.antt =====
-- A transfer takes as long as the one back.
use dynamo_serve.Base.{
  ◌≡◌, refl, sym, ap, ◌∙◌, Bool, false, ◌&&◌, if◌then◌else◌, String, List, [], ◌∷◌, ◌++◌, Option,
  none, some, ◌==◌, string_eq, eq_iff, Bool-cases, inl, inr, arith,
}
use dynamo_serve.Float.{Float}
use dynamo_serve.Models.Node.{Node}
use dynamo_serve.Topology.{
  InterconnectLink, ClusterTopology, link, add_link, get_link, transfer_cost_ms,
}

beq_comm : (a b : String) → (a == b) ≡ (b == a)
beq_comm a b = elim (Bool-cases (a == b)) [
  | inl e ↦ rw ((eq_iff a b).0 e) refl
  | inr e ↦ elim (Bool-cases (b == a)) [
    | inl e' ↦ rw ((eq_iff b a).0 e') refl
    | inr e' ↦ e ∙ sym e'
  ]
]

module _ {F : Type 0} where
  -- No link, or links of the same bandwidth and latency.
  abbrev Mirrors : Option (InterconnectLink F) → Option (InterconnectLink F) → Type 0
  Mirrors none none = Unit {0}
  Mirrors (some l) (some m) = (l.bandwidth_gbps ≡ m.bandwidth_gbps) × (l.latency_us ≡ m.latency_us)
  Mirrors _ _ = ⊥

  abbrev or_else :
      Option (InterconnectLink F) → Option (InterconnectLink F) → Option (InterconnectLink F)
  or_else none m = m
  or_else (some l) m = some l

  get_link-append :
      (a b : String) (ls ms : List (InterconnectLink F))
      → get_link a b (ls ++ ms) ≡ or_else (get_link a b ls) (get_link a b ms)
  unfolding get_link
  get_link-append a b [] ms = refl
  get_link-append a b (l ∷ ls) ms = ground (arith, get_link-append a b ls ms)

  or_else-Mirrors :
      (x x' y y' : Option (InterconnectLink F))
      → Mirrors x x'
      → Mirrors y y'
      → Mirrors (or_else x y) (or_else x' y')
  or_else-Mirrors none none y y' h k = k
  or_else-Mirrors (some l) (some m) y y' h k = h
  or_else-Mirrors none (some m) y y' h k = elim h [ ]
  or_else-Mirrors (some l) none y y' h k = elim h [ ]

  choose-Mirrors :
      (p q u v : Bool) (l m : InterconnectLink F)
      → l.bandwidth_gbps ≡ m.bandwidth_gbps
      → l.latency_us ≡ m.latency_us
      → Mirrors
          (if p && q then some l else if u && v then some m else none)
          (if v && u then some l else if q && p then some m else none)
  choose-Mirrors p q u v l m e f = ground (arith, e, f)

  -- What `add_link` makes of a topology that starts without links.
  pub data Linked (nodes : List (Node F)) : ClusterTopology F → Type 0 where
    bare : Linked nodes (record { nodes = nodes; links = [] })
    add :
        {t : ClusterTopology F}
        → (src dst : String) (bw lat : F) (nvlink : Bool) → Linked nodes t
        → Linked nodes (add_link src dst bw lat nvlink t)

  Linked-Mirrors :
      (a b : String) (nodes : List (Node F)) {t : ClusterTopology F}
      → Linked nodes t
      → Mirrors (get_link a b t.links) (get_link b a t.links)
  unfolding get_link add_link
  Linked-Mirrors a b nodes bare = tt
  Linked-Mirrors a b nodes (add {t = t} src dst bw lat nvlink k) =
      let pair = link src dst bw lat nvlink ∷ link dst src bw lat nvlink ∷ [] in
      rw (get_link-append a b t.links pair, get_link-append b a t.links pair)
        (or_else-Mirrors _ _ _ _ (Linked-Mirrors a b nodes k) (
          choose-Mirrors (src == a) (dst == b) (dst == a) (src == b) (link src dst bw lat nvlink)
            (link dst src bw lat nvlink) refl refl))

module _ {F : Type 0} ⦃fl : Float F⦄ where
  apart :
      (t : ClusterTopology F) (a b : String) (size : F)
      → (a == b) ≡ false
      → (b == a) ≡ false
      → (x y : Option (InterconnectLink F)) → get_link a b t.links ≡ x
      → get_link b a t.links ≡ y
      → Mirrors x y
      → transfer_cost_ms a b size t ≡ transfer_cost_ms b a size t
  unfolding transfer_cost_ms
  apart t a b size d d' none none e f h = rw (transfer_cost_ms, d, d') (rw (e, f) refl)
  apart t a b size d d' (some l) (some m) e f (bw, lat) =
      rw (transfer_cost_ms, d, d') (rw (e, f) (rw (bw, lat) refl))
  apart t a b size d d' none (some m) e f h = elim h [ ]
  apart t a b size d d' (some l) none e f h = elim h [ ]

  -- In a topology that `add_link` made from no links, with whatever repetitions, a transfer takes as
  -- long one way as the other.
  pub transfer_cost_ms_comm :
      (nodes : List (Node F)) {t : ClusterTopology F}
      → Linked nodes t
      → (a b : String) (size : F) → transfer_cost_ms a b size t ≡ transfer_cost_ms b a size t
  unfolding transfer_cost_ms
  transfer_cost_ms_comm nodes {t} k a b size = elim (Bool-cases (a == b)) [
    | inl e ↦
        ap (λ c. transfer_cost_ms c b size t) ((eq_iff a b).0 e)
        ∙ ap (λ c. transfer_cost_ms b c size t) (sym ((eq_iff a b).0 e))
    | inr e ↦
        apart t a b size e (sym (beq_comm a b) ∙ e) (get_link a b t.links) (get_link b a t.links)
          refl refl (Linked-Mirrors a b nodes k)
  ]
