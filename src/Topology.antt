-- ===== src/Topology.antt =====
-- simulator/gpu_topology/topology.py: links, transfer times and the preset clusters. `name` is the text
-- that an f-string makes of a prefix and a number.
pub mod Symmetry
pub mod Mesh
use dynamo_serve.Base.{
  ℕ, ◌+◌, Bool, true, false, ◌&&◌, ◌||◌, not, if◌then◌else◌, eqb, String, List, [], ◌∷◌, ◌++◌, map,
  Option, none, some, ◌==◌, string_eq,
}
use dynamo_serve.Float.{Float}
use dynamo_serve.Moe.{range}
use dynamo_serve.Models.Node.{
  Node, GpuType, GpuSpec, make_gpu_node, h100_80gb, h100_nvl, b200_192gb, a100_80gb, a10_24gb,
}

pub record InterconnectLink (F : Type 0) : Type 0 where
  pub src : String
  pub dst : String
  pub bandwidth_gbps : F
  pub latency_us : F
  pub nvlink : Bool

pub record ClusterTopology (F : Type 0) : Type 0 where
  pub nodes : List (Node F)
  pub links : List (InterconnectLink F)

pub data TopologyType : Type 0 where
  single_node nvlink_rack heterogeneous blackwell_rack multi_rack : TopologyType

-- `[f"{prefix}{i}" for i in range(n)]`
abbrev names : (String → ℕ → String) → String → ℕ → List String
names name prefix n = map (name prefix) (range 0 n)

module _ {F : Type 0} where
  abbrev pub link : String → String → F → F → Bool → InterconnectLink F
  link src dst bw lat nvlink = record {
    src = src;
    dst = dst;
    bandwidth_gbps = bw;
    latency_us = lat;
    nvlink = nvlink;
  }

  -- `add_link`: the link and its reverse.
  unfoldable pub add_link : String → String → F → F → Bool → ClusterTopology F → ClusterTopology F
  add_link src dst bw lat nvlink t = record t {
    links = t.links ++ (link src dst bw lat nvlink ∷ link dst src bw lat nvlink ∷ []);
  }

  unfoldable pub get_link :
      String → String → List (InterconnectLink F) → Option (InterconnectLink F)
  get_link src dst [] = none
  get_link src dst (l ∷ ls) = if l.src == src && l.dst == dst then some l else get_link src dst ls

  abbrev pub is_some : Option (InterconnectLink F) → Bool
  is_some none = false
  is_some (some l) = true

  unfoldable pub node_ids : ClusterTopology F → List String
  node_ids t = map (λ n. n.node_id) t.nodes

  -- The loop over `j`, and the loops over `i` and `j`, of a full mesh between numbered nodes.
  unfoldable pub mesh_row : (ℕ → String) → F → F → ℕ → List ℕ → List (InterconnectLink F)
  mesh_row name bw lat i [] = []
  mesh_row name bw lat i (j ∷ js) =
      if eqb i j
      then mesh_row name bw lat i js
      else link (name i) (name j) bw lat true ∷ mesh_row name bw lat i js

  unfoldable pub mesh : (ℕ → String) → F → F → List ℕ → List ℕ → List (InterconnectLink F)
  unfolding mesh_row
  mesh name bw lat [] js = []
  mesh name bw lat (i ∷ is) js = mesh_row name bw lat i js ++ mesh name bw lat is js

  -- The loop over `dst` that links what no link joins yet, and the loop over `src`.
  unfoldable pub join_row :
      F → F → String → List String → List (InterconnectLink F) → List (InterconnectLink F)
  unfolding get_link
  join_row bw lat src [] links = links
  join_row bw lat src (dst ∷ dsts) links =
      let missing = not (src == dst) && not (is_some (get_link src dst links)) in
      join_row bw lat src dsts (if missing then links ++ link src dst bw lat false ∷ [] else links)

  unfoldable pub join :
      F → F → List String → List String → List (InterconnectLink F) → List (InterconnectLink F)
  unfolding join_row
  join bw lat [] dsts links = links
  join bw lat (src ∷ srcs) dsts links = join bw lat srcs dsts (join_row bw lat src dsts links)

  -- Between two racks, each link and its reverse.
  unfoldable pub cross_row : F → F → String → List String → List (InterconnectLink F)
  cross_row bw lat a [] = []
  cross_row bw lat a (b ∷ bs) =
      link a b bw lat false ∷ link b a bw lat false ∷ cross_row bw lat a bs

  unfoldable pub cross : F → F → List String → List String → List (InterconnectLink F)
  unfolding cross_row
  cross bw lat [] bs = []
  cross bw lat (a ∷ as') bs = cross_row bw lat a bs ++ cross bw lat as' bs

module _ {F : Type 0} ⦃fl : Float F⦄ where
  open fl use {of_nat, decimal, add, mul, div}

  -- `transfer_cost_ms`: without a link 25 Gbps and a latency of 5.0 are assumed.
  unfoldable pub transfer_cost_ms : String → String → F → ClusterTopology F → F
  unfolding get_link
  transfer_cost_ms src dst size_gb t =
      if src == dst then of_nat 0 else elim (get_link src dst t.links) [
        | none ↦ cost (of_nat 25) (of_nat 5)
        | some l ↦ cost l.bandwidth_gbps (div l.latency_us (of_nat 1000))
      ]
    where
      cost : F → F → F
      cost bw lat = add lat (mul (div (mul size_gb (of_nat 8)) bw) (of_nat 1000))

  abbrev new_node : Bool → GpuType → String → Node F
  new_node nvlink gpu_type node_id =
      make_gpu_node node_id gpu_type (λ s. record s { nvlink_enabled = nvlink })

  module _ (name : String → ℕ → String) where
    unfoldable pub make_single_node : GpuType → ℕ → ClusterTopology F
    unfolding mesh make_gpu_node
    make_single_node gpu_type n = record {
      nodes = map (new_node true gpu_type) (names name "gpu_" n);
      links = mesh (name "gpu_") (of_nat 600) (of_nat 1) (range 0 n) (range 0 n);
    }

    unfoldable pub make_nvlink_rack : ℕ → ClusterTopology F
    unfolding make_single_node
    make_nvlink_rack n = make_single_node h100_nvl n

    unfoldable pub make_blackwell_rack : ℕ → ClusterTopology F
    unfolding mesh make_gpu_node
    make_blackwell_rack n = record {
      nodes = map (new_node true b200_192gb) (names name "b200_" n);
      links = mesh (name "b200_") (of_nat 1800) (decimal 5 1) (range 0 n) (range 0 n);
    }

    unfoldable pub make_heterogeneous_cluster : ℕ → ℕ → ℕ → ClusterTopology F
    unfolding mesh join make_gpu_node
    make_heterogeneous_cluster n_h100 n_a100 n_a10 =
        let ids = names name "h100_" n_h100 ++ names name "a100_" n_a100 in
        record {
          nodes =
              map (new_node true h100_80gb) (names name "h100_" n_h100)
              ++ (map (new_node true a100_80gb) (names name "a100_" n_a100)
                  ++ map (new_node false a10_24gb) (names name "a10_" n_a10));
          links = join (of_nat 25) (of_nat 5) ids ids (
              mesh (name "h100_") (of_nat 600) (of_nat 1) (range 0 n_h100) (range 0 n_h100)
              ++ mesh (name "a100_") (of_nat 400) (decimal 15 1) (range 0 n_a100) (range 0 n_a100));
        }

    -- The prefixes stand for `rack0_h100_` and `rack1_h100_`; the inner mesh compares ids.
    unfoldable pub make_multi_rack : ℕ → ClusterTopology F
    unfolding mesh cross make_gpu_node
    make_multi_rack n =
        let rack0 = names name "rack0_h100_" n in
        let rack1 = names name "rack1_h100_" n in
        record {
          nodes = map (new_node true h100_nvl) (rack0 ++ rack1);
          links =
              mesh (name "rack0_h100_") (of_nat 900) (of_nat 1) (range 0 n) (range 0 n)
              ++ (mesh (name "rack1_h100_") (of_nat 900) (of_nat 1) (range 0 n) (range 0 n)
                  ++ cross (of_nat 50) (of_nat 10) rack0 rack1);
        }

    unfoldable pub make_topology : TopologyType → ClusterTopology F
    unfolding make_single_node make_nvlink_rack make_heterogeneous_cluster make_blackwell_rack
        make_multi_rack
    make_topology single_node = make_single_node h100_80gb 8
    make_topology nvlink_rack = make_nvlink_rack 8
    make_topology heterogeneous = make_heterogeneous_cluster 4 4 4
    make_topology blackwell_rack = make_blackwell_rack 8
    make_topology multi_rack = make_multi_rack 8
