-- ===== src/Harness/World.antt =====
-- The calls that benchmarks/harness.py makes of the scheduler and of the KV cache manager, and what it
-- relies on: from a valid world none of them raises, and each leaves a valid world.
pub mod Ids
pub mod Turns
use dynamo_serve.Base.{
  ℕ, ◌≡◌, Bool, true, if◌then◌else◌, String, List, [], ◌∷◌, Option, none, some, ◌==◌, string_eq,
  All,
}
use dynamo_serve.Float.{Float}
use dynamo_serve.Models.Node.{Node}
use dynamo_serve.Runtime.{can_run, has_memory}
use dynamo_serve.Models.Request.{Request}
use dynamo_serve.Scheduler.Base.{SchedulingResult}

pub record Serving (F W : Type 0) : Type 0 where
  pub nodes : W → List (Node F)
  pub schedule : Request F → W → Option (W × SchedulingResult F)
  pub on_complete : Request F → String → W → Option W
  pub allocate : String → Request F → W → Option (W × List ℕ × Bool)
  -- `free(node_id, blocks, keep_prefix=True)`
  pub free : String → List ℕ → W → Option W

module _ {F : Type 0} where
  -- `self._node_map[node_id]`: the last node with the id.
  unfoldable pub find_node : String → List (Node F) → Option (Node F)
  find_node a [] = none
  find_node a (x ∷ xs) = elim (find_node a xs) [
    | some n ↦ some n
    | none ↦ if x.node_id == a then some x else none
  ]

module _ {F : Type 0} ⦃fl : Float F⦄ where
  -- The harness divides by no zero on the node.
  abbrev pub Divides : Node F → Type 0
  Divides n = (can_run n ≡ true) × (has_memory n ≡ true)

module _ {F W : Type 0} (ops : Serving F W) where
  -- The id is that of a node.
  abbrev pub Serves : W → String → Type 0
  Serves w node_id = (n : Node F) × (find_node node_id (ops.nodes w) ≡ some n)

  -- The call gives a valid world, in which the node still is.
  abbrev pub Answers : (W → Type 0) → String → Option W → Type 0
  Answers Valid node_id o = (w : W) × (o ≡ some w) × Valid w × Serves w node_id

pub record ServingLaws {F W : Type 0} ⦃fl : Float F⦄ (ops : Serving F W) (Valid : W → Type 0)
    : Type 0 where
  pub divides : (w : W) → Valid w → All Divides (ops.nodes w)
  pub schedules :
      (request : Request F) (w : W)
      → Valid w
      → (w' : W) × (r : SchedulingResult F) × (ops.schedule request w ≡ some (w', r))
        × Valid w'
        × (r.accepted ≡ true
            → (node_id : String) × (r.node_id ≡ some node_id) × Serves ops w' node_id)
  pub allocates :
      (request : Request F) (node_id : String) (w : W)
      → Valid w
      → Serves ops w node_id
      → (w' : W) × (blocks : List ℕ) × (hit : Bool) × (ops.allocate node_id request w
          ≡ some (w', blocks, hit))
        × Valid w'
        × Serves ops w' node_id
  pub frees :
      (node_id : String) (blocks : List ℕ) (w : W)
      → Valid w
      → Serves ops w node_id
      → Answers ops Valid node_id (ops.free node_id blocks w)
  pub completes :
      (request : Request F) (node_id : String) (w : W)
      → Valid w
      → Serves ops w node_id
      → Answers ops Valid node_id (ops.on_complete request node_id w)
