-- ===== src/Failure/State.antt =====
-- simulator/failure_injection/failure_injector.py: failures, the nodes that they hit and the injector.
-- The dictionary of nodes is keyed by `node_id`, so that it is the list of its nodes; a set is a list
-- without duplicates. An event is known by its place in the list of events.
use dynamo_serve.Base.{
  ℕ, ◌%◌, Bool, true, false, not, if◌then◌else◌, String, List, [], ◌∷◌, ◌++◌, length, get_elem?,
  Option, none, some, select, ◌==◌, string_eq,
}
use dynamo_serve.Models.Node.{Node}

pub data FailureType : Type 0 where
  node_loss memory_spike nvlink_degrade slow_node network_slowdown : FailureType

-- `_orig_state`: the attributes that a failure changes, with their values before.
pub data Saved (F : Type 0) : Type 0 where
  nothing : Saved F
  saved_loss : F → ℕ → ℕ → Saved F
  saved_spike : F → ℕ → Saved F
  saved_link : Bool → F → Saved F
  saved_speed : F → F → Saved F

pub record FailureEvent (F : Type 0) : Type 0 where
  pub failure_type : FailureType
  pub target_node_id : Option String
  pub trigger_time_s : Option F
  pub trigger_prob : F
  pub duration_s : Option F
  pub magnitude : F
  pub auto_recover : Bool
  pub label : String
  pub active : Bool
  pub triggered_at : Option F
  pub orig_state : Saved F

pub data Action (F : Type 0) : Type 0 where
  triggered : F → Action F
  recovered : Action F

-- An entry of the history.
pub record Entry (F : Type 0) : Type 0 where
  pub event : String
  pub kind : FailureType
  pub node : String
  pub action : Action F

-- What the events share.
pub record Cluster (F : Type 0) : Type 0 where
  pub nodes : List (Node F)
  pub dead : List String
  pub history : List (Entry F)
  pub draws : ℕ

pub record Injector (F : Type 0) : Type 0 where
  pub cluster : Cluster F
  pub events : List (FailureEvent F)

unfoldable pub contains : String → List String → Bool
contains a [] = false
contains a (x ∷ xs) = if x == a then true else contains a xs

-- `self._dead.add(a)` and `self._dead.discard(a)`
unfoldable pub add_dead : String → List String → List String
unfolding contains
add_dead a xs = if contains a xs then xs else a ∷ xs

unfoldable pub discard : String → List String → List String
discard a xs = select (λ x. not (x == a)) xs

abbrev pub mark_dead : FailureType → String → List String → List String
mark_dead node_loss a dead = add_dead a dead
mark_dead _ a dead = dead

abbrev pub unmark_dead : FailureType → String → List String → List String
unmark_dead node_loss a dead = discard a dead
unmark_dead _ a dead = dead

module _ {F : Type 0} where
  -- `{n.node_id: n for n in nodes}`
  unfoldable pub put_node : Node F → List (Node F) → List (Node F)
  put_node n [] = n ∷ []
  put_node n (x ∷ xs) = if x.node_id == n.node_id then n ∷ xs else x ∷ put_node n xs

  unfoldable pub node_dict : List (Node F) → List (Node F) → List (Node F)
  unfolding put_node
  node_dict [] d = d
  node_dict (n ∷ ns) d = node_dict ns (put_node n d)

  -- `self._nodes.get(node_id)`
  unfoldable pub find_node : String → List (Node F) → Option (Node F)
  find_node a [] = none
  find_node a (x ∷ xs) = if x.node_id == a then some x else find_node a xs

  -- A change of the attributes of the node that is found.
  unfoldable pub change_node : String → (Node F → Node F) → List (Node F) → List (Node F)
  change_node a f [] = []
  change_node a f (x ∷ xs) = if x.node_id == a then f x ∷ xs else x ∷ change_node a f xs

  -- The target of an event, if it is given and known. An empty text counts as none.
  unfoldable pub known_target : List (Node F) → Option String → Option String
  unfolding find_node
  known_target nodes none = none
  known_target nodes (some a) =
      if a == "" then none else elim (find_node a nodes) [ none ↦ none | some n ↦ some a ]

  -- `self._rng.choice(nodes).node_id`, with the place that is drawn.
  unfoldable pub draw : ℕ → List (Node F) → Option String
  draw place nodes = elim (get_elem? nodes (place % length nodes)) [
    | none ↦ none
    | some n ↦ some n.node_id
  ]

  unfoldable pub alive_nodes : Cluster F → List (Node F)
  unfolding contains
  alive_nodes c = select (λ n. not (contains n.node_id c.dead)) c.nodes

  unfoldable pub is_alive : String → Cluster F → Bool
  unfolding contains
  is_alive a c = not (contains a c.dead)

  unfoldable pub init : List (Node F) → Injector F
  unfolding node_dict
  init nodes = record {
    cluster = record { nodes = node_dict nodes []; dead = []; history = []; draws = 0 };
    events = [];
  }

  -- `default_label` is the label made from the type and the count of events.
  unfoldable pub add : (FailureType → ℕ → String) → FailureEvent F → Injector F → Injector F
  add default_label ev s =
      let named =
        if ev.label == ""
        then record ev { label = default_label ev.failure_type (length s.events) }
        else ev in
      record s { events = s.events ++ named ∷ [] }
