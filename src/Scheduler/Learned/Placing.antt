-- ===== src/Scheduler/Learned/Placing.antt =====
-- Where RLScheduler places a request, whatever its networks have learned.
use dynamo_serve.Base.{
  ◌+◌, length, map, ℕ, zero, suc, ◌≡◌, refl, ap, ◌∙◌, sym, Bool, true, false, if◌then◌else◌, List,
  [], ◌∷◌, get_elem?, some, arith, All, some_inj, inl, inr, ◌⊎◌,
}
use dynamo_serve.Float.{Float, FloatLaws}
use dynamo_serve.Models.Node.{Node}
use dynamo_serve.Models.Request.{Request}
use dynamo_serve.Scheduler.Base.{SchedulingResult, fits, allocate_at}
use dynamo_serve.Scheduler.Base.Capacity.{WithinBlocks, allocate_at-WithinBlocks}
use dynamo_serve.Scheduler.Actor.{Networks, choose, probabilities}
use dynamo_serve.Scheduler.Actor.Masking.{SoftmaxLaws, IsModerate, probabilities-allowed}
use dynamo_serve.Scheduler.Learned.{
  Rollout, Learned, allowed, collect, learn, decline, assign, schedule,
}
use dynamo_serve.Scheduler.Learned.Experience.{Decides, declines, assigns, schedule-Decides}

length-map : {A B : Type 0} (f : A → B) (xs : List A) → length (map f xs) ≡ length xs
length-map f [] = refl
length-map f (x ∷ xs) = ap suc (length-map f xs)

module _ {F P O : Type 0} ⦃fl : Float F⦄ (nets : Networks F P O)
    (update_ppo : P → Rollout F O → P) where
  -- An allowed action below the number of nodes is the place of a node that can take the request.
  allowed-fits :
      (request : Request F) (ns : List (Node F)) (i : ℕ) {n : Node F}
      → get_elem? (allowed request ns) i ≡ some true
      → get_elem? ns i ≡ some n
      → fits request n ≡ true
  unfolding allowed
  allowed-fits request [] i a e = cc
  allowed-fits request (x ∷ xs) zero a e = ap (fits request) (sym (some_inj e)) ∙ some_inj a
  allowed-fits request (x ∷ xs) (suc i) a e = allowed-fits request xs i a e

  decline-nodes :
      (o : O) (mask : List Bool) (action : ℕ) (s : Learned F P O)
      → (decline nets update_ppo o mask action s).nodes ≡ s.nodes
  unfolding decline collect
  decline-nodes o mask action s = ground arith

  learn-nodes : (s : Learned F P O) → (learn nets update_ppo s).nodes ≡ s.nodes
  unfolding learn
  learn-nodes s = ground arith

  assign-nodes :
      (request : Request F) (o : O) (mask : List Bool) (action : ℕ) (s : Learned F P O)
      → (assign nets update_ppo request o mask action s).nodes ≡ allocate_at request action s.nodes
  unfolding assign collect
  assign-nodes request o mask action s =
      let charged : Learned F P O = record s { nodes = allocate_at request action s.nodes } in
      let grown = collect nets update_ppo o mask action (fl.of_nat 0) charged in
      either s.train (learn nets update_ppo grown) charged (learn-nodes grown) refl
    where
      either :
          (b : Bool) (x y : Learned F P O)
          → x.nodes ≡ allocate_at request action s.nodes
          → y.nodes ≡ allocate_at request action s.nodes
          → (if b then x else y).nodes ≡ allocate_at request action s.nodes
      either true x y p q = p
      either false x y p q = q

  -- The request is accepted on a node that can take it, which alone is charged; or it is refused, and
  -- the nodes stay as they are.
  abbrev pub Places : Request F → Learned F P O → Learned F P O × SchedulingResult F → Type 0
  Places request s r =
      ((i : ℕ) × (n : Node F) × (get_elem? s.nodes i ≡ some n)
        × (fits request n ≡ true)
        × (r.1.accepted ≡ true)
        × (r.1.node_id ≡ some n.node_id)
        × (r.0.nodes ≡ allocate_at request i s.nodes))
      ⊎ ((r.1.accepted ≡ false) × (r.0.nodes ≡ s.nodes))

  Decides-Places :
      (draw : ℕ) (request : Request F) (s : Learned F P O) {r : Learned F P O × SchedulingResult F}
      → Decides nets update_ppo draw request s r
      → get_elem? (allowed request s.nodes) (
          choose nets s.policy
            (nets.observe request s.nodes)
            (allowed request s.nodes)
            s.train
            draw)
        ≡ some true
      → Places request s r
  Decides-Places draw request s declines sound = inr (refl, decline-nodes _ _ _ s)
  Decides-Places draw request s (assigns n here) sound = inl (
    _,
    n,
    here,
    allowed-fits request s.nodes _ sound here,
    refl,
    refl,
    assign-nodes request _ _ _ s,
  )

  -- Under the laws of comparison and of the softmax, where the actor has an output of moderate size
  -- for each node and for the refusal, the action chosen has a positive probability, and no node has
  -- more KV blocks in use than it has: a decision of the learning scheduler places the request on a
  -- node that can take it and charges that node and no other, or refuses it and changes no node; and
  -- no node gets more KV blocks than it has.
  pub schedule-Places :
      FloatLaws F
      → SoftmaxLaws nets
      → (draw : ℕ) (request : Request F) (s : Learned F P O) (p : F)
      → length (nets.forward s.policy (nets.observe request s.nodes)) ≡ length s.nodes + 1
      → All IsModerate (nets.forward s.policy (nets.observe request s.nodes))
      → get_elem?
          (probabilities nets s.policy (nets.observe request s.nodes) (allowed request s.nodes))
          (choose nets s.policy
            (nets.observe request s.nodes)
            (allowed request s.nodes)
            s.train
            draw)
        ≡ some p
      → fl.lt (fl.of_nat 0) p ≡ true
      → All WithinBlocks s.nodes
      → Places request s (schedule nets update_ppo draw request s)
        × All WithinBlocks (schedule nets update_ppo draw request s).0.nodes
  unfolding allowed
  schedule-Places laws soft draw request s p size moderate here positive w =
      let sound =
        probabilities-allowed laws nets soft s.policy _ (map (fits request) s.nodes) _
          (size ∙ ap (λ n. n + 1) (sym (length-map (fits request) s.nodes))) moderate here
          positive in
      let places =
        Decides-Places draw request s (schedule-Decides nets update_ppo draw request s) sound in
      (
        places,
        elim places [
          | inl (i, n, at, able, _, _, charged) ↦
              rw charged (allocate_at-WithinBlocks request s.nodes i n at able w)
          | inr (_, same) ↦ rw same w
        ],
      )
