-- ===== src/Samples/SimulatorRuns.antt =====
-- The failure injector, the tracer and the topologies at concrete inputs.
use dynamo_serve.Base.{
  ℕ, zero, suc, sym, ap, ◌∙◌, some_inj, ◌+◌, ◌*◌, not, if◌then◌else◌, string_eq, ◌≡◌, refl, Bool,
  true, false, String, List, [], ◌∷◌, length, map, none, some, take, get_elem?, All, arith, Elem,
}
use dynamo_serve.Base.Int.{ℤ, pos}
use dynamo_serve.Float.Fixed.{fixed_float}
use dynamo_serve.Models.Node.{h100_80gb}
use dynamo_serve.Models.Outcome.{RequestResult}
use Prim.Native.String as Text
use text.Mathlib.TextLemmas as TextLemmas
use dynamo_serve.Failure
use dynamo_serve.Failure.{
  FailureType, node_loss, slow_node, FailureEvent, nothing, saved_loss, Cluster, Injector,
  alive_nodes, step, recover, apply, recover_all, is_expired, find_node, contains,
}
use dynamo_serve.Failure.Recovery.{apply-recover}
use dynamo_serve.Failure.Deaths.{
  IsAccounted, start, added, stepped, Run-IsAccounted, recover_all-alive,
}
use dynamo_serve.Failure.Schedule.{step-fires_again}
use dynamo_serve.Tracer
use dynamo_serve.Tracer.{Tracer, kv_eviction, reset}
use dynamo_serve.Tracer.Counting.{
  Call, event_call, result_call, call_all, event_of, completed, total, rejects, lookups, hits,
  reset-refines,
}
use dynamo_serve.Topology.{
  ClusterTopology, add_link, transfer_cost_ms, make_single_node, make_blackwell_rack,
}
use dynamo_serve.Topology.Symmetry.{bare, add, transfer_cost_ms_comm}
use dynamo_serve.Topology.Mesh.{transfer_cost_ms-mesh}
use dynamo_serve.Samples.Data.{node_with, two_nodes}

abbrev seconds : ℕ → ℤ
seconds n = pos (n * 1_000_000)

abbrev random : ℕ → ℤ
random k = pos 500_000

abbrev choice : ℕ → ℕ
choice k = k

abbrev no_label : FailureType → ℕ → String
no_label t k = "failure"

-- The loss of the first node after 30 seconds, for 20 seconds.
abbrev loss : Bool → FailureEvent ℤ
loss active = record {
  failure_type = node_loss;
  target_node_id = some "a";
  trigger_time_s = some (seconds 30);
  trigger_prob = pos 0;
  duration_s = some (seconds 20);
  magnitude = seconds 1;
  auto_recover = true;
  label = "node_loss_t30";
  active = active;
  triggered_at = if active then some (seconds 30) else none;
  orig_state = if active then saved_loss (pos 0) 2 2 else nothing;
}

abbrev cluster : List String → Cluster ℤ
cluster dead = record { nodes = two_nodes; dead = dead; history = []; draws = 0 }

-- A node of unknown id makes the injector draw one.
abbrev slow : FailureEvent ℤ
slow = record (loss false) { failure_type = slow_node; target_node_id = some "c" }

other_alive : (b : String) → slow.target_node_id ≡ some b → contains b ("b" ∷ []) ≡ false
unfolding contains
other_alive b e = rw (sym (some_inj e)) refl

apply-recover_example :
    let (ev, c) = apply random choice (seconds 30) slow (cluster ("b" ∷ [])) in
    ((recover ev c).1.nodes ≡ two_nodes) × ((recover ev c).1.dead ≡ "b" ∷ [])
apply-recover_example =
    apply-recover random choice (seconds 30) slow (cluster ("b" ∷ [])) refl tt other_alive

-- The injector after the loss.
abbrev lost : Injector ℤ
lost =
    (step random choice (seconds 31) (Failure.add no_label (loss false) (Failure.init two_nodes))).0

none_dead : IsAccounted {F = ℤ} (Failure.init two_nodes)
unfolding Failure.init
none_dead = tt

Run-IsAccounted_example : IsAccounted lost
Run-IsAccounted_example =
    Run-IsAccounted random choice no_label
      (stepped (seconds 31) (added (loss false) (start (Failure.init two_nodes)))) none_dead

recover_all-alive_example :
    (alive_nodes (recover_all lost).cluster ≡ (recover_all lost).cluster.nodes)
    × All (λ ev. ev.active ≡ false) (recover_all lost).events
recover_all-alive_example =
    recover_all-alive random choice no_label two_nodes
      (stepped (seconds 31) (added (loss false) (start (Failure.init two_nodes))))

abbrev struck : Injector ℤ
struck = record { cluster = cluster ("a" ∷ []); events = loss true ∷ [] }

time_is_up : is_expired random choice (seconds 50) (loss true) ≡ true
unfolding is_expired
time_is_up = refl

first_found : find_node "a" two_nodes ≡ some (node_with "a" 2)
unfolding find_node
first_found = refl

step-fires_again_example :
    let (s', _) = step random choice (seconds 50) struck in
    let (s'', fired) = step random choice (seconds 51) s' in
    (get_elem? s'.events 0 ≡ some (record (loss true) { active = false }))
    × ((ev' : FailureEvent ℤ) × (get_elem? s''.events 0 ≡ some ev') × (ev'.active ≡ true))
    × Elem 0 fired
step-fires_again_example =
    step-fires_again random choice struck 0 (seconds 50) (seconds 51) (seconds 30) "a" refl
      time_is_up refl refl refl refl (node_with "a" 2, first_found)

abbrev done : Bool → RequestResult ℤ
done rejected = record {
  request_id = "r";
  success = not rejected;
  rejected = rejected;
  ttft_ms = pos 1;
  tpot_ms = pos 2;
  total_latency_ms = pos 3;
  queue_wait_ms = pos 0;
  prompt_tokens = 20;
  output_tokens = 12;
  gpu_node_id = some "a";
  kv_blocks_allocated = 2;
  kv_cache_hit = true;
  kv_spilled = false;
  cost_per_1m_tokens = pos 4;
}

-- Three calls of a tracer with room for two events.
abbrev calls : List (Call ℤ)
calls = event_call kv_eviction "r" none ∷ result_call (done false) ∷ result_call (done true) ∷ []

abbrev traced : Tracer ℤ
traced = call_all calls (reset (Tracer.init 2))

reset-refines_example :
    (traced.events ≡ take 2 (map event_of calls))
    × (traced.counters.requests_rejected ≡ total rejects calls)
    × (traced.counters.requests_completed ≡ length (completed calls))
    × (traced.counters.kv_cache_hits + traced.counters.kv_cache_misses ≡ total lookups calls)
    × (traced.counters.kv_cache_hits ≡ total hits calls)
    × (traced.latencies.ttft_ms ≡ map (λ r. r.ttft_ms) (completed calls))
    × (traced.latencies.tpot_ms ≡ map (λ r. r.tpot_ms) (completed calls))
    × (traced.latencies.total_ms ≡ map (λ r. r.total_latency_ms) (completed calls))
    × (traced.latencies.queue_wait_ms ≡ map (λ r. r.queue_wait_ms) (completed calls))
unfolding Tracer.init
reset-refines_example = reset-refines (Tracer.init 2) calls

abbrev pair : ClusterTopology ℤ
pair = add_link "a" "b" (seconds 25) (seconds 5) false (record { nodes = two_nodes; links = [] })

transfer_cost_ms_comm_example :
    transfer_cost_ms "a" "b" (seconds 1) pair ≡ transfer_cost_ms "b" "a" (seconds 1) pair
transfer_cost_ms_comm_example =
    transfer_cost_ms_comm two_nodes (add "a" "b" (seconds 25) (seconds 5) false bare) "a" "b"
      (seconds 1)

-- Strokes after the prefix, as many as the number says.
abbrev strokes : ℕ → String
strokes zero = ""
strokes (suc n) = Text.◌∷◌ "1" (strokes n)

abbrev stroke_name : String → ℕ → String
stroke_name prefix n = Text.◌++◌ prefix (strokes n)

count-strokes : (n : ℕ) → Text.count (strokes n) ≡ n
count-strokes zero = TextLemmas.length-nil
count-strokes (suc n) = TextLemmas.length-cons "1" (strokes n) ∙ ap suc (count-strokes n)

stroke_name-injective :
    (prefix : String) (i j : ℕ) → stroke_name prefix i ≡ stroke_name prefix j → i ≡ j
stroke_name-injective prefix i j e =
    sym (count-strokes i)
    ∙ (ap Text.count (TextLemmas.append_cancel_left prefix (strokes i) (strokes j) e)
        ∙ count-strokes j)

abbrev gpu : ℕ → String
gpu n = stroke_name "gpu_" n

abbrev b200 : ℕ → String
b200 n = stroke_name "b200_" n

transfer_cost_ms-mesh_example :
    (transfer_cost_ms (gpu 0) (gpu 1) (seconds 1) (make_single_node stroke_name h100_80gb 2)
      ≡ pos 13_334_000)
    × (transfer_cost_ms (b200 0) (b200 1) (seconds 1) (make_blackwell_rack stroke_name 2)
        ≡ pos 4_444_500)
    × (transfer_cost_ms (gpu 0) (gpu 0) (seconds 1) (make_single_node stroke_name h100_80gb 2)
        ≡ pos 0)
transfer_cost_ms-mesh_example =
    transfer_cost_ms-mesh stroke_name stroke_name-injective h100_80gb 2 0 1 (seconds 1)
      (omega arith) (omega arith) (omega arith)
