-- ===== src/Lib.antt =====
-- DYNAMO-SERVE: a control plane for serving language models on a cluster of GPUs. A request is
-- admitted, queued or rejected, placed on a node, given KV cache blocks there, and released when it
-- completes.
--
-- The parts, and the files of the repository that they model:
--   Models      core/models.py: GPU nodes, KV blocks and their statistics, requests, results, jobs
--   Cache       control_plane/kv_cache_manager/: the eviction policies (Cache.Policy), the state and
--               construction of KVCacheManager (Cache.Manager), _maybe_evict and force_evict
--               (Cache.Eviction), allocate and free (Cache.Allocation); Cache.Heap and
--               Cache.Invariant hold what is true of a manager at all times
--   Sla         control_plane/sla_policy/sla_policy.py
--   Admission   control_plane/admission_controller/admission_controller.py
--   Placement   control_plane/placement_engine/placement_engine.py
--   Scheduler   control_plane/scheduler/: the interface (Scheduler.Base), round_robin.py
--               (Scheduler.RoundRobin), least_loaded.py and memory_aware.py (Scheduler.Greedy),
--               kv_aware_scheduler.py (Scheduler.KvAware), which calls Admission, Placement and
--               Cache, and rl_scheduler/rl_scheduler.py (Scheduler.Learned), with the mask, the
--               softmax and the choice of its action (Scheduler.Actor)
--   Batching    ml/batch_optimizer/batch_optimizer.py: form_batches, the sweep of analyze_tradeoff
--               and the fit of the time per token
--   Moe         control_plane/moe_routing/moe_router.py
--   Replay      simulator/cache_eviction/cache_sim.py, over the policies of Cache.Policy
--   Failure     simulator/failure_injection/failure_injector.py: the events and the injector's state
--               (Failure.State), what a failure does and a recovery undoes (Failure.Effects), its
--               steps and scenarios
--   Workload    simulator/workload_replay/: workload_generator.py and sharegpt_loader.py
--               (Workload.Sharegpt)
--   Topology    simulator/gpu_topology/topology.py
--   Contention  simulator/contention_model/contention.py
--   Runtime     data_plane/mock_gpu_runtime/gpu_runtime.py
--   Tracer      data_plane/tracing_hooks/tracer.py
--   Harness     benchmarks/harness.py: run replays requests through a scheduler, Cache, Runtime,
--               Contention, Sla and Tracer, and compiles SchedulerMetrics of core/models.py
--               (Harness.Metrics). What it asks of the scheduler and of the KV cache manager is
--               an interface with laws (Harness.World), which Harness.RoundRobin fills
--   Base        lists, dictionaries, sorting, integers and tests that the parts share
--   Float       Python's floats as an interface; Float.Fixed is a value of it
--   Samples     the theorems at concrete inputs
--
-- Conventions. An object that the code mutates is a record, and a method takes it and returns the
-- new one; a method that can raise returns an option. KVBlock objects, which several lists share,
-- live on a heap at the index that is their block id, and the lists hold ids. Floats are a
-- parameter with their operations; laws of comparison, of signs and of the softmax are hypotheses
-- where a theorem needs them, and fixed-point numbers satisfy them. Clock readings are a stream of
-- values, of which the state counts those taken; readings that are only logged are left out. The
-- answers of random.random(), of the latency predictor and of the spill model are parameters, and
-- so are the other random generators, numpy's means, percentiles and sums, powers, logarithms and
-- remainders of floats, hashes and the texts that f-strings make of numbers. Integers of Python
-- have no bounds, as the numbers here. The node ids of a cluster are distinct where the code keys a
-- dictionary by them and then goes by the places of the list, as the learning scheduler does.
--
-- A division by a float that is zero raises in Python. In the harness the model raises too, by an
-- option: where a node without compute or bandwidth executes a request, and where a node without
-- memory is in a snapshot. Elsewhere such a division is left to the interface; where the divisor is
-- zero for want of nodes, blocks, experts or requests, the model says what happens.
--
-- Loops. A loop over a list is recursion on the list. The loop of _maybe_evict runs on the blocks
-- that are still missing, which each round lowers by one, and the simulator's likewise; the search
-- of the round-robin scheduler runs on the rounds of range(len(nodes)). None needs fuel. The loop of
-- WorkloadGenerator.generate ends when the random arrivals have used up the duration: the model
-- takes the rounds that it may make, of which one more than there are requests is enough, since each
-- round but the last makes a request.
--
-- Not modelled: logging, string forms, reports and statistics dictionaries, files, the SHA-256 hashes,
-- the regressors of ml/, the numpy networks of the learning scheduler with their gradient steps, the
-- vLLM back end, which only calls that package, run_benchmarks.py and the dashboard.
pub mod Base
pub mod Failure
pub mod Float
pub mod Models
pub mod Cache
pub mod Sla
pub mod Admission
pub mod Placement
pub mod Scheduler
pub mod Batching
pub mod Moe
pub mod Replay
pub mod Tracer
pub mod Contention
pub mod Runtime
pub mod Harness
pub mod Workload
pub mod Topology
pub mod Samples
