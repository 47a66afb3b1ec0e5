-- ===== src/Scheduler.antt =====
-- control_plane/scheduler: base_scheduler.py, and the three baselines round_robin.py,
-- least_loaded.py and memory_aware.py. The nodes are shared objects: a reference to one is its index
-- in the list of nodes, and a call takes the nodes as they stand and returns them as it leaves them.
pub mod Base
pub mod RoundRobin
pub mod Greedy
pub mod KvAware
pub mod Actor
pub mod Learned
