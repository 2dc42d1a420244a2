-- ===== src/Lib.antt =====
-- CommunityAI serves large models from volunteers' machines: a node runs worker processes that
-- hold contiguous blocks of a model, clients route inference sessions through them, and a planner
-- decides which blocks a node should serve. This library models the parts that keep state and make
-- decisions.
--
-- Admission (src/drift/server/admission.py) is the quota that all handlers of a public worker
-- share: `Policy` is `AdmissionPolicy`, `State` the manager's dictionary, `Quota` `acquire`, the
-- lease and pruning, `Routes` the session routes and the push queue. Each call has an argument for
-- what its clock and its lock did: the wait for the lock may fail in each call, and letting it go
-- may raise in `acquire` and `release`. `Steps` runs sequences of calls.
--
-- PagedPool (src/drift/server/memory_cache.py, class `PagedKVPool`) holds attention caches in
-- pages: the free list, the block tables and the cells; `scatter` in PagedPool.antt, `reorder` in
-- PagedPool/Reorder.antt, where `hypo_ids` are integers of either sign, as Python's lists are read
-- by both. A call that raises keeps what it had changed by then, as in the source.
--
-- Supervisor (src/drift/node/worker_supervisor.py) runs the workers: `Launch` is the validation of
-- `WorkerLaunch`, `State` the records, the schedule and the budgets, `Spawn` the functions under
-- the lock, `Monitor` one round of `_monitor_loop`, `Control` start, pause, restart, replacement
-- and reconfiguration. What the operating system, the schedule and the telemetry answer is a
-- `World`.
--
-- RouteMetrics (src/drift/node/route_metrics.py) reduces outcomes of routes to coarse
-- observations: `Observation` validates one, `Tracker` is `RouteOutcomeTracker`, `Aggregate` the
-- median over signers.
--
-- Placement (src/drift/node/contribution_planner.py) chooses a model and its blocks: `Window` is
-- the deque search in `_evaluate`, `Planner` the rest of `_evaluate`, `Propose` the methods
-- `propose`, `commit` and `plan`. It validates observations with `RouteMetrics.Observation`; its
-- decisions are what the supervisor's launches are replaced by.
--
-- MemoryCache (src/drift/server/memory_cache.py, class `MemoryCache`) counts the bytes of
-- attention caches over handler processes: a call of `allocate_cache` is a task with a phase, and
-- `step` runs one task up to its next point of interleaving. A timeout while a task waits for the
-- lock may leave the lock taken for good, as the source warns. The counters are `ctypes.c_int64`
-- in the source and numbers below 2 ** 64 here, whose sums and differences wrap; a handle is named
-- by the number of handles before it. RejectionLog (src/drift/server/rejection_logging.py) is the
-- filter over the log of rejections that Admission raises.
--
-- Routing is the client's view of the swarm: `Spans` has `compute_spans` (src/drift/utils/dht.py)
-- and src/drift/client/routing/sequence_info.py, `Throughput` and `Latency` the two searches and
-- `Update` the screening of servers in src/drift/client/routing/sequence_manager.py, about which
-- Routing/Screening.antt is. `dijkstar.find_path` and the random choices are parameters. `Latency`
-- takes the range of blocks to lie within the model. Sequential
-- (src/drift/client/sequential_autograd.py) runs forward and backward passes over such routes;
-- each attempt is a tick, and what the swarm does at a tick is a parameter.
--
-- ModelManager (src/drift/node/model_manager.py) shares the loaded models of a node between
-- requests: `Residency` has the records and the choice of an eviction, `Step` the calls `load`,
-- `unload` and `shutdown` as threads that take turns at each lock, loader and close.
--
-- Floats are a parameter, `Float` in Prelude/Floats.antt, with the facts of IEEE 754 comparison
-- that the proofs use as `Ordered`; whole numbers are an instance in which they hold. Python's
-- integers are unbounded, and those of the model are natural numbers, but for the counters above:
-- where the source subtracts, the result is not negative or the test that ensures it is in the
-- model. Strings are named by numbers. Loops are recursion on their list or count, but for the
-- search by throughput, which has a step for each block, and the attempts of `sequential_forward`
-- and `sequential_backward`, whose number is an argument: `max_retries` for each block.
--
-- Not modelled: tensors and their conversion between devices and types, prompts, networking,
-- threads other than the interleaving of whole locked calls, file formats, the message texts of
-- errors, other threads during the termination in a pause, the telemetry monitors and the shutdown
-- of the supervisor, the paged mode of `MemoryCache`, the client's sessions, the catalogs and the
-- models themselves.
mod Prelude
pub mod Admission
pub mod PagedPool
pub mod Supervisor
pub mod RouteMetrics
pub mod Placement
pub mod MemoryCache
pub mod RejectionLog
pub mod Routing
pub mod Sequential
pub mod ModelManager
