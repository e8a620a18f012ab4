-- ===== src/Lib.antt =====
-- A verification library for the core of Outback, a key-value store in disaggregated or far memory:
-- the NUMA (shared memory) variant of its server and client, the online resize between them, the RDMA
-- variant of the handlers, two structures that it is compared with, and the benchmark around them.
--
-- The program. A Ludo hash table (outback/ludo_slot.hh) has rows of four 64-bit slot words; each word
-- names an entry of the packed array (outback/packed_data.hh) that holds key and value. The server
-- (outback/outback_server_numa.hh) and, through shared memory, the clients
-- (outback/outback_client_numa.hh) work on both. A registry in shared memory
-- (xcomm/src/transport/numa_transport.hh) describes the current region by versioned epochs. A monitor
-- thread (outback/outback_resize.hh) replaces the region by one of twice the size, while the handlers
-- put mutations into queues that are replayed afterwards; clients see the new version by its
-- generation and map the new region. The server program (benchs/outback/server_numa.cc) loads the keys
-- of a data file (benchs/load_data.hh), publishes the first epoch and starts the monitor; the client
-- program (benchs/outback/client_numa.cc) runs worker threads and reports percentiles.
--
-- The modules.
--   Base      numbers, tests, lists, memory as a function, calls that may end the process
--   Ludo      what is used of the Ludo hashing library: a parameter, with its documented behaviour
--   Slot      outback/ludo_slot.hh: slot words and rows
--   Packed    outback/packed_data.hh: the entries
--   Registry  numa_transport.hh: registry, epochs, layout of a region, names, the byte lock, and the
--             clients' allocation lanes (alloc_remote_data_slot of outback_client_numa.hh);
--             ShmNames has the names of the shared-memory objects
--   Store     the invariant that ties slots to entries, and the writes that keep it
--   Deferred  the queues of outback_resize.hh
--   Server    outback_server_numa.hh: the handlers
--   Resize    outback_resize.hh: Copy is do_copy, Replay the replay helpers, Monitor a round of
--             check_state with its handlers, Round what a round can do, Cycle
--             monitor_loop; the other children prove
--   Setup     benchs/outback/server_numa.cc: setup_ludo_table, and in Lifecycle register_numa_server
--             and cleanup_numa_ipc; Lifetime runs monitor, clients and handlers in any order, with
--             the reading of the flag apart from the enqueueing, the emptying of the queues apart
--             from the change of state, and the claim of a slot apart from the count
--   Client    outback_client_numa.hh: version check, remap, connection; Ops has the data operations
--   Rdma      outback/outback_server.hh and outback/outback_client.hh: the RDMA variant, with the
--             search for a new seed of a row; Messages has the bytes of the requests,
--             OverRpc a whole remote put
--   Marshal   xutils/marshal.hh: 64-bit values as bytes
--   Rpc       xcomm/src/rpc: headers, operations, awaited replies, the receiving loop
--   Race      race/race_table.hh: the RACE hash table
--   Leaf      rolex/leaf.hpp: a leaf of the learned index
--   Rolex     rolex/rolex_util.hh, the branchless search, and rolex/leaf_allocator.hpp
--   NumaMemory  xutils/numa_memory.hh: the region, the bump allocator and the handle
--   Bench     benchs/load_data.hh: the keys; Worker and Percentile are numa_client_worker and the
--             report of run_benchmark in benchs/outback/client_numa.cc
--   Tests     small instances, and each property at a concrete input
--
-- Conventions. Code that changes state takes the state and returns the next one. A handler that runs
-- under the lock of its row is one step. A call that may end in exit(0) is a `Run`. Unsigned 64-bit
-- arithmetic wraps (Base.Word64). An array without a bounds check is a function of the index. What a
-- call asks of the system (clock, free memory, outcome of shm_open, ftruncate and mmap) is an
-- argument, and so are random numbers, readings of a stop flag, and what is computed with
-- floating-point numbers; Env lists the readings of the clock in the order in which one round makes
-- them. Loops over fixed tables, and over the 255 seeds, are recursion on the number of steps left,
-- which is the bound that the code has, so no further fuel is needed. The loop of the branchless
-- search has fuel 33, one more than its step has bits; monitor_loop runs as many rounds as it is given.
--
-- Not modelled. The vendored libraries under deps and the copied LRU cache (a parameter): what the
-- set-up relies on of Ludo hashing is the hypothesis Setup.Loaded.IsGenerated. Thread start and join,
-- logging, memory policies; memory orders of atomics, which are single steps here; the RPC transport.
-- The main functions and signal handlers, and the other benchmark drivers. rolex/rolex.hpp and its RPC
-- handlers, which use headers that the repository does not hold. The drtmr and mica indexes, which are
-- copies of other projects.
pub mod Base
pub mod Ludo
pub mod Slot
pub mod Packed
pub mod Registry
pub mod Store
pub mod Deferred
pub mod Server
pub mod Resize
pub mod Client
pub mod Rdma
pub mod Rpc
pub mod Race
pub mod Leaf
pub mod NumaMemory
pub mod Bench
pub mod Marshal
pub mod Rolex
pub mod Setup
pub mod Tests
