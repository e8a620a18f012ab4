-- ===== src/Bench/Worker.antt =====
-- benchs/outback/client_numa.cc, `numa_client_worker`: which keys the worker asks for, and what it
-- counts. The latencies' sum, a floating-point number, is left out.
pub mod Counts
pub mod Rounds
use outback_cxl_numa.Base.{
  ℕ, zero, suc, ◌+◌, ◌*◌, ◌/◌, ◌%◌, ◌^◌, Bool, true, false, List, [], ◌∷◌, add64, leb, ◌==◌,
  if◌then◌else◌, update, min, max,
}
use outback_cxl_numa.Registry.{Registry, max_numa_lanes}

-- `kLatencyHistBinNs` and `kLatencyHistBins`: bins of 100 ns up to 10 ms, and one for the rest
abbrev pub bin_ns : ℕ
bin_ns = 100

abbrev pub hist_bins : ℕ
hist_bins = 100_001

-- The vectors' contents and their sizes.
pub record Workload : Type 0 where
  pub bench_keys : ℕ → ℕ
  pub bench_size : ℕ
  pub nonexist_keys : ℕ → ℕ
  pub nonexist_size : ℕ
  -- one of the YCSB workloads, whose new keys come from the generator
  pub ycsb : Bool

-- One round of the loop: how the random number compares with the three sums of ratios, the key that
-- the generator gives, and how long the operation takes.
pub record Draw : Type 0 where
  pub reads : Bool
  pub inserts : Bool
  pub updates : Bool
  pub next_sequence_key : ℕ
  pub duration_ns : ℕ

pub data Operation : Type 0 where
  numa_search : ℕ → Operation
  numa_put : ℕ → Operation
  numa_update : ℕ → Operation
  numa_remove : ℕ → Operation

pub record WorkerState : Type 0 where
  pub query_i : ℕ
  pub insert_i : ℕ
  pub update_i : ℕ
  pub remove_i : ℕ
  pub throughput : ℕ
  pub latency_hist : ℕ → ℕ

-- `i++; if (i == size) i = 0`
unfoldable pub next_index : ℕ → ℕ → ℕ
next_index i size = if add64 i 1 == size then 0 else add64 i 1

unfoldable pub lat_bucket : ℕ → ℕ
lat_bucket duration_ns =
    if leb hist_bins (duration_ns / bin_ns) then 100_000 else duration_ns / bin_ns

unfoldable pub count_operation : ℕ → WorkerState → WorkerState
unfolding lat_bucket
count_operation duration_ns w = record w {
  throughput = add64 w.throughput 1;
  latency_hist =
      update w.latency_hist (lat_bucket duration_ns)
        (add64 (w.latency_hist (lat_bucket duration_ns)) 1);
}

-- The operation of a round, and the state with the index moved.
unfoldable pub choose : Workload → Draw → WorkerState → Operation × WorkerState
unfolding next_index
choose l d w =
    if d.reads
    then (
      numa_search (l.bench_keys w.query_i),
      record w { query_i = next_index w.query_i l.bench_size },
    )
    else if d.inserts
    then (
      numa_put (if l.ycsb then d.next_sequence_key else l.nonexist_keys w.insert_i),
      record w { insert_i = next_index w.insert_i l.nonexist_size },
    )
    else if d.updates
    then (
      numa_update (l.bench_keys w.update_i),
      record w { update_i = next_index w.update_i l.bench_size },
    )
    else (
      numa_remove (l.bench_keys w.remove_i),
      record w { remove_i = next_index w.remove_i l.bench_size },
    )

unfoldable pub worker_round : Workload → Draw → WorkerState → Operation × WorkerState
unfolding choose count_operation
worker_round l d w = let (op, w') = choose l d w in (op, count_operation d.duration_ns w')

-- The operations of the rounds, in order, and the state after them.
unfoldable pub worker_rounds : Workload → List Draw → WorkerState → List Operation × WorkerState
unfolding worker_round
worker_rounds l [] w = ([], w)
worker_rounds l (d ∷ ds) w =
    let (op, w') = worker_round l d w in let (ops, w'') = worker_rounds l ds w' in (op ∷ ops, w'')

abbrev pub fresh_worker : WorkerState
fresh_worker = record {
  query_i = 0;
  insert_i = 0;
  update_i = 0;
  remove_i = 0;
  throughput = 0;
  latency_hist = λ b. 0;
}

-- The lane of a worker, by the registry's lanes if it is mapped and tells them.
unfoldable pub worker_lane : Bool → Registry → ℕ → ℕ → ℕ → ℕ
worker_lane mapped reg mem_threads start_threads thread_id =
    (start_threads + thread_id)
    % 2 ^ 32
    % (if mapped
        then if reg.mem_threads == 0 then max 1 mem_threads else min reg.mem_threads max_numa_lanes
        else max 1 mem_threads)
