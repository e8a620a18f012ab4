-- ===== src/Tests/Benches.antt =====
-- Messages, buffers and names, the leaves' index, memory handles and the benchmark's worker on small
-- inputs.
use outback_cxl_numa.Bench.Percentile.{in_bin, percentile_from_rank, merged_hist}
use outback_cxl_numa.Bench.Percentile.Least.{sum_threads, percentile_least}
use outback_cxl_numa.Base.{
  update, ◌<◌, ◌≤◌, List, ℕ, ◌+◌, ◌*◌, ◌-◌, ◌^◌, ◌≤◌, ◌<◌, ◌≡◌, arith, true, false, some, [], ◌∷◌,
  ◌++◌, ok, exited, mul64, Returns,
}
use outback_cxl_numa.Rdma.Messages.{remove_message, receive_remove, messages_deliver}
use outback_cxl_numa.Marshal.{serialize, deserialize}
use outback_cxl_numa.Marshal.RoundTrip.{serialize_roundtrip}
use outback_cxl_numa.Registry.ShmNames.{
  codes, to_string, numa_region_name, numa_region_name_distinct,
}
use outback_cxl_numa.Rolex.Search.{binary_search_branchless}
use outback_cxl_numa.Rolex.Search.Bound.{Below, Above, binary_search_branchless-lower_bound}
use outback_cxl_numa.Rolex.LeafAllocator.{
  create_with, invalid_key, leaf_bytes, get_leaf, fetch_and_add,
}
use outback_cxl_numa.Rolex.LeafAllocator.Leaves.{create_with_one_leaf}
use outback_cxl_numa.NumaMemory.{NumaMemHandle, write}
use outback_cxl_numa.NumaMemory.Handle.{IsStored, write_reads}
use outback_cxl_numa.Bench.Worker.{hist_bins, Workload, Draw, worker_rounds, fresh_worker}
use outback_cxl_numa.Bench.Worker.Counts.{HasKeys, sum_bins, sum_bins-update, sum_bins_zero}
use outback_cxl_numa.Bench.Worker.Rounds.{worker_counts}
use outback_cxl_numa.Tests.{test_ludo, test_cache}
use outback_cxl_numa.Tests.Indexes.{occupied_server}

messages_deliver_example :
    receive_remove test_ludo test_cache occupied_server (remove_message 5) ≡ exited
messages_deliver_example =
    (messages_deliver 7 5 50 test_ludo test_cache occupied_server (omega arith) (omega arith)
      (omega arith)).3

serialize_roundtrip_example : deserialize (serialize 300 ++ (1 ∷ [])) ≡ ok 300
serialize_roundtrip_example = (serialize_roundtrip 300 (1 ∷ []) (omega arith)).0

numa_region_name_distinct_example :
    numa_region_name (b'x' ∷ (codes "_v" ++ to_string 7)) 0 ≡ numa_region_name (b'x' ∷ []) 7
numa_region_name_distinct_example = (numa_region_name_distinct (b'x' ∷ [])).2 7 (omega arith)

-- Ten even numbers.
abbrev evens : ℕ → ℕ
evens i = 2 * i

binary_search_branchless-lower_bound_example :
    (r : ℕ) × (binary_search_branchless evens 10 7 ≡ some r)
    × (r ≤ 10)
    × Below evens 10 7 r
    × Above evens 10 7 r
binary_search_branchless-lower_bound_example =
    binary_search_branchless-lower_bound evens 10 7 (omega arith) (omega arith)
      (λ i j le lt. omega arith)

create_with_one_leaf_example : Returns (create_with (λ i. 0) 4096 3) λ a.
    ((i : ℕ) → i < 4 → a.pool i ≡ invalid_key)
    × ((i : ℕ) → 4 ≤ i → a.pool i ≡ 0)
    × ((num : ℕ) → num < 2 ^ 64 → get_leaf a num ≡ ok (mul64 num leaf_bytes))
    × (fetch_and_add a ≡ exited)
create_with_one_leaf_example = create_with_one_leaf (λ i. 0) 4096 2 (omega arith) (omega arith)

abbrev small_handle : NumaMemHandle
small_handle = record { base_addr = 4096; size = 64 }

abbrev eight_bytes : List ℕ
eight_bytes = 7 ∷ (7 ∷ (7 ∷ (7 ∷ (7 ∷ (7 ∷ (7 ∷ (7 ∷ [])))))))

write_reads_example :
    (m : ℕ → ℕ) × (write small_handle (λ i. 0) (2 ^ 64 - 8) eight_bytes ≡ some m)
    × IsStored (λ i. 0) 4088 eight_bytes m
write_reads_example =
    (write_reads small_handle (λ i. 0) (2 ^ 64 - 8) eight_bytes (omega arith)).1 (omega arith)
      (omega arith) (omega arith) (omega arith) (omega arith)

abbrev two_keys : Workload
two_keys = record {
  bench_keys = λ i. i + 10;
  bench_size = 2;
  nonexist_keys = λ i. i + 20;
  nonexist_size = 2;
  ycsb = false;
}

two-HasKeys : HasKeys two_keys
two-HasKeys = record {
  some_bench = omega arith;
  some_nonexist = omega arith;
  bench_small = omega arith;
  nonexist_small = omega arith;
}

abbrev a_search : Draw
a_search = record {
  reads = true;
  inserts = false;
  updates = false;
  next_sequence_key = 0;
  duration_ns = 250;
}

worker_counts_example :
    (worker_rounds two_keys (a_search ∷ (a_search ∷ (a_search ∷ []))) fresh_worker).1.throughput ≡ 3
worker_counts_example =
    (worker_counts two_keys two-HasKeys (a_search ∷ (a_search ∷ (a_search ∷ []))) (omega arith)).1

-- One thread, with two operations in bin 3.
abbrev two_in_bin : ℕ → ℕ
two_in_bin = update (λ b. 0) 3 2

two_samples : sum_threads (two_in_bin ∷ []) ≡ 2
unfolding sum_threads
two_samples =
    omega (arith, sum_bins-update hist_bins 3 2 (λ b. 0) (omega arith), sum_bins_zero hist_bins)

percentile_least_example :
    (b : ℕ) × (percentile_from_rank (merged_hist (two_in_bin ∷ [])) 2 ≡ in_bin b)
    × (b < hist_bins)
    × (sum_bins b (merged_hist (two_in_bin ∷ [])) < 2)
    × (2 ≤ sum_bins (b + 1) (merged_hist (two_in_bin ∷ [])))
percentile_least_example =
    (percentile_least (two_in_bin ∷ []) 2 (omega (arith, two_samples))).2
      (λ e. omega (arith, e, two_samples)) (omega (arith, two_samples))
