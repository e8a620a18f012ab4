-- ===== src/Bench/Worker/Counts.antt =====
-- benchs/outback/client_numa.cc, `numa_client_worker`: indices, the histogram and the count.
use native.Mathlib.Nat.{mod-eq_of_lt, mod_self}
use outback_cxl_numa.Base.{
  ℕ, zero, suc, ◌+◌, ◌%◌, ◌^◌, ◌≤◌, ◌<◌, ◌≡◌, add64, if_cases, update, refl, arith, ℕ_discrete,
}
use outback_cxl_numa.Bench.Worker.{
  Workload, Draw, Operation, WorkerState, hist_bins, next_index, lat_bucket, count_operation,
  choose, worker_round,
}

-- The sum of the first `n` bins.
unfoldable pub sum_bins : ℕ → (ℕ → ℕ) → ℕ
sum_bins zero hist = 0
sum_bins (suc n) hist = sum_bins n hist + hist n

sum_bins-out : (n i v : ℕ) (hist : ℕ → ℕ) → n ≤ i → sum_bins n (update hist i v) ≡ sum_bins n hist
unfolding sum_bins
sum_bins-out zero i v hist h = refl
sum_bins-out (suc n) i v hist h = ground (arith, sum_bins-out n i v hist (omega arith))

pub sum_bins-update :
    (n i v : ℕ) (hist : ℕ → ℕ) → i < n → sum_bins n (update hist i v) + hist i ≡ sum_bins n hist + v
unfolding sum_bins
sum_bins-update zero i v hist h = absurd (omega arith)
sum_bins-update (suc n) i v hist h = elim (ℕ_discrete i n) [
  | yes e ↦ ground (arith, sum_bins-out n i v hist (omega arith))
  | no ne ↦ ground (arith, sum_bins-update n i v hist (omega arith))
]

sum_bins-ge : (n i : ℕ) (hist : ℕ → ℕ) → i < n → hist i ≤ sum_bins n hist
unfolding sum_bins
sum_bins-ge zero i hist h = absurd (omega arith)
sum_bins-ge (suc n) i hist h = elim (ℕ_discrete i n) [
  | yes e ↦ rw e (omega arith)
  | no ne ↦ omega (arith, sum_bins-ge n i hist (omega arith))
]

lat_bucket-lt : (duration_ns : ℕ) → lat_bucket duration_ns < hist_bins
unfolding lat_bucket
lat_bucket-lt duration_ns = ground arith

pub next_index-mod : (i size : ℕ) → i < size → size < 2 ^ 64 → next_index i size ≡ (i + 1) % size
unfolding next_index
next_index-mod i size h small = elim (ℕ_discrete (i + 1) size) [
  | yes e ↦ ground (arith, mod_self size)
  | no ne ↦ ground (arith, mod-eq_of_lt {n = i + 1} {m = size})
]

pub sum_bins_zero : (n : ℕ) → sum_bins n (λ b. 0) ≡ 0
unfolding sum_bins
sum_bins_zero zero = refl
sum_bins_zero (suc n) = omega (arith, sum_bins_zero n)

module _ (l : Workload) where
  -- Every index is within its vector, and the histogram holds as many operations as were counted.
  pub record IsTallied (w : WorkerState) : Type 0 where
    pub query : w.query_i < l.bench_size
    pub update_ : w.update_i < l.bench_size
    pub remove : w.remove_i < l.bench_size
    pub insert : w.insert_i < l.nonexist_size
    pub tally : sum_bins hist_bins w.latency_hist ≡ w.throughput

  -- The vectors are not empty, and their sizes are 64-bit numbers.
  pub record HasKeys : Type 0 where
    pub some_bench : 0 < l.bench_size
    pub some_nonexist : 0 < l.nonexist_size
    pub bench_small : l.bench_size < 2 ^ 64
    pub nonexist_small : l.nonexist_size < 2 ^ 64

  module _ (k : HasKeys) where
    open k use {some_bench, some_nonexist, bench_small, nonexist_small}

    next_index-lt : (i size : ℕ) → i < size → size < 2 ^ 64 → next_index i size < size
    unfolding next_index
    next_index-lt i size h small = ground arith

    choose-IsTallied : (d : Draw) (w : WorkerState) → IsTallied w → IsTallied (choose l d w).1
    unfolding choose
    choose-IsTallied d w t =
        if_cases (λ (r : Operation × WorkerState). IsTallied r.1) d.reads
          (λ _. record {
            query = next_index-lt w.query_i l.bench_size t.query bench_small;
            update_ = t.update_;
            remove = t.remove;
            insert = t.insert;
            tally = t.tally;
          })
          (λ _.
            if_cases (λ (r : Operation × WorkerState). IsTallied r.1) d.inserts
              (λ _. record {
                query = t.query;
                update_ = t.update_;
                remove = t.remove;
                insert = next_index-lt w.insert_i l.nonexist_size t.insert nonexist_small;
                tally = t.tally;
              })
              (λ _.
                if_cases (λ (r : Operation × WorkerState). IsTallied r.1) d.updates
                  (λ _. record {
                    query = t.query;
                    update_ = next_index-lt w.update_i l.bench_size t.update_ bench_small;
                    remove = t.remove;
                    insert = t.insert;
                    tally = t.tally;
                  })
                  (λ _. record {
                    query = t.query;
                    update_ = t.update_;
                    remove = next_index-lt w.remove_i l.bench_size t.remove bench_small;
                    insert = t.insert;
                    tally = t.tally;
                  })))

    count-IsTallied :
        (duration_ns : ℕ) (w : WorkerState)
        → w.throughput + 1 < 2 ^ 64
        → IsTallied w
        → IsTallied (count_operation duration_ns w)
    unfolding count_operation
    count-IsTallied duration_ns w room t =
        let i = lat_bucket duration_ns in
        let bin : i < hist_bins = lat_bucket-lt duration_ns in
        record {
          query = t.query;
          update_ = t.update_;
          remove = t.remove;
          insert = t.insert;
          tally = omega (
            arith,
            room,
            t.tally,
            sum_bins-update hist_bins i (add64 (w.latency_hist i) 1) w.latency_hist bin,
            sum_bins-ge hist_bins i w.latency_hist bin,
          );
        }

    choose-throughput : (d : Draw) (w : WorkerState) → (choose l d w).1.throughput ≡ w.throughput
    unfolding choose
    choose-throughput d w = ground arith

    pub round-throughput :
        (d : Draw) (w : WorkerState)
        → w.throughput + 1 < 2 ^ 64
        → (worker_round l d w).1.throughput ≡ w.throughput + 1
    unfolding worker_round count_operation
    round-throughput d w room = omega (arith, room, choose-throughput d w)

    pub round-IsTallied :
        (d : Draw) (w : WorkerState)
        → w.throughput + 1 < 2 ^ 64
        → IsTallied w
        → IsTallied (worker_round l d w).1
    unfolding worker_round
    round-IsTallied d w room t =
        count-IsTallied d.duration_ns (choose l d w).1 (omega (arith, room, choose-throughput d w))
          (choose-IsTallied d w t)
