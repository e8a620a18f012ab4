-- ===== src/Bench/Worker/Rounds.antt =====
-- benchs/outback/client_numa.cc, `numa_client_worker`: the whole run of a worker.
use native.Mathlib.Nat.{mod-eq_of_lt, mod-add-mod}
use outback_cxl_numa.Base.{
  ℕ, zero, suc, ◌+◌, ◌%◌, ◌^◌, ◌<◌, ◌≡◌, true, false, List, [], ◌∷◌, length, if◌then◌else◌,
  if_cases, refl, sym, ap, ◌∙◌, arith, Bool-cases, inl, inr,
}
use outback_cxl_numa.Bench.Worker.{
  Workload, Draw, Operation, WorkerState, numa_search, choose, count_operation, worker_round,
  worker_rounds, fresh_worker, hist_bins,
}
use outback_cxl_numa.Bench.Worker.Counts.{
  IsTallied, HasKeys, next_index-mod, round-throughput, round-IsTallied, sum_bins_zero,
}

-- The keys that are searched for, in order.
pub searched : List Operation → List ℕ
searched [] = []
searched (numa_search k ∷ ops) = k ∷ searched ops
searched (_ ∷ ops) = searched ops

-- `n` keys from the vector, from the start-th on and round again.
pub cycle : (ℕ → ℕ) → ℕ → ℕ → ℕ → List ℕ
cycle keys size start zero = []
cycle keys size start (suc n) = keys (start % size) ∷ cycle keys size (start + 1) n

pub searches : List Draw → ℕ
searches [] = 0
searches (d ∷ ds) = let m = searches ds in if d.reads then suc m else m

module _ (l : Workload) (k : HasKeys l) where
  -- The next search is for the key at `q`, counted round and round.
  abbrev At : ℕ → WorkerState → Type 0
  At q w = w.query_i ≡ q % l.bench_size

  -- A round that searches takes the key at `q`, and one that does not leaves it.
  round-search :
      (d : Draw) (w : WorkerState) (q : ℕ)
      → d.reads ≡ true
      → IsTallied l w
      → At q w
      → ((worker_round l d w).0 ≡ numa_search (l.bench_keys (q % l.bench_size)))
        × At (q + 1) (worker_round l d w).1
  unfolding worker_round choose count_operation
  round-search d w q e t at = rw e (
    ap (λ i. numa_search (l.bench_keys i)) at,
    next_index-mod w.query_i l.bench_size t.query k.bench_small
        ∙ ap (λ i. (i + 1) % l.bench_size) at
        ∙ mod-add-mod q l.bench_size 1,
  )

  round-other :
      (d : Draw) (w : WorkerState) (q : ℕ) (ops : List Operation)
      → d.reads ≡ false
      → At q w
      → (searched ((worker_round l d w).0 ∷ ops) ≡ searched ops) × At q (worker_round l d w).1
  unfolding worker_round choose count_operation searched
  round-other d w q ops e at = rw e (
      if_cases
        (λ (r : Operation × WorkerState).
          (searched (r.0 ∷ ops) ≡ searched ops) × (r.1.query_i ≡ q % l.bench_size))
        d.inserts (λ _. (refl, at))
        (λ _.
          if_cases
            (λ (r : Operation × WorkerState).
              (searched (r.0 ∷ ops) ≡ searched ops) × (r.1.query_i ≡ q % l.bench_size))
            d.updates (λ _. (refl, at)) (λ _. (refl, at))))

  searches-yes :
      (d : Draw) (ds : List Draw) → d.reads ≡ true → searches (d ∷ ds) ≡ suc (searches ds)
  unfolding searches
  searches-yes d ds e = rw e refl

  searches-no : (d : Draw) (ds : List Draw) → d.reads ≡ false → searches (d ∷ ds) ≡ searches ds
  unfolding searches
  searches-no d ds e = rw e refl

  -- What the rounds `ds` come to from the state `w`.
  pub record IsCountedUp (ds : List Draw) (w : WorkerState) (q : ℕ) : Type 0 where
    pub tallied : IsTallied l (worker_rounds l ds w).1
    pub counted : (worker_rounds l ds w).1.throughput ≡ w.throughput + length ds
    pub operations : length (worker_rounds l ds w).0 ≡ length ds
    pub in_turn :
        searched (worker_rounds l ds w).0 ≡ cycle l.bench_keys l.bench_size q (searches ds)

  rounds-IsCountedUp :
      (ds : List Draw) (w : WorkerState) (q : ℕ)
      → w.throughput + length ds < 2 ^ 64
      → IsTallied l w
      → At q w
      → IsCountedUp ds w q
  unfolding worker_rounds searched cycle searches
  rounds-IsCountedUp [] w q room t at = record {
    tallied = t;
    counted = omega arith;
    operations = refl;
    in_turn = refl;
  }
  rounds-IsCountedUp (d ∷ ds) w q room t at =
      let one = round-throughput l k d w (omega arith) in
      let t' = round-IsTallied l k d w (omega arith) t in
      elim (Bool-cases d.reads) [
        | inl e ↦
            let (op, at') = round-search d w q e t at in
            let ih =
              rounds-IsCountedUp ds (worker_round l d w).1 (q + 1) (omega (arith, one)) t' at' in
            record {
              tallied = ih.tallied;
              counted = omega (arith, ih.counted, one);
              operations = ap suc ih.operations;
              in_turn =
                  ap (λ o. searched (o ∷ (worker_rounds l ds (worker_round l d w).1).0)) op
                  ∙ ap (λ ks. l.bench_keys (q % l.bench_size) ∷ ks) ih.in_turn
                  ∙ sym (ap (cycle l.bench_keys l.bench_size q) (searches-yes d ds e));
            }
        | inr e ↦
            let (op, at') = round-other d w q (worker_rounds l ds (worker_round l d w).1).0 e at in
            let ih = rounds-IsCountedUp ds (worker_round l d w).1 q (omega (arith, one)) t' at' in
            record {
              tallied = ih.tallied;
              counted = omega (arith, ih.counted, one);
              operations = ap suc ih.operations;
              in_turn =
                  op
                  ∙ ih.in_turn
                  ∙ sym (ap (cycle l.bench_keys l.bench_size q) (searches-no d ds e));
            }
      ]

  -- Let both vectors of keys, that of the benchmark and that of the keys not in the table, have at least
  -- one key and fewer than 2 ^ 64.
  -- However the rounds of a worker are drawn, fewer than 2 ^ 64 of them: each makes one operation and
  -- is counted once, the histogram holds as many as were counted, every index ends within its vector,
  -- and the searches go through the keys of the vector in turn and round again.
  pub worker_counts :
      (ds : List Draw)
      → length ds < 2 ^ 64
      → IsTallied l (worker_rounds l ds fresh_worker).1
        × ((worker_rounds l ds fresh_worker).1.throughput ≡ length ds)
        × (length (worker_rounds l ds fresh_worker).0 ≡ length ds)
        × (searched (worker_rounds l ds fresh_worker).0
            ≡ cycle l.bench_keys l.bench_size 0 (searches ds))
  worker_counts ds few =
      let c =
        rounds-IsCountedUp ds fresh_worker 0 (omega arith) fresh-IsTallied
          (sym (mod-eq_of_lt k.some_bench)) in
      (c.tallied, c.counted ∙ omega arith, c.operations, c.in_turn)
    where
      fresh-IsTallied : IsTallied l fresh_worker
      fresh-IsTallied = record {
        query = k.some_bench;
        update_ = k.some_bench;
        remove = k.some_bench;
        insert = k.some_nonexist;
        tally = sum_bins_zero hist_bins;
      }
