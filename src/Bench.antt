-- ===== src/Bench.antt =====
-- benchs/: the keys that the drivers load, the NUMA client's worker thread, and its report. What is
-- drawn at random and what is computed with floating-point numbers is an argument.
pub mod Data
pub mod Worker
pub mod Percentile
use outback_cxl_numa.Base.{
  ℕ, zero, suc, ◌+◌, ◌*◌, ◌/◌, ◌%◌, ◌^◌, Bool, true, false, Option, none, some, List, [], ◌∷◌, ◌++◌,
  length, map, add64, sub64, leb, ltb, ◌==◌, if◌then◌else◌, update, min,
}
use outback_cxl_numa.Registry.{Registry, max_numa_lanes}

-- benchs/load_data.hh: the three vectors.
pub record Keys : Type 0 where
  pub exist_keys : List ℕ
  pub nonexist_keys : List ℕ
  pub bench_keys : List ℕ

-- `n` numbers from `start` on
unfoldable pub count_from : ℕ → ℕ → List ℕ
count_from start zero = []
count_from start (suc n) = start ∷ count_from (start + 1) n

unfoldable pub normal_data_back : ℕ → ℕ → ℕ → Keys
unfolding count_from
normal_data_back nkeys non_nkeys bench_nkeys = record {
  exist_keys = count_from 0 nkeys;
  nonexist_keys = count_from nkeys non_nkeys;
  bench_keys = count_from 0 bench_nkeys;
}

-- One of the two reading loops of `read_file_data`, with `n` items to go: the items read, and what is
-- left of the file. `fread` reads one item at a time, and none at the end of the file.
unfoldable pub read_items : ℕ → List ℕ → List ℕ × List ℕ
read_items zero file = ([], file)
read_items (suc n) [] = ([], [])
read_items (suc n) (item ∷ file) = let (items, rest) = read_items n file in (item ∷ items, rest)

-- The first number of the file is skipped.
unfoldable pub skip_header : List ℕ → List ℕ
skip_header [] = []
skip_header (count ∷ file) = file

abbrev pub nth_or : List ℕ → ℕ → ℕ → ℕ
nth_or [] i d = d
nth_or (x ∷ xs) zero d = x
nth_or (x ∷ xs) (suc i) d = nth_or xs i d

-- `exist_keys[rand() % m]`; `rand n` is the n-th number drawn. `none` is the division by zero of an
-- empty vector.
unfoldable pub draw_keys : List ℕ → (ℕ → ℕ) → ℕ → ℕ → Option (List ℕ)
draw_keys exist rand zero i = some []
draw_keys exist rand (suc n) i = elim (draw_keys exist rand n (i + 1)) [
  | none ↦ none
  | some keys ↦
      if length exist == 0 then none else some (nth_or exist (rand i % length exist) 0 ∷ keys)
]

unfoldable pub read_file_data : List ℕ → (ℕ → ℕ) → ℕ → ℕ → ℕ → Option Keys
unfolding read_items skip_header draw_keys
read_file_data file rand nkeys non_nkeys bench_nkeys =
    let (exist, rest) = read_items nkeys (skip_header file) in
    let (nonexist, _) = read_items non_nkeys rest in
    elim (draw_keys exist rand bench_nkeys 0) [
      | none ↦ none
      | some bench ↦
          some (record { exist_keys = exist; nonexist_keys = nonexist; bench_keys = bench })
    ]
