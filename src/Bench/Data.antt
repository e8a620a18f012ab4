-- ===== src/Bench/Data.antt =====
-- benchs/load_data.hh: what the vectors of keys hold.
use outback_cxl_numa.Base.{
  ℕ, zero, suc, ◌+◌, ◌-◌, ◌%◌, ◌<◌, ◌≡◌, some, List, [], ◌∷◌, ◌++◌, length, All, refl, ap, ◌∙◌,
  arith, min, length-append, ne→==,
}
use native.Mathlib.Nat.{mod-lt}
use outback_cxl_numa.Bench.{Keys, read_items, skip_header, nth_or, draw_keys, read_file_data}

-- Some key of the list.
abbrev pub Among : List ℕ → ℕ → Type 0
Among keys k = (i : ℕ) × (i < length keys) × (nth_or keys i 0 ≡ k)

read_items-split :
    (n : ℕ) (file : List ℕ)
    → ((read_items n file).0 ++ (read_items n file).1 ≡ file)
      × (length (read_items n file).0 ≡ min n (length file))
unfolding read_items
read_items-split zero file = (refl, ground arith)
read_items-split (suc n) [] = (refl, ground arith)
read_items-split (suc n) (item ∷ file) =
    let (joined, counted) = read_items-split n file in
    (ap (λ xs. item ∷ xs) joined, ground (arith, counted))

draw_keys-Among :
    (exist : List ℕ) (rand : ℕ → ℕ) (n i : ℕ)
    → 0 < length exist
    → (keys : List ℕ) × (draw_keys exist rand n i ≡ some keys)
      × (length keys ≡ n)
      × All (Among exist) keys
unfolding draw_keys
draw_keys-Among exist rand zero i some_keys = ([], refl, refl, tt)
draw_keys-Among exist rand (suc n) i some_keys =
    let (keys, run, counted, among) = draw_keys-Among exist rand n (i + 1) some_keys in
    (
      nth_or exist (rand i % length exist) 0 ∷ keys,
      rw (run, draw_keys, ne→== (length exist) 0 (omega arith)),
      ap suc counted,
      ((rand i % length exist, mod-lt (rand i) some_keys, refl), among),
    )

-- A file with a header and at least one key, if keys are wanted: the loaded keys and the further ones
-- are the words behind the header in the file's order, as many as are asked for or as the file has,
-- so that a short file gives fewer keys than the server goes on to load; and the keys to look up are
-- as many as asked for, all of them loaded ones.
pub read_file_data_splits :
    (header : ℕ) (file : List ℕ) (rand : ℕ → ℕ) (nkeys non_nkeys bench_nkeys : ℕ)
    → 0 < nkeys
    → 0 < length file
    → (k : Keys) × (read_file_data (header ∷ file) rand nkeys non_nkeys bench_nkeys ≡ some k)
      × ((rest : List ℕ) × (k.exist_keys ++ (k.nonexist_keys ++ rest) ≡ file))
      × (length k.exist_keys ≡ min nkeys (length file))
      × (length k.nonexist_keys ≡ min non_nkeys (length file - length k.exist_keys))
      × (length k.bench_keys ≡ bench_nkeys)
      × All (Among k.exist_keys) k.bench_keys
unfolding read_file_data skip_header
read_file_data_splits header file rand nkeys non_nkeys bench_nkeys wanted there =
    let exist = (read_items nkeys file).0 in
    let left = (read_items nkeys file).1 in
    let (joined, counted) = read_items-split nkeys file in
    let (joined', counted') = read_items-split non_nkeys left in
    let (bench, run, asked, among) =
      draw_keys-Among exist rand bench_nkeys 0 (omega (arith, counted)) in
    (
      record {
        exist_keys = exist;
        nonexist_keys = (read_items non_nkeys left).0;
        bench_keys = bench;
      },
      rw (run, read_file_data) refl,
      ((read_items non_nkeys left).1, ap (λ xs. exist ++ xs) joined' ∙ joined),
      counted,
      counted' ∙ omega (arith, ap length joined, length-append exist left),
      asked,
      among,
    )
