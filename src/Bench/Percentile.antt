-- ===== src/Bench/Percentile.antt =====
-- benchs/outback/client_numa.cc, `run_benchmark`: the histograms of the threads merged, and the bin
-- of a percentile. The rank, `ceil(p * N)`, is computed with floating-point numbers.
pub mod Least
use outback_cxl_numa.Base.{
  ℕ, zero, suc, ◌+◌, List, [], ◌∷◌, Bool, true, false, add64, leb, ◌==◌, if◌then◌else◌,
}
use outback_cxl_numa.Bench.Worker.{hist_bins}

-- `merged_hist[b] += thread_hist[b]`, for every thread and bin
unfoldable pub merge_into : (ℕ → ℕ) → List (ℕ → ℕ) → ℕ → ℕ
merge_into merged [] = merged
merge_into merged (hist ∷ hists) = merge_into (λ b. add64 (merged b) (hist b)) hists

unfoldable pub merged_hist : List (ℕ → ℕ) → ℕ → ℕ
merged_hist hists = merge_into (λ b. 0) hists

-- `std::accumulate` over the `n` bins from `b` on
unfoldable pub accumulate : (ℕ → ℕ) → ℕ → ℕ → ℕ → ℕ
accumulate hist zero b total = total
accumulate hist (suc n) b total = accumulate hist n (b + 1) (add64 total (hist b))

unfoldable pub hist_total : (ℕ → ℕ) → ℕ
hist_total hist = accumulate hist hist_bins 0 0

-- No samples; a bin; or more than the last bin stands for.
pub data Percentile : Type 0 where
  no_samples : Percentile
  in_bin : ℕ → Percentile
  over : Percentile

unfoldable pub percentile_loop : (ℕ → ℕ) → ℕ → ℕ → ℕ → ℕ → Percentile
percentile_loop hist rank zero b cumulative = over
percentile_loop hist rank (suc n) b cumulative =
    let rest = percentile_loop hist rank n (b + 1) (add64 cumulative (hist b)) in
    if leb rank (add64 cumulative (hist b)) then in_bin b else rest

-- `computed` is `ceil(p * N)`.
unfoldable pub percentile_from_rank : (ℕ → ℕ) → ℕ → Percentile
percentile_from_rank hist computed =
    if hist_total hist == 0
    then no_samples
    else percentile_loop hist (if computed == 0 then 1 else computed) hist_bins 0 0
