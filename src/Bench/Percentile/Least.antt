-- ===== src/Bench/Percentile/Least.antt =====
-- benchs/outback/client_numa.cc, `run_benchmark`: the total of the merged histogram, and the bin that
-- a rank falls into.
use outback_cxl_numa.Base.{
  ℕ, zero, suc, ◌+◌, ◌-◌, ◌^◌, ◌≤◌, ◌<◌, ◌≡◌, ◌≢◌, List, [], ◌∷◌, add64, leb, ◌==◌, if◌then◌else◌,
  refl, sym, ap, ◌∙◌, arith, ne→==, Bool-cases, inl, inr, leb→le, max,
}
use outback_cxl_numa.Bench.Worker.{hist_bins}
use outback_cxl_numa.Bench.Worker.Counts.{sum_bins, sum_bins_zero}
use outback_cxl_numa.Bench.Percentile.{
  merge_into, merged_hist, accumulate, hist_total, Percentile, in_bin, no_samples, percentile_loop,
  percentile_from_rank,
}

-- The operations that all threads counted.
unfoldable pub sum_threads : List (ℕ → ℕ) → ℕ
sum_threads [] = 0
sum_threads (hist ∷ hists) = sum_bins hist_bins hist + sum_threads hists

sum_bins-next : (b : ℕ) (hist : ℕ → ℕ) → sum_bins (b + 1) hist ≡ sum_bins b hist + hist b
unfolding sum_bins
sum_bins-next b hist = let e : b + 1 ≡ suc b = omega arith in ap (λ k. sum_bins k hist) e

sum_bins-le : (d n : ℕ) (hist : ℕ → ℕ) → sum_bins n hist ≤ sum_bins (n + d) hist
sum_bins-le zero n hist =
    let e : n ≡ n + 0 = omega arith in omega (arith, ap (λ k. sum_bins k hist) e)
sum_bins-le (suc d) n hist =
    let e : n + d + 1 ≡ n + suc d = omega arith in
    omega (arith, sum_bins-le d n hist, sum_bins-next (n + d) hist, ap (λ k. sum_bins k hist) e)

sum_bins_mono : (n m : ℕ) (hist : ℕ → ℕ) → n ≤ m → sum_bins n hist ≤ sum_bins m hist
sum_bins_mono n m hist h =
    let e : n + (m - n) ≡ m = omega arith in
    omega (arith, sum_bins-le (m - n) n hist, ap (λ k. sum_bins k hist) e)

-- The bin of a rank: the samples below it are fewer, and with it they are enough.
abbrev IsBinOf : (ℕ → ℕ) → ℕ → ℕ → Percentile → Type 0
IsBinOf hist m rank p =
    (b : ℕ) × (p ≡ in_bin b) × (b < m) × (sum_bins b hist < rank) × (rank ≤ sum_bins (b + 1) hist)

module _ (hist : ℕ → ℕ) (m : ℕ) (small : sum_bins m hist < 2 ^ 64) where
  -- One more bin does not wrap.
  add-bin :
      (b total : ℕ)
      → b + 1 ≤ m
      → total ≡ sum_bins b hist
      → add64 total (hist b) ≡ sum_bins (b + 1) hist
  add-bin b total h t = omega (arith, t, sum_bins-next b hist, sum_bins_mono (b + 1) m hist h)

  accumulate-sum :
      (n b total : ℕ)
      → b + n ≡ m
      → total ≡ sum_bins b hist
      → accumulate hist n b total ≡ sum_bins m hist
  unfolding accumulate
  accumulate-sum zero b total e t = let e' : b ≡ m = omega arith in t ∙ ap (λ k. sum_bins k hist) e'
  accumulate-sum (suc n) b total e t =
      accumulate-sum n (b + 1) (add64 total (hist b)) (omega arith)
        (add-bin b total (omega arith) t)

  loop-IsBinOf :
      (rank n b cumulative : ℕ)
      → b + n ≡ m
      → cumulative ≡ sum_bins b hist
      → sum_bins b hist < rank
      → rank ≤ sum_bins m hist
      → IsBinOf hist m rank (percentile_loop hist rank n b cumulative)
  unfolding percentile_loop
  loop-IsBinOf rank zero b cumulative e c low high =
      let e' : b ≡ m = omega arith in
      absurd (omega (arith, ap (λ k. sum_bins k hist) e', low, high))
  loop-IsBinOf rank (suc n) b cumulative e c low high =
      let next = add-bin b cumulative (omega arith) c in
      elim (Bool-cases (leb rank (add64 cumulative (hist b)))) [
        | inl here ↦ rw here (b, refl, omega arith, low, omega (arith, next, leb→le _ _ here))
        | inr later ↦ rw later (
            loop-IsBinOf rank n (b + 1) (add64 cumulative (hist b)) (omega arith) next
              (ground (arith, next)) high)
      ]

sum_bins-add :
    (n : ℕ) (f g : ℕ → ℕ)
    → sum_bins n f + sum_bins n g < 2 ^ 64
    → sum_bins n (λ b. add64 (f b) (g b)) ≡ sum_bins n f + sum_bins n g
unfolding sum_bins
sum_bins-add zero f g small = refl
sum_bins-add (suc n) f g small = omega (arith, sum_bins-add n f g (omega arith))

sum_bins_none : (hist : ℕ → ℕ) → sum_bins 0 hist ≡ 0
unfolding sum_bins
sum_bins_none hist = refl

-- The samples of several histograms in their first `n` bins.
sum_all : ℕ → List (ℕ → ℕ) → ℕ
sum_all n [] = 0
sum_all n (hist ∷ hists) = sum_bins n hist + sum_all n hists

sum_bins-merge :
    (n : ℕ) (hists : List (ℕ → ℕ)) (merged : ℕ → ℕ)
    → sum_bins n merged + sum_all n hists < 2 ^ 64
    → sum_bins n (merge_into merged hists) ≡ sum_bins n merged + sum_all n hists
unfolding merge_into sum_all
sum_bins-merge n [] merged small = omega arith
sum_bins-merge n (hist ∷ hists) merged small =
    let one = sum_bins-add n merged hist (omega arith) in
    omega (arith, one, sum_bins-merge n hists (λ b. add64 (merged b) (hist b)) (omega (arith, one)))

sum_all-threads : (hists : List (ℕ → ℕ)) → sum_all hist_bins hists ≡ sum_threads hists
unfolding sum_all sum_threads
sum_all-threads [] = refl
sum_all-threads (hist ∷ hists) = omega (arith, sum_all-threads hists)

merged-sum :
    (hists : List (ℕ → ℕ))
    → sum_threads hists < 2 ^ 64
    → sum_bins hist_bins (merged_hist hists) ≡ sum_threads hists
unfolding merged_hist
merged-sum hists small =
    let empty = sum_bins_zero hist_bins in
    omega (
      arith,
      empty,
      sum_all-threads hists,
      sum_bins-merge hist_bins hists (λ b. 0) (omega (arith, empty, sum_all-threads hists)),
    )

bounded_lem :
    (hists : List (ℕ → ℕ))
    → sum_threads hists < 2 ^ 64
    → sum_bins hist_bins (merged_hist hists) < 2 ^ 64
bounded_lem hists small = omega (arith, merged-sum hists small, small)

total-sum :
    (hists : List (ℕ → ℕ))
    → sum_threads hists < 2 ^ 64
    → hist_total (merged_hist hists) ≡ sum_threads hists
unfolding hist_total
total-sum hists small =
    let sum = merged-sum hists small in
    accumulate-sum (merged_hist hists) hist_bins (bounded_lem hists small) hist_bins 0 0 refl
      (sym (sum_bins_none _))
    ∙ sum

some-IsBinOf :
    (hists : List (ℕ → ℕ)) (rank : ℕ)
    → sum_threads hists < 2 ^ 64
    → 0 < rank
    → rank ≤ sum_threads hists
    → IsBinOf
        (merged_hist hists)
        hist_bins
        rank
        (percentile_loop (merged_hist hists) rank hist_bins 0 0)
some-IsBinOf hists rank small positive high =
    let sum = merged-sum hists small in
    let none : sum_bins 0 (merged_hist hists) ≡ 0 = sum_bins_none _ in
    loop-IsBinOf (merged_hist hists) hist_bins (bounded_lem hists small) rank hist_bins 0 0 refl
      (sym none) (omega (arith, none, positive)) (omega (arith, sum, high))

max-le : (rank n : ℕ) → n ≢ 0 → rank ≤ n → max rank 1 ≤ n
max-le rank n h k = ground arith

max-test : (rank : ℕ) → (if rank == 0 then 1 else rank) ≡ max rank 1
max-test rank = ground arith

from_rank-none :
    (hist : ℕ → ℕ) (rank : ℕ) → hist_total hist ≡ 0 → percentile_from_rank hist rank ≡ no_samples
unfolding percentile_from_rank
from_rank-none hist rank e = rw e refl

from_rank-some :
    (hist : ℕ → ℕ) (rank : ℕ)
    → hist_total hist ≢ 0
    → percentile_from_rank hist rank ≡ percentile_loop hist (max rank 1) hist_bins 0 0
unfolding percentile_from_rank
from_rank-some hist rank some =
    let nonzero = ne→== (hist_total hist) 0 some in rw (nonzero, sym (max-test rank)) refl

-- If the threads counted fewer than 2 ^ 64 operations in all, that is the merged histogram's total.
-- With no operation there is no percentile; otherwise a rank of at most the total falls into a bin,
-- the first one up to which there are as many operations as the rank, a rank of 0 counting as 1.
pub percentile_least :
    (hists : List (ℕ → ℕ)) (rank : ℕ)
    → sum_threads hists < 2 ^ 64
    → (hist_total (merged_hist hists) ≡ sum_threads hists)
      × (sum_threads hists ≡ 0 → percentile_from_rank (merged_hist hists) rank ≡ no_samples)
      × (sum_threads hists ≢ 0
          → rank ≤ sum_threads hists
          → (b : ℕ) × (percentile_from_rank (merged_hist hists) rank ≡ in_bin b)
            × (b < hist_bins)
            × (sum_bins b (merged_hist hists) < max rank 1)
            × (max rank 1 ≤ sum_bins (b + 1) (merged_hist hists)))
percentile_least hists rank small = (
  total-sum hists small,
  (λ e. from_rank-none (merged_hist hists) rank (total-sum hists small ∙ e)),
  (λ some high.
      let filled : hist_total (merged_hist hists) ≢ 0 =
        λ e. some (sym (total-sum hists small) ∙ e) in
      rw (from_rank-some (merged_hist hists) rank filled) (
        some-IsBinOf hists (max rank 1) small (omega arith)
          (max-le rank (sum_threads hists) some high))),
)
