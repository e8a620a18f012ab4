-- ===== src/Rolex/Search/Bound.antt =====
-- rolex/rolex_util.hh: the branchless search gives the lower bound of a sorted array, and stays
-- within it.
use native.Mathlib.Nat.{pow-suc}
use outback_cxl_numa.Base.{
  ℕ, zero, suc, ◌+◌, ◌-◌, ◌*◌, ◌/◌, ◌^◌, ◌≤◌, ◌<◌, ◌≡◌, ◌⊎◌, inl, inr, refl, ap, ◌∙◌, arith, some,
  Bool-cases, ltb, ltb→lt, lt→ltb, dec_lt,
}
use outback_cxl_numa.Rolex.Search.{
  bsr_from, bsr, read, advance, search_loop, finish, binary_search_branchless,
}

double : (l : ℕ) → 2 ^ suc l ≡ 2 * 2 ^ l
double l = omega (arith, pow-suc 2 l)

pow_pos : (l : ℕ) → 0 < 2 ^ l
pow_pos zero = omega arith
pow_pos (suc l) = omega (arith, double l, pow_pos l)

bsr_from_bounds :
    (f x : ℕ)
    → 0 < x
    → x < 2 ^ suc f
    → (2 ^ bsr_from f x ≤ x) × (x < 2 * 2 ^ bsr_from f x) × (bsr_from f x ≤ f)
unfolding bsr_from
bsr_from_bounds zero x pos small = omega (arith, pow-suc 2 0)
bsr_from_bounds (suc f) x pos small = elim (Bool-cases (ltb x 2)) [
  | inl one ↦ rw one (omega (arith, ltb→lt x 2 one))
  | inr more ↦
      let two : 2 ≤ x = ground arith in
      let ih =
        bsr_from_bounds f (x / 2) (omega (arith, two)) (omega (arith, small, double (suc f))) in
      rw more (omega (arith, ih, double (bsr_from f (x / 2))))
]

pub bsr_bounds : (x : ℕ) → 0 < x → x < 2 ^ 32 → (2 ^ bsr x ≤ x) × (x < 2 * 2 ^ bsr x) × (bsr x ≤ 31)
unfolding bsr
bsr_bounds x pos small = bsr_from_bounds 31 x pos small

module _ (arr : ℕ → ℕ) (n key : ℕ) where
  abbrev pub IsSorted : Type 0
  IsSorted = (i j : ℕ) → i ≤ j → j < n → arr i ≤ arr j

  abbrev pub Below : ℕ → Type 0
  Below r = (i : ℕ) → i < r → arr i < key

  abbrev pub Above : ℕ → Type 0
  Above r = (i : ℕ) → r ≤ i → i < n → key ≤ arr i

  -- The first position whose key is not smaller lies in the window of `w` from `next` on, or the
  -- window reaches the end of the array.
  record Window (w next : ℕ) : Type 0 where
    fits : next + w ≤ n
    below : Below next
    above : (next + w ≡ n) ⊎ Above (next + w - 1)

  module _ (sorted : IsSorted) where
    Below-to : (i : ℕ) → i < n → arr i < key → Below (i + 1)
    Below-to i lt less j h = omega (arith, sorted j i (omega arith) lt)

    Above-from : (i : ℕ) → key ≤ arr i → Above i
    Above-from i ge j h lt = omega (arith, sorted i j h lt)

    advance-below : (i a b : ℕ) → i < n → arr i < key → advance arr n key i a b ≡ some a
    unfolding advance read
    advance-below i a b lt less = ground arith

    advance-above : (i a b : ℕ) → i < n → key ≤ arr i → advance arr n key i a b ≡ some b
    unfolding advance read
    advance-above i a b lt ge = ground arith

    -- One comparison halves a window of an even width.
    advance-Window :
        (s next : ℕ)
        → 0 < s
        → Window (s + s) next
        → (next' : ℕ) × (advance arr n key (next + s - 1) (next + s) next ≡ some next')
          × Window s next'
    advance-Window s next pos w = elim (dec_lt (arr (next + s - 1)) key) [
      | yes less ↦ (
        next + s,
        advance-below (next + s - 1) (next + s) next (omega (arith, w.fits)) less,
        record {
          fits = omega (arith, w.fits);
          below = λ i h. Below-to (next + s - 1) (omega (arith, w.fits)) less i (omega arith);
          above = same_end w.above;
        },
      )
      | no ge ↦ (
        next,
        advance-above (next + s - 1) (next + s) next (omega (arith, w.fits)) (omega arith),
        record {
          fits = omega (arith, w.fits);
          below = w.below;
          above = inr (Above-from (next + s - 1) (omega arith));
        },
      )
    ]
      where
        same_end :
            (next + (s + s) ≡ n) ⊎ Above (next + (s + s) - 1)
            → (next + s + s ≡ n) ⊎ Above (next + s + s - 1)
        same_end (inl e) = inl (omega arith)
        same_end (inr a) = inr (λ i h. a i (omega arith))

    search_loop-suc :
        (f s next next' : ℕ)
        → 0 < s
        → advance arr n key (next + s - 1) (next + s) next ≡ some next'
        → search_loop arr n key (suc f) s next ≡ search_loop arr n key f (s / 2) next'
    unfolding search_loop
    search_loop-suc f s next next' pos step = rw (lt→ltb 0 s pos, search_loop) (rw step)

    -- The loop leaves a window of width 1.
    search_loop-Window :
        (l f next : ℕ)
        → l < f
        → Window (2 ^ l) next
        → (pos : ℕ) × (search_loop arr n key f (2 ^ l / 2) next ≡ some pos) × Window 1 pos
    unfolding search_loop
    search_loop-Window l zero next h w = absurd (omega arith)
    search_loop-Window zero (suc f) next h w = (next, refl, w)
    search_loop-Window (suc l) (suc f) next h w =
        let half : 2 ^ suc l / 2 ≡ 2 ^ l = omega (arith, double l) in
        let even : 2 ^ suc l ≡ 2 ^ l + 2 ^ l = omega (arith, double l) in
        let (next', step, w') = advance-Window (2 ^ l) next (pow_pos l) (rw even at w) in
        let (pos, run, w'') = search_loop-Window l f next' (omega arith) w' in
        (
          pos,
          ap (λ s. search_loop arr n key (suc f) s next) half
              ∙ search_loop-suc f (2 ^ l) next next' (pow_pos l) step
              ∙ run,
          w'',
        )

    finish-bound :
        (next : ℕ)
        → Window 1 next
        → (r : ℕ) × (finish arr n key next ≡ some r) × (r ≤ n) × Below r × Above r
    unfolding finish read
    finish-bound next w = elim (dec_lt (arr next) key) [
      | yes less ↦ (
        n,
        ground (arith, w.fits),
        omega arith,
        whole less w.above,
        λ i h lt. absurd (omega arith),
      )
      | no ge ↦ (
        next,
        ground (arith, w.fits),
        omega (arith, w.fits),
        w.below,
        Above-from next (omega arith),
      )
    ]
      where
        whole : arr next < key → (next + 1 ≡ n) ⊎ Above (next + 1 - 1) → Below n
        whole less (inl e) i h = Below-to next (omega arith) less i (omega arith)
        whole less (inr a) i h =
            absurd (omega (arith, a next (omega arith) (omega (arith, w.fits)), less))

    -- The first comparison leaves a window of the width of the step.
    first-Window :
        (step : ℕ)
        → 2 ≤ n
        → 0 < step
        → step ≤ n - 1
        → n - 1 < 2 * step
        → (next : ℕ) × (advance arr n key (n - 1 - step) (n - step) 0 ≡ some next)
          × Window step next
    first-Window step two pos low high = elim (dec_lt (arr (n - 1 - step)) key) [
      | yes less ↦ (
        n - step,
        advance-below (n - 1 - step) (n - step) 0 (omega arith) less,
        record {
          fits = omega arith;
          below = λ i h. Below-to (n - 1 - step) (omega arith) less i (omega arith);
          above = inl (omega arith);
        },
      )
      | no ge ↦ (
        0,
        advance-above (n - 1 - step) (n - step) 0 (omega arith) (omega arith),
        record {
          fits = omega arith;
          below = λ i h. absurd (omega arith);
          above = inr (λ i h. Above-from (n - 1 - step) (omega arith) i (omega arith));
        },
      )
    ]

  -- On a sorted array of at least two keys the search returns, reads nothing outside the array, and
  -- gives the number of keys that are smaller than the one sought.
  pub binary_search_branchless-lower_bound :
      2 ≤ n
      → n < 2 ^ 31
      → IsSorted
      → (r : ℕ) × (binary_search_branchless arr n key ≡ some r) × (r ≤ n) × Below r × Above r
  unfolding binary_search_branchless
  binary_search_branchless-lower_bound two small sorted =
      let (low, high, few) = bsr_bounds (n - 1) (omega arith) (omega arith) in
      let (next, first, w) = first-Window sorted (2 ^ bsr (n - 1)) two (pow_pos _) low high in
      let (pos, loop, w') = search_loop-Window sorted (bsr (n - 1)) 33 next (omega arith) w in
      let (r, done, within, less, more) = finish-bound sorted pos w' in
      (
        r,
        rw (first, binary_search_branchless) (rw (loop, binary_search_branchless) done),
        within,
        less,
        more,
      )
