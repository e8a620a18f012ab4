-- ===== src/NumaMemory/Allocs.antt =====
-- xutils/numa_memory.hh, `NumaAllocator::alloc`: the blocks of successive calls.
use outback_cxl_numa.Base.{
  ℕ, ◌+◌, ◌^◌, ◌≤◌, ◌<◌, ◌≡◌, arith, false, Option, none, some, List, [], ◌∷◌, All, All-map, ltb,
  add64, if_cases,
}
use outback_cxl_numa.NumaMemory.{NumaAllocator, aligned, alloc}

abbrev with_block : Option ℕ → ℕ → List (ℕ × ℕ) → List (ℕ × ℕ)
with_block none size rest = rest
with_block (some p) size rest = (p, size) ∷ rest

-- The blocks that are given out for the sizes, each with the size that was asked for.
pub alloc_all : NumaAllocator → List ℕ → List (ℕ × ℕ)
alloc_all a [] = []
alloc_all a (size ∷ sizes) =
    let (got, a') = alloc a size in let rest = alloc_all a' sizes in with_block got size rest

-- The sizes, each with the most that is added to align it.
abbrev pub total : List ℕ → ℕ
total [] = 0
total (size ∷ sizes) = size + 63 + total sizes

-- Each block ends before every later one begins.
abbrev pub Apart : List (ℕ × ℕ) → Type 0
Apart [] = Unit
Apart (b ∷ bs) = All (λ c. b.0 + b.1 ≤ c.0) bs × Apart bs

-- From the allocator's offset on, and within its region.
abbrev pub Within : NumaAllocator → ℕ × ℕ → Type 0
Within a b = (a.region.ptr + a.offset ≤ b.0) × (b.0 + b.1 ≤ a.region.ptr + a.region.size)

-- What holds of the blocks from allocator `a` on.
abbrev pub AreApart : NumaAllocator → List (ℕ × ℕ) → Type 0
AreApart a bs = All (Within a) bs × Apart bs

aligned-bounds :
    (size : ℕ) → size + 63 < 2 ^ 64 → (size ≤ aligned size) × (aligned size ≤ size + 63)
unfolding aligned
aligned-bounds size h = (ground arith, ground arith)

module _ (a : NumaAllocator) (size : ℕ) (covers : size ≤ aligned size)
    (no_wrap : a.offset + aligned size < 2 ^ 64) where
  abbrev moved : NumaAllocator
  moved = record a { offset = add64 a.offset (aligned size) }

  moved-Within : (b : ℕ × ℕ) → Within moved b → Within a b
  moved-Within b (lo, hi) = (omega arith, hi)

  skip-AreApart : (bs : List (ℕ × ℕ)) → AreApart moved bs → AreApart a bs
  skip-AreApart bs (all, apart) = (All-map (Within moved) (Within a) moved-Within bs all, apart)

  add-AreApart :
      (bs : List (ℕ × ℕ))
      → ltb a.region.size (add64 a.offset (aligned size)) ≡ false
      → AreApart moved bs
      → AreApart a ((a.region.ptr + a.offset, size) ∷ bs)
  add-AreApart bs fits (all, apart) = (
    ((omega arith, ground arith), (skip-AreApart bs (all, apart)).0),
    (
      All-map (Within moved) (λ c. a.region.ptr + a.offset + size ≤ c.0) (λ c w. omega (arith, w.0))
          bs all,
      apart,
    ),
  )

-- As long as the offset, the sizes and 63 bytes for each of them together are below 2 ^ 64, the blocks
-- that are given out, with the sizes that were asked for, lie within the region, from the allocator's
-- offset on, and each ends before every later one begins.
pub alloc_all-AreApart :
    (a : NumaAllocator) (sizes : List ℕ)
    → a.offset + total sizes < 2 ^ 64
    → AreApart a (alloc_all a sizes)
unfolding alloc_all alloc
alloc_all-AreApart a [] h = (tt, tt)
alloc_all-AreApart a (size ∷ sizes) h =
    let (covers, above) = aligned-bounds size (omega arith) in
    let no_wrap : a.offset + aligned size < 2 ^ 64 = omega arith in
    let a' : NumaAllocator = record a { offset = add64 a.offset (aligned size) } in
    let rest = alloc_all-AreApart a' sizes (omega arith) in
    if_cases
      (λ (r : Option ℕ × NumaAllocator). AreApart a (with_block r.0 size (alloc_all r.1 sizes)))
      (ltb a.region.size (add64 a.offset (aligned size)))
      (λ _. skip-AreApart a size covers no_wrap (alloc_all a' sizes) rest)
      (λ f. add-AreApart a size covers no_wrap (alloc_all a' sizes) f rest)
