-- ===== src/Rolex/LeafAllocator.antt =====
-- rolex/leaf_allocator.hpp: the allocator of preallocated leaves, over a pool of 64-bit words. A leaf
-- is four keys and four values; its constructor sets the keys and leaves the values. The spin lock is
-- taken and released within each call. An assertion that fails ends the process.
pub mod Leaves
use outback_cxl_numa.Base.{
  ℕ, zero, suc, ◌+◌, ◌-◌, ◌*◌, ◌/◌, ◌^◌, Option, none, some, Run, ok, exited, ◌>>=◌, add64, sub64,
  mul64, ltb, leb, ◌==◌, if◌then◌else◌, Bool, true, false, ◌&&◌,
}

-- `sizeof(leaf_t)`
abbrev pub leaf_bytes : ℕ
leaf_bytes = 64

-- `invalidKey()`
abbrev pub invalid_key : ℕ
invalid_key = 2 ^ 64 - 1

-- `pool i` is the i-th word behind `mem_pool`; sizes are in bytes.
pub record LeafAllocator : Type 0 where
  pub pool : ℕ → ℕ
  pub total_sz : ℕ
  pub cur_alloc_sz : ℕ

-- The offset of the memory that is given out. `cur_alloc_sz` does not move.
unfoldable pub alloc : LeafAllocator → Option ℕ
alloc a = if leb (add64 a.cur_alloc_sz leaf_bytes) a.total_sz then some a.cur_alloc_sz else none

-- `new (...) Leaf()` at an offset
unfoldable pub construct_leaf : LeafAllocator → ℕ → LeafAllocator
construct_leaf a offset = record a {
  pool = λ i. if leb (offset / 8) i && ltb i (offset / 8 + 4) then invalid_key else a.pool i;
}

-- The loop of `prealloc_leaves`, with `n` leaves left; `value()` of no memory ends the process. The
-- counter is an `int`: it overflows from 2 ^ 31 leaves on, and this is the loop for fewer.
unfoldable pub prealloc_loop : ℕ → LeafAllocator → Run LeafAllocator
unfolding alloc construct_leaf
prealloc_loop zero a = ok a
prealloc_loop (suc n) a = elim (alloc a) [
  | none ↦ exited
  | some offset ↦ prealloc_loop n (construct_leaf a offset)
]

unfoldable pub prealloc_leaves : ℕ → LeafAllocator → Run LeafAllocator
unfolding prealloc_loop
prealloc_leaves leaf_num a = if a.cur_alloc_sz == 0 then prealloc_loop leaf_num a else exited

abbrev pub fresh : (ℕ → ℕ) → ℕ → LeafAllocator
fresh pool total = record { pool = pool; total_sz = total; cur_alloc_sz = 0 }

-- The two constructors.
unfoldable pub create : (ℕ → ℕ) → ℕ → Run LeafAllocator
unfolding prealloc_leaves
create pool total = prealloc_leaves (sub64 total 8 / leaf_bytes) (fresh pool total)

unfoldable pub create_with : (ℕ → ℕ) → ℕ → ℕ → Run LeafAllocator
unfolding prealloc_leaves
create_with pool total leaf_num =
    if ltb leaf_num (sub64 total 8 / leaf_bytes)
    then prealloc_leaves leaf_num (fresh pool total)
    else exited

unfoldable pub used_num : LeafAllocator → ℕ
used_num a = a.pool 0

unfoldable pub allocated_num : LeafAllocator → ℕ
allocated_num a = a.pool 1

-- The offset of a leaf.
unfoldable pub get_leaf : LeafAllocator → ℕ → Run ℕ
unfolding used_num
get_leaf a num = if leb num (used_num a) then ok (mul64 num leaf_bytes) else exited

-- The count in the pool is read twice, and never written.
unfoldable pub fetch_and_add : LeafAllocator → Run ℕ
fetch_and_add a = if add64 (a.pool 0) 1 == a.pool 0 then ok (a.pool 0) else exited
