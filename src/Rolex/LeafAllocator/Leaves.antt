-- ===== src/Rolex/LeafAllocator/Leaves.antt =====
-- rolex/leaf_allocator.hpp: what a new allocator holds.
use outback_cxl_numa.Base.{
  ℕ, zero, suc, ◌+◌, ◌*◌, ◌/◌, ◌^◌, ◌≤◌, ◌<◌, ◌≡◌, some, ok, exited, Returns, refl, arith, mul64,
  sub64, lt→ltb,
}
use outback_cxl_numa.Rolex.LeafAllocator.{
  LeafAllocator, leaf_bytes, invalid_key, alloc, construct_leaf, prealloc_loop, prealloc_leaves,
  fresh, create_with, used_num, get_leaf, fetch_and_add,
}

-- What the loop leaves: at most the first leaf is set.
record IsFirstOnly (pool : ℕ → ℕ) (a : LeafAllocator) : Type 0 where
  unmoved : a.cur_alloc_sz ≡ 0
  keys : (i : ℕ) → i < 4 → a.pool i ≡ invalid_key
  others : (i : ℕ) → 4 ≤ i → a.pool i ≡ pool i

first-leaf :
    (pool : ℕ → ℕ) (a : LeafAllocator)
    → a.cur_alloc_sz ≡ 0
    → ((i : ℕ) → 4 ≤ i → a.pool i ≡ pool i)
    → IsFirstOnly pool (construct_leaf a 0)
unfolding construct_leaf
first-leaf pool a z others = record {
  unmoved = z;
  keys = λ i h. ground arith;
  others = λ i h. ground (arith, others i);
}

alloc-first : (a : LeafAllocator) → a.cur_alloc_sz ≡ 0 → leaf_bytes ≤ a.total_sz → alloc a ≡ some 0
unfolding alloc
alloc-first a z room = ground arith

loop-IsFirstOnly :
    (pool : ℕ → ℕ) (n : ℕ) (a : LeafAllocator)
    → leaf_bytes ≤ a.total_sz
    → IsFirstOnly pool a
    → Returns (prealloc_loop n a) (IsFirstOnly pool)
unfolding prealloc_loop
loop-IsFirstOnly pool zero a room f = (a, refl, f)
loop-IsFirstOnly pool (suc n) a room f =
    rw (alloc-first a f.unmoved room, prealloc_loop)
      (loop-IsFirstOnly pool n (construct_leaf a 0) room (first-leaf pool a f.unmoved f.others))

-- An allocator for one leaf or more.
prealloc-IsFirstOnly :
    (pool : ℕ → ℕ) (total n : ℕ)
    → leaf_bytes ≤ total
    → Returns (prealloc_leaves (suc n) (fresh pool total)) (IsFirstOnly pool)
unfolding prealloc_leaves prealloc_loop
prealloc-IsFirstOnly pool total n room =
    rw (alloc-first (fresh pool total) refl room, prealloc_loop)
      (loop-IsFirstOnly pool n (construct_leaf (fresh pool total) 0) room
        (first-leaf pool (fresh pool total) refl (λ i h. refl)))

module _ (pool : ℕ → ℕ) (a : LeafAllocator) (f : IsFirstOnly pool a) where
  get_leaf-any : (num : ℕ) → num < 2 ^ 64 → get_leaf a num ≡ ok (mul64 num leaf_bytes)
  unfolding get_leaf used_num
  get_leaf-any num h = ground (arith, f.keys 0)

  fetch_and_add-exited : fetch_and_add a ≡ exited
  unfolding fetch_and_add
  fetch_and_add-exited = ground (arith, f.keys 0)

-- A new allocator for one leaf or more, fewer than the pool could hold, has made the first leaf over
-- and over: its four keys are invalid and every other word of the pool is as before. Any 64-bit
-- number of a leaf is then accepted, inside the pool or not, and `fetch_and_add` ends the process.
pub create_with_one_leaf :
    (pool : ℕ → ℕ) (total n : ℕ)
    → total < 2 ^ 64
    → suc n * leaf_bytes + 72 ≤ total
    → Returns (create_with pool total (suc n)) λ a.
      ((i : ℕ) → i < 4 → a.pool i ≡ invalid_key)
      × ((i : ℕ) → 4 ≤ i → a.pool i ≡ pool i)
      × ((num : ℕ) → num < 2 ^ 64 → get_leaf a num ≡ ok (mul64 num leaf_bytes))
      × (fetch_and_add a ≡ exited)
unfolding create_with
create_with_one_leaf pool total n small room =
    let (a, run, f) = prealloc-IsFirstOnly pool total n (omega arith) in
    (
      a,
      rw (lt→ltb (suc n) (sub64 total 8 / leaf_bytes) (omega arith)) run,
      (f.keys, f.others, get_leaf-any pool a f, fetch_and_add-exited pool a f),
    )
