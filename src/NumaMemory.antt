-- ===== src/NumaMemory.antt =====
-- xutils/numa_memory.hh: a region of NUMA memory, the bump allocator over it, and the handle through
-- which its bytes are read and written.
pub mod Allocs
pub mod Handle
use outback_cxl_numa.Base.{
  ℕ, zero, suc, length, ◌+◌, ◌*◌, ◌/◌, ◌%◌, ◌^◌, Bool, true, false, Option, none, some, List, [],
  ◌∷◌, add64, ltb, leb, if◌then◌else◌, update,
}

-- A region at an address.
pub record NumaRegion : Type 0 where
  pub ptr : ℕ
  pub size : ℕ

unfoldable pub contains : NumaRegion → ℕ → Bool
contains r p = if leb r.ptr p then ltb p (add64 r.ptr r.size) else false

pub record NumaAllocator : Type 0 where
  pub region : NumaRegion
  pub offset : ℕ

-- `(size + 63) & ~63`
unfoldable pub aligned : ℕ → ℕ
aligned size = add64 size 63 / 64 * 64

-- The offset moves on even if the region is used up.
unfoldable pub alloc : NumaAllocator → ℕ → Option ℕ × NumaAllocator
unfolding aligned
alloc a size =
    let current = a.offset in
    let a' = record a { offset = add64 current (aligned size) } in
    if ltb a.region.size (add64 current (aligned size))
    then (none, a')
    else (some (a.region.ptr + current), a')

abbrev or_own : Option ℕ → Option ℕ → Option ℕ
or_own none own = own
or_own (some n) own = some n

-- `NumaRegion::create`: is the library there, the node of the calling thread and the highest one, and
-- what `numa_alloc_onnode` gives. A node is `none` for -1, which asks for the thread's own.
unfoldable pub create : Bool → Option ℕ → ℕ → Option ℕ → ℕ → Option ℕ → Option NumaRegion
create available own max_node memory size node =
    if available
    then elim (or_own node own) [
      | none ↦ none
      | some n ↦
          if ltb max_node n
          then none
          else elim memory [ none ↦ none | some p ↦ some (record { ptr = p; size = size }) ]
    ]
    else none

pub record NumaMemHandle : Type 0 where
  pub base_addr : ℕ
  pub size : ℕ

-- `len` bytes of memory from an address on, and a write of bytes there. Addresses have 64 bits.
unfoldable pub load : (ℕ → ℕ) → ℕ → ℕ → List ℕ
load memory at zero = []
load memory at (suc len) = memory (at % 2 ^ 64) ∷ load memory (at + 1) len

unfoldable pub store : (ℕ → ℕ) → ℕ → List ℕ → ℕ → ℕ
store memory at [] = memory
store memory at (b ∷ bs) = store (update memory (at % 2 ^ 64) b) (at + 1) bs

-- `none` is the exception `out_of_range`.
unfoldable pub read : NumaMemHandle → (ℕ → ℕ) → ℕ → ℕ → Option (List ℕ)
unfolding load
read h memory offset len =
    if ltb h.size (add64 offset len) then none else some (load memory (h.base_addr + offset) len)

unfoldable pub write : NumaMemHandle → (ℕ → ℕ) → ℕ → List ℕ → Option (ℕ → ℕ)
unfolding store
write h memory offset value =
    if ltb h.size (add64 offset (length value))
    then none
    else some (store memory (h.base_addr + offset) value)

unfoldable pub get_ptr : NumaMemHandle → ℕ → Option ℕ
get_ptr h offset = if ltb h.size offset then none else some (h.base_addr + offset)
