-- ===== src/Registry/Layout.antt =====
-- The layout of a data region: the packed array, the buckets and the lock bytes, one after the
-- other. `setup_ludo_table` (benchs/outback/server_numa.cc) and `do_copy`
-- (outback/outback_resize.hh) compute it alike.
use outback_cxl_numa.Base.{
  ℕ, ◌+◌, ◌-◌, ◌*◌, ◌/◌, ◌%◌, ◌^◌, ◌≤◌, ◌<◌, ◌≡◌, add64, mul64, wrap64, arith,
}
use outback_cxl_numa.Packed.{sizeof_packed_struct}

-- `(value + alignment - 1) & ~(alignment - 1)`, for an alignment that is a power of two
unfoldable pub align_up : ℕ → ℕ → ℕ
align_up value alignment = wrap64 (value + alignment - 1) / alignment * alignment

pub record Geometry : Type 0 where
  pub packed_off : ℕ
  pub ludo_off : ℕ
  pub lock_off : ℕ
  pub total_size : ℕ

unfoldable pub geometry : ℕ → ℕ → ℕ → Geometry
unfolding align_up
geometry data_entries num_buckets bucket_size =
    let packed_size = mul64 data_entries sizeof_packed_struct in
    let ludo_size = mul64 num_buckets bucket_size in
    let lock_size = num_buckets in
    let packed_off = align_up 0 64 in
    let ludo_off = align_up (add64 packed_off packed_size) 64 in
    let lock_off = align_up (add64 ludo_off ludo_size) 64 in
    let total_size = align_up (add64 lock_off lock_size) 4096 in
    record {
      packed_off = packed_off;
      ludo_off = ludo_off;
      lock_off = lock_off;
      total_size = total_size;
    }

-- The three arrays lie one after the other within the region, do not overlap, and start at a cache
-- line; the region is a whole number of pages.
pub record IsLaidOut (data_entries num_buckets bucket_size : ℕ) (g : Geometry) : Type 0 where
  pub packed_fits : g.packed_off + data_entries * sizeof_packed_struct ≤ g.ludo_off
  pub ludo_fits : g.ludo_off + num_buckets * bucket_size ≤ g.lock_off
  pub lock_fits : g.lock_off + num_buckets ≤ g.total_size
  pub packed_aligned : g.packed_off % 64 ≡ 0
  pub ludo_aligned : g.ludo_off % 64 ≡ 0
  pub lock_aligned : g.lock_off % 64 ≡ 0
  pub page_aligned : g.total_size % 4096 ≡ 0

-- A region of fewer than 2 ^ 56 entries and of fewer than 2 ^ 61 buckets and bucket bytes is laid out
-- as the code means it to be.
pub geometry-IsLaidOut :
    (data_entries num_buckets bucket_size : ℕ)
    → data_entries < 2 ^ 56
    → num_buckets < 2 ^ 61
    → num_buckets * bucket_size < 2 ^ 61
    → IsLaidOut data_entries num_buckets bucket_size (geometry data_entries num_buckets bucket_size)
unfolding geometry
geometry-IsLaidOut d n s hd hn hs = omega arith
