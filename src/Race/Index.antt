-- ===== src/Race/Index.antt =====
-- race/race_table.hh: where a key's buckets lie, and what the remote read takes in.
use outback_cxl_numa.Base.{ℕ, ◌+◌, ◌*◌, ◌/◌, ◌%◌, ◌^◌, ◌≤◌, ◌<◌, ◌≡◌, ◌≢◌, arith, some, All}
use native.Mathlib.Nat.{mod-lt}
use outback_cxl_numa.Race.{
  RaceHashTable, msize, hash_to_cuckoo_index, cuckoo_hash, spare_bucket, spare_buckets_num,
  candidates, remote_read, remote_lookup, bucket_bytes, total_size,
}

-- The bytes of bucket `b` lie in the read.
abbrev pub Covers : ℕ × ℕ → ℕ → Type 0
Covers r b = (r.0 ≤ b * bucket_bytes) × ((b + 1) * bucket_bytes ≤ r.0 + r.1)

module _ (t : RaceHashTable) (some_groups : 3 ≤ t.nsize) (small : t.nsize < 2 ^ 60) where
  -- Every index below `msize` gives a main bucket of the table: the first or the last of its group.
  pub index-within :
      (i : ℕ)
      → i < msize t
      → (hash_to_cuckoo_index t i < t.nsize)
        × (hash_to_cuckoo_index t i ≡ 3 * (i / 2) + 2 * (i % 2))
  unfolding hash_to_cuckoo_index
  index-within i h = ground arith

  spare-within : (b : ℕ) → b < t.nsize → spare_buckets_num t b < t.nsize
  unfolding spare_buckets_num spare_bucket
  spare-within b h = ground arith

  -- Every bucket that an insertion tries lies in the table.
  pub candidates_within : (key : ℕ) → All (λ b. b < t.nsize) (candidates t key)
  unfolding candidates cuckoo_hash
  candidates_within key =
      let m : 0 < msize t = omega arith in
      let a = (index-within _ (mod-lt _ m)).0 in
      let b = (index-within _ (mod-lt _ m)).0 in
      (a, (b, (spare-within _ a, (spare-within _ b, tt))))

  lookup-Covers :
      (b : ℕ)
      → b < t.nsize
      → b % 3 ≢ 1
      → Covers (remote_read t b) b
        × ((s : ℕ) → spare_bucket t b ≡ some s → Covers (remote_read t b) s)
        × ((remote_read t b).0 + (remote_read t b).1 ≤ total_size t)
  unfolding remote_read spare_bucket total_size
  lookup-Covers b h m = (ground arith, λ s e. ground arith, ground arith)

  -- The read for a key covers its first main bucket and that bucket's overflow, if it has one, and
  -- stays within the table.
  pub remote_lookup-Covers :
      (key : ℕ)
      → Covers (remote_lookup t key) (cuckoo_hash t key).0
        × ((s : ℕ) → spare_bucket t (cuckoo_hash t key).0 ≡ some s → Covers (remote_lookup t key) s)
        × ((remote_lookup t key).0 + (remote_lookup t key).1 ≤ total_size t)
  unfolding remote_lookup cuckoo_hash
  remote_lookup-Covers key =
      let m : 0 < msize t = omega arith in
      let (lt, e) = index-within _ (mod-lt _ m) in lookup-Covers _ lt (omega (arith, e))
