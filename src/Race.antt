-- ===== src/Race.antt =====
-- race/race_table.hh: the RACE hash table. Buckets come in groups of three; a key has two main buckets,
-- at the ends of two groups, and the middle bucket of a group is the overflow of both ends. (The
-- kicking variant is compiled out; `lookup` is not modelled, since it has no caller.)
pub mod Index
pub mod Insert
use Prim.Native.Nat.{bit_xor}
use outback_cxl_numa.Base.{
  ℕ, zero, suc, ◌+◌, ◌-◌, ◌*◌, ◌/◌, ◌%◌, ◌^◌, Bool, true, false, Option, none, some, List, [], ◌∷◌,
  add64, sub64, mul64, ltb, ◌==◌, if◌then◌else◌, update, min,
}

pub record CuckooBucket : Type 0 where
  pub occupied : ℕ
  pub fps : ℕ → ℕ
  pub lens : ℕ → ℕ
  pub addrs : ℕ → ℕ

pub record RaceHashTable : Type 0 where
  pub cuckoo_buckets : ℕ → CuckooBucket
  pub nsize : ℕ

-- `msize`, as both constructors set it.
abbrev pub msize : RaceHashTable → ℕ
msize t = t.nsize * 2 / 3

abbrev pub bucket_bytes : ℕ
bucket_bytes = 64

abbrev pub murmur_m : ℕ
murmur_m = 0xc6a4a7935bd1e995

-- `h ^= h >> r`
abbrev pub xor_shift : ℕ → ℕ
xor_shift h = bit_xor h (h / 2 ^ 47)

unfoldable pub murmur_hash64 : ℕ → ℕ → ℕ
murmur_hash64 key seed =
    let h = bit_xor seed (mul64 8 murmur_m) in
    let k = mul64 (xor_shift (mul64 key murmur_m)) murmur_m in
    xor_shift (mul64 (xor_shift (mul64 (bit_xor h k) murmur_m)) murmur_m)

unfoldable pub fingerprint : ℕ → ℕ
unfolding murmur_hash64
fingerprint key = murmur_hash64 key 0x87654321 % 2 ^ 8

-- The comparison with 0 of an unsigned number is written as the code has it.
unfoldable pub hash_to_cuckoo_index : RaceHashTable → ℕ → ℕ
hash_to_cuckoo_index t hashindex =
    if hashindex % 2 == 1
    then if ltb 0 (sub64 (mul64 3 (hashindex / 2 + 1)) 1)
      then sub64 (mul64 3 (hashindex / 2 + 1)) 1
      else 0
    else if ltb (mul64 3 (hashindex / 2)) (sub64 t.nsize 1)
    then mul64 3 (hashindex / 2)
    else sub64 t.nsize 1

unfoldable pub cuckoo_hash : RaceHashTable → ℕ → ℕ × ℕ
unfolding murmur_hash64 hash_to_cuckoo_index
cuckoo_hash t key =
    let seed = murmur_hash64 key 0x1234 in
    let hash = bit_xor seed (add64 (add64 0x9e3779b9 (mul64 seed (2 ^ 6))) (seed / 2 ^ 2)) in
    (hash_to_cuckoo_index t (seed % msize t), hash_to_cuckoo_index t (hash % msize t))

-- The overflow bucket of a main bucket, unless that lies outside of the table.
unfoldable pub spare_bucket : RaceHashTable → ℕ → Option ℕ
spare_bucket t b =
    if b % 3 == 0
    then if ltb (b + 1) t.nsize then some (b + 1) else none
    else if b % 3 == 2
    then if ltb (b - 1) t.nsize then some (b - 1) else none
    else none

abbrev or_main : ℕ → Option ℕ → ℕ
or_main b none = b
or_main b (some s) = s

unfoldable pub spare_buckets_num : RaceHashTable → ℕ → ℕ
unfolding spare_bucket
spare_buckets_num t b = or_main b (spare_bucket t b)

abbrev pub is_free : CuckooBucket → ℕ → Bool
is_free b slot = b.occupied / 2 ^ slot % 2 == 0

-- The slot's bit is clear, so that setting it adds its weight.
unfoldable pub fill_slot : CuckooBucket → ℕ → ℕ → ℕ → ℕ → CuckooBucket
unfolding fingerprint
fill_slot b slot key addr len = record {
  fps = update b.fps slot (fingerprint key);
  addrs = update b.addrs slot addr;
  lens = update b.lens slot len;
  occupied = b.occupied + 2 ^ slot;
}

-- The first free slot from `slot` on, with `n` left.
unfoldable pub free_slot : CuckooBucket → ℕ → ℕ → Option ℕ
free_slot b zero slot = none
free_slot b (suc n) slot =
    let rest = free_slot b n (slot + 1) in if is_free b slot then some slot else rest

abbrev pub store : RaceHashTable → ℕ → ℕ → ℕ → ℕ → ℕ → RaceHashTable
store t b slot key addr len = record t {
  cuckoo_buckets = update t.cuckoo_buckets b (fill_slot (t.cuckoo_buckets b) slot key addr len);
}

-- The first of the buckets that has a free slot takes the key.
unfoldable pub try_buckets : RaceHashTable → List ℕ → ℕ → ℕ → ℕ → Option RaceHashTable
unfolding free_slot fill_slot
try_buckets t [] key addr len = none
try_buckets t (b ∷ bs) key addr len =
    let rest = try_buckets t bs key addr len in
    elim (free_slot (t.cuckoo_buckets b) 4 0) [
      | some slot ↦ some (store t b slot key addr len)
      | none ↦ rest
    ]

-- The main buckets, then their overflows, which are tried only when the main ones are full.
unfoldable pub candidates : RaceHashTable → ℕ → List ℕ
unfolding cuckoo_hash spare_buckets_num
candidates t key =
    let (b0, b1) = cuckoo_hash t key in
    b0 ∷ b1 ∷ spare_buckets_num t b0 ∷ spare_buckets_num t b1 ∷ []

unfoldable pub insert : RaceHashTable → ℕ → ℕ → ℕ → Bool × RaceHashTable
unfolding candidates try_buckets
insert t key addr len = elim (try_buckets t (candidates t key) key addr len) [
  | some t' ↦ (true, t')
  | none ↦ (false, t)
]

-- The loop of `bulkload` from key number `i` on; a failed insertion is passed over.
unfoldable pub bulkload : RaceHashTable → List ℕ → ℕ → RaceHashTable
unfolding insert
bulkload t [] i = t
bulkload t (k ∷ ks) i = bulkload (insert t k i 16).1 ks (i + 1)

-- Offset and size of the read that serves a main bucket. Without an overflow the comparison is with -1
-- as an unsigned number, or with a bucket outside of the table.
unfoldable pub remote_read : RaceHashTable → ℕ → ℕ × ℕ
remote_read t b =
    let spare = if b % 3 == 0 then b + 1 else if b % 3 == 2 then b - 1 else 2 ^ 64 - 1 in
    let first = if ltb b spare then b else spare in
    (first * bucket_bytes, if ltb spare t.nsize then 2 * bucket_bytes else bucket_bytes)

unfoldable pub remote_lookup : RaceHashTable → ℕ → ℕ × ℕ
unfolding cuckoo_hash remote_read
remote_lookup t key = remote_read t (cuckoo_hash t key).0

unfoldable pub total_size : RaceHashTable → ℕ
total_size t = t.nsize * 64
