-- ===== src/Tests/Indexes.antt =====
-- The RDMA handlers, the RACE table and the leaf on small instances.
use outback_cxl_numa.Base.{◌∷◌, [], ℕ, ◌+◌, ◌*◌, ◌%◌, ◌^◌, ◌≡◌, arith, none, ◌==◌, if◌then◌else◌}
use outback_cxl_numa.Slot.{fingerprint}
use outback_cxl_numa.Rdma.{RdmaServer}
use outback_cxl_numa.Race.{CuckooBucket, RaceHashTable}
use outback_cxl_numa.Leaf.{Leaf, search, remove}
use outback_cxl_numa.Leaf.Reads.{remove_reads}
use outback_cxl_numa.NumaMemory.{NumaAllocator, aligned}
use outback_cxl_numa.NumaMemory.Allocs.{AreApart, alloc_all, alloc_all-AreApart}
use outback_cxl_numa.Tests.{test_ludo, empty_packed}

-- Row 1 has a foreign word in slot 3, where key 5 belongs under seed 3.
abbrev pub occupied_server : RdmaServer ℕ
occupied_server = record {
  packed = empty_packed;
  seeds = λ row. 3;
  lru = 0;
  buckets = record {
    num_elements = 4;
    slots = λ row slot.
        if slot == 3
        then 2 ^ 63 + (fingerprint test_ludo 5 + 1) % 2 ^ 7 * 2 ^ 56 + 64 * 2 ^ 40
        else 0;
  };
}

abbrev empty_bucket : CuckooBucket
empty_bucket = record { occupied = 0; fps = λ s. 0; lens = λ s. 0; addrs = λ s. 0 }

abbrev empty_table : RaceHashTable
empty_table = record { cuckoo_buckets = λ b. empty_bucket; nsize = 6 }

abbrev small_leaf : Leaf
small_leaf = record { keys = λ i. i + 10; vals = λ i. i }

remove_reads_example : search 4 (remove 4 small_leaf 12).1 12 ≡ none
remove_reads_example = (remove_reads 4 small_leaf 12 (omega arith) (λ i j hi hj e f. omega arith)).1

abbrev small_allocator : NumaAllocator
small_allocator = record { region = record { ptr = 4096; size = 256 }; offset = 64 }

alloc_all-AreApart_example :
    AreApart small_allocator (alloc_all small_allocator (10 ∷ 100 ∷ 64 ∷ []))
unfolding aligned
alloc_all-AreApart_example = alloc_all-AreApart small_allocator (10 ∷ 100 ∷ 64 ∷ []) (omega arith)
