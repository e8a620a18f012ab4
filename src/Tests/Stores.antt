-- ===== src/Tests/Stores.antt =====
-- The slot words, the packed array, the server's handlers and the lanes on small stores.
use outback_cxl_numa.Base.{ℕ, ◌≡◌, ◌≢◌, refl, arith, true, false, some, [], ◌∷◌, Returns}
use outback_cxl_numa.Slot.{combine, to_addr, read_addr, write_addr}
use outback_cxl_numa.Slot.Buckets.{slot_length}
use outback_cxl_numa.Packed.{read_key}
use outback_cxl_numa.Store.{append-IsPlaced}
use outback_cxl_numa.Deferred.{Deferred}
use outback_cxl_numa.Server.{
  Server, Reply, outback_put_direct, outback_get_direct, outback_remove_direct,
  outback_update_direct, seed_slot,
}
use outback_cxl_numa.Server.Put.{PutMeans, put_direct_reads}
use outback_cxl_numa.Server.Stored.{IsValid, stored}
use outback_cxl_numa.Server.Remove.{key_at, update_direct_reads, remove_direct_reads}
use outback_cxl_numa.Server.Blocked.{JoinsDeletes, blocked_defers}
use outback_cxl_numa.Registry.{normal}
use outback_cxl_numa.Registry.Lanes.{lanes_of, alloc_all, Distinct}
use outback_cxl_numa.Registry.Lanes.Disjoint.{alloc_all_disjoint}
use outback_cxl_numa.Registry.Lock.{lock_step, lock_run, unlocked, inside, lock_run_exclusive}
use outback_cxl_numa.Tests.{
  empty-IsLinked, test_registry, test_ludo, empty_buckets, empty_packed, test_cache, empty_server,
  no_deferred,
}

-- Key 5 belongs to row 1 and, under seed 3, to slot 3 of it: location 7.
abbrev first_reply : Reply
first_reply = record { status = false; val = 0 }

put_direct_reads_example :
    Returns
      (outback_put_direct test_ludo test_cache 1 empty_server 7 5 50 first_reply)
      (PutMeans test_ludo empty_server 7 5 50)
unfolding seed_slot
put_direct_reads_example =
    put_direct_reads test_ludo empty_server empty-IsLinked.base (omega arith) 7 5 50 test_cache 1
      first_reply refl refl

-- The server that holds key 5 with value 50.
abbrev one_server : Server ℕ
one_server = stored test_ludo empty_server 5 50 1 3

one-IsValid : IsValid test_ludo one_server
one-IsValid =
    append-IsPlaced test_ludo empty_buckets empty_packed 5 50 1 3 (omega arith) empty-IsLinked.base

one-key : key_at test_ludo one_server 7 5 ≡ 5
unfolding read_key read_addr write_addr combine to_addr
one-key = refl

update_direct_reads_example :
    outback_get_direct (outback_update_direct one_server 7 5 60).1 7
    ≡ record { status = true; val = 60 }
update_direct_reads_example =
    ((update_direct_reads test_ludo one_server 7 5 60 one-IsValid).2 one-key).1

remove_direct_reads_example : slot_length (outback_remove_direct 1 one_server 7 5).1.buckets 1 3 ≡ 0
remove_direct_reads_example =
    (remove_direct_reads test_ludo one_server 7 5 1 refl one-IsValid).3 one-key

abbrev blocked_server : Server ℕ
blocked_server = record empty_server { blocked = true }

blocked_defers_example :
    (d : Deferred) × ((outback_remove_direct 1 blocked_server 7 5).1.hook ≡ some d)
    × JoinsDeletes 1 5 no_deferred d
blocked_defers_example =
    (blocked_defers test_ludo blocked_server no_deferred test_cache 1 7 5 50 first_reply refl
        refl).4
      (omega arith)

alloc_all_disjoint_example : Distinct (alloc_all (test_registry normal) (0 ∷ 1 ∷ 0 ∷ []))
unfolding lanes_of
alloc_all_disjoint_example =
    (alloc_all_disjoint 8 (test_registry normal) (0 ∷ 1 ∷ 0 ∷ []) (λ l h. refl)
      (λ l h. omega arith)).0

lock_run_exclusive_example : (lock_run (4 ∷ 4 ∷ 7 ∷ 4 ∷ []) unlocked).pc 7 ≢ inside
unfolding lock_run lock_step
lock_run_exclusive_example = (lock_run_exclusive (4 ∷ 4 ∷ 7 ∷ 4 ∷ [])).1 refl 7
