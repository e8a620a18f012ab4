-- ===== src/Server.antt =====
-- outback/outback_server_numa.hh: the server's handlers, called directly. A handler runs under the
-- mutex of its row, so that it is one step.
pub mod Stored
pub mod Put
pub mod Remove
pub mod Blocked
use outback_cxl_numa.Base.{
  ℕ, ◌+◌, ◌*◌, ◌/◌, ◌%◌, ◌^◌, Bool, true, false, Option, none, some, List, [], Run, ok, ◌>>=◌, ◌==◌,
  if◌then◌else◌,
}
use outback_cxl_numa.Ludo.{Ludo}
use outback_cxl_numa.Slot.{
  LudoBuckets, slots_num_bucket, check_slots, read_addr, write_addr, remove_addr, set_cachebit,
}
use outback_cxl_numa.Packed.{
  PackedData, sizeof_val, read_key, update_data, bulk_load_data, remove_data_with_key_check,
}
use outback_cxl_numa.Registry.{code, deferred}
use outback_cxl_numa.Deferred.{Deferred, defer_insert, defer_delete}

-- `ReplyValue` of benchs/rolex_util_back.hh
pub record Reply : Type 0 where
  pub status : Bool
  pub val : ℕ

-- outback/cache.hh is a copy of LRUCache11: its `insert`, over the type of its states.
pub record Lru (C : Type 0) : Type 0 where
  pub insert : ℕ → ℕ → C → C

-- The globals. `hook` is the orchestrator's queues, when the pointer to it and the two functions
-- are set; `seeds row` is `ludo_lookup_unit->buckets[row].seed`.
pub record Server (C : Type 0) : Type 0 where
  pub buckets : LudoBuckets
  pub packed : PackedData
  pub seeds : ℕ → ℕ
  pub lru : Option C
  pub blocked : Bool
  pub hook : Option Deferred

-- The first of the four slots that `check_slots` finds empty.
unfoldable pub first_free : Ludo → LudoBuckets → ℕ → ℕ → Option ℕ
first_free ludo b key row =
    if check_slots ludo b key row 0 == 0
    then some 0
    else if check_slots ludo b key row 1 == 0
    then some 1
    else if check_slots ludo b key row 2 == 0
    then some 2
    else if check_slots ludo b key row 3 == 0
    then some 3
    else none

-- The slot that the newest seed of the row gives the key: the top two bits of its hash.
unfoldable pub seed_slot : Ludo → (ℕ → ℕ) → ℕ → ℕ → ℕ
seed_slot ludo seeds row key = ludo.hash (seeds row) key / 2 ^ 62

-- `outback_scan_direct` clears the result and leaves it empty.
unfoldable pub outback_scan_direct : ℕ → ℕ → List ℕ → List ℕ
outback_scan_direct key n result = []

module _ {C : Type 0} where
  unfoldable pub outback_get_direct : Server C → ℕ → Reply
  outback_get_direct s loc =
      let addr = read_addr s.buckets (loc / slots_num_bucket) (loc % slots_num_bucket) in
      record { status = true; val = (s.packed.raw_array addr).value }

  unfoldable pub defer_put : ℕ → Server C → ℕ → ℕ → Server C
  defer_put now s key val = elim s.hook [
    | none ↦ s
    | some d ↦ record s { hook = some (defer_insert now d key val).1 }
  ]

  -- Case 1: the fingerprint agrees. Another key with that fingerprint is refused.
  unfoldable pub put_matched : Server C → ℕ → ℕ → ℕ → ℕ → Reply × Server C
  put_matched s key val row slot =
      let addr = read_addr s.buckets row slot in
      if read_key s.packed addr == key
      then (
        record { status = true; val = 1 },
        record s { packed = update_data s.packed addr key 64 val },
      )
      else (record { status = false; val = 0 }, s)

  -- Case 3: the row is full, and the key goes to the cache.
  unfoldable pub put_full : Lru C → Server C → ℕ → ℕ → ℕ → ℕ → Reply × Server C
  put_full cache s key val row slot = (
    record { status = true; val = 2 ^ 8 + s.seeds row % 2 ^ 8 },
    elim s.lru [
      | none ↦ s
      | some c ↦ record s {
        lru = some (cache.insert key val c);
        buckets = set_cachebit s.buckets row slot;
      }
    ],
  )

  unfoldable pub outback_update_direct : Server C → ℕ → ℕ → ℕ → Reply × Server C
  outback_update_direct s loc key val =
      let addr = read_addr s.buckets (loc / slots_num_bucket) (loc % slots_num_bucket) in
      if read_key s.packed addr == key
      then (
        record { status = true; val = 1 },
        record s { packed = update_data s.packed addr key 64 val },
      )
      else (record { status = false; val = 0 }, s)

  unfoldable pub defer_remove : ℕ → Server C → ℕ → Server C
  defer_remove now s key = elim s.hook [
    | none ↦ s
    | some d ↦ record s { hook = some (defer_delete now d key).1 }
  ]

  unfoldable pub outback_remove_direct : ℕ → Server C → ℕ → ℕ → Reply × Server C
  unfolding defer_remove
  outback_remove_direct now s loc key =
      if s.blocked
      then (record { status = false; val = code deferred }, defer_remove now s key)
      else let row = loc / slots_num_bucket in
        let slot = loc % slots_num_bucket in
        let (res, packed) =
          remove_data_with_key_check s.packed (read_addr s.buckets row slot) key in
        (
          record { status = true; val = 0 },
          if res
              then record s { packed = packed; buckets = remove_addr s.buckets row slot }
              else record s { packed = packed },
        )

module _ {C : Type 0} (ludo : Ludo) where
  -- A new entry, and its address in the given slot.
  unfoldable pub store_new : Server C → ℕ → ℕ → ℕ → ℕ → Run (Server C)
  store_new s key val row slot = do
    (addr, packed) ← bulk_load_data s.packed key sizeof_val val
    ok (record s { buckets = write_addr ludo s.buckets key row slot addr 64; packed = packed })

  -- Case 0: the slot is empty.
  unfoldable pub put_empty : Server C → ℕ → ℕ → ℕ → ℕ → Run (Reply × Server C)
  unfolding store_new
  put_empty s key val row slot = do
    s' ← store_new s key val row slot
    ok (record { status = true; val = 0 }, s')

  -- Case 2: the first empty slot of the row. `reply` is what the caller passed.
  unfoldable pub put_spare : Server C → ℕ → ℕ → ℕ → Reply → Run (Reply × Server C)
  unfolding store_new first_free
  put_spare s key val row reply = elim (first_free ludo s.buckets key row) [
    | none ↦ ok (reply, s)
    | some t ↦ do s' ← store_new s key val row t; ok (record { status = true; val = 2 }, s')
  ]

  -- The `switch` of the handler, on the answer of `check_slots`.
  unfoldable pub put_case : Lru C → Server C → ℕ → ℕ → ℕ → ℕ → ℕ → Reply → Run (Reply × Server C)
  unfolding put_empty put_matched put_spare put_full
  put_case cache s key val row slot status reply =
      if status == 0
      then put_empty s key val row slot
      else if status == 1
      then ok (put_matched s key val row slot)
      else if status == 2
      then put_spare s key val row reply
      else if status == 3
      then ok (put_full cache s key val row slot)
      else ok (record { status = false; val = 0 }, s)

  unfoldable pub outback_put_direct :
      Lru C → ℕ → Server C → ℕ → ℕ → ℕ → Reply → Run (Reply × Server C)
  outback_put_direct cache now s loc key val reply =
      if s.blocked
      then ok (record { status = false; val = code deferred }, defer_put now s key val)
      else let row = loc / slots_num_bucket in
        let slot = seed_slot ludo s.seeds row key in
        put_case cache s key val row slot (check_slots ludo s.buckets key row slot) reply
