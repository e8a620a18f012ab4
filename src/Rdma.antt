-- ===== src/Rdma.antt =====
-- outback/outback_server.hh and outback/outback_client.hh: the RDMA variant. The server's callbacks,
-- each under the mutex of its row, and what a client makes of a reply. The RPC transport delivers the
-- arguments and the reply; it is a call here.
pub mod Seeds
pub mod Reseed
pub mod Messages
pub mod OverRpc
use outback_cxl_numa.Base.{
  ℕ, zero, suc, ◌+◌, ◌*◌, ◌/◌, ◌%◌, ◌^◌, Bool, true, false, Option, none, some, List, [], ◌∷◌, ◌++◌,
  Run, ok, exited, ◌>>=◌, ◌==◌, ltb, if◌then◌else◌, update,
}
use outback_cxl_numa.Ludo.{Ludo}
use outback_cxl_numa.Slot.{
  LudoBuckets, slots_num_bucket, combine, fingerprint, check_slots, read_addr, write_addr,
  remove_addr, set_cachebit, read_bucket_addrs, empty_bucket, write_cell,
}
use outback_cxl_numa.Packed.{
  PackedData, sizeof_val, read_key, update_data, bulk_load_data, remove_data_with_key_check,
  read_batch_keys,
}
use outback_cxl_numa.Server.{Reply, Lru, seed_slot}

-- The server's globals; `seeds` is its own copy of the row seeds.
pub record RdmaServer (C : Type 0) : Type 0 where
  pub buckets : LudoBuckets
  pub packed : PackedData
  pub seeds : ℕ → ℕ
  pub lru : C

-- A reply with bit 8 carries the row's new seed in its low byte.
unfoldable pub adopt : (ℕ → ℕ) → ℕ → Reply → Run (ℕ → ℕ)
adopt seeds row r =
    if r.status
    then ok (if r.val / 2 ^ 8 % 2 == 1 then update seeds row (r.val % 2 ^ 8) else seeds)
    else exited

-- The keys of the row with the new one.
unfoldable pub row_keys : LudoBuckets → PackedData → ℕ → ℕ → List ℕ
row_keys b p row key = read_batch_keys p (read_bucket_addrs b row) ++ key ∷ []

-- After the reply.
unfoldable pub settle :
    {C : Type 0} → (ℕ → ℕ) → ℕ → Reply × RdmaServer C → Run ((ℕ → ℕ) × RdmaServer C)
unfolding adopt
settle seeds row (r, s) = do seeds' ← adopt seeds row r; ok (seeds', s)

module _ (ludo : Ludo) where
  abbrev pub slot_under : ℕ → ℕ → ℕ
  slot_under seed key = ludo.hash seed key / 2 ^ 62

  -- Do the keys have slots of their own under the seed, none of which is occupied?
  unfoldable pub separates : ℕ → (ℕ → Bool) → List ℕ → Bool
  separates seed occupied [] = true
  separates seed occupied (k ∷ ks) =
      let i = slot_under seed k in
      let rest = separates seed (update occupied i true) ks in if occupied i then false else rest

  -- The loop over seeds from `seed` on, with `n` left to try.
  unfoldable pub find_seed : List ℕ → ℕ → ℕ → Option ℕ
  unfolding separates
  find_seed keys zero seed = none
  find_seed keys (suc n) seed =
      let rest = find_seed keys n (seed + 1) in
      if separates seed (λ i. false) keys then some seed else rest

  -- Each word goes to the slot of its key.
  unfoldable pub write_cells : ℕ → ℕ → LudoBuckets → List ℕ → List ℕ → LudoBuckets
  write_cells seed row b (k ∷ ks) (w ∷ ws) =
      write_cells seed row (write_cell b row (slot_under seed k) w) ks ws
  write_cells seed row b _ _ = b

  -- The words of the row with the new one.
  unfoldable pub row_words : LudoBuckets → ℕ → ℕ → ℕ → List ℕ
  row_words b row key addr = read_bucket_addrs b row ++ combine (fingerprint ludo key) 64 addr ∷ []

  -- The client's side. `seeds` is the client's copy of the row seeds; a location is a `uint32_t`.
  abbrev pub location : (ℕ → ℕ) → ℕ → ℕ
  location seeds key =
      (slots_num_bucket * (ludo.lookup_slot seeds key).0 + (ludo.lookup_slot seeds key).1) % 2 ^ 32

  module _ {C : Type 0} where
    -- The row is arranged anew under a seed that gives every key a slot; without one the process ends.
    unfoldable pub reseed : RdmaServer C → ℕ → ℕ → ℕ → PackedData → Run (Reply × RdmaServer C)
    unfolding find_seed write_cells row_keys row_words
    reseed s key row addr packed =
        let keys = row_keys s.buckets s.packed row key in
        elim (find_seed keys 255 0) [
          | none ↦ exited
          | some seed ↦ ok (
            record { status = true; val = 2 ^ 8 + seed },
            record s {
              packed = packed;
              seeds = update s.seeds row seed;
              buckets =
                  write_cells seed row (empty_bucket s.buckets row) keys
                    (row_words s.buckets row key addr);
            },
          )
        ]

    unfoldable pub put_reseed : RdmaServer C → ℕ → ℕ → ℕ → Run (Reply × RdmaServer C)
    unfolding reseed
    put_reseed s key val row = do
      (addr, packed) ← bulk_load_data s.packed key sizeof_val val
      reseed s key row addr packed

    unfoldable pub put_free : RdmaServer C → ℕ → ℕ → ℕ → ℕ → Run (Reply × RdmaServer C)
    put_free s key val row slot = do
      (addr, packed) ← bulk_load_data s.packed key sizeof_val val
      ok (
        record { status = true; val = 0 },
        record s { packed = packed; buckets = write_addr ludo s.buckets key row slot addr 64 },
      )

    -- The key goes to the cache; its entry in the array is loaded, and no slot points to it.
    unfoldable pub put_cached :
        Lru C → RdmaServer C → ℕ → ℕ → ℕ → LudoBuckets → Run (Reply × RdmaServer C)
    put_cached cache s key val answer b = do
      (addr, packed) ← bulk_load_data s.packed key sizeof_val val
      ok (
        record { status = true; val = answer },
        record s { packed = packed; lru = cache.insert key val s.lru; buckets = b },
      )

    unfoldable pub put_collided : Lru C → RdmaServer C → ℕ → ℕ → ℕ → ℕ → Run (Reply × RdmaServer C)
    unfolding put_cached
    put_collided cache s key val row slot =
        let addr = read_addr s.buckets row slot in
        if read_key s.packed addr == key
        then ok (
          record { status = true; val = 1 },
          record s { packed = update_data s.packed addr key 64 val },
        )
        else put_cached cache s key val 1 s.buckets

    -- `loc_slot` is the slot that the client named.
    unfoldable pub put_switch :
        Lru C → RdmaServer C → ℕ → ℕ → ℕ → ℕ → ℕ → ℕ → Run (Reply × RdmaServer C)
    unfolding put_free put_collided put_reseed put_cached
    put_switch cache s key val row slot loc_slot status =
        if status == 0
        then put_free s key val row slot
        else if status == 1
        then put_collided cache s key val row slot
        else if status == 2
        then put_reseed s key val row
        else if status == 3
        then put_cached cache s key val 3 (set_cachebit s.buckets row loc_slot)
        else exited

    unfoldable pub outback_put_callback :
        Lru C → RdmaServer C → ℕ → ℕ → ℕ → Run (Reply × RdmaServer C)
    unfolding put_switch
    outback_put_callback cache s loc key val =
        let row = loc / slots_num_bucket in
        let slot = seed_slot ludo s.seeds row key in
        put_switch cache s key val row slot (loc % slots_num_bucket)
          (check_slots ludo s.buckets key row slot)

    unfoldable pub outback_get_callback : RdmaServer C → ℕ → Reply
    outback_get_callback s loc =
        let addr = read_addr s.buckets (loc / slots_num_bucket) (loc % slots_num_bucket) in
        record { status = true; val = (s.packed.raw_array addr).value }

    unfoldable pub outback_update_callback :
        Lru C → RdmaServer C → ℕ → ℕ → ℕ → Run (Reply × RdmaServer C)
    unfolding put_cached
    outback_update_callback cache s loc key val =
        let addr = read_addr s.buckets (loc / slots_num_bucket) (loc % slots_num_bucket) in
        if read_key s.packed addr == key
        then ok (
          record { status = true; val = 1 },
          record s { packed = update_data s.packed addr key 64 val },
        )
        else put_cached cache s key val 2 s.buckets

    unfoldable pub outback_remove_callback : RdmaServer C → ℕ → ℕ → Reply × RdmaServer C
    outback_remove_callback s loc key =
        let row = loc / slots_num_bucket in
        let slot = loc % slots_num_bucket in
        let (res, packed) =
          remove_data_with_key_check s.packed (read_addr s.buckets row slot) key in
        (
          record { status = true; val = 0 },
          if res
              then record s { packed = packed; buckets = remove_addr s.buckets row slot }
              else record s { packed = packed },
        )

    unfoldable pub remote_search : (ℕ → ℕ) → RdmaServer C → ℕ → Option ℕ
    unfolding outback_get_callback
    remote_search seeds s key =
        let r = outback_get_callback s (location seeds key) in if r.status then some r.val else none

    unfoldable pub remote_put :
        Lru C → (ℕ → ℕ) → RdmaServer C → ℕ → ℕ → Run ((ℕ → ℕ) × RdmaServer C)
    unfolding outback_put_callback settle
    remote_put cache seeds s key val =
        outback_put_callback cache s (location seeds key) key val
        >>= settle seeds (ludo.lookup_slot seeds key).0

    unfoldable pub remote_update : Lru C → (ℕ → ℕ) → RdmaServer C → ℕ → ℕ → Run (RdmaServer C)
    unfolding outback_update_callback
    remote_update cache seeds s key val = do
      (r, s') ← outback_update_callback cache s (location seeds key) key val
      ok s'
