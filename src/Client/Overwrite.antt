-- ===== src/Client/Overwrite.antt =====
-- outback/outback_client_numa.hh, `numa_put`: a put into a full row.
use outback_cxl_numa.Base.{ℕ, ◌+◌, ◌%◌, ◌^◌, ◌≡◌, ◌≢◌, ◌∙◌, arith, update_self}
use outback_cxl_numa.Ludo.{Ludo}
use outback_cxl_numa.Slot.{read_addr, to_finger, fingerprint}
use outback_cxl_numa.Slot.Buckets.{slot_length, FullRow, check_slots_full}
use outback_cxl_numa.Packed.{update_data}
use outback_cxl_numa.Store.{IsLinked}
use outback_cxl_numa.Resize.{Region}
use outback_cxl_numa.Server.{seed_slot}
use outback_cxl_numa.Client.{Client}
use outback_cxl_numa.Client.Ops.{put_over, put_status, put_region}

module _ (ludo : Ludo) (c : Client) (v key val : ℕ) where
  abbrev row_of : ℕ
  row_of = (ludo.lookup_slot c.seeds key).0

  abbrev slot_of : ℕ
  slot_of = seed_slot ludo c.seeds row_of key

  abbrev region : Region
  region = c.regions v

  -- The region with the entry behind the slot overwritten.
  abbrev overwritten : Region
  overwritten = record region {
    packed = update_data region.packed (read_addr region.buckets row_of slot_of) key 64 val;
  }

  full-put_over :
      slot_length region.buckets row_of slot_of ≢ 0
      → to_finger (region.buckets.slots row_of slot_of) ≢ fingerprint ludo key
      → FullRow region.buckets row_of
      → put_region ludo c v key val ≡ put_over c v key val row_of slot_of
  unfolding put_region put_status
  full-put_over occ ne full =
      rw (check_slots_full ludo region.buckets key row_of slot_of occ ne full)

  -- The slot keeps the old key's fingerprint while its entry has the new key.
  overwritten-not-IsLinked :
      slot_length region.buckets row_of slot_of ≢ 0
      → to_finger (region.buckets.slots row_of slot_of) ≢ fingerprint ludo key
      → ¬ IsLinked ludo overwritten.buckets overwritten.packed
  unfolding update_data read_addr
  overwritten-not-IsLinked occ ne l = ne (l.named row_of slot_of occ ∙ ground arith)

  -- A client's put into a full row whose slot for the key holds another fingerprint overwrites that
  -- slot's entry, moves the row's seed on by one, and leaves a region in which the slot's fingerprint
  -- is not that of its entry's key.
  pub put_full_unlinks :
      slot_length region.buckets row_of slot_of ≢ 0
      → to_finger (region.buckets.slots row_of slot_of) ≢ fingerprint ludo key
      → FullRow region.buckets row_of
      → ((put_region ludo c v key val).regions v ≡ overwritten)
        × ((put_region ludo c v key val).seeds row_of ≡ (c.seeds row_of + 1) % 2 ^ 8)
        × (¬ IsLinked ludo
            ((put_region ludo c v key val).regions v).buckets
            ((put_region ludo c v key val).regions v).packed)
  unfolding put_over
  put_full_unlinks occ ne full = rw (full-put_over occ ne full) (
    update_self c.regions v overwritten,
    update_self c.seeds row_of _,
    rw (update_self c.regions v overwritten) (overwritten-not-IsLinked occ ne),
  )
