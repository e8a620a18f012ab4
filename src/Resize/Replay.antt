-- ===== src/Resize/Replay.antt =====
-- outback/outback_resize.hh, `replay_insert` and `replay_delete`: the deferred mutations, run on the
-- new region.
use outback_cxl_numa.Base.{
  ℕ, Bool, true, false, Option, none, some, List, [], ◌∷◌, Run, ok, ◌>>=◌, ◌==◌, if◌then◌else◌,
}
use outback_cxl_numa.Ludo.{Ludo}
use outback_cxl_numa.Slot.{check_slots, read_addr, write_addr, remove_addr}
use outback_cxl_numa.Packed.{
  sizeof_val, read_key, update_data, bulk_load_data, remove_data_with_key_check,
}
use outback_cxl_numa.Deferred.{DeferredInsert, DeferredDelete}
use outback_cxl_numa.Server.{first_free, seed_slot}
use outback_cxl_numa.Resize.{Region}

module _ (ludo : Ludo) where
  -- A new entry, and its address in the given slot.
  unfoldable pub replay_new : Region → ℕ → ℕ → ℕ → ℕ → Run Region
  replay_new g key val row slot = do
    (addr, packed) ← bulk_load_data g.packed key sizeof_val val
    ok (record { buckets = write_addr ludo g.buckets key row slot addr 64; packed = packed })

  unfoldable pub replay_matched : Region → ℕ → ℕ → ℕ → ℕ → Region
  replay_matched g key val row slot =
      let addr = read_addr g.buckets row slot in
      if read_key g.packed addr == key
      then record g { packed = update_data g.packed addr key sizeof_val val }
      else g

  unfoldable pub replay_spare : Region → ℕ → ℕ → ℕ → Run Region
  unfolding replay_new first_free
  replay_spare g key val row = elim (first_free ludo g.buckets key row) [
    | none ↦ ok g
    | some s ↦ replay_new g key val row s
  ]

  -- The `switch`: a full row drops the insertion.
  unfoldable pub replay_case : Region → ℕ → ℕ → ℕ → ℕ → ℕ → Run Region
  unfolding replay_new replay_matched replay_spare
  replay_case g key val row slot status =
      if status == 0
      then replay_new g key val row slot
      else if status == 1
      then ok (replay_matched g key val row slot)
      else if status == 2
      then replay_spare g key val row
      else ok g

  unfoldable pub replay_insert : (ℕ → ℕ) → Region → ℕ → ℕ → Run Region
  replay_insert seeds g key val =
      let row = (ludo.lookup_slot seeds key).0 in
      let slot = seed_slot ludo seeds row key in
      replay_case g key val row slot (check_slots ludo g.buckets key row slot)

  -- One slot of the row: the region after the removal, if the slot's entry has the key.
  unfoldable pub remove_from : Region → ℕ → ℕ → ℕ → Option Region
  remove_from g row slot key =
      let (res, packed) = remove_data_with_key_check g.packed (read_addr g.buckets row slot) key in
      if res
      then some (record { buckets = remove_addr g.buckets row slot; packed = packed })
      else none

  -- The loop over the other slots; a slot with address 0 is passed over.
  unfoldable pub remove_scan : List ℕ → Region → ℕ → ℕ → ℕ → Region
  unfolding remove_from
  remove_scan [] g row col key = g
  remove_scan (s ∷ ss) g row col key =
      let rest = remove_scan ss g row col key in
      if s == col
      then rest
      else if read_addr g.buckets row s == 0
      then rest
      else elim (remove_from g row s key) [ some g' ↦ g' | none ↦ rest ]

  unfoldable pub replay_delete : (ℕ → ℕ) → Region → ℕ → Region
  unfolding remove_from remove_scan
  replay_delete seeds g key =
      let loc = ludo.lookup_slot seeds key in
      elim (remove_from g loc.0 loc.1 key) [
        | some g' ↦ g'
        | none ↦ remove_scan (0 ∷ 1 ∷ 2 ∷ 3 ∷ []) g loc.0 loc.1 key
      ]

  -- The two loops of `drain_old`: every insertion in order, then every removal in order.
  unfoldable pub replay_inserts : (ℕ → ℕ) → Region → List DeferredInsert → Run Region
  unfolding replay_insert
  replay_inserts seeds g [] = ok g
  replay_inserts seeds g (d ∷ ds) = do
    g' ← replay_insert seeds g d.key d.value
    replay_inserts seeds g' ds

  unfoldable pub replay_deletes : (ℕ → ℕ) → Region → List DeferredDelete → Region
  unfolding replay_delete
  replay_deletes seeds g [] = g
  replay_deletes seeds g (d ∷ ds) = replay_deletes seeds (replay_delete seeds g d.key) ds

  -- The guard of the helpers: without a lookup table and the typed views nothing is replayed.
  unfoldable pub replay_all :
      Option (ℕ → ℕ) → Bool → Region → List DeferredInsert → List DeferredDelete → Run Region
  unfolding replay_inserts replay_deletes
  replay_all none wrapped g is ds = ok g
  replay_all (some seeds) false g is ds = ok g
  replay_all (some seeds) true g is ds = do
    g' ← replay_inserts seeds g is
    ok (replay_deletes seeds g' ds)
