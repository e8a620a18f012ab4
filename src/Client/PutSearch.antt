-- ===== src/Client/PutSearch.antt =====
-- outback/outback_client_numa.hh: a client's search after its own put.
use outback_cxl_numa.Base.{
  ℕ, ◌^◌, ◌<◌, ◌≡◌, ◌≢◌, ◌⊎◌, inl, inr, refl, sym, ap, ◌∙◌, arith, Option, some, if_cases, ==_iff,
  update_self,
}
use outback_cxl_numa.Ludo.{Ludo}
use outback_cxl_numa.Slot.{read_addr, to_finger, fingerprint}
use outback_cxl_numa.Slot.Buckets.{
  slot_length, SpareSlot, check_slots_empty, check_slots_match, check_slots_spare,
}
use outback_cxl_numa.Packed.{read_key, update_data}
use outback_cxl_numa.Resize.{Region}
use outback_cxl_numa.Server.{seed_slot}
use outback_cxl_numa.Server.Stored.{first_free-some}
use outback_cxl_numa.Client.{ClientEnv, Client, or_else}
use outback_cxl_numa.Client.Ops.{
  search_region, alloc, search_held, numa_search, put_new, put_same, put_any, put_status,
  put_region, with_region, numa_put,
}
use outback_cxl_numa.Client.Scan.{
  Absent, with_entry, search-own_entry, search-with_entry, search_region-own,
}
use outback_cxl_numa.Client.Keeps.{
  IsCurrent, maybe_check_version-same, Keeps-IsCurrent, put_region-Keeps,
}

module _ (ludo : Ludo) (env : ClientEnv) (c : Client) (v key val : ℕ) where
  abbrev region : Region
  region = c.regions v

  abbrev pub row_of : ℕ
  row_of = (ludo.lookup_slot c.seeds key).0

  abbrev pub slot_of : ℕ
  slot_of = (ludo.lookup_slot c.seeds key).1

  abbrev own_key : ℕ
  own_key = read_key region.packed (read_addr region.buckets row_of slot_of)

  abbrev own_finger : ℕ
  own_finger = to_finger (region.buckets.slots row_of slot_of)

  -- The slot is empty and an entry can be had; or it has the key's fingerprint and entry; or another
  -- slot of the row is empty, no slot of the row points to an entry of the key, and an entry can be had
  -- whose index is not 0.
  abbrev pub Takes : Type 0
  Takes =
      ((slot_length region.buckets row_of slot_of ≡ 0)
        × (idx : ℕ) × ((alloc c).0 ≡ some idx)
        × (idx < 2 ^ 40))
      ⊎ ((slot_length region.buckets row_of slot_of ≢ 0)
          × (own_finger ≡ fingerprint ludo key)
          × (own_key ≡ key))
      ⊎ ((slot_length region.buckets row_of slot_of ≢ 0)
          × (own_finger ≢ fingerprint ludo key)
          × SpareSlot region.buckets row_of slot_of
          × (own_key ≢ key)
          × ((t : ℕ) → Absent region key row_of t)
          × (idx : ℕ) × ((alloc c).0 ≡ some idx)
          × (idx < 2 ^ 40)
          × (idx ≢ 0))

  abbrev after_put : Client
  after_put = put_region ludo c v key val

  abbrev Finds : Client → Type 0
  Finds c' = search_region (c'.regions v) key (ludo.lookup_slot c'.seeds key) ≡ some val

  alloc-keeps : ((alloc c).1.regions ≡ c.regions) × ((alloc c).1.seeds ≡ c.seeds)
  unfolding alloc
  alloc-keeps =
      if_cases (λ (r : Option ℕ × Client). (r.1.regions ≡ c.regions) × (r.1.seeds ≡ c.seeds))
        c.attached (λ _. (refl, refl)) (λ _. (refl, refl))

  put_new-region :
      (t idx : ℕ)
      → (alloc c).0 ≡ some idx
      → ((put_new ludo c v key val row_of t).regions v
          ≡ with_entry ludo region key val row_of t idx)
        × ((put_new ludo c v key val row_of t).seeds ≡ c.seeds)
  unfolding put_new
  put_new-region t idx got =
      rw (got, put_new)
        (
          update_self (alloc c).1.regions v _
              ∙ ap (λ (r : ℕ → Region). with_entry ludo (r v) key val row_of t idx) alloc-keeps.0,
          alloc-keeps.1,
        )

  put_own-Finds :
      (idx : ℕ)
      → (alloc c).0 ≡ some idx
      → idx < 2 ^ 40
      → Finds (put_new ludo c v key val row_of slot_of)
  put_own-Finds idx got small = rw (put_new-region slot_of idx got).0 (
      rw (put_new-region slot_of idx got).1
        (search-own_entry ludo region key val row_of slot_of idx small))

  put_new-Finds :
      (t idx : ℕ)
      → t < 4
      → (alloc c).0 ≡ some idx
      → idx ≢ 0
      → idx < 2 ^ 40
      → own_key ≢ key
      → Absent region key row_of t
      → Finds (put_new ludo c v key val row_of t)
  put_new-Finds t idx lt got nz small own absent = rw (put_new-region t idx got).0 (
      rw (put_new-region t idx got).1 (
        search-with_entry ludo region key val row_of slot_of t idx lt (inr nz) small (λ _. own)
          absent))

  put_any-Finds :
      (idx : ℕ)
      → SpareSlot region.buckets row_of slot_of
      → (alloc c).0 ≡ some idx
      → idx ≢ 0
      → idx < 2 ^ 40
      → own_key ≢ key
      → ((t : ℕ) → Absent region key row_of t)
      → Finds (put_any ludo c v key val row_of)
  unfolding put_any
  put_any-Finds idx spare got nz small own absent =
      let (t, free, lt, e) = first_free-some ludo region.buckets key row_of slot_of spare in
      rw (free, put_any) (put_new-Finds t idx lt got nz small own (absent t))

  -- The region after an update of the slot's own entry.
  abbrev updated : Region
  updated = record region {
    packed = update_data region.packed (read_addr region.buckets row_of slot_of) key 64 val;
  }

  put_same-Finds : own_key ≡ key → Finds (put_same c v key val row_of slot_of)
  unfolding put_same read_key update_data
  put_same-Finds e = rw ((==_iff _ _).1 e) (
      rw (update_self c.regions v updated)
        (search_region-own updated key row_of slot_of val (ground arith) (ground arith)))

  seed_slot-slot_of : seed_slot ludo c.seeds row_of key ≡ slot_of
  unfolding seed_slot
  seed_slot-slot_of = sym (ludo.lookup_slot_col c.seeds key)

  Takes-Finds : Takes → Finds after_put
  unfolding put_region put_status
  Takes-Finds (inl (e, idx, got, small)) =
      rw (seed_slot-slot_of, check_slots_empty ludo region.buckets key row_of slot_of e)
        (put_own-Finds idx got small)
  Takes-Finds (inr (inl (occ, f, k))) =
      rw (seed_slot-slot_of, check_slots_match ludo region.buckets key row_of slot_of occ f)
        (put_same-Finds k)
  Takes-Finds (inr (inr (occ, f, spare, own, absent, idx, got, small, nz))) =
      rw (seed_slot-slot_of, check_slots_spare ludo region.buckets key row_of slot_of occ f spare)
        (put_any-Finds idx spare got nz small own absent)

  search-current :
      (c' : Client)
      → IsCurrent c'
      → or_else c'.view c'.remote_view ≡ some v
      → (numa_search ludo env c' key).0
        ≡ search_region (c'.regions v) key (ludo.lookup_slot c'.seeds key)
  unfolding numa_search search_held
  search-current c' current view =
      ap (λ d. (search_held ludo key d).0) (maybe_check_version-same env c' current)
      ∙ rw (view, search_held)

  put-current :
      (l : ℕ)
      → IsCurrent c
      → or_else c.view c.remote_view ≡ some v
      → or_else c.lock c.remote_lock ≡ some l
      → numa_put ludo env c key val ≡ after_put
  unfolding numa_put with_region
  put-current l current view lock =
      ap (with_region (λ c' w. put_region ludo c' w key val))
        (maybe_check_version-same env c current)
      ∙ rw (view, with_region, lock)

  -- A client that has no registry, or whose generation is the registry's, and that has a view and locks
  -- of its own or the global ones, searches for what it has just put. It finds the value in three cases. The key's own slot was empty,
  -- and an entry with an index below 2 ^ 40 could be had. Or the own slot was occupied, its word has
  -- the key's fingerprint, and its entry is the key's. Or the own slot was occupied, with another
  -- fingerprint and the entry of another key, another slot of the row was empty, no slot of the row
  -- with an index other than 0 had an entry of the key, and an entry with an index below 2 ^ 40 other
  -- than 0 could be had.
  pub put_then_search :
      (l : ℕ)
      → IsCurrent c
      → or_else c.view c.remote_view ≡ some v
      → or_else c.lock c.remote_lock ≡ some l
      → Takes
      → (numa_search ludo env (numa_put ludo env c key val) key).0 ≡ some val
  put_then_search l current view lock h =
      let k = put_region-Keeps ludo c v key val in
      rw (put-current l current view lock) (
        search-current after_put (Keeps-IsCurrent ludo c v key val after_put k current)
          (rw (k.3, k.4) view)
        ∙ Takes-Finds h)
