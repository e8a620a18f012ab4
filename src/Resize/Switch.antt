-- ===== src/Resize/Switch.antt =====
-- outback/outback_resize.hh, `do_copy`: the epoch that it publishes, the new region and the lanes.
use outback_cxl_numa.Base.{
  ℕ, zero, suc, ◌+◌, ◌*◌, ◌%◌, ◌^◌, ◌≤◌, ◌<◌, ◌≡◌, ◌≢◌, refl, arith, true, add64, mul64, le→leb,
  lt→ltb, ne→==, ℕ_discrete,
}
use outback_cxl_numa.Packed.{attach}
use outback_cxl_numa.Registry.{
  ResizeEpoch, normal, pre_resize, copying, ready_to_switch, epoch_at, create_shared_numa_region,
  max_epoch_slots,
}
use outback_cxl_numa.Registry.Layout.{IsLaidOut, geometry-IsLaidOut}
use outback_cxl_numa.Resize.{Env, Orchestrator, set_state, fill, max_index, effective_lanes}
use outback_cxl_numa.Resize.Copy.{
  next_version, bucket_size_each, new_geometry, new_region, published_epoch, reset_lanes, publish,
  switch_region, do_copy,
}
use outback_cxl_numa.Resize.Monitor.{maybe_trigger_pre_resize}

-- The next version skips slot 0 of the epoch table, and its slot is not the old version's.
pub next_version_slot :
    (ver : ℕ)
    → ver < 2 ^ 63
    → (ver < next_version ver)
      × (next_version ver ≤ ver + 2)
      × (next_version ver % max_epoch_slots ≢ 0)
      × (next_version ver % max_epoch_slots ≢ ver % max_epoch_slots)
unfolding next_version
next_version_slot ver h = ground arith

max_index-ge : (n i : ℕ) (next : ℕ → ℕ) → i < n → next i ≤ max_index n next
unfolding max_index
max_index-ge zero i next h = absurd (omega arith)
max_index-ge (suc n) i next h = elim (ℕ_discrete i n) [
  | yes e ↦ rw e (ground arith)
  | no ne ↦ ground (arith, max_index-ge n i next (omega arith))
]

module _ (env : Env) (ver : ℕ) (o : Orchestrator) where
  abbrev pub old_epoch : ResizeEpoch
  old_epoch = epoch_at o.reg ver

  abbrev pub after : Orchestrator
  after = do_copy env ver o

  do_copy-switch :
      create_shared_numa_region env.shm ≡ true
      → do_copy env ver o ≡ switch_region env ver (set_state copying o)
  unfolding do_copy
  do_copy-switch e = rw e

  -- The new epoch, the old one, and the lanes after a switch.
  pub record IsSwitched (o' : Orchestrator) : Type 0 where
    pub current : o'.reg.current_version ≡ next_version ver
    pub previous : o'.reg.previous_version ≡ ver
    pub state : o'.reg.resize_state ≡ ready_to_switch
    pub published : (epoch_at o'.reg (next_version ver)).published ≡ 1
    pub version : (epoch_at o'.reg (next_version ver)).version ≡ next_version ver
    pub buckets : (epoch_at o'.reg (next_version ver)).num_buckets ≡ mul64 old_epoch.num_buckets 2
    pub entries :
        (epoch_at o'.reg (next_version ver)).num_data_entries ≡ mul64 old_epoch.num_data_entries 2
    pub awaited :
        (epoch_at o'.reg (next_version ver)).clients_pending_ack ≡ o.reg.registered_clients
    pub kept : epoch_at o'.reg ver ≡ epoch_at o.reg ver
    pub staggered :
        (l : ℕ)
        → l < effective_lanes o.reg
        → o'.reg.lane_next_free_index l ≡ add64 old_epoch.num_data_entries l

  abbrev switched : Orchestrator
  switched = switch_region env ver (set_state copying o)

  switch-lanes :
      (l : ℕ)
      → l < effective_lanes o.reg
      → switched.reg.lane_next_free_index l ≡ add64 old_epoch.num_data_entries l
  unfolding switch_region publish set_state reset_lanes effective_lanes
  switch-lanes l lt = rw (lt→ltb l (effective_lanes o.reg) lt)

  switch_region-IsSwitched : ver < 2 ^ 63 → IsSwitched (switch_region env ver (set_state copying o))
  unfolding switch_region publish set_state reset_lanes published_epoch
  switch_region-IsSwitched small =
      let slot = next_version_slot ver small in
      record {
        current = refl;
        previous = refl;
        state = refl;
        published = ground arith;
        version = ground arith;
        buckets = ground arith;
        entries = ground arith;
        awaited = ground arith;
        kept = ground arith;
        staggered = switch-lanes;
      }

  -- If the new region can be created, a copy publishes the next version in a slot of its own with
  -- twice the buckets and entries, waits for all registered clients, leaves the old epoch as it was,
  -- and restarts the lanes one after the other above the old entries.
  pub do_copy_switches :
      ver < 2 ^ 63 → create_shared_numa_region env.shm ≡ true → IsSwitched (do_copy env ver o)
  do_copy_switches small e = rw (do_copy-switch e) (switch_region-IsSwitched small)

  -- The region of the new epoch holds twice the old entries and buckets, in arrays that lie apart and
  -- aligned, if these sizes are no larger than any memory.
  pub new_geometry-IsLaidOut :
      old_epoch.num_data_entries < 2 ^ 55
      → old_epoch.num_buckets < 2 ^ 60
      → old_epoch.num_buckets * bucket_size_each old_epoch < 2 ^ 60
      → IsLaidOut
          (2 * old_epoch.num_data_entries)
          (2 * old_epoch.num_buckets)
          (bucket_size_each old_epoch)
          (new_geometry old_epoch)
  unfolding new_geometry
  new_geometry-IsLaidOut he hb hs =
      let e : mul64 old_epoch.num_data_entries 2 ≡ 2 * old_epoch.num_data_entries = omega arith in
      let b : mul64 old_epoch.num_buckets 2 ≡ 2 * old_epoch.num_buckets = omega arith in
      rw (e, b)
        (geometry-IsLaidOut (2 * old_epoch.num_data_entries) (2 * old_epoch.num_buckets)
          (bucket_size_each old_epoch) (omega arith) (omega arith) (grind arith))

  switch_region-junk :
      (i : ℕ)
      → i < mul64 old_epoch.num_data_entries 2
      → ((switch_region env ver (set_state copying o)).region.packed.raw_array i ≡ env.junk)
        × ((switch_region env ver (set_state copying o)).region.packed.num ≡ 0)
  unfolding switch_region new_region attach set_state
  switch_region-junk i h = (ground arith, refl)

  -- The constructor of the packed array runs over the region that `do_copy` has just filled and
  -- published: every entry of the new array, the copied ones too, is what the uninitialised local
  -- held, and the next free entry is entry 0.
  pub do_copy_overwrites :
      create_shared_numa_region env.shm ≡ true
      → (i : ℕ) → i < mul64 old_epoch.num_data_entries 2
      → (after.region.packed.raw_array i ≡ env.junk) × (after.region.packed.num ≡ 0)
  do_copy_overwrites e i h = rw (do_copy-switch e) (switch_region-junk i h)

  lanes_pos : 0 < effective_lanes o.reg
  unfolding effective_lanes
  lanes_pos = ground arith

  switched_same :
      (effective_lanes switched.reg ≡ effective_lanes o.reg) × (switched.reg.s_slow ≡ o.reg.s_slow)
  unfolding switch_region publish set_state effective_lanes
  switched_same = (refl, refl)

  switched-fill : old_epoch.num_data_entries < 2 ^ 64 → old_epoch.num_data_entries ≤ fill switched
  unfolding fill
  switched-fill small = rw switched_same.0 (
      omega (
        arith,
        max_index-ge (effective_lanes o.reg) 0 switched.reg.lane_next_free_index lanes_pos,
        switch-lanes 0 lanes_pos,
      ))

  set_normal-fill : fill (set_state normal switched) ≡ fill switched
  unfolding fill set_state effective_lanes
  set_normal-fill = refl

  set_normal-s_slow : (set_state normal switched).reg.s_slow ≡ o.reg.s_slow
  unfolding set_state
  set_normal-s_slow = switched_same.1

  set_pre_resize : (o' : Orchestrator) → (set_state pre_resize o').reg.resize_state ≡ pre_resize
  unfolding set_state
  set_pre_resize o' = refl

  -- The lanes restart at the old number of entries while the two thresholds stay, so a copy does not
  -- end the need for one: the fill is at or above every threshold that is at most the old number of
  -- entries, and back in NORMAL the next round goes to PRE_RESIZE with no insertion made.
  pub do_copy_retriggers :
      create_shared_numa_region env.shm ≡ true
      → o.reg.s_slow ≢ 0
      → o.reg.s_slow ≤ old_epoch.num_data_entries
      → o.reg.s_stop ≤ old_epoch.num_data_entries
      → old_epoch.num_data_entries < 2 ^ 64
      → (o.reg.s_stop ≤ fill after)
        × ((maybe_trigger_pre_resize (set_state normal after)).reg.resize_state ≡ pre_resize)
  unfolding maybe_trigger_pre_resize
  do_copy_retriggers e slow le_slow le_stop small =
      let f = switched-fill small in
      rw (do_copy-switch e) (
        omega (arith, f),
        simp
            (
              set_normal-fill,
              set_normal-s_slow,
              ne→== o.reg.s_slow 0 slow,
              le→leb o.reg.s_slow (fill switched) (omega (arith, f)),
            )
            (set_pre_resize (set_state normal switched)),
      )
