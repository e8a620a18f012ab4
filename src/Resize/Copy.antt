-- ===== src/Resize/Copy.antt =====
-- outback/outback_resize.hh, `do_copy`: build the new region, publish its epoch and switch to it.
use outback_cxl_numa.Base.{
  ℕ, ◌+◌, ◌*◌, ◌/◌, ◌%◌, ◌^◌, true, some, add64, sub64, mul64, ltb, ◌==◌, if◌then◌else◌,
}
use outback_cxl_numa.Packed.{PackedStruct, zero_entry, attach}
use outback_cxl_numa.Registry.{
  Registry, ResizeEpoch, normal, copying, ready_to_switch, epoch_at, set_epoch, max_epoch_slots,
  create_shared_numa_region,
}
use outback_cxl_numa.Registry.Layout.{Geometry, geometry}
use outback_cxl_numa.Resize.{Env, Orchestrator, Region, now_ms, set_state, effective_lanes}

-- Slot 0 of the epoch table is skipped.
unfoldable pub next_version : ℕ → ℕ
next_version old_ver =
    let new_ver = add64 old_ver 1 in
    if new_ver % max_epoch_slots == 0 then add64 new_ver 1 else new_ver

abbrev pub sizeof_ludo_bucket : ℕ
sizeof_ludo_bucket = 32

unfoldable pub bucket_size_each : ResizeEpoch → ℕ
bucket_size_each ep =
    if ltb 0 ep.num_buckets
    then sub64 ep.lock_array_offset ep.ludo_buckets_offset / ep.num_buckets
    else sizeof_ludo_bucket

unfoldable pub new_geometry : ResizeEpoch → Geometry
unfolding bucket_size_each geometry
new_geometry ep =
    geometry (mul64 ep.num_data_entries 2) (mul64 ep.num_buckets 2) (bucket_size_each ep)

-- The memory of the new region after the copies: the old entries and buckets below, zeros above.
unfoldable pub copied_entries : ResizeEpoch → Region → ℕ → PackedStruct
copied_entries ep old i = if ltb i ep.num_data_entries then old.packed.raw_array i else zero_entry

unfoldable pub copied_buckets : ResizeEpoch → Region → ℕ → ℕ → ℕ
copied_buckets ep old row slot = if ltb row ep.num_buckets then old.buckets.slots row slot else 0

-- The typed view of the new region. The constructor of the packed array runs over the copied memory.
unfoldable pub new_region : Env → ResizeEpoch → Region → Region
unfolding attach copied_entries copied_buckets
new_region env ep old = record {
  buckets = record { slots = copied_buckets ep old; num_elements = mul64 ep.num_buckets 2 };
  packed = attach env.junk (copied_entries ep old) (mul64 ep.num_data_entries 2);
}

unfoldable pub published_epoch : Env → ℕ → ResizeEpoch → ResizeEpoch → ℕ → ResizeEpoch
unfolding new_geometry
published_epoch env new_ver old_ep new_ep registered =
    let g = new_geometry old_ep in
    record new_ep {
      version = new_ver;
      publish_ts_ns = env.clock 1;
      region_size = g.total_size;
      num_buckets = mul64 old_ep.num_buckets 2;
      num_data_entries = mul64 old_ep.num_data_entries 2;
      packed_array_offset = g.packed_off;
      ludo_buckets_offset = g.ludo_off;
      lock_array_offset = g.lock_off;
      global_depth = (old_ep.global_depth + 1) % 2 ^ 32;
      directory_size = old_ep.directory_size * 2 % 2 ^ 32;
      directory_version = (old_ep.directory_version + 1) % 2 ^ 32;
      clients_pending_ack = registered;
      active_readers = 0;
      active_writers = 0;
      cleanup_allowed = 0;
      published = 1;
    }

-- The lanes restart one after the other above the old entries.
unfoldable pub reset_lanes : ℕ → ℕ → (ℕ → ℕ) → ℕ → ℕ
reset_lanes lanes base next i = if ltb i lanes then add64 base i else next i

unfoldable pub publish : Env → ℕ → ℕ → Registry → Registry
unfolding published_epoch reset_lanes
publish env old_ver new_ver reg =
    let old_ep = epoch_at reg old_ver in
    let ep = published_epoch env new_ver old_ep (epoch_at reg new_ver) reg.registered_clients in
    record (set_epoch reg new_ver ep) {
      lane_next_free_index =
          reset_lanes (effective_lanes reg) old_ep.num_data_entries reg.lane_next_free_index;
      previous_version = old_ver;
      current_version = new_ver;
      generation = add64 reg.generation 1;
    }

-- What `do_copy` does when the new region could be created, after the state COPYING is set.
unfoldable pub switch_region : Env → ℕ → Orchestrator → Orchestrator
unfolding next_version new_region publish
switch_region env old_ver o =
    let new_ver = next_version old_ver in
    let old_ep = epoch_at o.reg old_ver in
    let ready = set_state ready_to_switch (record o { reg = publish env old_ver new_ver o.reg }) in
    record ready {
      metrics = record o.metrics {
        copy_duration_ms = add64 o.metrics.copy_duration_ms (sub64 (now_ms env 2) (now_ms env 0));
        resize_count = add64 o.metrics.resize_count 1;
      };
      pending_old_ver = old_ver;
      pending_old_base = o.shared_region_base;
      pending_old_fd = o.shared_region_fd;
      pending_old_size = old_ep.region_size;
      shared_region_base = some env.new_base;
      shared_region_fd = some env.new_fd;
      num_buckets = mul64 old_ep.num_buckets 2;
      num_data_entries = mul64 old_ep.num_data_entries 2;
      gc_start_time = 0;
      region = new_region env old_ep o.region;
      wrapped = true;
    }

unfoldable pub do_copy : Env → ℕ → Orchestrator → Orchestrator
unfolding switch_region
do_copy env old_ver o =
    let o' = set_state copying o in
    if create_shared_numa_region env.shm then switch_region env old_ver o' else set_state normal o'
