-- ===== src/Setup.antt =====
-- benchs/outback/server_numa.cc: how the NUMA server comes up. The table that Ludo hashing builds
-- from the keys, the readings of the stop flag, the system calls and the thresholds, which are
-- computed with floating-point numbers, are arguments.
pub mod Load
pub mod Loaded
pub mod FirstPut
pub mod Lifecycle
pub mod Cleanup
pub mod Lifetime
use outback_cxl_numa.Base.{
  ℕ, zero, suc, ◌+◌, ◌*◌, ◌%◌, ◌^◌, Bool, true, false, Option, none, some, Run, ok, ◌>>=◌, add64,
  mul64, min, max, ltb, ◌==◌, if◌then◌else◌,
}
use outback_cxl_numa.Slot.{LudoBuckets}
use outback_cxl_numa.Packed.{
  PackedData, PackedStruct, sizeof_val, zero_entry, attach, bulk_load_data,
}
use outback_cxl_numa.Registry.{
  Registry, ResizeEpoch, ShmCalls, zero_epoch, numa_meta_magic, max_numa_lanes, set_epoch, epoch_at,
  created_registry, map_numa_registry, create_shared_numa_region,
}
use outback_cxl_numa.Registry.Layout.{Geometry, geometry}
use outback_cxl_numa.Server.{Server}

-- `generated` and `seeds` are what `DataPlaneLudo` makes of the control plane's table: the words of
-- the slots and the seeds of the rows. `stops n` is what the n-th reading of `g_stop_requested`
-- gives.
pub record SetupEnv (C : Type 0) : Type 0 where
  pub nkeys : ℕ
  pub exist_keys : ℕ → ℕ
  pub stops : ℕ → Bool
  pub generated : LudoBuckets
  pub seeds : ℕ → ℕ
  pub registry_calls : ShmCalls
  pub region_calls : ShmCalls
  pub junk : PackedStruct
  pub numa_node : ℕ
  pub slow_of : ℕ → ℕ
  pub stop_of : ℕ → ℕ
  pub mem_threads : ℕ
  pub new_lru : C

-- What `setup_ludo_table` leaves in the globals.
pub record Started (C : Type 0) : Type 0 where
  pub server : Server C
  pub reg : Registry
  pub region_size : ℕ
  pub num_buckets : ℕ
  pub num_data_entries : ℕ
  pub lock_array : ℕ → ℕ

-- Does one of the `n` readings from the i-th on ask to stop?
unfoldable pub polled_stop : (ℕ → Bool) → ℕ → ℕ → Bool
polled_stop stops zero i = false
polled_stop stops (suc n) i =
    let rest = polled_stop stops n (i + 1) in if stops i then true else rest

-- The loop that loads the keys from the i-th on, `n` of them; `first` is the reading of the stop
-- flag at its start. `none` is the early `return false`.
unfoldable pub load_keys : (ℕ → ℕ) → (ℕ → Bool) → ℕ → ℕ → ℕ → PackedData → Run (Option PackedData)
load_keys keys stops first zero i p = ok (some p)
load_keys keys stops first (suc n) i p = elim (stops (first + i)) [
  | true ↦ ok none
  | false ↦ do
    (addr, p') ← bulk_load_data p (keys i) sizeof_val i
    load_keys keys stops first n (i + 1) p'
]

module _ {C : Type 0} (env : SetupEnv C) where
  unfoldable pub packed_entries : ℕ
  packed_entries = mul64 2 env.nkeys

  -- `sizeof(LudoBucket)`: four 64-bit words
  unfoldable pub setup_geometry : Geometry
  unfolding packed_entries
  setup_geometry = geometry packed_entries env.generated.num_elements 32

  -- The generated buckets, copied row by row into the region, which is zero.
  unfoldable pub copy_buckets : LudoBuckets
  copy_buckets = record {
    slots =
        λ row slot. if ltb row env.generated.num_elements then env.generated.slots row slot else 0;
    num_elements = env.generated.num_elements;
  }

  unfoldable pub effective_mem_threads : ℕ
  effective_mem_threads = max 1 (min env.mem_threads max_numa_lanes)

  unfoldable pub first_lanes : Registry → ℕ → ℕ
  unfolding effective_mem_threads packed_entries
  first_lanes reg lane =
      if ltb lane max_numa_lanes
      then if ltb lane effective_mem_threads then add64 env.nkeys lane else packed_entries
      else reg.lane_next_free_index lane

  unfoldable pub first_epoch : ResizeEpoch → ResizeEpoch
  unfolding packed_entries setup_geometry
  first_epoch ep = record ep {
    version = 1;
    publish_ts_ns = 0;
    region_size = setup_geometry.total_size;
    num_buckets = env.generated.num_elements;
    num_data_entries = packed_entries;
    packed_array_offset = setup_geometry.packed_off;
    ludo_buckets_offset = setup_geometry.ludo_off;
    lock_array_offset = setup_geometry.lock_off;
    global_depth = 1;
    directory_size = 0;
    directory_version = 1;
    clients_pending_ack = 0;
    active_readers = 0;
    active_writers = 0;
    published = 1;
    cleanup_allowed = 0;
  }

  -- The shared metadata, still marked as not ready.
  unfoldable pub publish_meta : Registry → Registry
  unfolding first_epoch first_lanes effective_mem_threads packed_entries
  publish_meta reg = record (set_epoch reg 1 (first_epoch (epoch_at reg 1))) {
    magic = numa_meta_magic;
    numa_node = env.numa_node;
    ready = 0;
    s_slow = env.slow_of packed_entries;
    s_stop = env.stop_of packed_entries;
    mem_threads = effective_mem_threads % 2 ^ 32;
    lane_next_free_index = first_lanes reg;
  }

  unfoldable pub started : Registry → PackedData → Started C
  unfolding copy_buckets publish_meta packed_entries setup_geometry
  started reg packed = record {
    server = record {
      buckets = copy_buckets;
      packed = packed;
      seeds = env.seeds;
      lru = some env.new_lru;
      blocked = false;
      hook = none;
    };
    reg = publish_meta reg;
    region_size = setup_geometry.total_size;
    num_buckets = env.generated.num_elements;
    num_data_entries = packed_entries;
    lock_array = λ i. 0;
  }

  -- The data is loaded into the mapped region, and the metadata published.
  unfoldable pub fill_region : Registry → Run (Option (Started C))
  unfolding load_keys started packed_entries
  fill_region reg = do
    loaded ←
        load_keys env.exist_keys env.stops env.nkeys env.nkeys 0
          (attach env.junk (λ i. zero_entry) packed_entries)
    elim loaded [ none ↦ ok none | some packed ↦ ok (some (started reg packed)) ]

  -- `none` is the answer `false`.
  unfoldable pub setup_ludo_table : Run (Option (Started C))
  unfolding polled_stop fill_region
  setup_ludo_table =
      if polled_stop env.stops env.nkeys 0
      then ok none
      else elim (map_numa_registry env.registry_calls true created_registry) [
        | none ↦ ok none
        | some reg ↦ if create_shared_numa_region env.region_calls then fill_region reg else ok none
      ]
