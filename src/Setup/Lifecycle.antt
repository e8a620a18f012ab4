-- ===== src/Setup/Lifecycle.antt =====
-- benchs/outback/server_numa.cc: the server is registered and its resize orchestrator started; and
-- the clean-up of the shared memory at the end, or on a failed start.
use outback_cxl_numa.Base.{
  ℕ, zero, suc, Bool, true, false, Option, none, some, List, [], ◌∷◌, ◌++◌, ltb, if◌then◌else◌,
}
use outback_cxl_numa.Registry.{Registry}
use outback_cxl_numa.Registry.ShmNames.{to_string, numa_meta_name, numa_region_name}
use outback_cxl_numa.Registry.Names.{default_name}
use outback_cxl_numa.Deferred.{Deferred}
use outback_cxl_numa.Server.{Server}
use outback_cxl_numa.Resize.{Orchestrator, ResizeMetrics}
use outback_cxl_numa.Setup.{Started}

-- The handles in `server_state`; a null pointer and a negative descriptor are `none`.
pub record Handles : Type 0 where
  pub shared_meta : Option ℕ
  pub shared_region_base : Option ℕ
  pub shared_region_fd : Option ℕ
  pub shared_meta_fd : Option ℕ

-- The globals that the clean-up reads, `registry` being what is in shared memory. `state` is `none`
-- for a null `server_state`. The last four fields are the effects, newest first: addresses of
-- registries given to `munmap`, regions with their sizes, descriptors closed, names unlinked.
pub record Process : Type 0 where
  pub server_name : List ℕ
  pub region_size : ℕ
  pub cleanup_done : Bool
  pub orchestrating : Bool
  pub blocked : Bool
  pub registry : Registry
  pub state : Option Handles
  pub metas_unmapped : List ℕ
  pub regions_unmapped : List (ℕ × ℕ)
  pub closed : List ℕ
  pub unlinked : List (List ℕ)

-- `g_resize_orchestrator->stop()`, which lets mutations in.
unfoldable pub stop_orchestrator : Process → Process
stop_orchestrator p =
    if p.orchestrating then record p { orchestrating = false; blocked = false } else p

unfoldable pub unmap_meta : Handles → Process → Process
unmap_meta s p = elim s.shared_meta [
  | none ↦ p
  | some base ↦ record p {
    registry = record p.registry { ready = 0 };
    metas_unmapped = base ∷ p.metas_unmapped;
  }
]

unfoldable pub unmap_region : Handles → Process → Process
unmap_region s p = elim s.shared_region_base [
  | none ↦ p
  | some base ↦
      if ltb 0 p.region_size
      then record p { regions_unmapped = (base, p.region_size) ∷ p.regions_unmapped }
      else p
]

unfoldable pub close_fd : Option ℕ → Process → Process
close_fd none p = p
close_fd (some fd) p = record p { closed = fd ∷ p.closed }

-- What is left of the handles: the region's base, if its size was 0.
unfoldable pub dropped : Process → Handles → Handles
dropped p s = record {
  shared_meta = none;
  shared_region_base = if ltb 0 p.region_size then none else s.shared_region_base;
  shared_region_fd = none;
  shared_meta_fd = none;
}

unfoldable pub release : Handles → Process → Process
unfolding unmap_meta unmap_region close_fd dropped
release s p =
    let p' =
      close_fd s.shared_region_fd (close_fd s.shared_meta_fd (unmap_region s (unmap_meta s p))) in
    record p' { state = some (dropped p s) }

unfoldable pub release_state : Process → Process
unfolding release
release_state p = elim p.state [ none ↦ p | some s ↦ release s p ]

-- `shm_unlink` of the registry and of the region. The region's name is asked for without a version.
unfoldable pub unlink_names : Process → Process
unlink_names p = record p {
  unlinked = numa_region_name p.server_name 0 ∷ (numa_meta_name p.server_name ∷ p.unlinked);
}

unfoldable pub cleanup_numa_ipc : Process → Process
unfolding stop_orchestrator release_state unlink_names
cleanup_numa_ipc p =
    if p.cleanup_done
    then p
    else unlink_names (release_state (stop_orchestrator (record p { cleanup_done = true })))

-- The names that clients register under: the server's, "default", and one for each lane.
unfoldable pub lane_names : ℕ → List (List ℕ)
lane_names zero = []
lane_names (suc n) = lane_names n ++ (b'b' ∷ to_string n) ∷ []

abbrev no_metrics : ResizeMetrics
no_metrics = record {
  resize_count = 0;
  copy_duration_ms = 0;
  ack_wait_ms = 0;
  drain_duration_ms = 0;
  gc_delay_ms = 0;
  zombie_cleanups = 0;
  pressure_guard_fails = 0;
}

abbrev no_deferred : Deferred
no_deferred = record {
  inserts = [];
  deletes = [];
  insert_count = 0;
  delete_count = 0;
  inserts_total = 0;
  deletes_total = 0;
}

-- What `register_numa_server` leaves: the names, the server with the handlers hooked to the
-- orchestrator, and the orchestrator, which works on the registry, now marked as ready.
pub record Registered (C : Type 0) : Type 0 where
  pub names : List (List ℕ)
  pub server : Server C
  pub orchestrator : Orchestrator

module _ {C : Type 0} where
  -- `std::make_unique<ResizeOrchestrator>(...)`, on the region mapped at `base` with descriptor `fd`
  unfoldable pub fresh_orchestrator : Started C → ℕ → ℕ → Orchestrator
  fresh_orchestrator p base fd = record {
    reg = record p.reg { ready = 1 };
    seeds = some p.server.seeds;
    region = record { buckets = p.server.buckets; packed = p.server.packed };
    wrapped = false;
    shared_region_base = some base;
    shared_region_fd = some fd;
    num_buckets = p.num_buckets;
    num_data_entries = p.num_data_entries;
    blocked = p.server.blocked;
    deferred = no_deferred;
    pending_old_ver = 0;
    pending_old_base = none;
    pending_old_fd = none;
    pending_old_size = 0;
    ack_wait_start = 0;
    gc_start_time = 0;
    metrics = no_metrics;
    trace = [];
    unmapped = [];
    closed = [];
    unlinked = [];
  }

  unfoldable pub register_numa_server : List ℕ → Started C → ℕ → ℕ → Registered C
  unfolding lane_names fresh_orchestrator
  register_numa_server server_name p base fd = record {
    names =
        server_name
        ∷ (default_name ∷ lane_names (if ltb 0 p.reg.mem_threads then p.reg.mem_threads else 1));
    server = record p.server { hook = some no_deferred };
    orchestrator = fresh_orchestrator p base fd;
  }
