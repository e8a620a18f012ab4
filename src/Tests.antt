-- ===== src/Tests.antt =====
-- A small hash, a registry, stores and an orchestrator that the tests run the operations on.
mod Stores
mod Resizes
mod Clients
mod Indexes
mod Startups
mod Benches
mod Rpcs
use outback_cxl_numa.Base.{
  ℕ, zero, suc, ◌+◌, ◌*◌, ◌/◌, ◌%◌, ◌^◌, ◌<◌, ◌≡◌, refl, arith, true, false, none, some, [], ◌∷◌,
  ◌==◌, if◌then◌else◌,
}
use outback_cxl_numa.Ludo.{Ludo}
use outback_cxl_numa.Slot.{LudoBuckets, to_length}
use outback_cxl_numa.Store.{IsLinked}
use outback_cxl_numa.Packed.{PackedData, zero_entry}
use outback_cxl_numa.Registry.{
  Registry, ResizeEpoch, ResizeState, ShmCalls, zero_epoch, zero_client, numa_meta_magic,
}
use outback_cxl_numa.Deferred.{Deferred}
use outback_cxl_numa.Deferred.Counts.{IsCounted}
use outback_cxl_numa.Server.{Server, Lru}
use outback_cxl_numa.Resize.{Env, Region, Orchestrator, ResizeMetrics}

-- Multiplicative hashing; four rows.
abbrev pub test_ludo : Ludo
test_ludo = record {
  hash = λ seed key. (seed + key) * 0x9E3779B97F4A7C15 % 2 ^ 64;
  lookup_slot =
      λ seeds key. (key % 4, (seeds (key % 4) + key) * 0x9E3779B97F4A7C15 % 2 ^ 64 / 2 ^ 62);
  hash-lt = λ seed key. omega arith;
  lookup_slot_row = λ s t key. refl;
  lookup_slot_col = λ seeds key. refl;
}

abbrev pub empty_buckets : LudoBuckets
empty_buckets = record { slots = λ row slot. 0; num_elements = 4 }

abbrev pub empty_packed : PackedData
empty_packed = record { raw_array = λ i. zero_entry; num_elements = 16; num = 0 }

pub empty-IsLinked : IsLinked test_ludo empty_buckets empty_packed
unfolding to_length
empty-IsLinked = record {
  base = record {
    within = omega arith;
    narrow = omega arith;
    placed = λ r t h. absurd (h (omega arith));
    unaliased = λ r t r' t' h. absurd (h (omega arith));
  };
  named = λ r t h. absurd (h (omega arith));
}

-- A cache that counts its insertions.
abbrev pub test_cache : Lru ℕ
test_cache = record { insert = λ key val c. c + 1 }

abbrev pub no_deferred : Deferred
no_deferred = record {
  inserts = [];
  deletes = [];
  insert_count = 0;
  delete_count = 0;
  inserts_total = 0;
  deletes_total = 0;
}

pub none-IsCounted : IsCounted no_deferred
none-IsCounted = record {
  insert_depth = omega arith;
  delete_depth = omega arith;
  insert_counted = refl;
  delete_counted = refl;
}

abbrev pub empty_server : Server ℕ
empty_server = record {
  buckets = empty_buckets;
  packed = empty_packed;
  seeds = λ row. 3;
  lru = some 0;
  blocked = false;
  hook = some no_deferred;
}

abbrev pub first_epoch : ResizeEpoch
first_epoch = record zero_epoch {
  version = 1;
  region_size = 8192;
  num_buckets = 4;
  num_data_entries = 16;
  ludo_buckets_offset = 320;
  lock_array_offset = 448;
  published = 1;
}

-- One region of version 1, two lanes that have given nothing out, no client.
abbrev pub test_registry : ResizeState → Registry
test_registry state = record {
  magic = numa_meta_magic;
  protocol_version = 1;
  resize_state = state;
  current_version = 1;
  previous_version = 0;
  generation = 5;
  ready = 1;
  numa_node = 0;
  s_slow = 2;
  s_stop = 4;
  registered_clients = 0;
  epoch = λ i. if i == 1 then first_epoch else zero_epoch;
  clients = λ i. zero_client;
  mem_threads = 2;
  lane_next_free_index = λ lane. 8 + lane;
}

abbrev pub all_calls : ShmCalls
all_calls = record { opened = true; truncated = true; mapped = true }

abbrev pub no_calls : ShmCalls
no_calls = record { opened = false; truncated = false; mapped = false }

-- A clock that ticks once a second.
abbrev pub test_env : ShmCalls → Env
test_env calls = record {
  clock = λ n. 60_000_000_000 + n * 1_000_000_000;
  free_bytes = some 1_000_000;
  shm = calls;
  new_base = 4096;
  new_fd = 9;
  junk = record { key = 77; data_length = 7; value = 7 };
}

abbrev pub empty_region : Region
empty_region = record { buckets = empty_buckets; packed = empty_packed }

abbrev pub no_metrics : ResizeMetrics
no_metrics = record {
  resize_count = 0;
  copy_duration_ms = 0;
  ack_wait_ms = 0;
  drain_duration_ms = 0;
  gc_delay_ms = 0;
  zombie_cleanups = 0;
  pressure_guard_fails = 0;
}

abbrev pub test_orchestrator : ResizeState → Orchestrator
test_orchestrator state = record {
  reg = test_registry state;
  seeds = some (λ row. 3);
  region = empty_region;
  wrapped = true;
  shared_region_base = some 2048;
  shared_region_fd = some 3;
  num_buckets = 4;
  num_data_entries = 16;
  blocked = false;
  deferred = no_deferred;
  pending_old_ver = 0;
  pending_old_base = none;
  pending_old_fd = none;
  pending_old_size = 0;
  ack_wait_start = 0;
  gc_start_time = 0;
  metrics = no_metrics;
  trace = [];
  unmapped = [];
  closed = [];
  unlinked = [];
}
