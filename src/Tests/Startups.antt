-- ===== src/Tests/Startups.antt =====
-- The set-up of a server with one key, its clean-up, and a whole resize.
use native.Mathlib.Nat.{mod-eq_of_lt}
use outback_cxl_numa.Base.{
  ℕ, ◌-◌, ◌+◌, ◌*◌, ◌≡◌, refl, arith, true, false, some, [], ◌∷◌, ◌&&◌, ◌==◌, if◌then◌else◌,
  Returns,
}
use outback_cxl_numa.Slot.{to_length, fingerprint}
use outback_cxl_numa.Packed.{bulk_load_data, zero_entry}
use outback_cxl_numa.Registry.{ready_to_switch, map_numa_registry, create_shared_numa_region}
use outback_cxl_numa.Registry.ShmNames.{numa_region_name, numa_meta_name}
use outback_cxl_numa.Registry.Lanes.{alloc_remote_data_slot}
use outback_cxl_numa.Resize.{Env, Orchestrator}
use outback_cxl_numa.Setup.Lifetime.{System, take_slot, count_client}
use outback_cxl_numa.Setup.Lifetime.Sound.{fresh_system}
use outback_cxl_numa.Resize.Monitor.{maybe_trigger_pre_resize, writers_remain, readers_remain}
use outback_cxl_numa.Resize.Cycle.{IsTicking, Reaches, IsOver}
use outback_cxl_numa.Resize.Cycle.Completes.{IsQuiet, cycle_completes}
use outback_cxl_numa.Server.{Reply, outback_put_direct, outback_get_direct}
use outback_cxl_numa.Store.{IsPlaced}
use outback_cxl_numa.Setup.{SetupEnv, Started, setup_ludo_table}
use outback_cxl_numa.Setup.Loaded.{loaded_word, IsGenerated, CanStart, Serves}
use outback_cxl_numa.Setup.Loaded.Serving.{setup-Serves}
use outback_cxl_numa.Setup.FirstPut.{lanes_of_pos, loaded_put_misses, append_meets_lane}
use outback_cxl_numa.Setup.Lifecycle.{Process, cleanup_numa_ipc, register_numa_server}
use outback_cxl_numa.Setup.Cleanup.{cleanup_releases}
use outback_cxl_numa.Tests.{
  test_ludo, test_registry, test_env, all_calls, test_orchestrator, test_cache, none-IsCounted,
}

-- Key 5, which belongs to slot 3 of row 1 under seed 3.
abbrev one_key : SetupEnv ℕ
one_key = record {
  nkeys = 1;
  exist_keys = λ i. 5;
  stops = λ i. false;
  generated = record {
    slots = λ row slot. if (row == 1) && (slot == 3) then loaded_word 0 else 0;
    num_elements = 4;
  };
  seeds = λ row. 3;
  registry_calls = all_calls;
  region_calls = all_calls;
  junk = zero_entry;
  numa_node = 0;
  slow_of = λ n. n;
  stop_of = λ n. n;
  mem_threads = 2;
  new_lru = 0;
}

one-IsGenerated : IsGenerated test_ludo (λ i. 5) 1 (λ row. 3) one_key.generated
unfolding to_length
one-IsGenerated = record {
  row_of = λ i h. omega arith;
  word_of = λ i h. omega arith;
  key_of = λ r t h occ. (0, omega arith, ground arith, ground arith);
}

one-CanStart : CanStart test_ludo one_key
unfolding map_numa_registry create_shared_numa_region
one-CanStart = record {
  quiet = λ i h. refl;
  registry = refl;
  region = refl;
  narrow = omega arith;
  generated = one-IsGenerated;
}

setup-Serves_example :
    Returns
      (setup_ludo_table one_key)
      λ r. (p : Started ℕ) × (r ≡ some p) × Serves test_ludo one_key p
setup-Serves_example = setup-Serves test_ludo one_key one-CanStart

one-setup :
    Returns
      (setup_ludo_table one_key)
      λ r. (p : Started ℕ) × (r ≡ some p) × Serves test_ludo one_key p
one-setup = setup-Serves test_ludo one_key one-CanStart

-- What is up then.
abbrev one_started : Started ℕ
one_started = one-setup.2.0

abbrev first_reply : Reply
first_reply = record { status = false; val = 0 }

-- The fingerprint of key 5 is 18.
loaded_put_misses_example :
    Returns (outback_put_direct test_ludo test_cache 1 one_started.server 7 5 50 first_reply) λ r.
      (r.0.status ≡ true)
      × IsPlaced r.1.buckets r.1.packed
      × (outback_get_direct r.1 7 ≡ record { status = true; val = 0 })
unfolding fingerprint
loaded_put_misses_example =
    loaded_put_misses test_ludo one_key one_started one-setup.2.2 0 (omega arith) (omega arith)
      test_cache 1 50 first_reply

append_meets_lane_example :
    Returns
      (bulk_load_data one_started.server.packed 9 8 90)
      λ r. (alloc_remote_data_slot one_started.reg 0).0 ≡ some r.0
append_meets_lane_example =
    append_meets_lane test_ludo one_key one_started one-setup.2.2 (omega arith) 9 90 0
      (mod-eq_of_lt (lanes_of_pos one_started.reg))

abbrev registered_one : Orchestrator
registered_one = (register_numa_server (b'x' ∷ []) one_started 2048 3).orchestrator

abbrev after_round : Orchestrator
after_round = maybe_trigger_pre_resize registered_one

-- A round, and a client that takes a slot, is counted and asks for an entry.
abbrev rounded : System
rounded = record (fresh_system registered_one) { o = after_round; seen = 0 + 0 }

abbrev taken : System
taken = record rounded {
  o = record rounded.o { reg = take_slot 0 rounded.o.reg };
  uncounted = rounded.uncounted + 1;
}

abbrev tallied : System
tallied = record taken {
  o = record taken.o { reg = count_client taken.o.reg };
  uncounted = taken.uncounted - 1;
}

abbrev allocated : System
allocated = record tallied {
  o = record tallied.o { reg = (alloc_remote_data_slot tallied.o.reg 0).1 };
}

-- A round each second.
abbrev ticking_envs : ℕ → Env
ticking_envs i = record (test_env all_calls) { clock = λ n. (i + 1) * 1_000_000_000 }

ticking : IsTicking test_ludo ticking_envs
ticking = record {
  started = omega arith;
  order = λ i k l h. omega arith;
  tick = λ i k l. omega arith;
  small = λ i k h. omega arith;
}

ready-IsQuiet : IsQuiet (test_orchestrator ready_to_switch)
unfolding writers_remain readers_remain
ready-IsQuiet = record {
  no_writers = refl;
  no_readers = refl;
  counted = none-IsCounted;
  room = omega arith;
}

cycle_completes_example :
    Reaches test_ludo ticking_envs IsOver 17 0 (test_orchestrator ready_to_switch)
cycle_completes_example =
    cycle_completes test_ludo ticking_envs ticking (test_orchestrator ready_to_switch) refl
      ready-IsQuiet (omega arith)

abbrev running : Process
running = record {
  server_name = b'x' ∷ [];
  region_size = 8192;
  cleanup_done = false;
  orchestrating = true;
  blocked = true;
  registry = test_registry ready_to_switch;
  state = some (record {
    shared_meta = some 1024;
    shared_region_base = some 2048;
    shared_region_fd = some 3;
    shared_meta_fd = some 4;
  });
  metas_unmapped = [];
  regions_unmapped = [];
  closed = [];
  unlinked = [];
}

cleanup_releases_example :
    (cleanup_numa_ipc running).unlinked
    ≡ numa_region_name (b'x' ∷ []) 0 ∷ (numa_meta_name (b'x' ∷ []) ∷ [])
cleanup_releases_example = (cleanup_releases running 1024 2048 3 4 refl (omega arith) refl).8
