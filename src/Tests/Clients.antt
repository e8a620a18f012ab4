-- ===== src/Tests/Clients.antt =====
-- A client's operations on a small region.
use outback_cxl_numa.Base.{◌+◌, ◌*◌, ◌%◌, ◌^◌, ◌≡◌, inl, inr, refl, arith, true, some, []}
use outback_cxl_numa.Slot.{to_length, to_finger, fingerprint}
use outback_cxl_numa.Packed.{zero_entry}
use outback_cxl_numa.Registry.{ShmCalls, normal, current_epoch, open_shared_numa_region}
use outback_cxl_numa.Registry.Lanes.{alloc_remote_data_slot, lanes_of}
use outback_cxl_numa.Server.{seed_slot}
use outback_cxl_numa.Client.{ClientEnv, Client, maybe_check_version}
use outback_cxl_numa.Client.Ops.{alloc, numa_put, numa_search, put_region}
use outback_cxl_numa.Client.PutSearch.{put_then_search}
use outback_cxl_numa.Client.Overwrite.{put_full_unlinks}
use outback_cxl_numa.Client.Versions.Moves.{HasMoved, check_moves}
use outback_cxl_numa.Tests.{test_ludo, test_registry, all_calls, empty_region, empty_packed}

abbrev client_env : ShmCalls → ClientEnv
client_env calls = record {
  now_ns = 100;
  registry_calls = all_calls;
  region_calls = calls;
  new_view = 1;
  new_base = 65_536;
  new_fd = 12;
  words = λ row slot. 0;
  entries = λ i. zero_entry;
  junk = zero_entry;
}

-- A client in version 1, with view 0 of its region.
abbrev test_client : Client
test_client = record {
  shared = test_registry normal;
  attached = true;
  regions = λ v. empty_region;
  seeds = λ row. 3;
  remote_view = some 0;
  remote_lock = some 4096;
  lane_id = 0;
  local_version = 1;
  local_generation = 5;
  region_base = some 2048;
  region_fd = some 3;
  region_size = 8192;
  view = some 0;
  lock = some 4096;
  client_slot = some 0;
  deleted = [];
  unmapped = [];
  closed = [];
}

put_then_search_example :
    (numa_search test_ludo
      (client_env all_calls)
      (numa_put test_ludo (client_env all_calls) test_client 5 50)
      5).0
    ≡ some 50
unfolding to_length alloc alloc_remote_data_slot lanes_of current_epoch
put_then_search_example =
    put_then_search test_ludo (client_env all_calls) test_client 0 5 50 4096 (inr refl) refl refl
      (inl (omega arith, 8, refl, omega arith))

-- Every slot is taken by a fingerprint that key 5 does not have.
abbrev crowded : Client
crowded = record test_client {
  regions = λ v. record {
    packed = empty_packed;
    buckets = record {
      slots =
          λ row slot. 2 ^ 63 + (fingerprint test_ludo 5 + 1) % 2 ^ 7 * 2 ^ 56 + 64 * 2 ^ 40 + slot;
      num_elements = 4;
    };
  };
}

put_full_unlinks_example : (put_region test_ludo crowded 0 5 50).seeds 1 ≡ 4
unfolding to_length to_finger fingerprint seed_slot
put_full_unlinks_example =
    (put_full_unlinks test_ludo crowded 0 5 50 (omega arith) (omega arith)
      (omega arith, omega arith, omega arith, omega arith)).1

-- The client when version 1 is new to it.
abbrev behind : Client
behind = record test_client { local_version = 0; local_generation = 4 }

check_moves_example :
    HasMoved (client_env all_calls) behind (maybe_check_version (client_env all_calls) behind)
unfolding open_shared_numa_region current_epoch
check_moves_example =
    (((check_moves (client_env all_calls) behind refl).1 (omega arith)).1 (omega arith)).1
      (omega arith) refl
