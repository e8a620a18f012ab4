-- ===== src/Registry.antt =====
-- xcomm/src/transport/numa_transport.hh: the control plane that servers and clients share, and the
-- constants of the resize protocol. Atomics are read and written in one step each.
pub mod Layout
pub mod Lanes
pub mod Names
pub mod Lock
pub mod ShmNames
use outback_cxl_numa.Base.{
  ℕ, ◌+◌, ◌-◌, ◌*◌, ◌/◌, ◌%◌, ◌^◌, Bool, true, false, Option, none, some, add64, sub64, ltb, ◌==◌,
  if◌then◌else◌, update,
}

abbrev pub numa_meta_magic : ℕ
numa_meta_magic = 0x4F55544241434B4E

abbrev pub max_numa_lanes : ℕ
max_numa_lanes = 64

abbrev pub max_clients : ℕ
max_clients = 256

abbrev pub max_epoch_slots : ℕ
max_epoch_slots = 16

pub data OpStatus : Type 0 where
  op_ok not_found pre_resize_op retry_later deferred stale_version internal_error : OpStatus

-- `static_cast<uint64_t>` of the enumerator
abbrev pub code : OpStatus → ℕ
code op_ok = 0
code not_found = 1
code pre_resize_op = 2
code retry_later = 3
code deferred = 4
code stale_version = 5
code internal_error = 6

pub data ResizeState : Type 0 where
  normal pre_resize copying ready_to_switch drain_old gc_pending : ResizeState

pub record ClientLiveness : Type 0 where
  pub last_heartbeat_ns : ℕ
  pub last_seen_generation : ℕ
  pub active : ℕ

pub record ResizeEpoch : Type 0 where
  pub version : ℕ
  pub publish_ts_ns : ℕ
  pub region_size : ℕ
  pub num_buckets : ℕ
  pub num_data_entries : ℕ
  pub packed_array_offset : ℕ
  pub ludo_buckets_offset : ℕ
  pub lock_array_offset : ℕ
  pub global_depth : ℕ
  pub directory_size : ℕ
  pub directory_version : ℕ
  pub clients_pending_ack : ℕ
  pub active_readers : ℕ
  pub active_writers : ℕ
  pub published : ℕ
  pub cleanup_allowed : ℕ

-- `SharedNumaRegistry`, less its padding, the two fields that nothing reads, and the counts of the
-- deferred mutations, which stand beside the queues in `Deferred`
pub record Registry : Type 0 where
  pub magic : ℕ
  pub protocol_version : ℕ
  pub resize_state : ResizeState
  pub current_version : ℕ
  pub previous_version : ℕ
  pub generation : ℕ
  pub ready : ℕ
  pub numa_node : ℕ
  pub s_slow : ℕ
  pub s_stop : ℕ
  pub registered_clients : ℕ
  pub epoch : ℕ → ResizeEpoch
  pub clients : ℕ → ClientLiveness
  pub mem_threads : ℕ
  pub lane_next_free_index : ℕ → ℕ

-- `epoch[version % kMaxEpochSlots]`
abbrev pub epoch_at : Registry → ℕ → ResizeEpoch
epoch_at reg version = reg.epoch (version % max_epoch_slots)

-- A write through the reference `epoch[version % kMaxEpochSlots]`.
abbrev pub set_epoch : Registry → ℕ → ResizeEpoch → Registry
set_epoch reg version ep = record reg { epoch = update reg.epoch (version % max_epoch_slots) ep }

unfoldable pub current_epoch : Registry → ResizeEpoch
current_epoch reg = epoch_at reg reg.current_version

abbrev pub zero_epoch : ResizeEpoch
zero_epoch = record {
  version = 0;
  publish_ts_ns = 0;
  region_size = 0;
  num_buckets = 0;
  num_data_entries = 0;
  packed_array_offset = 0;
  ludo_buckets_offset = 0;
  lock_array_offset = 0;
  global_depth = 0;
  directory_size = 0;
  directory_version = 0;
  clients_pending_ack = 0;
  active_readers = 0;
  active_writers = 0;
  published = 0;
  cleanup_allowed = 0;
}

abbrev pub zero_client : ClientLiveness
zero_client = record { last_heartbeat_ns = 0; last_seen_generation = 0; active = 0 }

-- What `map_numa_registry` writes with `create` set: zeros, then the identity and the versions.
unfoldable pub created_registry : Registry
created_registry = record {
  magic = numa_meta_magic;
  protocol_version = 1;
  resize_state = normal;
  current_version = 1;
  previous_version = 0;
  generation = 0;
  ready = 0;
  numa_node = 0;
  s_slow = 0;
  s_stop = 0;
  registered_clients = 0;
  epoch = λ i. zero_epoch;
  clients = λ i. zero_client;
  mem_threads = 0;
  lane_next_free_index = λ i. 0;
}

-- What the system calls of one mapping answer: `shm_open`, `ftruncate`, `mmap`.
pub record ShmCalls : Type 0 where
  pub opened : Bool
  pub truncated : Bool
  pub mapped : Bool

-- `map_numa_registry`: the registry that is mapped, given the one in shared memory. With `create`
-- set it is written anew.
unfoldable pub map_numa_registry : ShmCalls → Bool → Registry → Option Registry
unfolding created_registry
map_numa_registry sys create shared =
    if sys.opened
    then if create
      then if sys.truncated then if sys.mapped then some created_registry else none else none
      else if sys.mapped
      then some shared
      else none
    else none

-- Do `create_shared_numa_region` and `open_shared_numa_region` succeed?
unfoldable pub create_shared_numa_region : ShmCalls → Bool
create_shared_numa_region sys =
    if sys.opened then if sys.truncated then sys.mapped else false else false

unfoldable pub open_shared_numa_region : ShmCalls → Bool
open_shared_numa_region sys = if sys.opened then sys.mapped else false
