-- ===== src/Resize.antt =====
-- outback/outback_resize.hh: the state of the resize orchestrator, its helpers, and the calls that
-- clients make on it. What a call asks of the system is an argument: the clock's readings, the free
-- memory, the outcome of the mapping calls.
pub mod Copy
pub mod Replay
pub mod Monitor
pub mod Round
pub mod Machine
pub mod Drain
pub mod Switch
pub mod Acks
pub mod Clients
pub mod Reclaim
pub mod Signal
pub mod Cycle
use outback_cxl_numa.Base.{
  ℕ, zero, suc, ◌+◌, ◌*◌, ◌/◌, ◌%◌, ◌^◌, Bool, true, false, ◌||◌, not, Option, none, some, List, [],
  ◌∷◌, add64, sub64, mul64, ltb, leb, ◌==◌, if◌then◌else◌, update,
}
use outback_cxl_numa.Slot.{LudoBuckets}
use outback_cxl_numa.Packed.{PackedData, PackedStruct}
use outback_cxl_numa.Registry.{
  Registry, ResizeState, normal, pre_resize, copying, ready_to_switch, drain_old, gc_pending,
  ShmCalls, ClientLiveness, max_clients,
}
use outback_cxl_numa.Deferred.{Deferred}

-- The readings of the clock in nanoseconds, in the order in which one call makes them; free memory,
-- if `sysinfo` succeeds; the system calls behind a new region and the handles that they give; and
-- what the uninitialised entry in the constructor of the packed array holds.
pub record Env : Type 0 where
  pub clock : ℕ → ℕ
  pub free_bytes : Option ℕ
  pub shm : ShmCalls
  pub new_base : ℕ
  pub new_fd : ℕ
  pub junk : PackedStruct

abbrev pub now_ms : Env → ℕ → ℕ
now_ms env n = env.clock n / 1_000_000

pub record ResizeMetrics : Type 0 where
  pub resize_count : ℕ
  pub copy_duration_ms : ℕ
  pub ack_wait_ms : ℕ
  pub drain_duration_ms : ℕ
  pub gc_delay_ms : ℕ
  pub zombie_cleanups : ℕ
  pub pressure_guard_fails : ℕ

-- The typed view of a data region.
pub record Region : Type 0 where
  pub buckets : LudoBuckets
  pub packed : PackedData

-- The members, with `srv_state_` and the registry that the orchestrator works on. `region` is what
-- the server state points to; once `wrapped`, `new_ludo_buckets_` and `new_packed_data_` point to
-- the same region. `seeds` is `none` for a null `ludo_lookup_`; a null base and a descriptor of -1
-- are `none`. The last four fields are the effects: the state lines on stderr, newest first, and
-- what was given to `munmap`, `close` and `shm_unlink`.
pub record Orchestrator : Type 0 where
  pub reg : Registry
  pub seeds : Option (ℕ → ℕ)
  pub region : Region
  pub wrapped : Bool
  pub shared_region_base : Option ℕ
  pub shared_region_fd : Option ℕ
  pub num_buckets : ℕ
  pub num_data_entries : ℕ
  pub blocked : Bool
  pub deferred : Deferred
  pub pending_old_ver : ℕ
  pub pending_old_base : Option ℕ
  pub pending_old_fd : Option ℕ
  pub pending_old_size : ℕ
  pub ack_wait_start : ℕ
  pub gc_start_time : ℕ
  pub metrics : ResizeMetrics
  pub trace : List ResizeState
  pub unmapped : List ℕ
  pub closed : List ℕ
  pub unlinked : List ℕ

-- `kZombieThresholdNs`, `kAckGraceMs`, `kGcGraceMs`
abbrev pub zombie_threshold_ns : ℕ
zombie_threshold_ns = 30_000_000_000

abbrev pub ack_grace_ms : ℕ
ack_grace_ms = 5_000

abbrev pub gc_grace_ms : ℕ
gc_grace_ms = 2_000

-- Are insertions and removals blocked in this state?
abbrev pub blocks : ResizeState → Bool
blocks normal = false
blocks pre_resize = false
blocks copying = true
blocks ready_to_switch = true
blocks drain_old = true
blocks gc_pending = false

unfoldable pub set_state : ResizeState → Orchestrator → Orchestrator
set_state s o = record o {
  blocked = blocks s;
  reg = record o.reg { resize_state = s; generation = add64 o.reg.generation 1 };
  trace = s ∷ o.trace;
}

abbrev pub allows : ResizeState → Bool
allows normal = true
allows pre_resize = true
allows copying = false
allows ready_to_switch = false
allows drain_old = false
allows gc_pending = false

unfoldable pub structural_mutations_allowed : Orchestrator → Bool
structural_mutations_allowed o = allows o.reg.resize_state

unfoldable pub memory_pressure_ok : Env → ℕ → Bool
memory_pressure_ok env current_region_size = elim env.free_bytes [
  | none ↦ true
  | some free ↦ leb (mul64 current_region_size 2) free
]

-- The highest of the first `lanes` counters.
unfoldable pub max_index : ℕ → (ℕ → ℕ) → ℕ
max_index zero next = 0
max_index (suc n) next = let m = max_index n next in if ltb m (next n) then next n else m

unfoldable pub effective_lanes : Registry → ℕ
effective_lanes reg = if reg.mem_threads == 0 then 1 else reg.mem_threads

unfoldable pub fill : Orchestrator → ℕ
unfolding max_index effective_lanes
fill o = max_index (effective_lanes o.reg) o.reg.lane_next_free_index

-- `start` hooks the handlers to this orchestrator and `stop` unhooks them; either way the flag that
-- the handlers read is what this says of it.
unfoldable pub stop : Orchestrator → Orchestrator
stop o = record o { blocked = false }

unfoldable pub fresh_client : Registry → ℕ → ℕ → Registry
fresh_client reg i now = record reg {
  clients =
      update reg.clients i
        (record { active = 1; last_heartbeat_ns = now; last_seen_generation = reg.generation });
  registered_clients = add64 reg.registered_clients 1;
}

-- The loop of `register_client` from slot `i` on, with `n` slots left to try.
unfoldable pub register_from : ℕ → ℕ → Registry → ℕ → Option ℕ × Registry
unfolding fresh_client
register_from zero i reg now = (none, reg)
register_from (suc n) i reg now =
    let rest = register_from n (i + 1) reg now in
    if (reg.clients i).active == 0 then (some i, fresh_client reg i now) else rest

-- `none` is the answer -1.
unfoldable pub register_client : Registry → ℕ → Option ℕ × Registry
unfolding register_from
register_client reg now = register_from max_clients 0 reg now

-- A negative slot is `none`.
unfoldable pub update_heartbeat : Registry → Option ℕ → ℕ → Registry
update_heartbeat reg none now = reg
update_heartbeat reg (some slot) now = if leb max_clients slot then reg else record reg {
  clients = update reg.clients slot (record (reg.clients slot) {
    last_heartbeat_ns = now;
    last_seen_generation = reg.generation;
  });
}

unfoldable pub deregister_client : Registry → Option ℕ → Registry
deregister_client reg none = reg
deregister_client reg (some slot) =
    if leb max_clients slot
    then reg
    else if (reg.clients slot).active == 1
    then record reg {
      clients = update reg.clients slot (record (reg.clients slot) { active = 0 });
      registered_clients = sub64 reg.registered_clients 1;
    }
    else reg
