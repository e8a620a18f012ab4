-- ===== src/Client.antt =====
-- outback/outback_client_numa.hh: a client thread's view of the current region, the check for a new
-- version, and the connection to a server.
pub mod Ops
pub mod Versions
pub mod Connects
pub mod Scan
pub mod Keeps
pub mod PutSearch
pub mod Overwrite
use outback_cxl_numa.Base.{
  ℕ, zero, suc, ◌+◌, ◌%◌, ◌^◌, Bool, true, false, Option, none, some, List, [], ◌∷◌, add64, sub64,
  ◌==◌, if◌then◌else◌, update,
}
use outback_cxl_numa.Packed.{PackedStruct, attach}
use outback_cxl_numa.Registry.{
  Registry, ResizeEpoch, ShmCalls, current_epoch, epoch_at, set_epoch, numa_meta_magic, max_clients,
  map_numa_registry, open_shared_numa_region,
}
use outback_cxl_numa.Resize.{Region}

-- What one call asks of the system: the clock, the mapping calls and the handles that they give,
-- what the mapped region holds, and the uninitialised entry in the packed array's constructor.
pub record ClientEnv : Type 0 where
  pub now_ns : ℕ
  pub registry_calls : ShmCalls
  pub region_calls : ShmCalls
  pub new_view : ℕ
  pub new_base : ℕ
  pub new_fd : ℕ
  pub words : ℕ → ℕ → ℕ
  pub entries : ℕ → PackedStruct
  pub junk : PackedStruct

-- The globals and the thread's `t_region`. `shared` is the registry in shared memory, and `attached`
-- says whether `remote_registry` points to it. A view is the pair of wrappers for one region, which
-- are made and deleted together; a null pointer, a descriptor of -1 and a client slot of -1 are
-- `none`. The last three fields are the views deleted, and the regions unmapped and closed.
pub record Client : Type 0 where
  pub shared : Registry
  pub attached : Bool
  pub regions : ℕ → Region
  pub seeds : ℕ → ℕ
  pub remote_view : Option ℕ
  pub remote_lock : Option ℕ
  pub lane_id : ℕ
  pub local_version : ℕ
  pub local_generation : ℕ
  pub region_base : Option ℕ
  pub region_fd : Option ℕ
  pub region_size : ℕ
  pub view : Option ℕ
  pub lock : Option ℕ
  pub client_slot : Option ℕ
  pub deleted : List ℕ
  pub unmapped : List ℕ
  pub closed : List ℕ

abbrev pub or_else : Option ℕ → Option ℕ → Option ℕ
or_else none d = d
or_else (some a) d = some a

-- The slot's entry gets the time and the generation, without a test of the slot's range.
unfoldable pub beat : ℕ → Registry → ℕ → Registry
beat now reg slot = record reg {
  clients = update reg.clients slot (record (reg.clients slot) {
    last_heartbeat_ns = now;
    last_seen_generation = reg.generation;
  });
}

unfoldable pub beat_slot : ClientEnv → Option ℕ → Client → Client
unfolding beat
beat_slot env none c = c
beat_slot env (some slot) c = record c { shared = beat env.now_ns c.shared slot }

unfoldable pub client_heartbeat : ClientEnv → Client → Client
unfolding beat_slot
client_heartbeat env c = if c.attached then beat_slot env c.client_slot c else c

-- A non-null view joins the deleted ones.
abbrev pub delete_view : Option ℕ → List ℕ → List ℕ
delete_view none xs = xs
delete_view (some v) xs = v ∷ xs

-- Given the region's base and descriptor. The base and the descriptor themselves stay as they are.
unfoldable pub release : Option ℕ → Option ℕ → Client → Client
release none fd c = c
release (some base) none c = c
release (some base) (some fd) c = record c {
  deleted = delete_view c.view c.deleted;
  view = none;
  unmapped = base ∷ c.unmapped;
  closed = fd ∷ c.closed;
}

unfoldable pub release_region : Client → Client
unfolding release
release_region c = release c.region_base c.region_fd c

-- One acknowledgement less is awaited.
unfoldable pub acknowledge : Registry → ℕ → Registry
acknowledge reg version =
    let ep = epoch_at reg version in
    set_epoch reg version (record ep { clients_pending_ack = sub64 ep.clients_pending_ack 1 })

-- The wrappers over the mapped memory. The constructor of the packed array overwrites its entries.
unfoldable pub wrap_region : ClientEnv → ResizeEpoch → Region
unfolding attach
wrap_region env ep = record {
  buckets = record { slots = env.words; num_elements = ep.num_buckets };
  packed = attach env.junk env.entries ep.num_data_entries;
}

-- The thread's state for the region of the current version, once that is mapped.
unfoldable pub enter_region : ClientEnv → Client → Client
unfolding current_epoch wrap_region
enter_region env c =
    let ep = current_epoch c.shared in
    record c {
      region_base = some env.new_base;
      region_fd = some env.new_fd;
      region_size = ep.region_size;
      regions = update c.regions env.new_view (wrap_region env ep);
      view = some env.new_view;
      lock = some (env.new_base + ep.lock_array_offset);
      local_version = c.shared.current_version;
      local_generation = c.shared.generation;
    }

unfoldable pub acknowledged : Client → Client
unfolding acknowledge
acknowledged c = record c { shared = acknowledge c.shared c.shared.current_version }

unfoldable pub remap_to_current_epoch : ClientEnv → Client → Bool × Client
unfolding client_heartbeat release_region enter_region acknowledged current_epoch
remap_to_current_epoch env c =
    if c.attached
    then if (current_epoch c.shared).published == 0
      then (false, c)
      else if open_shared_numa_region env.region_calls
      then (true, client_heartbeat env (acknowledged (enter_region env (release_region c))))
      else (false, release_region c)
    else (false, c)

unfoldable pub maybe_check_version : ClientEnv → Client → Client
unfolding remap_to_current_epoch client_heartbeat
maybe_check_version env c =
    if c.attached
    then if c.shared.generation == c.local_generation
      then c
      else if c.shared.current_version == c.local_version
      then client_heartbeat env (record c { local_generation = c.shared.generation })
      else (remap_to_current_epoch env c).1
    else c

-- `ServerNumaState` of a server in the same process: its pointers, and whether it has a registry.
pub record ServerNumaState : Type 0 where
  pub server_view : Option ℕ
  pub server_lock : Option ℕ
  pub has_meta : Bool

unfoldable pub connect_in_process : ServerNumaState → Client → Client
connect_in_process srv c =
    let c' = record c {
      remote_view = srv.server_view;
      remote_lock = srv.server_lock;
      attached = srv.has_meta;
    } in
    if srv.has_meta
    then record c' {
      local_version = c.shared.current_version;
      local_generation = c.shared.generation;
      view = srv.server_view;
      lock = srv.server_lock;
    }
    else c'

-- A slot is taken by its flag alone.
unfoldable pub claim : ℕ → Client → Client
claim i c = record c {
  client_slot = some i;
  shared = record c.shared {
    clients = update c.shared.clients i (record (c.shared.clients i) { active = 1 });
    registered_clients = add64 c.shared.registered_clients 1;
  };
}

-- The loop over the client table from slot `i` on, with `n` slots left: the first inactive one.
unfoldable pub claim_from : ℕ → ℕ → Client → Client
unfolding claim
claim_from zero i c = c
claim_from (suc n) i c =
    let rest = claim_from n (i + 1) c in
    if (c.shared.clients i).active == 0 then claim i c else rest

-- What follows once a slot was looked for: the region is mapped and entered, or the connection is
-- given up.
unfoldable pub join_region : ClientEnv → Client → Bool × Client
unfolding enter_region acknowledged client_heartbeat
join_region env c =
    let entered = enter_region env c in
    if open_shared_numa_region env.region_calls
    then (
      true,
      client_heartbeat env (
          acknowledged (record entered { remote_view = entered.view; remote_lock = entered.lock })),
    )
    else (false, record c { attached = false })

-- Given the registry that was mapped, if one was.
unfoldable pub check_registry : ClientEnv → Client → Option Registry → Bool × Client
unfolding claim_from join_region current_epoch
check_registry env c none = (false, c)
check_registry env c (some reg) =
    if reg.magic == numa_meta_magic
    then if reg.ready == 0
      then (false, record c { attached = false })
      else if (current_epoch reg).published == 0
      then (false, record c { attached = false })
      else join_region env (claim_from max_clients 0 (record c { attached = true }))
    else (false, record c { attached = false })

unfoldable pub connect_cross_process : ClientEnv → Client → Bool × Client
unfolding map_numa_registry check_registry
connect_cross_process env c =
    check_registry env c (map_numa_registry env.registry_calls false c.shared)

unfoldable pub connect_to_numa_server : ClientEnv → Option ServerNumaState → Client → Bool × Client
unfolding connect_in_process connect_cross_process
connect_to_numa_server env none c = connect_cross_process env c
connect_to_numa_server env (some srv) c = (true, connect_in_process srv c)
