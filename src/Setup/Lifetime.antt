-- ===== src/Setup/Lifetime.antt =====
-- A server's life: the monitor's rounds (outback/outback_resize.hh), the clients' claims, heartbeats,
-- allocations and acknowledgements (outback/outback_client_numa.hh), and the handlers that defer
-- (outback/outback_server_numa.hh), in any order. A handler reads the flag in one step and enqueues in
-- a later one; the monitor empties the queues, whose lock it holds, in one step, and lets mutations in
-- in a later one; a client takes its slot in one step and is counted in a later one. The
-- orchestrator's own calls for clients (register_client and the like) have no callers.
pub mod Clients
pub mod Rounds
pub mod Sound
pub mod Stranded
use outback_cxl_numa.Base.{
  ℕ, ◌+◌, ◌-◌, ◌<◌, ◌≤◌, ◌≡◌, ◌⊎◌, Bool, true, false, length, Run, ok, add64, sub64, update,
  if◌then◌else◌,
}
use outback_cxl_numa.Ludo.{Ludo}
use outback_cxl_numa.Registry.{Registry, pre_resize, drain_old, gc_pending, max_clients}
use outback_cxl_numa.Registry.Lanes.{alloc_remote_data_slot}
use outback_cxl_numa.Deferred.{Deferred, defer_insert, defer_delete}
use outback_cxl_numa.Deferred.Counts.{IsCounted}
use outback_cxl_numa.Resize.{Env, Orchestrator, Region, now_ms, set_state}
use outback_cxl_numa.Resize.Monitor.{check_state, writers_remain, allow_cleanup, emptied}
use outback_cxl_numa.Resize.Replay.{replay_all}
use outback_cxl_numa.Resize.Machine.{Settled}
use outback_cxl_numa.Resize.Clients.{count_active}
use outback_cxl_numa.Client.{beat, acknowledge}

-- The orchestrator and its registry, with what is under way. `draining` says that the monitor has
-- emptied the queues and not yet left DRAIN_OLD, `seen` counts the handlers that read the flag as set
-- and have not enqueued, and `uncounted` the clients that have a slot and are not yet counted. `late`
-- counts the mutations enqueued after the queues were emptied or while mutations are let in.
pub record System : Type 0 where
  pub o : Orchestrator
  pub draining : Bool
  pub seen : ℕ
  pub uncounted : ℕ
  pub late : ℕ

-- The first half of a draining round: all deferred mutations are replayed.
unfoldable pub empty_queues : Region → Orchestrator → Orchestrator
unfolding emptied
empty_queues region o = record o { region = region; deferred = emptied o.deferred }

-- The second half: the old region may be cleaned up, and mutations are let in.
unfoldable pub leave_drain : Env → Orchestrator → Orchestrator
unfolding set_state allow_cleanup
leave_drain env o = set_state gc_pending (record (allow_cleanup o) {
  metrics = record o.metrics {
    drain_duration_ms = add64 o.metrics.drain_duration_ms (sub64 (now_ms env 1) (now_ms env 0));
  };
  gc_start_time = now_ms env 2;
})

-- The exchange on `active`, and the count that follows it.
unfoldable pub take_slot : ℕ → Registry → Registry
take_slot i reg = record reg {
  clients = update reg.clients i (record (reg.clients i) { active = 1 });
}

unfoldable pub count_client : Registry → Registry
count_client reg = record reg { registered_clients = add64 reg.registered_clients 1 }

-- A handler enqueues; it is late if the queues were emptied or mutations are let in meanwhile.
unfoldable pub enqueue : Deferred → System → System
enqueue d s = record s {
  o = record s.o { deferred = d };
  seen = s.seen - 1;
  late = if s.draining then s.late + 1 else if s.o.blocked then s.late else s.late + 1;
}

-- One step of the system.
pub data Step (ludo : Ludo) (s : System) : System → Type 0 where
  -- A round of the monitor, but for one that empties the queues. While a copy is under way the flag is
  -- set, so `readers` handlers may have seen it even if the copy is given up.
  round :
      {o' : Orchestrator} (env : Env) (readers : ℕ)
      → s.draining ≡ false
      → (s.o.reg.resize_state ≡ drain_old → writers_remain s.o ≡ true)
      → (readers ≡ 0) ⊎ (s.o.reg.resize_state ≡ pre_resize)
      → check_state ludo env s.o ≡ ok o'
      → Step ludo s (record s { o = o'; seen = s.seen + readers })
  -- The monitor empties the queues.
  empties :
      (region : Region)
      → s.draining ≡ false
      → s.o.reg.resize_state ≡ drain_old
      → writers_remain s.o ≡ false
      → replay_all ludo s.o.seeds s.o.wrapped s.o.region s.o.deferred.inserts s.o.deferred.deletes
        ≡ ok region
      → Step ludo s (record s { o = empty_queues region s.o; draining = true; late = 0 })
  -- It goes on to GC_PENDING.
  leaves :
      (env : Env)
      → s.draining ≡ true
      → Step ludo s (record s { o = leave_drain env s.o; draining = false })
  -- A put or a removal finds the flag set.
  sees : s.o.blocked ≡ true → Step ludo s (record s { seen = s.seen + 1 })
  -- A put or a removal that found it set enqueues, whatever the flag is now.
  defers_insert :
      (now key val : ℕ)
      → 0 < s.seen
      → Step ludo s (enqueue (defer_insert now s.o.deferred key val).1 s)
  defers_delete :
      (now key : ℕ) → 0 < s.seen → Step ludo s (enqueue (defer_delete now s.o.deferred key).1 s)
  -- A client that connects takes an inactive slot.
  takes :
      (i : ℕ)
      → i < max_clients
      → (s.o.reg.clients i).active ≡ 0
      → Step ludo s
          (record s { o = record s.o { reg = take_slot i s.o.reg }; uncounted = s.uncounted + 1 })
  -- A client that has taken a slot is counted.
  counts :
      0 < s.uncounted
      → Step ludo s
          (record s { o = record s.o { reg = count_client s.o.reg }; uncounted = s.uncounted - 1 })
  -- A client gives a sign of life in a slot.
  beats : (now i : ℕ) → Step ludo s (record s { o = record s.o { reg = beat now s.o.reg i } })
  -- A client asks for an entry.
  allocates :
      (lane : ℕ)
      → Step ludo s (record s { o = record s.o { reg = (alloc_remote_data_slot s.o.reg lane).1 } })
  -- A client has moved to a version.
  acknowledges :
      (version : ℕ)
      → Step ludo s (record s { o = record s.o { reg = acknowledge s.o.reg version } })

-- The states that steps lead to.
pub data Reached (ludo : Ludo) (start : System) : System → Type 0 where
  at_start : Reached ludo start start
  later : {s s' : System} → Reached ludo start s → Step ludo s s' → Reached ludo start s'

-- Flags are 0 or 1, and the active slots are the counted clients and those yet to be counted.
pub record IsTalliedUp (uncounted : ℕ) (reg : Registry) : Type 0 where
  pub flags : (i : ℕ) → (reg.clients i).active ≤ 1
  pub counted : reg.registered_clients + uncounted ≡ count_active max_clients reg.clients

-- How many mutations are deferred.
abbrev pub waiting_count : Deferred → ℕ
waiting_count d = length d.inserts + length d.deletes

-- What holds between steps.
pub record IsSound (s : System) : Type 0 where
  pub settled : Settled s.o
  pub held : s.draining ≡ true → s.o.reg.resize_state ≡ drain_old
  pub census : IsTalliedUp s.uncounted s.o.reg
  pub counted : IsCounted s.o.deferred
  pub flushed : (s.o.blocked ≡ false) ⊎ (s.draining ≡ true) → waiting_count s.o.deferred ≤ s.late
