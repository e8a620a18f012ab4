-- ===== src/Resize/Monitor.antt =====
-- outback/outback_resize.hh: one round of the monitor thread, `check_state`, with the handler of each
-- state.
use outback_cxl_numa.Base.{
  ℕ, zero, suc, ◌+◌, Bool, false, Option, none, some, List, [], ◌∷◌, Run, ok, ◌>>=◌, add64, sub64,
  ltb, leb, ◌==◌, if◌then◌else◌, length,
}
use outback_cxl_numa.Ludo.{Ludo}
use outback_cxl_numa.Registry.{
  ResizeState, normal, pre_resize, copying, ready_to_switch, drain_old, gc_pending, ClientLiveness,
  epoch_at, set_epoch, max_clients,
}
use outback_cxl_numa.Deferred.{Deferred}
use outback_cxl_numa.Resize.{
  Env, Orchestrator, Region, now_ms, set_state, fill, memory_pressure_ok, zombie_threshold_ns,
  ack_grace_ms, gc_grace_ms,
}
use outback_cxl_numa.Resize.Copy.{do_copy}
use outback_cxl_numa.Resize.Replay.{replay_all}

-- NORMAL
unfoldable pub maybe_trigger_pre_resize : Orchestrator → Orchestrator
unfolding fill
maybe_trigger_pre_resize o =
    if o.reg.s_slow == 0 then o else if leb o.reg.s_slow (fill o) then set_state pre_resize o else o

unfoldable pub guard_failed : Orchestrator → Orchestrator
guard_failed o = record o {
  metrics = record o.metrics { pressure_guard_fails = add64 o.metrics.pressure_guard_fails 1 };
}

-- PRE_RESIZE
unfoldable pub maybe_start_copying : Env → Orchestrator → Orchestrator
unfolding fill memory_pressure_ok guard_failed
maybe_start_copying env o =
    let cur_ver = o.reg.current_version in
    if o.reg.s_slow == 0
    then o
    else if ltb (fill o) o.reg.s_stop
    then o
    else if memory_pressure_ok env (epoch_at o.reg cur_ver).region_size
    then do_copy env cur_ver o
    else guard_failed o

-- READY_TO_SWITCH. The difference of two unsigned numbers wraps.
unfoldable pub is_zombie : ℕ → ClientLiveness → Bool
is_zombie now client =
    if client.active == 0
    then false
    else ltb zombie_threshold_ns (sub64 now client.last_heartbeat_ns)

-- The zombies among the first `n` client slots.
unfoldable pub count_zombies : ℕ → ℕ → (ℕ → ClientLiveness) → ℕ
unfolding is_zombie
count_zombies zero now clients = 0
count_zombies (suc n) now clients =
    let m = count_zombies n now clients in if is_zombie now (clients n) then m + 1 else m

-- Nobody is waited for any longer.
unfoldable pub clear_pending : Orchestrator → Orchestrator
clear_pending o =
    let ver = o.reg.current_version in
    record o { reg = set_epoch o.reg ver (record (epoch_at o.reg ver) { clients_pending_ack = 0 }) }

unfoldable pub pending_acks : Orchestrator → ℕ
pending_acks o = (epoch_at o.reg o.reg.current_version).clients_pending_ack

unfoldable pub zombies : Env → Orchestrator → ℕ
unfolding count_zombies
zombies env o = count_zombies max_clients (env.clock 0) o.reg.clients

-- After the scan of the client table.
unfoldable pub scanned : Env → Orchestrator → Orchestrator
unfolding zombies
scanned env o = record o {
  metrics = record o.metrics { zombie_cleanups = add64 o.metrics.zombie_cleanups (zombies env o) };
}

unfoldable pub ack_start : Env → Orchestrator → ℕ
ack_start env o = if o.ack_wait_start == 0 then now_ms env 1 else o.ack_wait_start

unfoldable pub ack_elapsed : Env → Orchestrator → ℕ
unfolding ack_start
ack_elapsed env o = sub64 (now_ms env 2) (ack_start env o)

-- The grace window is over.
unfoldable pub forced : Env → Orchestrator → Orchestrator
unfolding scanned ack_elapsed clear_pending
forced env o = record (set_state drain_old (clear_pending (scanned env o))) {
  ack_wait_start = 0;
  metrics = record (scanned env o).metrics {
    ack_wait_ms = add64 o.metrics.ack_wait_ms (ack_elapsed env o);
  };
}

unfoldable pub waiting : Env → Orchestrator → Orchestrator
unfolding scanned ack_start
waiting env o = record (scanned env o) { ack_wait_start = ack_start env o }

unfoldable pub wait_for_acks_or_timeout : Env → Orchestrator → Orchestrator
unfolding pending_acks forced waiting
wait_for_acks_or_timeout env o =
    if pending_acks o == 0
    then set_state drain_old o
    else if leb (pending_acks o) (zombies env o)
    then set_state drain_old (clear_pending (scanned env o))
    else if ltb ack_grace_ms (ack_elapsed env o)
    then forced env o
    else waiting env o

-- DRAIN_OLD
unfoldable pub writers_remain : Orchestrator → Bool
writers_remain o =
    if ltb 0 o.pending_old_ver
    then ltb 0 (epoch_at o.reg o.pending_old_ver).active_writers
    else false

unfoldable pub allow_cleanup : Orchestrator → Orchestrator
allow_cleanup o =
    let ver = o.pending_old_ver in
    if ltb 0 ver
    then record o {
      reg = set_epoch o.reg ver (record (epoch_at o.reg ver) { cleanup_allowed = 1 });
    }
    else o

unfoldable pub emptied : Deferred → Deferred
emptied d = record d {
  inserts = [];
  deletes = [];
  insert_count = sub64 d.insert_count (length d.inserts);
  delete_count = sub64 d.delete_count (length d.deletes);
}

unfoldable pub drained : Env → Orchestrator → Region → Orchestrator
unfolding allow_cleanup emptied
drained env o region = set_state gc_pending (record (allow_cleanup o) {
  region = region;
  deferred = emptied o.deferred;
  metrics = record o.metrics {
    drain_duration_ms = add64 o.metrics.drain_duration_ms (sub64 (now_ms env 1) (now_ms env 0));
  };
  gc_start_time = now_ms env 2;
})

unfoldable pub drain : Ludo → Env → Orchestrator → Run Orchestrator
unfolding writers_remain drained replay_all
drain ludo env o = if writers_remain o then ok o else do
  region ← replay_all ludo o.seeds o.wrapped o.region o.deferred.inserts o.deferred.deletes
  ok (drained env o region)

-- GC_PENDING
unfoldable pub readers_remain : Orchestrator → Bool
readers_remain o =
    if ltb 0 o.pending_old_ver
    then ltb 0 (epoch_at o.reg o.pending_old_ver).active_readers
    else false

abbrev pub push : Option ℕ → List ℕ → List ℕ
push none effects = effects
push (some h) effects = h ∷ effects

-- The old region's mapping, descriptor and name are given up. An old base of size 0 stays mapped.
unfoldable pub reclaimed : Env → ℕ → Orchestrator → Orchestrator
reclaimed env start o =
    let sized = ltb 0 o.pending_old_size in
    set_state normal (record o {
      unmapped = if sized then push o.pending_old_base o.unmapped else o.unmapped;
      pending_old_base = if sized then none else o.pending_old_base;
      closed = push o.pending_old_fd o.closed;
      pending_old_fd = none;
      unlinked = if ltb 0 o.pending_old_ver then o.pending_old_ver ∷ o.unlinked else o.unlinked;
      pending_old_ver = 0;
      pending_old_size = 0;
      reg = record o.reg { previous_version = 0; generation = add64 o.reg.generation 1 };
      metrics = record o.metrics {
        gc_delay_ms = add64 o.metrics.gc_delay_ms (sub64 (now_ms env 2) start);
      };
      gc_start_time = 0;
    })

unfoldable pub gc_start : Env → Orchestrator → ℕ
gc_start env o = if o.gc_start_time == 0 then now_ms env 0 else o.gc_start_time

unfoldable pub gc_elapsed : Env → Orchestrator → ℕ
unfolding gc_start
gc_elapsed env o = sub64 (now_ms env 1) (gc_start env o)

unfoldable pub gc_waiting : Env → Orchestrator → Orchestrator
unfolding gc_start
gc_waiting env o = record o { gc_start_time = gc_start env o }

unfoldable pub maybe_gc : Env → Orchestrator → Orchestrator
unfolding readers_remain reclaimed gc_elapsed gc_waiting
maybe_gc env o =
    if ltb (gc_elapsed env o) gc_grace_ms
    then gc_waiting env o
    else if readers_remain o
    then gc_waiting env o
    else reclaimed env (gc_start env o) o

-- One round, by the state that the registry holds.
unfoldable pub check_case : Ludo → Env → ResizeState → Orchestrator → Run Orchestrator
check_case ludo env normal o = ok (maybe_trigger_pre_resize o)
check_case ludo env pre_resize o = ok (maybe_start_copying env o)
check_case ludo env copying o = ok o
check_case ludo env ready_to_switch o = ok (wait_for_acks_or_timeout env o)
check_case ludo env drain_old o = drain ludo env o
check_case ludo env gc_pending o = ok (maybe_gc env o)

unfoldable pub check_state : Ludo → Env → Orchestrator → Run Orchestrator
unfolding check_case
check_state ludo env o = check_case ludo env o.reg.resize_state o
