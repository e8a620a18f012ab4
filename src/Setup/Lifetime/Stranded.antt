-- ===== src/Setup/Lifetime/Stranded.antt =====
-- outback/outback_server_numa.hh and outback/outback_resize.hh: a handler that has read the flag and
-- enqueues after the drain.
use outback_cxl_numa.Base.{ℕ, ◌+◌, ◌≡◌, true, false, refl, arith, length, [], ◌∷◌}
use outback_cxl_numa.Ludo.{Ludo}
use outback_cxl_numa.Registry.{drain_old, gc_pending}
use outback_cxl_numa.Deferred.{defer_insert}
use outback_cxl_numa.Resize.{Env, Region, set_state}
use outback_cxl_numa.Resize.Monitor.{writers_remain, allow_cleanup, emptied}
use outback_cxl_numa.Resize.Drain.{HasRoomFor, all-returns}
use outback_cxl_numa.Setup.Lifetime.{
  System, Reached, at_start, later, sees, empties, leaves, defers_insert, empty_queues, leave_drain,
  enqueue,
}

-- Mutations are let in, and the one insertion is all that is deferred.
pub record IsStranded (now key val : ℕ) (s' : System) : Type 0 where
  pub let_in : s'.o.blocked ≡ false
  pub state : s'.o.reg.resize_state ≡ gc_pending
  pub inserts : s'.o.deferred.inserts ≡ record { key = key; value = val; enqueue_ts_ns = now } ∷ []
  pub deletes : s'.o.deferred.deletes ≡ []

module _ (ludo : Ludo) (env : Env) (s : System) (now key val : ℕ) where
  abbrev seeing : System
  seeing = record s { seen = s.seen + 1 }

  abbrev emptying : Region → System
  emptying region = record seeing { o = empty_queues region seeing.o; draining = true; late = 0 }

  abbrev leaving : Region → System
  leaving region = record (emptying region) {
    o = leave_drain env (emptying region).o;
    draining = false;
  }

  abbrev enqueued : Region → System
  enqueued region =
      enqueue (defer_insert now (leaving region).o.deferred key val).1 (leaving region)

  enqueued-IsStranded : (region : Region) → IsStranded now key val (enqueued region)
  unfolding enqueue leave_drain empty_queues allow_cleanup emptied set_state defer_insert
  enqueued-IsStranded region = record {
    let_in = refl;
    state = refl;
    inserts = ground arith;
    deletes = ground arith;
  }

  -- In DRAIN_OLD, with the flag set, the queues not yet emptied by the round, no writers of the old
  -- region, and room in the region, of at most 2 ^ 32 entries, for every deferred insertion, there is a
  -- run that strands an insertion: its handler reads the flag, the monitor empties the queues and goes
  -- on, and the handler enqueues. Then mutations are let in, the state is GC_PENDING, and the insertion
  -- alone is deferred.
  pub late_insert_strands :
      s.draining ≡ false
      → s.o.reg.resize_state ≡ drain_old
      → s.o.blocked ≡ true
      → writers_remain s.o ≡ false
      → HasRoomFor (length s.o.deferred.inserts) s.o.region
      → (s' : System) × Reached ludo s s' × IsStranded now key val s'
  late_insert_strands quiet state flag free room =
      let (region, run) = all-returns ludo s.o.seeds s.o.wrapped s.o.region s.o.deferred room in
      (
        enqueued region,
        later
            (later (later (later at_start (sees flag)) (empties region quiet state free run))
              (leaves env refl))
            (defers_insert now key val (omega arith)),
        enqueued-IsStranded region,
      )
