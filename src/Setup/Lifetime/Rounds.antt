-- ===== src/Setup/Lifetime/Rounds.antt =====
-- outback/outback_resize.hh: a round of the monitor, and the halves of a draining one, keep what holds
-- between steps.
use outback_cxl_numa.Base.{
  ℕ, ◌+◌, ◌≤◌, ◌≡◌, ◌⊎◌, inl, inr, true, false, refl, sym, ap, ◌∙◌, arith, ok, ltb, Bool-cases,
}
use outback_cxl_numa.Ludo.{Ludo}
use outback_cxl_numa.Registry.{ResizeState, normal, pre_resize, drain_old, gc_pending}
use outback_cxl_numa.Deferred.Counts.{IsCounted}
use outback_cxl_numa.Resize.{Env, Orchestrator, Region, blocks, set_state}
use outback_cxl_numa.Resize.Copy.{switch_region, publish}
use outback_cxl_numa.Resize.Monitor.{
  check_state, guard_failed, scanned, clear_pending, forced, waiting, allow_cleanup, emptied, drain,
  writers_remain, drained, gc_waiting, reclaimed,
}
use outback_cxl_numa.Resize.Replay.{replay_all}
use outback_cxl_numa.Resize.Round.{Outcomes, round-Outcomes}
use outback_cxl_numa.Resize.Machine.{Settled, same-Settled, check_state_legal}
use outback_cxl_numa.Resize.Drain.{drained-IsDrained}
use outback_cxl_numa.Setup.Lifetime.Clients.{same-IsTalliedUp}
use outback_cxl_numa.Setup.Lifetime.{System, IsSound, waiting_count, empty_queues, leave_drain}

-- A round that empties the queues is its two halves.
leave-empty :
    (env : Env) (region : Region) (o : Orchestrator)
    → leave_drain env (empty_queues region o) ≡ drained env o region
unfolding leave_drain empty_queues drained set_state allow_cleanup emptied
leave-empty env region o = elim (Bool-cases (ltb 0 o.pending_old_ver)) [
  | inl e ↦ rw e refl
  | inr e ↦ rw e refl
]

-- `drain_old` without writers is the two halves, one after the other.
drain-halves :
    (ludo : Ludo) (env : Env) (region : Region) (o : Orchestrator)
    → writers_remain o ≡ false
    → replay_all ludo o.seeds o.wrapped o.region o.deferred.inserts o.deferred.deletes ≡ ok region
    → drain ludo env o ≡ ok (leave_drain env (empty_queues region o))
unfolding drain
drain-halves ludo env region o free run = rw (free, run, leave-empty env region o) refl

-- The parts of the invariant that the transitions of the machine do not speak of.
record Keeps (late : ℕ) (o o' : Orchestrator) : Type 0 where
  clients : o'.reg.clients ≡ o.reg.clients
  registered : o'.reg.registered_clients ≡ o.reg.registered_clients
  counted : IsCounted o.deferred → IsCounted o'.deferred
  flushed : o'.blocked ≡ false → waiting_count o'.deferred ≤ late

module _ (env : Env) (late : ℕ) (o : Orchestrator) (settled : Settled o)
    (counted : IsCounted o.deferred)
    (flushed : o.blocked ≡ false → waiting_count o.deferred ≤ late) where
  -- In a state that does not block, only late mutations are deferred.
  open-flushed :
      (st : ResizeState)
      → o.reg.resize_state ≡ st
      → blocks st ≡ false
      → waiting_count o.deferred ≤ late
  open-flushed st e h = flushed (settled.0.flag ∙ ap blocks e ∙ h)

  same-Keeps :
      (o' : Orchestrator)
      → o'.reg.clients ≡ o.reg.clients
      → o'.reg.registered_clients ≡ o.reg.registered_clients
      → o'.deferred ≡ o.deferred
      → (o'.blocked ≡ false → waiting_count o.deferred ≤ late)
      → Keeps late o o'
  same-Keeps o' c r d f = record {
    clients = c;
    registered = r;
    counted = λ h. rw d h;
    flushed = λ b. rw d (f b);
  }

  drained-Keeps : (region : Region) → Keeps late o (drained env o region)
  unfolding drained set_state allow_cleanup emptied
  drained-Keeps region =
      let d = drained-IsDrained env o region counted in
      record {
        clients = ground arith;
        registered = ground arith;
        counted = λ c. record {
          insert_depth = omega arith;
          delete_depth = omega arith;
          insert_counted = d.insert_counted;
          delete_counted = d.delete_counted;
        };
        flushed = λ _. omega arith;
      }

  Outcomes-Keeps : Outcomes (Keeps late o) env o
  unfolding set_state switch_region publish guard_failed scanned clear_pending forced waiting
      gc_waiting reclaimed
  Outcomes-Keeps = record {
    idle = same-Keeps o refl refl refl flushed;
    triggered = λ e. same-Keeps _ refl refl refl (λ _. open-flushed normal e refl);
    aborted = λ e. same-Keeps _ refl refl refl (λ _. open-flushed pre_resize e refl);
    switched = λ e. same-Keeps _ refl refl refl (λ b. cc b);
    unstarted = λ e. same-Keeps _ refl refl refl flushed;
    acked = λ e. same-Keeps _ refl refl refl (λ b. cc b);
    given_up = λ e. same-Keeps _ refl refl refl (λ b. cc b);
    timed_out = λ e. same-Keeps _ refl refl refl (λ b. cc b);
    awaiting = λ e. same-Keeps _ refl refl refl flushed;
    emptied_ = λ e region. drained-Keeps region;
    lingering = λ e. same-Keeps _ refl refl refl flushed;
    collected = λ e. same-Keeps _ refl refl refl (λ _. open-flushed gc_pending e refl);
  }

module _ (ludo : Ludo) (s : System) (h : IsSound s) where
  pub round-IsSound :
      {o' : Orchestrator} (env : Env) (readers : ℕ)
      → s.draining ≡ false
      → check_state ludo env s.o ≡ ok o'
      → IsSound (record s { o = o'; seen = s.seen + readers })
  round-IsSound {o'} env readers quiet e =
      let k =
        round-Outcomes (Keeps s.late s.o) env s.o
          (Outcomes-Keeps env s.late s.o h.settled h.counted (λ b. h.flushed (inl b))) ludo e in
      record {
        settled = check_state_legal ludo env s.o h.settled e;
        held = λ d. absurd (cc (sym quiet ∙ d));
        census = same-IsTalliedUp s.uncounted s.o.reg o'.reg k.clients k.registered h.census;
        counted = k.counted h.counted;
        flushed = flushed_ k.flushed;
      }
    where
      flushed_ :
          (o'.blocked ≡ false → waiting_count o'.deferred ≤ s.late)
          → (o'.blocked ≡ false) ⊎ (s.draining ≡ true)
          → waiting_count o'.deferred ≤ s.late
      flushed_ f (inl b) = f b
      flushed_ f (inr d) = absurd (cc (sym quiet ∙ d))

  pub empties-IsSound :
      (region : Region)
      → s.o.reg.resize_state ≡ drain_old
      → IsSound (record s { o = empty_queues region s.o; draining = true; late = 0 })
  unfolding empty_queues emptied
  empties-IsSound region e =
      let c = h.counted in
      record {
        settled = same-Settled s.o (empty_queues region s.o) refl refl refl h.settled;
        held = λ _. e;
        census = same-IsTalliedUp s.uncounted s.o.reg _ refl refl h.census;
        counted = record {
          insert_depth = omega arith;
          delete_depth = omega arith;
          insert_counted = omega (arith, c.insert_counted, c.insert_depth);
          delete_counted = omega (arith, c.delete_counted, c.delete_depth);
        };
        flushed = λ _. omega arith;
      }

  pub leaves-IsSound :
      (env : Env)
      → s.draining ≡ true
      → IsSound (record s { o = leave_drain env s.o; draining = false })
  unfolding leave_drain allow_cleanup set_state
  leaves-IsSound env d =
      let f : waiting_count s.o.deferred ≤ s.late = h.flushed (inr d) in
      record {
        settled = left;
        held = λ q. cc q;
        census = same-IsTalliedUp s.uncounted s.o.reg _ (ground arith) (ground arith) h.census;
        counted = kept-IsCounted;
        flushed = λ _. ground (arith, f);
      }
    where
      kept : (leave_drain env s.o).deferred ≡ s.o.deferred
      kept = ground arith

      kept-IsCounted : IsCounted (leave_drain env s.o).deferred
      kept-IsCounted = rw kept h.counted

      traced : (allow_cleanup s.o).trace ≡ s.o.trace
      traced = ground arith

      left : Settled (leave_drain env s.o)
      left = (
        record {
          path = rw traced (rw (h.settled.0.here, h.held d) refl, h.settled.0.path);
          here = refl;
          flag = refl;
        },
        λ c. cc c,
      )
