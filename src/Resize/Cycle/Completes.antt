-- ===== src/Resize/Cycle/Completes.antt =====
-- outback/outback_resize.hh, `monitor_loop`: from the switch to NORMAL.
use outback_cxl_numa.Base.{
  ℕ, zero, suc, ◌+◌, ◌-◌, ◌*◌, ◌≤◌, ◌<◌, ◌≡◌, inl, inr, refl, ap, ◌∙◌, arith, false, ok, ◌==◌,
  if_cases, length, ltb, leb, sub64, sub64_of_le,
}
use outback_cxl_numa.Ludo.{Ludo}
use outback_cxl_numa.Registry.{Registry, ready_to_switch, drain_old, epoch_at}
use outback_cxl_numa.Deferred.Counts.{IsCounted}
use outback_cxl_numa.Resize.{Env, Orchestrator, Region, now_ms, set_state, ack_grace_ms}
use outback_cxl_numa.Resize.Monitor.{
  check_state, check_case, wait_for_acks_or_timeout, ack_start, ack_elapsed, scanned, clear_pending,
  forced, waiting, pending_acks, zombies, drain, drained, allow_cleanup, writers_remain,
  readers_remain,
}
use outback_cxl_numa.Resize.Drain.{HasRoomFor, drained-IsDrained, all-returns, check_state-drain}
use outback_cxl_numa.Resize.Acks.{Done, wait-Outcome, Done-ends}
use outback_cxl_numa.Resize.Cycle.{
  IsTicking, Reaches, later-Reaches, positive, Collects, Emptied, IsOver, gc-Reaches,
}

-- Nothing holds the old region, and the new one has room for what is deferred.
pub record IsQuiet (o : Orchestrator) : Type 0 where
  pub no_writers : writers_remain o ≡ false
  pub no_readers : readers_remain o ≡ false
  pub counted : IsCounted o.deferred
  pub room : HasRoomFor (length o.deferred.inserts) o.region

-- Two registries count the same writers and readers of every epoch.
abbrev SameUsers : Registry → Registry → Type 0
SameUsers reg reg' =
    (v : ℕ)
    → ((epoch_at reg' v).active_writers ≡ (epoch_at reg v).active_writers)
      × ((epoch_at reg' v).active_readers ≡ (epoch_at reg v).active_readers)

same-readers :
    (o o' : Orchestrator)
    → o'.pending_old_ver ≡ o.pending_old_ver
    → SameUsers o.reg o'.reg
    → readers_remain o ≡ false
    → readers_remain o' ≡ false
unfolding readers_remain
same-readers o o' v users h = rw (v, (users o.pending_old_ver).1) h

same-IsQuiet :
    (o o' : Orchestrator)
    → o'.deferred ≡ o.deferred
    → o'.region ≡ o.region
    → o'.pending_old_ver ≡ o.pending_old_ver
    → SameUsers o.reg o'.reg
    → IsQuiet o
    → IsQuiet o'
unfolding writers_remain
same-IsQuiet o o' d g v users q = record {
  no_writers = rw (v, (users o.pending_old_ver).0) q.no_writers;
  no_readers = same-readers o o' v users q.no_readers;
  counted = rw d q.counted;
  room = rw (d, g) q.room;
}

clear_pending-users : (o : Orchestrator) → SameUsers o.reg (clear_pending o).reg
unfolding clear_pending
clear_pending-users o v = (ground arith, ground arith)

allow_cleanup-users : (o : Orchestrator) → SameUsers o.reg (allow_cleanup o).reg
unfolding allow_cleanup
allow_cleanup-users o v = (ground arith, ground arith)

allow_cleanup-ver : (o : Orchestrator) → (allow_cleanup o).pending_old_ver ≡ o.pending_old_ver
unfolding allow_cleanup
allow_cleanup-ver o = ground arith

wait-IsQuiet : (env : Env) (o : Orchestrator) → IsQuiet o → IsQuiet (wait_for_acks_or_timeout env o)
unfolding wait_for_acks_or_timeout set_state forced waiting scanned clear_pending
wait-IsQuiet env o q =
    if_cases IsQuiet (pending_acks o == 0)
      (λ _. same-IsQuiet o _ refl refl refl (λ v. (refl, refl)) q)
      (λ _.
        if_cases IsQuiet (leb (pending_acks o) (zombies env o))
          (λ _. same-IsQuiet o _ refl refl refl (clear_pending-users (scanned env o)) q)
          (λ _.
            if_cases IsQuiet (ltb ack_grace_ms (ack_elapsed env o))
              (λ _. same-IsQuiet o _ refl refl refl (clear_pending-users (scanned env o)) q)
              (λ _. same-IsQuiet o _ refl refl refl (λ v. (refl, refl)) q)))

module _ (ludo : Ludo) (envs : ℕ → Env) (ticking : IsTicking ludo envs) where
  open ticking use {order, tick, small}

  module _ (i : ℕ) (o : Orchestrator) (q : IsQuiet o) (g : Region) where
    drained-Collects : Collects envs (suc i) (drained (envs i) o g)
    unfolding drained set_state
    drained-Collects = (
      refl,
      same-readers o _ (allow_cleanup-ver o) (allow_cleanup-users o) q.no_readers,
      positive ludo envs ticking i 2,
      omega (arith, tick i 2 0),
    )

    drained-Emptied : Emptied (drained (envs i) o g)
    drained-Emptied =
        let d = drained-IsDrained (envs i) o g q.counted in (d.no_inserts, d.no_deletes)

    drained-start : (drained (envs i) o g).gc_start_time ≡ now_ms (envs i) 2
    unfolding drained set_state
    drained-start = refl

  module _ (bound : ℕ) (few : bound ≤ 20) where
    -- DRAIN_OLD takes one round.
    drain-Reaches :
        (i : ℕ) (o : Orchestrator)
        → i + 4 < bound
        → o.reg.resize_state ≡ drain_old
        → IsQuiet o
        → Reaches ludo envs IsOver bound i o
    unfolding drain
    drain-Reaches i o lt e q =
        let (g, run) = all-returns ludo o.seeds o.wrapped o.region o.deferred q.room in
        later-Reaches ludo envs IsOver bound i o (drained (envs i) o g)
          (check_state-drain ludo (envs i) o e ∙ rw q.no_writers (rw run))
          (gc-Reaches ludo envs ticking bound few 3 (suc i) (drained (envs i) o g) (omega arith)
            (drained-Collects i o q g) (drained-Emptied i o q g)
            (omega (arith, drained-start i o q g, tick i 2 1)))

    check-wait :
        (i : ℕ) (o : Orchestrator)
        → o.reg.resize_state ≡ ready_to_switch
        → check_state ludo (envs i) o ≡ ok (wait_for_acks_or_timeout (envs i) o)
    unfolding check_state check_case
    check-wait i o e = ap (λ s. check_case ludo (envs i) s o) e

    -- A round in which the wait ends.
    Done-Reaches :
        (i : ℕ) (o : Orchestrator)
        → i + 5 < bound
        → o.reg.resize_state ≡ ready_to_switch
        → IsQuiet o
        → Done (envs i) o
        → Reaches ludo envs IsOver bound i o
    Done-Reaches i o lt e q d =
        later-Reaches ludo envs IsOver bound i o (wait_for_acks_or_timeout (envs i) o)
          (check-wait i o e)
          (drain-Reaches (suc i) _ (omega arith) (Done-ends (envs i) o d)
            (wait-IsQuiet (envs i) o q))

    -- The wait for the acknowledgements, whose grace window has begun.
    record Waits (i : ℕ) (o : Orchestrator) : Type 0 where
      state : o.reg.resize_state ≡ ready_to_switch
      quiet : IsQuiet o
      begun : 0 < o.ack_wait_start
      past : o.ack_wait_start ≤ now_ms (envs i) 2

    start-kept : (i : ℕ) (o : Orchestrator) → Waits i o → ack_start (envs i) o ≡ o.ack_wait_start
    unfolding ack_start
    start-kept i o w = ground (arith, w.begun)

    elapsed-kept :
        (i : ℕ) (o : Orchestrator)
        → i < 20
        → Waits i o
        → ack_elapsed (envs i) o ≡ now_ms (envs i) 2 - o.ack_wait_start
    unfolding ack_elapsed
    elapsed-kept i o lt w =
        ap (λ s. sub64 (now_ms (envs i) 2) s) (start-kept i o w)
        ∙ sub64_of_le (now_ms (envs i) 2) o.ack_wait_start w.past (small i 2 lt)

    next-Waits :
        (i : ℕ) (o o' : Orchestrator)
        → IsQuiet o'
        → o'.reg.resize_state ≡ ready_to_switch
        → 0 < o'.ack_wait_start
        → o'.ack_wait_start ≤ now_ms (envs i) 2
        → Waits (suc i) o'
    next-Waits i o o' q e b p = record {
      state = e;
      quiet = q;
      begun = b;
      past = omega (arith, p, tick i 2 2);
    }

    -- With `d` more rounds the grace window is over.
    wait-Reaches :
        (d i : ℕ) (o : Orchestrator)
        → i + d + 5 < bound
        → Waits i o
        → o.ack_wait_start + ack_grace_ms < now_ms (envs i) 2 + d * 500
        → Reaches ludo envs IsOver bound i o
    wait-Reaches zero i o lt w near =
        Done-Reaches i o (omega arith) w.state w.quiet
          (inr (inr (omega (arith, elapsed-kept i o (omega arith) w))))
    wait-Reaches (suc d) i o lt w near = elim (wait-Outcome (envs i) o) [
      | inl (done, _) ↦ Done-Reaches i o (omega arith) w.state w.quiet done
      | inr (_, same, kept) ↦
          let start = kept ∙ start-kept i o w in
          later-Reaches ludo envs IsOver bound i o (wait_for_acks_or_timeout (envs i) o)
            (check-wait i o w.state)
            (wait-Reaches d (suc i) _ (omega arith)
              (next-Waits i o _ (wait-IsQuiet (envs i) o w.quiet) (same ∙ w.state)
                (omega (arith, start, w.begun)) (omega (arith, start, w.past)))
              (omega (arith, start, near, tick i 2 2)))
    ]

  -- A window that has not begun begins in the first round.
  first_start :
      (o : Orchestrator)
      → o.ack_wait_start ≤ now_ms (envs 0) 1
      → (0 < ack_start (envs 0) o) × (ack_start (envs 0) o ≤ now_ms (envs 0) 1)
  unfolding ack_start
  first_start o h = ground (arith, positive ludo envs ticking 0 1)

  -- A switch comes to its end. If nothing holds the old region, the new one has room for all deferred
  -- insertions, whose counts are right, and only the monitor's rounds change the state, which begin at
  -- least 500 ms apart by a clock that does not go back, then within 17 rounds the state is NORMAL,
  -- whether or not the clients acknowledge: the queues are empty, mutations are let in, and there is no
  -- previous version. The grace window must not have begun in the future.
  pub cycle_completes :
      (o : Orchestrator)
      → o.reg.resize_state ≡ ready_to_switch
      → IsQuiet o
      → o.ack_wait_start ≤ now_ms (envs 0) 1
      → Reaches ludo envs IsOver 17 0 o
  cycle_completes o e q past = elim (wait-Outcome (envs 0) o) [
    | inl (done, _) ↦ Done-Reaches 17 (omega arith) 0 o (omega arith) e q done
    | inr (_, same, kept) ↦
        let (begun, early) = first_start o past in
        later-Reaches ludo envs IsOver 17 0 o (wait_for_acks_or_timeout (envs 0) o)
          (check-wait 17 (omega arith) 0 o e)
          (wait-Reaches 17 (omega arith) 10 1 _ (omega arith)
            (next-Waits 17 (omega arith) 0 o _ (wait-IsQuiet (envs 0) o q) (same ∙ e)
              (omega (arith, kept, begun)) (omega (arith, kept, early, order 0 1 2 (omega arith))))
            (omega (arith, kept, early, tick 0 1 2)))
  ]
