-- ===== src/Resize/Round.antt =====
-- outback/outback_resize.hh: what one round of the monitor can do, by the state that it finds.
use outback_cxl_numa.Base.{◌≡◌, refl, Run, ok, exited, ◌>>=◌, ltb, leb, ◌==◌, if_cases}
use outback_cxl_numa.Ludo.{Ludo}
use outback_cxl_numa.Registry.{
  ResizeState, normal, pre_resize, copying, ready_to_switch, drain_old, gc_pending, epoch_at,
  create_shared_numa_region,
}
use outback_cxl_numa.Resize.{
  Env, Orchestrator, Region, set_state, fill, memory_pressure_ok, ack_grace_ms, gc_grace_ms,
}
use outback_cxl_numa.Resize.Copy.{switch_region, do_copy}
use outback_cxl_numa.Resize.Replay.{replay_all}
use outback_cxl_numa.Resize.Monitor.{
  maybe_trigger_pre_resize, maybe_start_copying, guard_failed, wait_for_acks_or_timeout,
  pending_acks, zombies, scanned, clear_pending, ack_elapsed, forced, waiting, writers_remain,
  drained, drain, readers_remain, reclaimed, gc_elapsed, gc_start, gc_waiting, maybe_gc, check_case,
  check_state,
}

-- `P` holds of everything that a round can leave.
pub record Outcomes {ℓ} (P : Orchestrator → Type ℓ) (env : Env) (o : Orchestrator) : Type ℓ where
  pub idle : P o
  pub triggered : o.reg.resize_state ≡ normal → P (set_state pre_resize o)
  pub aborted : o.reg.resize_state ≡ pre_resize → P (set_state normal (set_state copying o))
  pub switched :
      o.reg.resize_state ≡ pre_resize
      → P (switch_region env o.reg.current_version (set_state copying o))
  pub unstarted : o.reg.resize_state ≡ pre_resize → P (guard_failed o)
  pub acked : o.reg.resize_state ≡ ready_to_switch → P (set_state drain_old o)
  pub given_up :
      o.reg.resize_state ≡ ready_to_switch → P (set_state drain_old (clear_pending (scanned env o)))
  pub timed_out : o.reg.resize_state ≡ ready_to_switch → P (forced env o)
  pub awaiting : o.reg.resize_state ≡ ready_to_switch → P (waiting env o)
  pub emptied_ : o.reg.resize_state ≡ drain_old → (region : Region) → P (drained env o region)
  pub lingering : o.reg.resize_state ≡ gc_pending → P (gc_waiting env o)
  pub collected : o.reg.resize_state ≡ gc_pending → P (reclaimed env (gc_start env o) o)

module _ {ℓ} (P : Orchestrator → Type ℓ) (env : Env) (o : Orchestrator) (c : Outcomes P env o) where
  open c use {idle}

  trigger-Outcome : o.reg.resize_state ≡ normal → P (maybe_trigger_pre_resize o)
  unfolding maybe_trigger_pre_resize
  trigger-Outcome e =
      if_cases P (o.reg.s_slow == 0) (λ _. idle)
        (λ _. if_cases P (leb o.reg.s_slow (fill o)) (λ _. c.triggered e) (λ _. idle))

  copy-Outcome : o.reg.resize_state ≡ pre_resize → P (do_copy env o.reg.current_version o)
  unfolding do_copy
  copy-Outcome e =
      if_cases P (create_shared_numa_region env.shm) (λ _. c.switched e) (λ _. c.aborted e)

  start-Outcome : o.reg.resize_state ≡ pre_resize → P (maybe_start_copying env o)
  unfolding maybe_start_copying
  start-Outcome e =
      let ver = o.reg.current_version in
      if_cases P (o.reg.s_slow == 0) (λ _. idle)
        (λ _.
          if_cases P (ltb (fill o) o.reg.s_stop) (λ _. idle)
            (λ _.
              if_cases P (memory_pressure_ok env (epoch_at o.reg ver).region_size)
                (λ _. copy-Outcome e) (λ _. c.unstarted e)))

  wait-Outcome : o.reg.resize_state ≡ ready_to_switch → P (wait_for_acks_or_timeout env o)
  unfolding wait_for_acks_or_timeout
  wait-Outcome e =
      if_cases P (pending_acks o == 0) (λ _. c.acked e)
        (λ _.
          if_cases P (leb (pending_acks o) (zombies env o)) (λ _. c.given_up e)
            (λ _.
              if_cases P (ltb ack_grace_ms (ack_elapsed env o)) (λ _. c.timed_out e)
                (λ _. c.awaiting e)))

  gc-Outcome : o.reg.resize_state ≡ gc_pending → P (maybe_gc env o)
  unfolding maybe_gc
  gc-Outcome e =
      if_cases P (ltb (gc_elapsed env o) gc_grace_ms) (λ _. c.lingering e)
        (λ _. if_cases P (readers_remain o) (λ _. c.lingering e) (λ _. c.collected e))

  -- What a round that returns leaves.
  abbrev Ends : Run Orchestrator → Type ℓ
  Ends (ok o') = P o'
  Ends exited = Unit {ℓ}

  drain-Ends : (ludo : Ludo) → o.reg.resize_state ≡ drain_old → Ends (drain ludo env o)
  unfolding drain
  drain-Ends ludo e =
      if_cases Ends (writers_remain o) (λ _. idle)
        (λ _. go (replay_all ludo o.seeds o.wrapped o.region o.deferred.inserts o.deferred.deletes))
    where
      go : (r : Run Region) → Ends (r >>= (λ region. ok (drained env o region)))
      go (ok region) = c.emptied_ e region
      go exited = tt

  case-Ends :
      (ludo : Ludo) (s : ResizeState) → o.reg.resize_state ≡ s → Ends (check_case ludo env s o)
  unfolding check_case
  case-Ends ludo normal e = trigger-Outcome e
  case-Ends ludo pre_resize e = start-Outcome e
  case-Ends ludo copying e = idle
  case-Ends ludo ready_to_switch e = wait-Outcome e
  case-Ends ludo drain_old e = drain-Ends ludo e
  case-Ends ludo gc_pending e = gc-Outcome e

  -- What every outcome has, a round that returns has.
  pub round-Outcomes : (ludo : Ludo) {o' : Orchestrator} → check_state ludo env o ≡ ok o' → P o'
  unfolding check_state
  round-Outcomes ludo e = rw e at (case-Ends ludo o.reg.resize_state refl)
