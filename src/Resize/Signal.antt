-- ===== src/Resize/Signal.antt =====
-- outback/outback_resize.hh: `generation`, the number that clients poll, in each round.
use outback_cxl_numa.Base.{ℕ, ◌≡◌, refl, arith, ok}
use outback_cxl_numa.Ludo.{Ludo}
use outback_cxl_numa.Registry.{ResizeState, normal, pre_resize, copying, drain_old}
use outback_cxl_numa.Resize.{Env, Orchestrator, Region, set_state}
use outback_cxl_numa.Resize.Copy.{switch_region, publish}
use outback_cxl_numa.Resize.Round.{Outcomes, round-Outcomes}
use outback_cxl_numa.Resize.Monitor.{
  guard_failed, scanned, clear_pending, forced, waiting, allow_cleanup, drained, reclaimed,
  gc_start, gc_waiting, check_state,
}

module _ (o : Orchestrator) where
  abbrev pub Unchanged : Orchestrator → Type 0
  Unchanged o' =
      (o'.reg.resize_state ≡ o.reg.resize_state)
      × (o'.reg.current_version ≡ o.reg.current_version)
      × (o'.reg.previous_version ≡ o.reg.previous_version)

  -- A poller that sees the same generation misses nothing.
  abbrev pub Signals : Orchestrator → Type 0
  Signals o' = o'.reg.generation ≡ o.reg.generation → Unchanged o'

  idle : Signals o
  idle _ = (refl, refl, refl)

  moved :
      (s : ResizeState) (o' : Orchestrator)
      → o'.reg.generation ≡ o.reg.generation
      → Signals (set_state s o')
  unfolding set_state
  moved s o' e g = absurd (omega (arith, e, g))

  module _ (env : Env) where
    switched-Signals : (ver : ℕ) → Signals (switch_region env ver (set_state copying o))
    unfolding switch_region publish set_state
    switched-Signals ver g = absurd (omega (arith, g))

    aborted-Signals : Signals (set_state normal (set_state copying o))
    unfolding set_state
    aborted-Signals g = absurd (omega (arith, g))

    cleared-generation : (clear_pending (scanned env o)).reg.generation ≡ o.reg.generation
    unfolding clear_pending scanned
    cleared-generation = refl

    forced-Signals : Signals (forced env o)
    unfolding forced
    forced-Signals = moved drain_old (clear_pending (scanned env o)) cleared-generation

    allow_cleanup-generation : (allow_cleanup o).reg.generation ≡ o.reg.generation
    unfolding allow_cleanup
    allow_cleanup-generation = ground arith

    drained-Signals : (region : Region) → Signals (drained env o region)
    unfolding drained set_state
    drained-Signals region g = absurd (omega (arith, g, allow_cleanup-generation))

    reclaimed-Signals : Signals (reclaimed env (gc_start env o) o)
    unfolding reclaimed set_state
    reclaimed-Signals g = absurd (omega (arith, g))

    Outcomes-Signals : Outcomes Signals env o
    unfolding guard_failed waiting scanned gc_waiting
    Outcomes-Signals = record {
      idle = idle;
      triggered = λ _. moved pre_resize o refl;
      aborted = λ _. aborted-Signals;
      switched = λ _. switched-Signals o.reg.current_version;
      unstarted = λ _. idle;
      acked = λ _. moved drain_old o refl;
      given_up = λ _. moved drain_old (clear_pending (scanned env o)) cleared-generation;
      timed_out = λ _. forced-Signals;
      awaiting = λ _. idle;
      emptied_ = λ _. drained-Signals;
      lingering = λ _. idle;
      collected = λ _. reclaimed-Signals;
    }

-- A round of the monitor that returns and leaves the generation as it was has changed neither the
-- state nor a version: a client that compares generations misses no change of one round.
pub check_state_signals :
    (ludo : Ludo) (env : Env) (o : Orchestrator) {o' : Orchestrator}
    → check_state ludo env o ≡ ok o'
    → o'.reg.generation ≡ o.reg.generation
    → Unchanged o o'
check_state_signals ludo env o e = round-Outcomes (Signals o) env o (Outcomes-Signals o env) ludo e
