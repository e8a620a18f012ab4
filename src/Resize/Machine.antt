-- ===== src/Resize/Machine.antt =====
-- outback/outback_resize.hh: the states that `set_state` reports, and the flag that the handlers
-- read.
use outback_cxl_numa.Base.{
  ℕ, ◌≡◌, ◌≢◌, refl, ap, ◌∙◌, arith, Bool, true, false, List, [], ◌∷◌, ok, not,
}
use outback_cxl_numa.Ludo.{Ludo}
use outback_cxl_numa.Registry.{
  ResizeState, normal, pre_resize, copying, ready_to_switch, drain_old, gc_pending,
}
use outback_cxl_numa.Resize.{
  Env, Orchestrator, Region, blocks, allows, set_state, structural_mutations_allowed,
}
use outback_cxl_numa.Resize.Copy.{switch_region, publish}
use outback_cxl_numa.Resize.Round.{Outcomes, round-Outcomes}
use outback_cxl_numa.Resize.Monitor.{
  drained, reclaimed, check_state, clear_pending, allow_cleanup, scanned, forced, waiting,
  gc_waiting, gc_start, guard_failed,
}

-- The transitions that the design of the resize names, with the way back from a failed copy.
abbrev pub legal : ResizeState → ResizeState → Bool
legal normal pre_resize = true
legal pre_resize copying = true
legal copying ready_to_switch = true
legal copying normal = true
legal ready_to_switch drain_old = true
legal drain_old gc_pending = true
legal gc_pending normal = true
legal _ _ = false

abbrev pub last : List ResizeState → ResizeState
last [] = normal
last (s ∷ ss) = s

-- A trace, newest first, that starts in NORMAL and takes legal transitions only.
abbrev pub IsLegal : List ResizeState → Type 0
IsLegal [] = Unit
IsLegal (s ∷ ss) = (legal (last ss) s ≡ true) × IsLegal ss

pub record IsTraced (o : Orchestrator) : Type 0 where
  pub path : IsLegal o.trace
  pub here : last o.trace ≡ o.reg.resize_state
  pub flag : o.blocked ≡ blocks o.reg.resize_state

set_state-IsTraced :
    (s : ResizeState) (o : Orchestrator)
    → IsTraced o
    → legal o.reg.resize_state s ≡ true
    → IsTraced (set_state s o)
unfolding set_state
set_state-IsTraced s o t h = record { path = (rw t.here h, t.path); here = refl; flag = refl }

-- A round that starts between copies ends between copies.
abbrev pub Settled : Orchestrator → Type 0
Settled o = IsTraced o × (o.reg.resize_state ≢ copying)

-- The flag and the trace are all that a settled state depends on.
pub same-Settled :
    (o o' : Orchestrator)
    → o'.trace ≡ o.trace
    → o'.reg.resize_state ≡ o.reg.resize_state
    → o'.blocked ≡ o.blocked
    → Settled o
    → Settled o'
same-Settled o o' tr st fl (t, n) =
    (record { path = rw tr t.path; here = rw (tr, st) t.here; flag = rw (fl, st) t.flag }, rw st n)

step-Settled :
    (s : ResizeState) (o : Orchestrator)
    → IsTraced o
    → legal o.reg.resize_state s ≡ true
    → s ≢ copying
    → Settled (set_state s o)
unfolding set_state
step-Settled s o t h n = (set_state-IsTraced s o t h, n)

module _ (env : Env) (o : Orchestrator) (t : IsTraced o) where
  aborted-Settled :
      o.reg.resize_state ≡ pre_resize → Settled (set_state normal (set_state copying o))
  unfolding set_state
  aborted-Settled e =
      let c = set_state-IsTraced copying o t (rw e) in
      (record { path = (refl, c.path); here = refl; flag = refl }, λ q. cc q)

  switched-Settled :
      (ver : ℕ)
      → o.reg.resize_state ≡ pre_resize
      → Settled (switch_region env ver (set_state copying o))
  unfolding switch_region publish set_state
  switched-Settled ver e =
      let c = set_state-IsTraced copying o t (rw e) in
      (record { path = (refl, c.path); here = refl; flag = refl }, λ q. cc q)

  moved-Settled : o.reg.resize_state ≡ ready_to_switch → Settled (set_state drain_old o)
  moved-Settled e = step-Settled drain_old o t (rw e) (λ c. cc c)

  allow_cleanup-trace : (allow_cleanup o).trace ≡ o.trace
  unfolding allow_cleanup
  allow_cleanup-trace = ground arith

  drained-Settled :
      (region : Region) → o.reg.resize_state ≡ drain_old → Settled (drained env o region)
  unfolding drained set_state
  drained-Settled region e = (
    record { path = rw allow_cleanup-trace ((rw (t.here, e)), t.path); here = refl; flag = refl },
    λ c. cc c,
  )

  collected-Settled : o.reg.resize_state ≡ gc_pending → Settled (reclaimed env (gc_start env o) o)
  unfolding reclaimed set_state
  collected-Settled e =
      same-Settled (set_state normal o) (reclaimed env (gc_start env o) o) refl refl refl
        (step-Settled normal o t (rw e) (λ c. cc c))

Outcomes-Settled : (env : Env) (o : Orchestrator) → Settled o → Outcomes Settled env o
unfolding set_state guard_failed clear_pending scanned forced waiting gc_waiting
Outcomes-Settled env o v = record {
  idle = v;
  triggered = λ e. step-Settled pre_resize o v.0 (rw e) (λ c. cc c);
  aborted = λ e. aborted-Settled env o v.0 e;
  switched = λ e. switched-Settled env o v.0 o.reg.current_version e;
  unstarted = λ e. same-Settled o (guard_failed o) refl refl refl v;
  acked = λ e. moved-Settled env o v.0 e;
  given_up = λ e.
      same-Settled (set_state drain_old o) (set_state drain_old (clear_pending (scanned env o)))
        refl refl refl (moved-Settled env o v.0 e);
  timed_out = λ e.
      same-Settled (set_state drain_old o) (forced env o) refl refl refl
        (moved-Settled env o v.0 e);
  awaiting = λ e. same-Settled o (waiting env o) refl refl refl v;
  emptied_ = λ e region. drained-Settled env o v.0 region e;
  lingering = λ e. same-Settled o (gc_waiting env o) refl refl refl v;
  collected = λ e. collected-Settled env o v.0 e;
}

-- A round of the monitor takes the machine along legal transitions only: whatever the clock, the
-- memory and the system calls answer, the states reported so far stay a legal path from NORMAL that
-- ends in the registry's state, the flag that blocks mutations is set exactly in COPYING,
-- READY_TO_SWITCH and DRAIN_OLD, and no round ends in COPYING.
pub check_state_legal :
    (ludo : Ludo) (env : Env) (o : Orchestrator) {o' : Orchestrator}
    → Settled o
    → check_state ludo env o ≡ ok o'
    → Settled o'
check_state_legal ludo env o v e = round-Outcomes Settled env o (Outcomes-Settled env o v) ludo e

blocks-allows : (s : ResizeState) → s ≢ gc_pending → blocks s ≡ not (allows s)
blocks-allows normal n = refl
blocks-allows pre_resize n = refl
blocks-allows copying n = refl
blocks-allows ready_to_switch n = refl
blocks-allows drain_old n = refl
blocks-allows gc_pending n = absurd (n refl)

-- In every settled state the two ways to ask agree, but for GC_PENDING: there the handlers' flag lets
-- a mutation through, and `structural_mutations_allowed` says that it is not allowed.
pub allowed_flag :
    (o : Orchestrator)
    → Settled o
    → (o.reg.resize_state ≢ gc_pending → o.blocked ≡ not (structural_mutations_allowed o))
      × (o.reg.resize_state ≡ gc_pending
          → (o.blocked ≡ false) × (structural_mutations_allowed o ≡ false))
unfolding structural_mutations_allowed
allowed_flag o (t, _) =
    (λ h. t.flag ∙ blocks-allows o.reg.resize_state h, λ e. (t.flag ∙ ap blocks e, ap allows e))
