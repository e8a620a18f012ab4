-- ===== src/Resize/Cycle.antt =====
-- outback/outback_resize.hh, `monitor_loop`: round after round, and the end of GC_PENDING.
pub mod Completes
use outback_cxl_numa.Base.{
  ℕ, zero, suc, ◌+◌, ◌-◌, ◌*◌, ◌^◌, ◌≤◌, ◌<◌, ◌≡◌, ◌≢◌, ◌⊎◌, inl, inr, refl, sym, ap, ◌∙◌, arith,
  true, false, List, [], Run, ok, ◌>>=◌, Returns, ◌==◌, if_cases, length, lt→ltb, le→leb, ltb→lt,
  ltb, leb, Bool-cases, if◌then◌else◌, ℕ_discrete, sub64, sub64_of_le,
}
use outback_cxl_numa.Ludo.{Ludo}
use outback_cxl_numa.Registry.{normal, ready_to_switch, drain_old, gc_pending, set_epoch}
use outback_cxl_numa.Deferred.Counts.{IsCounted}
use outback_cxl_numa.Resize.{Env, Orchestrator, now_ms, set_state, ack_grace_ms, gc_grace_ms}
use outback_cxl_numa.Resize.Monitor.{
  check_state, check_case, wait_for_acks_or_timeout, ack_start, ack_elapsed, scanned, clear_pending,
  forced, waiting, pending_acks, zombies, drain, drained, allow_cleanup, writers_remain,
  readers_remain, maybe_gc, gc_start, gc_elapsed, gc_waiting, reclaimed, emptied,
}
use outback_cxl_numa.Resize.Drain.{HasRoomFor, IsDrained, drained-IsDrained, all-returns}

-- GC_PENDING: nothing holds the old region, and its grace period began before this round.
abbrev pub Collects : (ℕ → Env) → ℕ → Orchestrator → Type 0
Collects envs i o =
    (o.reg.resize_state ≡ gc_pending)
    × (readers_remain o ≡ false)
    × (0 < o.gc_start_time)
    × (o.gc_start_time ≤ now_ms (envs i) 0)

-- A whole resize is over.
pub record IsOver (o : Orchestrator) : Type 0 where
  pub state : o.reg.resize_state ≡ normal
  pub open_ : o.blocked ≡ false
  pub no_inserts : o.deferred.inserts ≡ []
  pub no_deletes : o.deferred.deletes ≡ []
  pub previous : o.reg.previous_version ≡ 0

abbrev pub Emptied : Orchestrator → Type 0
Emptied o = (o.deferred.inserts ≡ []) × (o.deferred.deletes ≡ [])

module _ (ludo : Ludo) (envs : ℕ → Env) where
  -- `n` rounds of the thread's loop, the first of which finds the environment `envs i`.
  unfoldable pub monitor_loop : ℕ → ℕ → Orchestrator → Run Orchestrator
  monitor_loop i zero o = ok o
  monitor_loop i (suc n) o = do o' ← check_state ludo (envs i) o; monitor_loop (suc i) n o'

  -- Time passes: the readings of a round do not go back, each round begins at least 500 ms after the
  -- last one, which is what the loop sleeps, and the readings of the first 20 rounds fit 64 bits.
  pub record IsTicking : Type 0 where
    pub started : 0 < now_ms (envs 0) 0
    pub order : (i k l : ℕ) → k ≤ l → now_ms (envs i) k ≤ now_ms (envs i) l
    pub tick : (i k l : ℕ) → now_ms (envs i) k + 500 ≤ now_ms (envs (suc i)) l
    pub small : (i k : ℕ) → i < 20 → now_ms (envs i) k < 2 ^ 64

  -- From round `i` on, a state with `P` is reached by round `bound`.
  abbrev pub Reaches : (Orchestrator → Type 0) → ℕ → ℕ → Orchestrator → Type 0
  Reaches P bound i o = (n : ℕ) × (i + n ≤ bound) × Returns (monitor_loop i n o) P

  now-Reaches :
      (P : Orchestrator → Type 0) (bound i : ℕ) (o : Orchestrator)
      → i ≤ bound
      → P o
      → Reaches P bound i o
  unfolding monitor_loop
  now-Reaches P bound i o h p = (0, omega arith, (o, refl, p))

  pub later-Reaches :
      (P : Orchestrator → Type 0) (bound i : ℕ) (o o' : Orchestrator)
      → check_state ludo (envs i) o ≡ ok o'
      → Reaches P bound (suc i) o'
      → Reaches P bound i o
  unfolding monitor_loop
  later-Reaches P bound i o o' step (n, le, (r, run, p)) = (suc n, omega arith, (r, rw step run, p))

  module _ (ticking : IsTicking) where
    open ticking use {started, order, tick, small}

    pub positive : (i k : ℕ) → 0 < now_ms (envs i) k
    positive zero k = omega (arith, started, order 0 0 k (omega arith))
    positive (suc i) k = omega (arith, positive i 0, tick i 0 k)

    check-gc :
        (i : ℕ) (o : Orchestrator)
        → o.reg.resize_state ≡ gc_pending
        → check_state ludo (envs i) o ≡ ok (maybe_gc (envs i) o)
    unfolding check_state check_case
    check-gc i o e = ap (λ s. check_case ludo (envs i) s o) e

    reclaimed-IsOver :
        (i start : ℕ) (o : Orchestrator) → Emptied o → IsOver (reclaimed (envs i) start o)
    unfolding reclaimed set_state
    reclaimed-IsOver i start o e = record {
      state = refl;
      open_ = refl;
      no_inserts = e.0;
      no_deletes = e.1;
      previous = refl;
    }

    module _ (i : ℕ) (o : Orchestrator) (c : Collects envs i o) (lt : i < 20) where
      gc-elapsed : gc_elapsed (envs i) o ≡ now_ms (envs i) 1 - o.gc_start_time
      unfolding gc_elapsed
      gc-elapsed =
          ground (arith, c, small i 1, order i 0 1, sub64_of_le (now_ms (envs i) 1) o.gc_start_time)

      gc-over :
          gc_grace_ms ≤ gc_elapsed (envs i) o
          → maybe_gc (envs i) o ≡ reclaimed (envs i) (gc_start (envs i) o) o
      unfolding maybe_gc
      gc-over h = ground (arith, c)

      gc-waits : gc_elapsed (envs i) o < gc_grace_ms → maybe_gc (envs i) o ≡ gc_waiting (envs i) o
      unfolding maybe_gc
      gc-waits h = ground arith

      waiting-Collects : Collects envs (suc i) (gc_waiting (envs i) o)
      unfolding gc_waiting readers_remain
      waiting-Collects = (c.0, c.1, ground (arith, c), ground (arith, c, tick i 0 0))

      waiting-start : (gc_waiting (envs i) o).gc_start_time ≡ o.gc_start_time
      unfolding gc_waiting
      waiting-start = ground (arith, c)

    module _ (bound : ℕ) (few : bound ≤ 20) where
      -- The round in which the grace period is over.
      collect-Reaches :
          (i : ℕ) (o : Orchestrator)
          → i < bound
          → Collects envs i o
          → Emptied o
          → gc_grace_ms ≤ gc_elapsed (envs i) o
          → Reaches IsOver bound i o
      collect-Reaches i o lt c e over =
          later-Reaches IsOver bound i o (reclaimed (envs i) (gc_start (envs i) o) o)
            (check-gc i o c.0 ∙ ap ok (gc-over i o c (omega arith) over))
            (now-Reaches IsOver bound (suc i) _ (omega arith) (reclaimed-IsOver i _ o e))

      -- With `d` more rounds the grace period is over.
      pub gc-Reaches :
          (d i : ℕ) (o : Orchestrator)
          → i + d < bound
          → Collects envs i o
          → Emptied o
          → o.gc_start_time + gc_grace_ms ≤ now_ms (envs i) 1 + d * 500
          → Reaches IsOver bound i o
      unfolding gc_waiting
      gc-Reaches zero i o lt c e near =
          collect-Reaches i o (omega arith) c e (omega (arith, gc-elapsed i o c (omega arith)))
      gc-Reaches (suc d) i o lt c e near =
          elim (Bool-cases (ltb (gc_elapsed (envs i) o) gc_grace_ms)) [
            | inr over ↦ collect-Reaches i o (omega arith) c e (ground arith)
            | inl early ↦
                later-Reaches IsOver bound i o (gc_waiting (envs i) o)
                  (check-gc i o c.0 ∙ ap ok (gc-waits i o c (omega arith) (ltb→lt _ _ early)))
                  (gc-Reaches d (suc i) (gc_waiting (envs i) o) (omega arith)
                    (waiting-Collects i o c (omega arith)) e
                    (omega (arith, waiting-start i o c (omega arith), tick i 1 1)))
          ]
