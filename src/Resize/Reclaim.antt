-- ===== src/Resize/Reclaim.antt =====
-- outback/outback_resize.hh, `maybe_gc`: when the old region is given up, and what is given back.
use outback_cxl_numa.Base.{ℕ, ◌+◌, ◌-◌, ◌/◌, ◌%◌, ◌^◌, ◌≢◌, ◌<◌, ◌≡◌, false, none, ◌∷◌}
use outback_cxl_numa.Registry.{normal}
use outback_cxl_numa.Resize.{Env, Orchestrator}
use outback_cxl_numa.Resize.Monitor.{push}

module _ (env : Env) (o : Orchestrator) where
  -- The old region is given back, and nothing of it is pending.
  pub record IsReclaimed (o' : Orchestrator) : Type 0 where
    pub state : o'.reg.resize_state ≡ normal
    pub let_in : o'.blocked ≡ false
    pub previous : o'.reg.previous_version ≡ 0
    pub current : o'.reg.current_version ≡ o.reg.current_version
    pub no_version : o'.pending_old_ver ≡ 0
    pub no_fd : o'.pending_old_fd ≡ none
    pub no_size : o'.pending_old_size ≡ 0
    pub no_start : o'.gc_start_time ≡ 0
    pub unmaps : 0 < o.pending_old_size → o'.unmapped ≡ push o.pending_old_base o.unmapped
    pub unsized : o.pending_old_size ≡ 0 → o'.unmapped ≡ o.unmapped
    pub closes : o'.closed ≡ push o.pending_old_fd o.closed
    pub unlinks : 0 < o.pending_old_ver → o'.unlinked ≡ o.pending_old_ver ∷ o.unlinked
    pub unversioned : o.pending_old_ver ≡ 0 → o'.unlinked ≡ o.unlinked
    pub keeps : o'.region ≡ o.region

  -- Nothing is given back, and the start of the wait is remembered.
  pub record IsWaiting (start : ℕ) (o' : Orchestrator) : Type 0 where
    pub reg : o'.reg ≡ o.reg
    pub unmapped : o'.unmapped ≡ o.unmapped
    pub closed : o'.closed ≡ o.closed
    pub unlinked : o'.unlinked ≡ o.unlinked
    pub start_time : o'.gc_start_time ≡ start

  -- The start of the grace period: that which is remembered, or now.
  pub record IsStart (start : ℕ) : Type 0 where
    pub begins : o.gc_start_time ≡ 0 → start ≡ env.clock 0 / 1_000_000
    pub begun : o.gc_start_time ≢ 0 → start ≡ o.gc_start_time

  -- The milliseconds since then, unsigned.
  abbrev pub since : ℕ → ℕ
  since start = (env.clock 1 / 1_000_000 + 2 ^ 64 - start) % 2 ^ 64

  -- Those who still read the old epoch; without an old version nobody does.
  abbrev pub readers : ℕ
  readers = (o.reg.epoch (o.pending_old_ver % 16)).active_readers
