-- ===== src/Resize/Acks.antt =====
-- outback/outback_resize.hh, `wait_for_acks_or_timeout`: the end of the wait, and the zombies.
pub mod Ends
use outback_cxl_numa.Base.{
  ℕ, zero, suc, ◌-◌, ◌^◌, ◌≤◌, ◌<◌, ◌≡◌, ◌≢◌, ◌↔◌, ◌⊎◌, inl, inr, refl, sym, ◌∙◌, arith, true,
  false, ltb, leb, ◌==◌, if_cases, ==_iff, leb→le, le→leb, ltb→lt,
}
use outback_cxl_numa.Registry.{ready_to_switch, drain_old, ClientLiveness}
use outback_cxl_numa.Resize.{Env, Orchestrator, set_state, zombie_threshold_ns, ack_grace_ms}
use outback_cxl_numa.Resize.Monitor.{
  is_zombie, count_zombies, zombies, pending_acks, ack_elapsed, ack_start, scanned, clear_pending,
  forced, waiting, wait_for_acks_or_timeout,
}

-- A client counts as a zombie exactly when it is active and its heartbeat is more than 30 s old; but
-- the difference is unsigned, so an active client whose heartbeat is newer than the reading of the
-- clock counts as one too, unless it is ahead by nearly the whole range of the clock.
pub is_zombie_exact :
    (now : ℕ) (c : ClientLiveness)
    → now < 2 ^ 64
    → c.last_heartbeat_ns < 2 ^ 64
    → (c.last_heartbeat_ns ≤ now
        → (is_zombie now c ≡ true
            ↔ ((c.active ≢ 0) × (zombie_threshold_ns < now - c.last_heartbeat_ns))))
      × (now < c.last_heartbeat_ns
          → c.last_heartbeat_ns - now < 2 ^ 64 - zombie_threshold_ns
          → c.active ≢ 0
          → is_zombie now c ≡ true)
unfolding is_zombie
is_zombie_exact now c hn hh =
    (λ le. (λ z. (ground arith, ground arith), λ (a, t). ground arith), λ lt near a. ground arith)

count_zombies-le : (n now : ℕ) (clients : ℕ → ClientLiveness) → count_zombies n now clients ≤ n
unfolding count_zombies
count_zombies-le zero now clients = omega arith
count_zombies-le (suc n) now clients = ground (arith, count_zombies-le n now clients)

-- The reason to wait no longer.
abbrev pub Done : Env → Orchestrator → Type 0
Done env o =
    (pending_acks o ≡ 0) ⊎ (pending_acks o ≤ zombies env o) ⊎ (ack_grace_ms < ack_elapsed env o)

-- One round of the wait: it ends for a reason, or the reason is missing.
abbrev pub Outcome : Env → Orchestrator → Orchestrator → Type 0
Outcome env o o' =
    (Done env o × (o'.reg.resize_state ≡ drain_old))
    ⊎ ((¬ Done env o)
        × (o'.reg.resize_state ≡ o.reg.resize_state)
        × (o'.ack_wait_start ≡ ack_start env o))

not-Done :
    (env : Env) (o : Orchestrator)
    → (pending_acks o == 0) ≡ false
    → leb (pending_acks o) (zombies env o) ≡ false
    → ltb ack_grace_ms (ack_elapsed env o) ≡ false
    → ¬ Done env o
not-Done env o a b c (inl h) = cc (sym a ∙ (==_iff _ _).1 h)
not-Done env o a b c (inr (inl h)) = ground arith
not-Done env o a b c (inr (inr h)) = ground arith

pub wait-Outcome : (env : Env) (o : Orchestrator) → Outcome env o (wait_for_acks_or_timeout env o)
unfolding wait_for_acks_or_timeout set_state clear_pending scanned forced waiting
wait-Outcome env o =
    if_cases (Outcome env o) (pending_acks o == 0) (λ a. inl (inl ((==_iff _ _).0 a), refl))
      (λ a.
        if_cases (Outcome env o) (leb (pending_acks o) (zombies env o))
          (λ b. inl (inr (inl (leb→le _ _ b)), refl))
          (λ b.
            if_cases (Outcome env o) (ltb ack_grace_ms (ack_elapsed env o))
              (λ c. inl (inr (inr (ltb→lt _ _ c)), refl))
              (λ c. inr (not-Done env o a b c, refl, refl))))

-- The wait ends in a round that has a reason.
pub Done-ends :
    (env : Env) (o : Orchestrator)
    → Done env o
    → (wait_for_acks_or_timeout env o).reg.resize_state ≡ drain_old
Done-ends env o d = go (wait-Outcome env o)
  where
    go :
        Outcome env o (wait_for_acks_or_timeout env o)
        → (wait_for_acks_or_timeout env o).reg.resize_state ≡ drain_old
    go (inl (_, s)) = s
    go (inr (n, _, _)) = absurd (n d)

-- A wait that ends because nobody is waited for, or because the rest are zombies, leaves the start
-- of the grace window as it was: the next resize measures its window from there.
pub early_end_keeps_window :
    (env : Env) (o : Orchestrator)
    → (pending_acks o ≡ 0) ⊎ (pending_acks o ≤ zombies env o)
    → (wait_for_acks_or_timeout env o).ack_wait_start ≡ o.ack_wait_start
unfolding wait_for_acks_or_timeout set_state clear_pending scanned
early_end_keeps_window env o h =
    if_cases (λ (o' : Orchestrator). o'.ack_wait_start ≡ o.ack_wait_start) (pending_acks o == 0)
      (λ a. refl)
      (λ a.
        if_cases (λ (o' : Orchestrator). o'.ack_wait_start ≡ o.ack_wait_start)
          (leb (pending_acks o) (zombies env o)) (λ b. refl) (λ b. absurd (early a b h)))
  where
    early :
        (pending_acks o == 0) ≡ false
        → leb (pending_acks o) (zombies env o) ≡ false
        → (pending_acks o ≡ 0) ⊎ (pending_acks o ≤ zombies env o)
        → ⊥
    early a b (inl z) = cc (sym a ∙ (==_iff _ _).1 z)
    early a b (inr z) = cc (sym b ∙ le→leb _ _ z)
