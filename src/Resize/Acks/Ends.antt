-- ===== src/Resize/Acks/Ends.antt =====
-- outback/outback_resize.hh, `wait_for_acks_or_timeout`: when the wait for the clients is over, by the
-- table of clients and the clock.
use outback_cxl_numa.Base.{
  ℕ, zero, suc, ◌+◌, ◌-◌, ◌/◌, ◌%◌, ◌^◌, ◌≤◌, ◌<◌, ◌≡◌, ◌≢◌, ◌↔◌, ◌⊎◌, inl, inr, refl, sym, ◌∙◌,
  arith, true, List, [], ◌∷◌, length, if◌then◌else◌, Bool-cases, ℕ_discrete,
}
use outback_cxl_numa.Registry.{ready_to_switch, drain_old, ClientLiveness, max_clients}
use outback_cxl_numa.Resize.{Env, Orchestrator}
use outback_cxl_numa.Resize.Monitor.{
  is_zombie, count_zombies, zombies, pending_acks, ack_elapsed, ack_start, wait_for_acks_or_timeout,
}
use outback_cxl_numa.Resize.Acks.{Done, Outcome, wait-Outcome}

-- The slot is in the list.
abbrev pub Listed : ℕ → List ℕ → Type 0
Listed i [] = ⊥
Listed i (j ∷ js) = (i ≡ j) ⊎ Listed i js

-- The slots are below `n`, each below the one before it, so none is listed twice.
abbrev pub Falls : ℕ → List ℕ → Type 0
Falls n [] = Unit
Falls n (i ∷ is) = (i < n) × Falls i is

-- An active client whose heartbeat is more than 30 s old, by the unsigned difference.
abbrev pub IsSilent : ℕ → ClientLiveness → Type 0
IsSilent now c = (c.active ≢ 0) × (30_000_000_000 < (now + 2 ^ 64 - c.last_heartbeat_ns) % 2 ^ 64)

-- The silent slots of the table, and the start of the window: that which is remembered, or now.
pub record IsObserved (env : Env) (o : Orchestrator) (silent : List ℕ) (start : ℕ) : Type 0 where
  pub distinct : Falls 256 silent
  pub all : (i : ℕ) → i < 256 → IsSilent (env.clock 0) (o.reg.clients i) → Listed i silent
  pub only : (i : ℕ) → Listed i silent → IsSilent (env.clock 0) (o.reg.clients i)
  pub begins : o.ack_wait_start ≡ 0 → start ≡ env.clock 1 / 1_000_000
  pub begun : o.ack_wait_start ≢ 0 → start ≡ o.ack_wait_start

-- No client is waited for, or no more than the silent ones, or the window of 5 s is over.
abbrev pub IsOver : Env → Orchestrator → List ℕ → ℕ → Type 0
IsOver env o silent start =
    let pending = (o.reg.epoch (o.reg.current_version % 16)).clients_pending_ack in
    (pending ≡ 0)
    ⊎ (pending ≤ length silent)
    ⊎ (5_000 < (env.clock 2 / 1_000_000 + 2 ^ 64 - start) % 2 ^ 64)

is_zombie-IsSilent : (now : ℕ) (c : ClientLiveness) → is_zombie now c ≡ true ↔ IsSilent now c
unfolding is_zombie
is_zombie-IsSilent now c = (λ z. (ground arith, ground arith), λ (a, t). ground arith)

-- The silent slots among the first `n`, the last one first.
silent_slots : ℕ → ℕ → (ℕ → ClientLiveness) → List ℕ
silent_slots zero now clients = []
silent_slots (suc n) now clients =
    let rest = silent_slots n now clients in if is_zombie now (clients n) then n ∷ rest else rest

module _ (now : ℕ) (clients : ℕ → ClientLiveness) where
  -- What holds of the list of the first `n` slots.
  abbrev Lists : ℕ → List ℕ → Type 0
  Lists n is =
      Falls n is
      × ((i : ℕ) → i < n → IsSilent now (clients i) → Listed i is)
      × ((i : ℕ) → Listed i is → IsSilent now (clients i))
      × (length is ≡ count_zombies n now clients)

  Falls-above : (n : ℕ) (is : List ℕ) → Falls n is → Falls (suc n) is
  Falls-above n [] h = tt
  Falls-above n (i ∷ is) (lt, h) = (omega arith, h)

  silent_slots-Lists : (n : ℕ) → Lists n (silent_slots n now clients)
  unfolding silent_slots count_zombies
  silent_slots-Lists zero = (tt, λ i lt. absurd (omega arith), λ i h. absurd h, refl)
  silent_slots-Lists (suc n) =
      let (falls, all, only, count) = silent_slots-Lists n in
      elim (Bool-cases (is_zombie now (clients n))) [
        | inl e ↦ rw e (
          (omega arith, falls),
          λ i lt h. elim (ℕ_discrete i n) [ yes q ↦ inl q | no q ↦ inr (all i (omega arith) h) ],
          λ i h. first e only i h,
          omega (arith, count),
        )
        | inr e ↦ rw e (
          Falls-above n _ falls,
          λ i lt h. elim (ℕ_discrete i n) [
            | yes q ↦ absurd (cc (sym e ∙ (is_zombie-IsSilent now (clients n)).1 (rw (sym q) h)))
            | no q ↦ all i (omega arith) h
          ],
          only,
          count,
        )
      ]
    where
      first :
          is_zombie now (clients n) ≡ true
          → ((i : ℕ) → Listed i (silent_slots n now clients) → IsSilent now (clients i))
          → (i : ℕ) → (i ≡ n) ⊎ Listed i (silent_slots n now clients)
          → IsSilent now (clients i)
      first e only i (inl q) = rw q ((is_zombie-IsSilent now (clients n)).0 e)
      first e only i (inr h) = only i h

module _ (env : Env) (o : Orchestrator) where
  abbrev silent : List ℕ
  silent = silent_slots max_clients (env.clock 0) o.reg.clients

  observed : IsObserved env o silent (ack_start env o)
  unfolding ack_start
  observed =
      let (falls, all, only, count) = silent_slots-Lists (env.clock 0) o.reg.clients max_clients in
      record {
        distinct = falls;
        all = all;
        only = only;
        begins = λ z. ground arith;
        begun = λ z. ground arith;
      }

  silent_count : length silent ≡ zombies env o
  unfolding zombies
  silent_count = (silent_slots-Lists (env.clock 0) o.reg.clients max_clients).3

  IsOver-Done : Done env o ↔ IsOver env o silent (ack_start env o)
  unfolding pending_acks ack_elapsed
  IsOver-Done = (forth, back)
    where
      forth : Done env o → IsOver env o silent (ack_start env o)
      forth (inl h) = inl h
      forth (inr (inl h)) = inr (inl (omega (arith, h, silent_count)))
      forth (inr (inr h)) = inr (inr h)

      back : IsOver env o silent (ack_start env o) → Done env o
      back (inl h) = inl h
      back (inr (inl h)) = inr (inl (omega (arith, h, silent_count)))
      back (inr (inr h)) = inr (inr h)

  -- In READY_TO_SWITCH a round moves on to DRAIN_OLD exactly when the current epoch waits for no client,
  -- or for no more than there are active clients in the whole table whose heartbeat is more than 30 s
  -- old by the unsigned difference, or more than 5 s have passed since the start of the window, which is
  -- the remembered one, or now if none is remembered. If it does not move on, the state stays and that
  -- start is remembered.
  pub wait_ends_iff :
      o.reg.resize_state ≡ ready_to_switch
      → (zs : List ℕ) × (start : ℕ) × IsObserved env o zs start
        × (((wait_for_acks_or_timeout env o).reg.resize_state ≡ drain_old) ↔ IsOver env o zs start)
        × (¬ IsOver env o zs start
            → ((wait_for_acks_or_timeout env o).reg.resize_state ≡ ready_to_switch)
              × ((wait_for_acks_or_timeout env o).ack_wait_start ≡ start))
  wait_ends_iff e =
      let (ends, stays) = go (wait-Outcome env o) in
      (silent, ack_start env o, observed, ends, stays)
    where
      go :
          Outcome env o (wait_for_acks_or_timeout env o)
          → (((wait_for_acks_or_timeout env o).reg.resize_state ≡ drain_old)
              ↔ IsOver env o silent (ack_start env o))
            × (¬ IsOver env o silent (ack_start env o)
                → ((wait_for_acks_or_timeout env o).reg.resize_state ≡ ready_to_switch)
                  × ((wait_for_acks_or_timeout env o).ack_wait_start ≡ ack_start env o))
      go (inl (d, s)) = ((λ _. IsOver-Done.0 d, λ _. s), λ n. absurd (n (IsOver-Done.0 d)))
      go (inr (n, s, w)) =
          ((λ m. cc (sym m ∙ s ∙ e), λ d. absurd (n (IsOver-Done.1 d))), λ _. (s ∙ e, w))
