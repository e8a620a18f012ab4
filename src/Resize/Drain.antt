-- ===== src/Resize/Drain.antt =====
-- outback/outback_resize.hh, `drain_old`: the round of DRAIN_OLD, its replay and the queues.
use outback_cxl_numa.Base.{
  ℕ, suc, ◌+◌, ◌^◌, ◌≤◌, ◌≡◌, inl, inr, refl, ap, arith, Bool, true, false, Option, none, some,
  List, [], ◌∷◌, Run, ok, Returns, ◌==◌, if_cases, length, Option-cases,
}
use outback_cxl_numa.Ludo.{Ludo}
use outback_cxl_numa.Slot.{write_addr}
use outback_cxl_numa.Packed.{sizeof_val, update_data}
use outback_cxl_numa.Packed.Laws.{appended, bulk_load_data-ok}
use outback_cxl_numa.Registry.{gc_pending, drain_old}
use outback_cxl_numa.Deferred.{Deferred, DeferredInsert}
use outback_cxl_numa.Deferred.Counts.{IsCounted}
use outback_cxl_numa.Server.{first_free}
use outback_cxl_numa.Resize.{Env, Orchestrator, Region, set_state}
use outback_cxl_numa.Resize.Replay.{
  replay_new, replay_matched, replay_spare, replay_case, replay_insert, replay_inserts, replay_all,
  replay_deletes,
}
use outback_cxl_numa.Resize.Monitor.{drain, drained, emptied, check_state, check_case}

-- Room for `n` more entries.
abbrev pub HasRoomFor : ℕ → Region → Type 0
HasRoomFor n g = (g.packed.num + n ≤ g.packed.num_elements) × (g.packed.num_elements ≤ 2 ^ 32)

module _ (ludo : Ludo) where
  -- One insertion takes one entry at most.
  abbrev Uses : ℕ → Run Region → Type 0
  Uses n r = Returns r (HasRoomFor n)

  new-Uses :
      (n : ℕ) (g : Region) (key val row slot : ℕ)
      → HasRoomFor (suc n) g
      → Uses n (replay_new ludo g key val row slot)
  unfolding replay_new
  new-Uses n g key val row slot h = (
    record {
      buckets = write_addr ludo g.buckets key row slot g.packed.num 64;
      packed = appended g.packed key sizeof_val val;
    },
    rw (bulk_load_data-ok g.packed key sizeof_val val (omega arith) h.1),
    (omega arith, h.1),
  )

  keep-Uses : (n : ℕ) (g : Region) → HasRoomFor (suc n) g → Uses n (ok g)
  keep-Uses n g h = (g, refl, (omega arith, h.1))

  matched-room :
      (n : ℕ) (g : Region) (key val row slot : ℕ)
      → HasRoomFor (suc n) g
      → HasRoomFor n (replay_matched ludo g key val row slot)
  unfolding replay_matched update_data
  matched-room n g key val row slot h = (ground arith, ground arith)

  spare-Uses :
      (n : ℕ) (g : Region) (key val row : ℕ)
      → HasRoomFor (suc n) g
      → Uses n (replay_spare ludo g key val row)
  unfolding replay_spare
  spare-Uses n g key val row h = elim (Option-cases (first_free ludo g.buckets key row)) [
    | inl e ↦ rw (e, replay_spare) (keep-Uses n g h)
    | inr (s, e) ↦ rw (e, replay_spare) (new-Uses n g key val row s h)
  ]

  case-Uses :
      (n : ℕ) (g : Region) (key val row slot status : ℕ)
      → HasRoomFor (suc n) g
      → Uses n (replay_case ludo g key val row slot status)
  unfolding replay_case
  case-Uses n g key val row slot status h =
      if_cases (Uses n) (status == 0) (λ _. new-Uses n g key val row slot h)
        (λ _.
          if_cases (Uses n) (status == 1) (λ _. (_, refl, matched-room n g key val row slot h))
            (λ _.
              if_cases (Uses n) (status == 2) (λ _. spare-Uses n g key val row h)
                (λ _. keep-Uses n g h)))

  insert-Uses :
      (n : ℕ) (seeds : ℕ → ℕ) (g : Region) (key val : ℕ)
      → HasRoomFor (suc n) g
      → Uses n (replay_insert ludo seeds g key val)
  unfolding replay_insert
  insert-Uses n seeds g key val h = case-Uses n g key val _ _ _ h

  inserts-Uses :
      (seeds : ℕ → ℕ) (g : Region) (ds : List DeferredInsert)
      → HasRoomFor (length ds) g
      → Uses 0 (replay_inserts ludo seeds g ds)
  unfolding replay_inserts
  inserts-Uses seeds g [] h = (g, refl, h)
  inserts-Uses seeds g (d ∷ ds) h =
      let (g', e, room) = insert-Uses (length ds) seeds g d.key d.value h in
      rw e (inserts-Uses seeds g' ds room)

  pub all-returns :
      (seeds : Option (ℕ → ℕ)) (wrapped : Bool) (g : Region) (d : Deferred)
      → HasRoomFor (length d.inserts) g
      → (g' : Region) × (replay_all ludo seeds wrapped g d.inserts d.deletes ≡ ok g')
  unfolding replay_all
  all-returns none wrapped g d h = (g, refl)
  all-returns (some seeds) false g d h = (g, refl)
  all-returns (some seeds) true g d h =
      let (g', e, _) = inserts-Uses seeds g d.inserts h in
      (replay_deletes ludo seeds g' d.deletes, rw e)

-- The drain is over: the queues are empty and counted as such, and mutations are let in again.
pub record IsDrained (o : Orchestrator) : Type 0 where
  pub no_inserts : o.deferred.inserts ≡ []
  pub no_deletes : o.deferred.deletes ≡ []
  pub insert_counted : o.deferred.insert_count ≡ 0
  pub delete_counted : o.deferred.delete_count ≡ 0
  pub state : o.reg.resize_state ≡ gc_pending
  pub open_ : o.blocked ≡ false

pub drained-IsDrained :
    (env : Env) (o : Orchestrator) (g : Region) → IsCounted o.deferred → IsDrained (drained env o g)
unfolding drained set_state emptied
drained-IsDrained env o g c = record {
  no_inserts = refl;
  no_deletes = refl;
  insert_counted = omega (arith, c.insert_counted, c.insert_depth);
  delete_counted = omega (arith, c.delete_counted, c.delete_depth);
  state = refl;
  open_ = refl;
}

pub check_state-drain :
    (ludo : Ludo) (env : Env) (o : Orchestrator)
    → o.reg.resize_state ≡ drain_old
    → check_state ludo env o ≡ drain ludo env o
unfolding check_state check_case
check_state-drain ludo env o e = ap (λ s. check_case ludo env s o) e
