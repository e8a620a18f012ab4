-- ===== src/Registry/Lock.antt =====
-- xcomm/src/transport/numa_transport.hh, `numa_lock_byte` and `numa_unlock_byte`: the spin lock on a
-- byte in shared memory, run by any number of threads in any order. (xutils/spin_lock.hh and
-- race/spinlock.hh hold the same loop over a `u16` and an `unsigned char`.)
use outback_cxl_numa.Base.{ℕ, ◌≡◌, ◌≢◌, List, [], ◌∷◌, ◌==◌, if◌then◌else◌, update, arith, refl}

-- Where a thread stands: outside, before the exchange, in the inner loop, or holding the lock.
pub data Pc : Type 0 where
  outside exchange watch inside : Pc

pub record Lock : Type 0 where
  pub byte : ℕ
  pub pc : ℕ → Pc

-- One atomic step of thread `i`, which stands at the given place.
unfoldable pub lock_step : Lock → ℕ → Pc → Lock
lock_step s i outside = record s { pc = update s.pc i exchange }
lock_step s i exchange =
    if s.byte == 0
    then record { byte = 1; pc = update s.pc i inside }
    else record { byte = 1; pc = update s.pc i watch }
lock_step s i watch = if s.byte == 0 then record s { pc = update s.pc i exchange } else s
lock_step s i inside = record { byte = 0; pc = update s.pc i outside }

-- The threads run in the given order.
unfoldable pub lock_run : List ℕ → Lock → Lock
unfolding lock_step
lock_run [] s = s
lock_run (i ∷ is) s = lock_run is (lock_step s i (s.pc i))

abbrev pub unlocked : Lock
unlocked = record { byte = 0; pc = λ i. outside }

record Inv (s : Lock) : Type 0 where
  exclusive : (i j : ℕ) → s.pc i ≡ inside → s.pc j ≡ inside → i ≡ j
  free : s.byte ≡ 0 → (i : ℕ) → s.pc i ≢ inside

lock_step-Inv : (s : Lock) (i : ℕ) (p : Pc) → s.pc i ≡ p → Inv s → Inv (lock_step s i p)
unfolding lock_step
lock_step-Inv s i outside e inv = record {
  exclusive = λ a b ha hb. ground (arith, inv.exclusive a b);
  free = λ z a ha. ground (arith, inv.free z a);
}
lock_step-Inv s i exchange e inv = record {
  exclusive = λ a b ha hb. ground (
    arith,
    inv.exclusive a b,
    λ (z : s.byte ≡ 0). inv.free z a,
    λ (z : s.byte ≡ 0). inv.free z b,
  );
  free = λ z a ha. ground (arith, λ (y : s.byte ≡ 0). inv.free y a);
}
lock_step-Inv s i watch e inv = record {
  exclusive = λ a b ha hb. ground (arith, inv.exclusive a b);
  free = λ z a ha. ground (arith, λ (y : s.byte ≡ 0). inv.free y a);
}
lock_step-Inv s i inside e inv = record {
  exclusive = λ a b ha hb. ground (arith, inv.exclusive a b);
  free = λ z a ha. ground (arith, inv.exclusive a i);
}

lock_run-Inv : (is : List ℕ) (s : Lock) → Inv s → Inv (lock_run is s)
unfolding lock_run
lock_run-Inv [] s inv = inv
lock_run-Inv (i ∷ is) s inv =
    lock_run-Inv is (lock_step s i (s.pc i)) (lock_step-Inv s i (s.pc i) refl inv)

-- In every order of steps from an unlocked byte at most one thread holds the lock, and nobody holds
-- it while the byte is zero.
pub lock_run_exclusive :
    (is : List ℕ)
    → ((i j : ℕ)
        → (lock_run is unlocked).pc i ≡ inside
        → (lock_run is unlocked).pc j ≡ inside
        → i ≡ j)
      × ((lock_run is unlocked).byte ≡ 0 → (i : ℕ) → (lock_run is unlocked).pc i ≢ inside)
lock_run_exclusive is =
    let inv = lock_run-Inv is unlocked (record { exclusive = λ i j h k. cc; free = λ z i h. cc }) in
    (inv.exclusive, inv.free)
