-- ===== src/Server/Stored.antt =====
-- outback/outback_server_numa.hh: a new entry in a store with room, and the first empty slot of a
-- row.
use outback_cxl_numa.Base.{ℕ, zero, suc, ◌<◌, ◌≡◌, ◌≢◌, arith, ℕ_discrete, some, ok}
use outback_cxl_numa.Ludo.{Ludo}
use outback_cxl_numa.Slot.{LudoBuckets, check_slots, write_addr}
use outback_cxl_numa.Slot.Buckets.{slot_length, SpareSlot, check_slots_empty, check_slots-eq-zero}
use outback_cxl_numa.Packed.{sizeof_val}
use outback_cxl_numa.Packed.Laws.{appended, bulk_load_data-ok}
use outback_cxl_numa.Store.{IsPlaced, IsNamed}
use outback_cxl_numa.Server.{Server, first_free, store_new}

-- A row with an empty slot has a first one.
pub first_free-some :
    (ludo : Ludo) (b : LudoBuckets) (key row slot : ℕ)
    → SpareSlot b row slot
    → (t : ℕ) × (first_free ludo b key row ≡ some t) × (t < 4) × (slot_length b row t ≡ 0)
unfolding first_free
first_free-some ludo b key row slot spare = elim (ℕ_discrete (check_slots ludo b key row 0) 0) [
  | yes e ↦ (0, ground arith, omega arith, check_slots-eq-zero ludo b key row 0 e)
  | no n0 ↦ elim (ℕ_discrete (check_slots ludo b key row 1) 0) [
    | yes e ↦ (1, ground arith, omega arith, check_slots-eq-zero ludo b key row 1 e)
    | no n1 ↦ elim (ℕ_discrete (check_slots ludo b key row 2) 0) [
      | yes e ↦ (2, ground arith, omega arith, check_slots-eq-zero ludo b key row 2 e)
      | no n2 ↦ elim (ℕ_discrete (check_slots ludo b key row 3) 0) [
        | yes e ↦ (3, ground arith, omega arith, check_slots-eq-zero ludo b key row 3 e)
        | no n3 ↦ absurd (
            none_free spare.0 spare.1 (check_slots_empty ludo b key row spare.0 spare.3) n0 n1 n2
              n3)
      ]
    ]
  ]
]
  where
    none_free :
        (s : ℕ)
        → s < 4
        → check_slots ludo b key row s ≡ 0
        → check_slots ludo b key row 0 ≢ 0
        → check_slots ludo b key row 1 ≢ 0
        → check_slots ludo b key row 2 ≢ 0
        → check_slots ludo b key row 3 ≢ 0
        → ⊥
    none_free zero lt e n0 n1 n2 n3 = n0 e
    none_free (suc zero) lt e n0 n1 n2 n3 = n1 e
    none_free (suc (suc zero)) lt e n0 n1 n2 n3 = n2 e
    none_free (suc (suc (suc zero))) lt e n0 n1 n2 n3 = n3 e
    none_free (suc (suc (suc (suc s)))) lt e n0 n1 n2 n3 = omega arith

module _ {C : Type 0} (ludo : Ludo) (s : Server C) where
  abbrev pub IsValid : Type 0
  IsValid = IsPlaced s.buckets s.packed

  -- Every occupied slot has its key's fingerprint.
  abbrev pub HasNames : Type 0
  HasNames = IsNamed ludo s.buckets s.packed

  abbrev pub HasRoom : Type 0
  HasRoom = s.packed.num < s.packed.num_elements

  -- The server after a new entry.
  abbrev pub stored : ℕ → ℕ → ℕ → ℕ → Server C
  stored key val row slot = record s {
    buckets = write_addr ludo s.buckets key row slot s.packed.num 64;
    packed = appended s.packed key sizeof_val val;
  }

  pub store_new-ok :
      (key val row slot : ℕ)
      → HasRoom
      → IsValid
      → store_new ludo s key val row slot ≡ ok (stored key val row slot)
  unfolding store_new
  store_new-ok key val row slot room v =
      rw (bulk_load_data-ok s.packed key sizeof_val val room v.narrow)
