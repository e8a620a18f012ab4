-- ===== src/Slot/Buckets.antt =====
-- outback/ludo_slot.hh: the answers of `check_slots`, and the reads after a write.
use outback_cxl_numa.Base.{
  ℕ, zero, suc, ◌%◌, ◌^◌, ◌<◌, ◌≡◌, ◌≢◌, ◌⊎◌, inl, inr, true, false, refl, arith, Bool-cases,
  ℕ_discrete,
}
use outback_cxl_numa.Ludo.{Ludo}
use outback_cxl_numa.Slot.{
  LudoBuckets, to_length, to_finger, combine, has_empty, fingerprint, check_slots, write_addr,
  read_addr, read_cachebit, set_cachebit,
}
use outback_cxl_numa.Slot.Word.{
  to_length-combine, to_finger-combine, to_addr-combine, to_cachebit-combine, combine-set_bit,
}

-- The length field of a slot; zero marks the slot as empty.
abbrev pub slot_length : LudoBuckets → ℕ → ℕ → ℕ
slot_length b row slot = to_length (b.slots row slot)

abbrev pub FullRow : LudoBuckets → ℕ → Type 0
FullRow b row =
    (slot_length b row 0 ≢ 0)
    × (slot_length b row 1 ≢ 0)
    × (slot_length b row 2 ≢ 0)
    × (slot_length b row 3 ≢ 0)

-- Some slot of the row but the given one is empty.
abbrev pub SpareSlot : LudoBuckets → ℕ → ℕ → Type 0
SpareSlot b row slot = (s : ℕ) × (s < 4) × (s ≢ slot) × (slot_length b row s ≡ 0)

-- The state of a row that each answer of `check_slots` stands for.
abbrev pub StatusMeans : Ludo → LudoBuckets → ℕ → ℕ → ℕ → ℕ → Type 0
StatusMeans ludo b key row slot status =
    ((status ≡ 0) × (slot_length b row slot ≡ 0))
    ⊎ ((status ≡ 1)
        × (slot_length b row slot ≢ 0)
        × (to_finger (b.slots row slot) ≡ fingerprint ludo key))
    ⊎ ((status ≡ 2)
        × (slot_length b row slot ≢ 0)
        × (to_finger (b.slots row slot) ≢ fingerprint ludo key)
        × SpareSlot b row slot)
    ⊎ ((status ≡ 3) × (to_finger (b.slots row slot) ≢ fingerprint ludo key) × FullRow b row)

has_empty-true :
    (b : LudoBuckets) (row : ℕ)
    → has_empty b row ≡ true
    → (s : ℕ) × (s < 4) × (slot_length b row s ≡ 0)
unfolding has_empty
has_empty-true b row h = elim (ℕ_discrete (slot_length b row 0) 0) [
  | yes e ↦ (0, omega arith, e)
  | no p ↦ elim (ℕ_discrete (slot_length b row 1) 0) [
    | yes e ↦ (1, omega arith, e)
    | no q ↦ elim (ℕ_discrete (slot_length b row 2) 0) [
      | yes e ↦ (2, omega arith, e)
      | no r ↦ (3, omega arith, ground arith)
    ]
  ]
]

has_empty-false : (b : LudoBuckets) (row : ℕ) → has_empty b row ≡ false → FullRow b row
unfolding has_empty
has_empty-false b row h = ground arith

buckets_ext :
    (b c : LudoBuckets)
    → ((r s : ℕ) → b.slots r s ≡ c.slots r s)
    → b.num_elements ≡ c.num_elements
    → b ≡ c
buckets_ext b c h n = λ i. record { slots = λ r s. h r s i; num_elements = n i }

module _ (ludo : Ludo) (b : LudoBuckets) (key row : ℕ) where
  pub check_slots_empty :
      (slot : ℕ) → slot_length b row slot ≡ 0 → check_slots ludo b key row slot ≡ 0
  unfolding check_slots
  check_slots_empty slot h = ground arith

  pub check_slots-eq-zero :
      (slot : ℕ) → check_slots ludo b key row slot ≡ 0 → slot_length b row slot ≡ 0
  unfolding check_slots
  check_slots-eq-zero slot h = ground arith

  not-empty : (slot s : ℕ) → slot_length b row slot ≢ 0 → slot_length b row s ≡ 0 → s ≢ slot
  not-empty slot s h e same = h (rw same at e)

  -- Each answer of `check_slots` describes the row.
  pub check_slots_status :
      (slot : ℕ) → StatusMeans ludo b key row slot (check_slots ludo b key row slot)
  unfolding check_slots
  check_slots_status slot = elim (ℕ_discrete (slot_length b row slot) 0) [
    | yes e ↦ inl (ground arith, e)
    | no n ↦ elim (ℕ_discrete (to_finger (b.slots row slot)) (fingerprint ludo key)) [
      | yes f ↦ inr (inl (ground arith, n, f))
      | no g ↦ elim (Bool-cases (has_empty b row)) [
        | inl t ↦
            let (s, lt, e) = has_empty-true b row t in
            inr (inr (inl (ground arith, n, g, (s, lt, not-empty slot s n e, e))))
        | inr t ↦ inr (inr (inr (ground arith, g, has_empty-false b row t)))
      ]
    ]
  ]

  pub check_slots_match :
      (slot : ℕ)
      → slot_length b row slot ≢ 0
      → to_finger (b.slots row slot) ≡ fingerprint ludo key
      → check_slots ludo b key row slot ≡ 1
  unfolding check_slots
  check_slots_match slot h f = ground arith

  has_empty_of_spare : (slot : ℕ) → SpareSlot b row slot → has_empty b row ≡ true
  unfolding has_empty
  has_empty_of_spare slot (zero, lt, n, e) = ground arith
  has_empty_of_spare slot (suc zero, lt, n, e) = ground arith
  has_empty_of_spare slot (suc (suc zero), lt, n, e) = ground arith
  has_empty_of_spare slot (suc (suc (suc zero)), lt, n, e) = ground arith
  has_empty_of_spare slot (suc (suc (suc (suc s))), lt, n, e) = absurd (omega arith)

  pub check_slots_spare :
      (slot : ℕ)
      → slot_length b row slot ≢ 0
      → to_finger (b.slots row slot) ≢ fingerprint ludo key
      → SpareSlot b row slot
      → check_slots ludo b key row slot ≡ 2
  unfolding check_slots
  check_slots_spare slot h f spare = ground (arith, has_empty_of_spare slot spare)

  pub check_slots_full :
      (slot : ℕ)
      → slot_length b row slot ≢ 0
      → to_finger (b.slots row slot) ≢ fingerprint ludo key
      → FullRow b row
      → check_slots ludo b key row slot ≡ 3
  unfolding check_slots has_empty
  check_slots_full slot h f full = ground arith

  module _ (slot addr len : ℕ) where
    -- The written slot holds the packed word.
    pub slots-write_addr :
        (write_addr ludo b key row slot addr len).slots row slot
        ≡ combine (fingerprint ludo key) len addr
    unfolding write_addr
    slots-write_addr = ground arith

    pub slots-write_addr_ne :
        (r s : ℕ)
        → (r ≢ row) ⊎ (s ≢ slot)
        → (write_addr ludo b key row slot addr len).slots r s ≡ b.slots r s
    unfolding write_addr
    slots-write_addr_ne r s h = ground arith

    pub fingerprint-mod : fingerprint ludo key % 2 ^ 7 ≡ fingerprint ludo key
    unfolding fingerprint
    fingerprint-mod = omega arith

    -- A word written for a key is seen as that key's: an occupied slot, with its fingerprint and
    -- address.
    pub read-write_addr :
        len % 2 ^ 16 ≢ 0
        → (check_slots ludo (write_addr ludo b key row slot addr len) key row slot ≡ 1)
          × (read_addr (write_addr ludo b key row slot addr len) row slot ≡ addr % 2 ^ 40)
          × (slot_length (write_addr ludo b key row slot addr len) row slot ≡ len % 2 ^ 16)
    unfolding check_slots read_addr
    read-write_addr h =
        let w = slots-write_addr in
        let l = to_length-combine (fingerprint ludo key) len addr in
        let f = to_finger-combine (fingerprint ludo key) len addr in
        let m = fingerprint-mod in
        (
          rw (w, l, f, m) (ground arith),
          rw w (to_addr-combine (fingerprint ludo key) len addr),
          rw w l,
        )

    set_cachebit-slots :
        (r s : ℕ)
        → (set_cachebit (write_addr ludo b key row slot addr len) row slot).slots r s
          ≡ (write_addr ludo b key row slot addr len).slots r s
    unfolding set_cachebit write_addr
    set_cachebit-slots r s = ground (arith, combine-set_bit (fingerprint ludo key) len addr)

    set_cachebit-size :
        (set_cachebit (write_addr ludo b key row slot addr len) row slot).num_elements
        ≡ (write_addr ludo b key row slot addr len).num_elements
    unfolding set_cachebit write_addr
    set_cachebit-size = refl

    -- The flag is already set in every word that `write_addr` makes, so `set_cachebit` cannot mark
    -- such a slot, and `read_cachebit` cannot tell it from an unmarked one.
    pub set_cachebit-write_addr :
        (read_cachebit (write_addr ludo b key row slot addr len) row slot ≡ true)
        × (set_cachebit (write_addr ludo b key row slot addr len) row slot
            ≡ write_addr ludo b key row slot addr len)
    unfolding read_cachebit
    set_cachebit-write_addr = (
      rw (slots-write_addr, to_cachebit-combine (fingerprint ludo key) len addr),
      buckets_ext _ _ set_cachebit-slots set_cachebit-size,
    )
