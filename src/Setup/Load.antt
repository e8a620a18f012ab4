-- ===== src/Setup/Load.antt =====
-- benchs/outback/server_numa.cc, `setup_ludo_table`: the loop that loads the keys.
use outback_cxl_numa.Base.{
  ℕ, zero, suc, ◌+◌, ◌^◌, ◌≤◌, ◌<◌, ◌≡◌, Bool, false, some, ok, refl, ◌∙◌, arith, ℕ_discrete,
}
use outback_cxl_numa.Packed.{PackedData, PackedStruct, sizeof_val}
use outback_cxl_numa.Packed.Laws.{appended, bulk_load_data-ok}
use outback_cxl_numa.Setup.{polled_stop, load_keys}

-- The entry that the load writes for the i-th key.
abbrev pub loaded_entry : (ℕ → ℕ) → ℕ → PackedStruct
loaded_entry keys i = record { key = keys i; data_length = sizeof_val; value = i }

-- Nobody asks to stop in the first `n` readings of the flag.
abbrev pub NoStops : (ℕ → Bool) → ℕ → Type 0
NoStops stops n = (i : ℕ) → i < n → stops i ≡ false

pub polled_stop-false :
    (stops : ℕ → Bool) (n i m : ℕ) → NoStops stops m → i + n ≤ m → polled_stop stops n i ≡ false
unfolding polled_stop
polled_stop-false stops zero i m quiet h = refl
polled_stop-false stops (suc n) i m quiet h =
    rw (quiet i (omega arith)) (polled_stop-false stops n (i + 1) m quiet (omega arith))

-- What the load of the keys from the i-th to the end makes of the array.
pub record IsFilled (keys : ℕ → ℕ) (i end : ℕ) (p p' : PackedData) : Type 0 where
  pub count : p'.num ≡ end
  pub capacity : p'.num_elements ≡ p.num_elements
  pub loaded : (j : ℕ) → i ≤ j → j < end → p'.raw_array j ≡ loaded_entry keys j
  pub kept : (j : ℕ) → j < i → p'.raw_array j ≡ p.raw_array j

module _ (keys : ℕ → ℕ) (stops : ℕ → Bool) (first m : ℕ) (quiet : NoStops stops m) where
  next-IsFilled :
      (i end : ℕ) (p p' : PackedData)
      → p.num ≡ i
      → i < end
      → IsFilled keys (i + 1) end (appended p (keys i) sizeof_val i) p'
      → IsFilled keys i end p p'
  next-IsFilled i end p p' e lt f = record {
    count = f.count;
    capacity = f.capacity;
    loaded = λ j ge below. elim (ℕ_discrete j i) [
      | yes same ↦ rw same (f.kept i (omega arith) ∙ ground arith)
      | no other ↦ f.loaded j (omega arith) below
    ];
    kept = λ j below. f.kept j (omega arith) ∙ ground arith;
  }

  load_keys-suc :
      (n i : ℕ) (p : PackedData)
      → stops (first + i) ≡ false
      → p.num < p.num_elements
      → p.num_elements ≤ 2 ^ 32
      → load_keys keys stops first (suc n) i p
        ≡ load_keys keys stops first n (i + 1) (appended p (keys i) sizeof_val i)
  unfolding load_keys
  load_keys-suc n i p goes room narrow =
      rw (goes, load_keys) (rw (bulk_load_data-ok p (keys i) sizeof_val i room narrow))

  -- With room for them all, the keys are loaded one after the other.
  pub load_keys-IsFilled :
      (n i end : ℕ) (p : PackedData)
      → i + n ≡ end
      → first + end ≤ m
      → p.num ≡ i
      → end ≤ p.num_elements
      → p.num_elements ≤ 2 ^ 32
      → (p' : PackedData) × (load_keys keys stops first n i p ≡ ok (some p'))
        × IsFilled keys i end p p'
  unfolding load_keys
  load_keys-IsFilled zero i end p sum polls e room narrow = (
    p,
    refl,
    record {
      count = omega arith;
      capacity = refl;
      loaded = λ j ge below. absurd (omega arith);
      kept = λ j below. refl;
    },
  )
  load_keys-IsFilled (suc n) i end p sum polls e room narrow =
      let step = load_keys-suc n i p (quiet (first + i) (omega arith)) (omega arith) narrow in
      let (p', run, filled) =
        load_keys-IsFilled n (i + 1) end (appended p (keys i) sizeof_val i) (omega arith) polls
          (omega arith) room narrow in
      (p', step ∙ run, next-IsFilled i end p p' e (omega arith) filled)
