-- ===== src/Store/Kept.antt =====
-- The writes that allocate nothing, on a linked store: an update, a removal, the cache bit.
use outback_cxl_numa.Base.{ℕ, ◌+◌, ◌%◌, ◌^◌, ◌≡◌, ◌≢◌, sym, ◌∙◌, arith, update}
use outback_cxl_numa.Ludo.{Ludo}
use outback_cxl_numa.Slot.{
  LudoBuckets, to_length, to_finger, to_addr, read_addr, remove_addr, set_cachebit,
}
use outback_cxl_numa.Slot.Buckets.{slot_length}
use outback_cxl_numa.Packed.{PackedData, update_data, read_key, zero_entry}
use outback_cxl_numa.Store.Linked.{IsPlaced, IsNamed, IsLinked}

set_bit_fields :
    (w : ℕ)
    → (to_length (2 ^ 63 + w % 2 ^ 63) ≡ to_length w)
      × (to_finger (2 ^ 63 + w % 2 ^ 63) ≡ to_finger w)
      × (to_addr (2 ^ 63 + w % 2 ^ 63) ≡ to_addr w)
unfolding to_length to_finger to_addr
set_bit_fields w = omega arith

pub set_cachebit_fields :
    (b : LudoBuckets) (row slot r t : ℕ)
    → (to_length ((set_cachebit b row slot).slots r t) ≡ to_length (b.slots r t))
      × (to_finger ((set_cachebit b row slot).slots r t) ≡ to_finger (b.slots r t))
      × (to_addr ((set_cachebit b row slot).slots r t) ≡ to_addr (b.slots r t))
unfolding set_cachebit
set_cachebit_fields b row slot r t = ground (arith, set_bit_fields (b.slots row slot))

module _ (b : LudoBuckets) (p : PackedData) (l : IsPlaced b p) where
  -- A new value in any entry.
  pub update-IsPlaced : (addr key len val : ℕ) → IsPlaced b (update_data p addr key len val)
  unfolding update_data
  update-IsPlaced addr key len val = record {
    within = l.within;
    narrow = l.narrow;
    placed = l.placed;
    unaliased = l.unaliased;
  }

  pub cachebit-IsPlaced : (row slot : ℕ) → IsPlaced (set_cachebit b row slot) p
  cachebit-IsPlaced row slot =
      let f = set_cachebit_fields b row slot in
      record {
        within = l.within;
        narrow = l.narrow;
        placed = λ r t h. rw (f r t).2 (l.placed r t (λ z. h ((f r t).0 ∙ z)));
        unaliased = λ r t r' t' h h' e.
            l.unaliased r t r' t' (λ z. h ((f r t).0 ∙ z)) (λ z. h' ((f r' t').0 ∙ z))
              (sym (f r t).2 ∙ e ∙ (f r' t').2);
      }

  -- The slot and the entry that it points to go together.
  abbrev cleared_at : ℕ → ℕ → PackedData
  cleared_at row slot = record p {
    raw_array = update p.raw_array (read_addr b row slot) zero_entry;
  }

  pub remove-IsPlaced : (row slot : ℕ) → IsPlaced (remove_addr b row slot) (cleared_at row slot)
  unfolding remove_addr read_addr to_length
  remove-IsPlaced row slot = record {
    within = l.within;
    narrow = l.narrow;
    placed = λ r t h. ground (arith, l.placed r t);
    unaliased = λ r t r' t' h h' e. ground (arith, l.unaliased r t r' t');
  }

  module _ (ludo : Ludo) (named : IsNamed ludo b p) where
    -- A new value under the key that the entry has.
    pub update-IsNamed :
        (addr key len val : ℕ)
        → read_key p addr ≡ key
        → IsNamed ludo b (update_data p addr key len val)
    unfolding update_data read_key
    update-IsNamed addr key len val e r t h = ground (arith, named r t h)

    pub cachebit-IsNamed : (row slot : ℕ) → IsNamed ludo (set_cachebit b row slot) p
    cachebit-IsNamed row slot r t h =
        let f = set_cachebit_fields b row slot r t in rw (f.1, f.2) (named r t (λ z. h (f.0 ∙ z)))

    pub remove-IsNamed :
        (row slot : ℕ)
        → slot_length b row slot ≢ 0
        → IsNamed ludo (remove_addr b row slot) (cleared_at row slot)
    unfolding remove_addr read_addr to_length
    remove-IsNamed row slot occupied r t h = ground (arith, named r t, l.unaliased r t row slot)

module _ (ludo : Ludo) (b : LudoBuckets) (p : PackedData) (l : IsLinked ludo b p) where
  pub update-IsLinked :
      (addr key len val : ℕ)
      → read_key p addr ≡ key
      → IsLinked ludo b (update_data p addr key len val)
  update-IsLinked addr key len val e = record {
    base = update-IsPlaced b p l.base addr key len val;
    named = update-IsNamed b p l.base ludo l.named addr key len val e;
  }
