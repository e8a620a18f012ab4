-- ===== src/Store/Linked.antt =====
-- The link between a slot of outback/ludo_slot.hh and its entry in outback/packed_data.hh, and the
-- append of a new entry.
use outback_cxl_numa.Base.{
  ℕ, ◌+◌, ◌^◌, ◌≤◌, ◌<◌, ◌≡◌, ◌≢◌, ◌⊎◌, inl, inr, sym, ◌∙◌, arith, ℕ_discrete,
}
use outback_cxl_numa.Ludo.{Ludo}
use outback_cxl_numa.Slot.{LudoBuckets, to_finger, to_addr, combine, fingerprint, write_addr}
use outback_cxl_numa.Slot.Word.{to_finger-combine, to_addr-combine}
use outback_cxl_numa.Slot.Buckets.{
  slot_length, slots-write_addr, slots-write_addr_ne, fingerprint-mod,
}
use outback_cxl_numa.Packed.{PackedData, sizeof_val}
use outback_cxl_numa.Packed.Laws.{appended}

-- Every occupied slot points to an entry of its own below the count.
pub record IsPlaced (b : LudoBuckets) (p : PackedData) : Type 0 where
  pub within : p.num ≤ p.num_elements
  pub narrow : p.num_elements ≤ 2 ^ 32
  pub placed : (r t : ℕ) → slot_length b r t ≢ 0 → to_addr (b.slots r t) < p.num
  pub unaliased :
      (r t r' t' : ℕ)
      → slot_length b r t ≢ 0
      → slot_length b r' t' ≢ 0
      → to_addr (b.slots r t) ≡ to_addr (b.slots r' t')
      → (r ≡ r') × (t ≡ t')

-- Every occupied slot has the fingerprint of its entry's key.
abbrev pub IsNamed : Ludo → LudoBuckets → PackedData → Type 0
IsNamed ludo b p =
    (r t : ℕ)
    → slot_length b r t ≢ 0
    → to_finger (b.slots r t) ≡ fingerprint ludo (p.raw_array (to_addr (b.slots r t))).key

pub record IsLinked (ludo : Ludo) (b : LudoBuckets) (p : PackedData) : Type 0 where
  pub base : IsPlaced b p
  pub named : IsNamed ludo b p

-- Either the cell that was written, or another one.
abbrev CellCase : ℕ → ℕ → ℕ → ℕ → Type 0
CellCase row slot r t = ((r ≡ row) × (t ≡ slot)) ⊎ ((r ≢ row) ⊎ (t ≢ slot))

cell_case : (row slot r t : ℕ) → CellCase row slot r t
cell_case row slot r t = elim (ℕ_discrete r row) [
  | no n ↦ inr (inl n)
  | yes p ↦ elim (ℕ_discrete t slot) [ no n ↦ inr (inr n) | yes q ↦ inl (p, q) ]
]

module _ (ludo : Ludo) (b : LudoBuckets) (p : PackedData) (key val row slot : ℕ) where
  abbrev new_word : ℕ
  new_word = combine (fingerprint ludo key) 64 p.num

  abbrev new_buckets : LudoBuckets
  new_buckets = write_addr ludo b key row slot p.num 64

  -- What a read of the new buckets gives: the new word, or the old one.
  data Reads (r t : ℕ) : Type 0 where
    new : r ≡ row → t ≡ slot → new_buckets.slots r t ≡ new_word → Reads r t
    old : (r ≢ row) ⊎ (t ≢ slot) → new_buckets.slots r t ≡ b.slots r t → Reads r t

  reads : (r t : ℕ) → Reads r t
  reads r t = elim (cell_case row slot r t) [
    | inl (e, f) ↦ new e f (rw (e, f) (slots-write_addr ludo b key row slot p.num 64))
    | inr n ↦ old n (slots-write_addr_ne ludo b key row slot p.num 64 r t n)
  ]

  new_addr : p.num < 2 ^ 32 → to_addr new_word ≡ p.num
  new_addr h = to_addr-combine (fingerprint ludo key) 64 p.num ∙ omega arith

  new_finger : to_finger new_word ≡ fingerprint ludo key
  new_finger =
      to_finger-combine (fingerprint ludo key) 64 p.num
      ∙ fingerprint-mod ludo b key row slot p.num 64

  -- A new entry at the end of the array, with its address written to any slot.
  module _ (room : p.num < p.num_elements) (l : IsPlaced b p) where
    new_word_addr : to_addr new_word ≡ p.num
    new_word_addr = new_addr (omega (arith, room, l.narrow))

    placed' :
        (r t : ℕ)
        → slot_length new_buckets r t ≢ 0
        → Reads r t
        → to_addr (new_buckets.slots r t) < p.num + 1
    placed' r t h (new _ _ e) = rw (e, new_word_addr) (omega arith)
    placed' r t h (old _ e) = rw e (omega (arith, l.placed r t (λ z. h (rw e z))))

    unaliased' :
        (r t r' t' : ℕ)
        → slot_length new_buckets r t ≢ 0
        → slot_length new_buckets r' t' ≢ 0
        → to_addr (new_buckets.slots r t) ≡ to_addr (new_buckets.slots r' t')
        → Reads r t
        → Reads r' t'
        → (r ≡ r') × (t ≡ t')
    unaliased' r t r' t' h h' e (new a c _) (new a' c' _) = (a ∙ sym a', c ∙ sym c')
    unaliased' r t r' t' h h' e (old _ w) (old _ w') =
        l.unaliased r t r' t' (λ z. h (rw w z)) (λ z. h' (rw w' z)) (rw (w, w') at e)
    unaliased' r t r' t' h h' e (new _ _ w) (old _ w') =
        let e' : p.num ≡ to_addr (b.slots r' t') = sym new_word_addr ∙ (rw (w, w') at e) in
        absurd (omega (arith, e', l.placed r' t' (λ z. h' (rw w' z))))
    unaliased' r t r' t' h h' e (old _ w) (new _ _ w') =
        let e' : to_addr (b.slots r t) ≡ p.num = (rw (w, w') at e) ∙ new_word_addr in
        absurd (omega (arith, e', l.placed r t (λ z. h (rw w z))))

    named' :
        IsNamed ludo b p
        → (r t : ℕ) → slot_length new_buckets r t ≢ 0
        → Reads r t
        → to_finger (new_buckets.slots r t)
          ≡ fingerprint ludo
              ((appended p key sizeof_val val).raw_array (to_addr (new_buckets.slots r t))).key
    named' named r t h (new _ _ e) = rw (e, new_word_addr) (new_finger ∙ ground arith)
    named' named r t h (old _ e) =
        let h' : slot_length b r t ≢ 0 = λ z. h (rw e z) in
        rw e (named r t h' ∙ ground (arith, l.placed r t h'))

    pub append-IsPlaced : IsPlaced new_buckets (appended p key sizeof_val val)
    append-IsPlaced = record {
      within = omega arith;
      narrow = l.narrow;
      placed = λ r t h. placed' r t h (reads r t);
      unaliased = λ r t r' t' h h' e. unaliased' r t r' t' h h' e (reads r t) (reads r' t');
    }

    pub append-IsNamed : IsNamed ludo b p → IsNamed ludo new_buckets (appended p key sizeof_val val)
    append-IsNamed named r t h = named' named r t h (reads r t)

  pub append-IsLinked :
      p.num < p.num_elements
      → IsLinked ludo b p
      → IsLinked ludo new_buckets (appended p key sizeof_val val)
  append-IsLinked room l = record {
    base = append-IsPlaced room l.base;
    named = append-IsNamed room l.base l.named;
  }
