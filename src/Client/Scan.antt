-- ===== src/Client/Scan.antt =====
-- outback/outback_client_numa.hh, `numa_search`: the search in one region, over what it reads in
-- the row.
use outback_cxl_numa.Base.{
  ℕ, zero, suc, ◌+◌, ◌^◌, ◌≤◌, ◌<◌, ◌≡◌, ◌≢◌, ◌⊎◌, inl, inr, sym, ap, ◌∙◌, arith, false, some, ◌==◌,
  if_cases, ==_iff, ne→==, ℕ_discrete,
}
use outback_cxl_numa.Ludo.{Ludo}
use outback_cxl_numa.Slot.{LudoBuckets, read_addr, write_addr}
use outback_cxl_numa.Slot.Buckets.{slots-write_addr_ne, read-write_addr}
use outback_cxl_numa.Packed.{PackedData, read_key, update_data, sizeof_val}
use outback_cxl_numa.Resize.{Region}
use outback_cxl_numa.Client.Ops.{makeup_get, search_region}

module _ (g : Region) (key row slot val : ℕ) where
  abbrev addr_of : ℕ → ℕ
  addr_of i = read_addr g.buckets row i

  -- An entry of the key that slot `i` points to has the value.
  abbrev Agrees : ℕ → Type 0
  Agrees i = read_key g.packed (addr_of i) ≡ key → (g.packed.raw_array (addr_of i)).value ≡ val

  makeup_get-finds :
      (t n s : ℕ)
      → s ≤ t
      → t < s + n
      → t ≢ slot
      → addr_of t ≢ 0
      → read_key g.packed (addr_of t) ≡ key
      → ((i : ℕ) → i ≢ slot → addr_of i ≢ 0 → Agrees i)
      → makeup_get g key row slot n s ≡ some val
  unfolding makeup_get
  makeup_get-finds t zero s lo hi ne nz e all = absurd (omega arith)
  makeup_get-finds t (suc n) s lo hi ne nz e all = elim (ℕ_discrete s t) [
    | yes q ↦
        let ne' : s ≢ slot = λ z. ne (sym q ∙ z) in
        let nz' : addr_of s ≢ 0 = rw q nz in
        let e' : read_key g.packed (addr_of s) ≡ key = rw q e in
        rw (ne→== s slot ne', ne→== (addr_of s) 0 nz', (==_iff _ _).1 e')
          (ap some (all s ne' nz' e'))
    | no q ↦
        let rest = makeup_get-finds t n (s + 1) (omega arith) (omega arith) ne nz e all in
        if_cases (λ r. r ≡ some val) (s == slot) (λ _. rest)
          (λ a.
            if_cases (λ r. r ≡ some val) (addr_of s == 0) (λ _. rest)
              (λ b.
                if_cases (λ r. r ≡ some val) (read_key g.packed (addr_of s) == key)
                  (λ k. ap some (
                    all s (λ z. cc (sym a ∙ (==_iff s slot).1 z))
                      (λ z. cc (sym b ∙ (==_iff (addr_of s) 0).1 z)) ((==_iff _ _).0 k)))
                  (λ _. rest)))
  ]

  -- The search finds the value when a slot that it looks at points to an entry of the key, and every
  -- such entry has the value.
  search_region-finds :
      (t : ℕ)
      → t < 4
      → (t ≡ slot) ⊎ (addr_of t ≢ 0)
      → read_key g.packed (addr_of t) ≡ key
      → Agrees slot
      → ((i : ℕ) → i ≢ slot → addr_of i ≢ 0 → Agrees i)
      → search_region g key (row, slot) ≡ some val
  unfolding search_region
  search_region-finds t lt at_ e own all =
      if_cases (λ r. r ≡ some val) (read_key g.packed (addr_of slot) == key)
        (λ k. ap some (own ((==_iff _ _).0 k))) (λ k. scan k at_ (ℕ_discrete t slot))
    where
      scan :
          (read_key g.packed (addr_of slot) == key) ≡ false
          → (t ≡ slot) ⊎ (addr_of t ≢ 0)
          → Dec (t ≡ slot)
          → makeup_get g key row slot 4 0 ≡ some val
      scan k a (yes q) =
          let e' : read_key g.packed (addr_of slot) ≡ key = rw (sym q) e in
          absurd (cc (sym k ∙ (==_iff _ _).1 e'))
      scan k (inl q) (no n) = absurd (n q)
      scan k (inr nz) (no n) = makeup_get-finds t 4 0 (omega arith) (omega arith) n nz e all

  pub search_region-own :
      read_key g.packed (addr_of slot) ≡ key
      → (g.packed.raw_array (addr_of slot)).value ≡ val
      → search_region g key (row, slot) ≡ some val
  unfolding search_region
  search_region-own e w = rw ((==_iff _ _).1 e) (ap some w)

-- The region after a new entry.
abbrev pub with_entry : Ludo → Region → ℕ → ℕ → ℕ → ℕ → ℕ → Region
with_entry ludo g key val row t idx = record {
  buckets = write_addr ludo g.buckets key row t idx 64;
  packed = update_data g.packed idx key sizeof_val val;
}

-- Apart from the written slot, no slot of the row points to an entry of the key.
abbrev pub Absent : Region → ℕ → ℕ → ℕ → Type 0
Absent g key row t =
    (i : ℕ)
    → i ≢ t
    → read_addr g.buckets row i ≢ 0
    → read_key g.packed (read_addr g.buckets row i) ≢ key

module _ (ludo : Ludo) (b : LudoBuckets) (key row t idx : ℕ) where
  read_addr-write_addr : idx < 2 ^ 40 → read_addr (write_addr ludo b key row t idx 64) row t ≡ idx
  read_addr-write_addr small =
      (read-write_addr ludo b key row t idx 64 (omega arith)).1 ∙ omega arith

  read_addr-write_addr_ne :
      (i : ℕ) → i ≢ t → read_addr (write_addr ludo b key row t idx 64) row i ≡ read_addr b row i
  unfolding read_addr
  read_addr-write_addr_ne i n = rw (slots-write_addr_ne ludo b key row t idx 64 row i (inr n))

module _ (p : PackedData) (idx : ℕ) where
  update_key : (key val : ℕ) → read_key (update_data p idx key sizeof_val val) idx ≡ key
  unfolding read_key update_data
  update_key key val = ground arith

  update_value : (key val : ℕ) → ((update_data p idx key sizeof_val val).raw_array idx).value ≡ val
  unfolding update_data
  update_value key val = ground arith

  update_agrees :
      (a key val : ℕ)
      → read_key p a ≢ key
      → read_key (update_data p idx key sizeof_val val) a ≡ key
      → ((update_data p idx key sizeof_val val).raw_array a).value ≡ val
  unfolding read_key update_data
  update_agrees a key val n = ground arith

pub search-own_entry :
    (ludo : Ludo) (g : Region) (key val row slot idx : ℕ)
    → idx < 2 ^ 40
    → search_region (with_entry ludo g key val row slot idx) key (row, slot) ≡ some val
search-own_entry ludo g key val row slot idx small =
    let w = read_addr-write_addr ludo g.buckets key row slot idx small in
    search_region-own (with_entry ludo g key val row slot idx) key row slot val
      (rw w (update_key g.packed idx key val)) (rw w (update_value g.packed idx key val))

pub search-with_entry :
    (ludo : Ludo) (g : Region) (key val row slot t idx : ℕ)
    → t < 4
    → (t ≡ slot) ⊎ (idx ≢ 0)
    → idx < 2 ^ 40
    → (slot ≢ t → read_key g.packed (read_addr g.buckets row slot) ≢ key)
    → Absent g key row t
    → search_region (with_entry ludo g key val row t idx) key (row, slot) ≡ some val
search-with_entry ludo g key val row slot t idx lt at_ small own absent =
    search_region-finds (with_entry ludo g key val row t idx) key row slot val t lt (place at_)
      (rw written (update_key g.packed idx key val)) (agree slot own)
      (λ i n nz. agree i (λ m. absent i m (λ z. nz (elsewhere i m ∙ z))))
  where
    written : read_addr (write_addr ludo g.buckets key row t idx 64) row t ≡ idx
    written = read_addr-write_addr ludo g.buckets key row t idx small

    elsewhere :
        (i : ℕ)
        → i ≢ t
        → read_addr (write_addr ludo g.buckets key row t idx 64) row i ≡ read_addr g.buckets row i
    elsewhere i n = read_addr-write_addr_ne ludo g.buckets key row t idx i n

    place :
        (t ≡ slot) ⊎ (idx ≢ 0)
        → (t ≡ slot) ⊎ (read_addr (write_addr ludo g.buckets key row t idx 64) row t ≢ 0)
    place (inl e) = inl e
    place (inr n) = inr (rw written n)

    agree :
        (i : ℕ)
        → (i ≢ t → read_key g.packed (read_addr g.buckets row i) ≢ key)
        → Agrees (with_entry ludo g key val row t idx) key row slot val i
    agree i other = elim (ℕ_discrete i t) [
      | yes e ↦ rw (e, written) (λ _. update_value g.packed idx key val)
      | no n ↦ rw (elsewhere i n) (update_agrees g.packed idx _ key val (other n))
    ]
