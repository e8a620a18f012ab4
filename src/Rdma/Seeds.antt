-- ===== src/Rdma/Seeds.antt =====
-- outback/outback_server.hh, `outback_put_callback`: the search for a seed of a row, and the words
-- under it.
use outback_cxl_numa.Base.{
  ℕ, zero, suc, ◌+◌, ◌≤◌, ◌<◌, ◌≡◌, ◌≢◌, inl, inr, refl, sym, ap, ◌∙◌, arith, Bool, true, false,
  none, some, List, [], ◌∷◌, ◌++◌, All, All-map, update, Bool-cases, ℕ_discrete,
}
use outback_cxl_numa.Ludo.{Ludo}
use outback_cxl_numa.Slot.{LudoBuckets, write_cell}
use outback_cxl_numa.Packed.{PackedData, read_batch_keys}
use outback_cxl_numa.Rdma.{slot_under, separates, find_seed, write_cells}

unset : (f : ℕ → Bool) (i j : ℕ) → update f i true j ≡ false → (f j ≡ false) × (j ≢ i)
unset f i j h = (ground arith, ground arith)

module _ (b : LudoBuckets) (row slot w : ℕ) where
  write_cell_self : (write_cell b row slot w).slots row slot ≡ w
  unfolding write_cell
  write_cell_self = ground arith

  write_cell_ne : (i : ℕ) → slot ≢ i → (write_cell b row slot w).slots row i ≡ b.slots row i
  unfolding write_cell
  write_cell_ne i h = ground arith

module _ (ludo : Ludo) (seed : ℕ) where
  abbrev slot_for : ℕ → ℕ
  slot_for = slot_under ludo seed

  -- No two keys of the list share a slot.
  abbrev pub Separated : List ℕ → Type 0
  Separated [] = Unit
  Separated (k ∷ ks) = All (λ k'. slot_for k' ≢ slot_for k) ks × Separated ks

  pub separates-Separated :
      (keys : List ℕ) (occupied : ℕ → Bool)
      → separates ludo seed occupied keys ≡ true
      → All (λ k. occupied (slot_for k) ≡ false) keys × Separated keys
  unfolding separates
  separates-Separated [] occupied h = (tt, tt)
  separates-Separated (k ∷ ks) occupied h = elim (Bool-cases (occupied (slot_for k))) [
    | inl o ↦ absurd (cc (sym (rw o at h)))
    | inr f ↦
        let (away, apart) =
          separates-Separated ks (update occupied (slot_for k) true) (rw f at h) in
        (
          (
            f,
            All-map _ (λ k'. occupied (slot_for k') ≡ false) (λ k' e. (unset occupied _ _ e).0) ks
                away,
          ),
          (
            All-map _ (λ k'. slot_for k' ≢ slot_for k) (λ k' e. (unset occupied _ _ e).1) ks away,
            apart,
          ),
        )
  ]

  module _ (row : ℕ) where
    -- Every word stands in the slot of its key.
    abbrev pub Placed : LudoBuckets → List ℕ → List ℕ → Type 0
    Placed b (k ∷ ks) (w ∷ ws) = (b.slots row (slot_for k) ≡ w) × Placed b ks ws
    Placed b _ _ = Unit

    write_cells-other :
        (b : LudoBuckets) (i : ℕ) (keys words : List ℕ)
        → All (λ k. slot_for k ≢ i) keys
        → (write_cells ludo seed row b keys words).slots row i ≡ b.slots row i
    unfolding write_cells
    write_cells-other b i [] ws h = refl
    write_cells-other b i (k ∷ ks) [] h = refl
    write_cells-other b i (k ∷ ks) (w ∷ ws) h =
        write_cells-other (write_cell b row (slot_for k) w) i ks ws h.1
        ∙ write_cell_ne b row (slot_for k) w i h.0

    pub write_cells-Placed :
        (b : LudoBuckets) (keys words : List ℕ)
        → Separated keys
        → Placed (write_cells ludo seed row b keys words) keys words
    unfolding write_cells
    write_cells-Placed b [] ws h = tt
    write_cells-Placed b (k ∷ ks) [] h = tt
    write_cells-Placed b (k ∷ ks) (w ∷ ws) h = (
      write_cells-other (write_cell b row (slot_for k) w) (slot_for k) ks ws h.0
          ∙ write_cell_self b row (slot_for k) w,
      write_cells-Placed (write_cell b row (slot_for k) w) ks ws h.1,
    )

    pub Placed-last :
        (b : LudoBuckets) (p : PackedData) (words : List ℕ) (key w : ℕ)
        → Placed b (read_batch_keys p words ++ key ∷ []) (words ++ w ∷ [])
        → b.slots row (slot_for key) ≡ w
    unfolding read_batch_keys
    Placed-last b p [] key w h = h.0
    Placed-last b p (v ∷ vs) key w h = Placed-last b p vs key w h.1

pub find_seed-found :
    (ludo : Ludo) (keys : List ℕ) (n seed t : ℕ)
    → find_seed ludo keys n seed ≡ some t
    → (t < seed + n) × (separates ludo t (λ i. false) keys ≡ true)
unfolding find_seed
find_seed-found ludo keys zero seed t h = absurd (cc h)
find_seed-found ludo keys (suc n) seed t h =
    elim (Bool-cases (separates ludo seed (λ i. false) keys)) [
      | inl e ↦
          let same : some seed ≡ some t = rw e at h in
          (
            omega (arith, some_injective same),
            ap (λ s. separates ludo s (λ i. false) keys) (sym (some_injective same)) ∙ e,
          )
      | inr e ↦
          let (lt, ok_) = find_seed-found ludo keys n (seed + 1) t (rw e at h) in (omega arith, ok_)
    ]
  where
    some_injective : {a b : ℕ} → some a ≡ some b → a ≡ b
    some_injective q = cc q

pub find_seed-none :
    (ludo : Ludo) (keys : List ℕ) (n seed : ℕ)
    → find_seed ludo keys n seed ≡ none
    → (t : ℕ) → seed ≤ t
    → t < seed + n
    → separates ludo t (λ i. false) keys ≡ false
unfolding find_seed
find_seed-none ludo keys zero seed h t lo hi = absurd (omega arith)
find_seed-none ludo keys (suc n) seed h t lo hi =
    elim (Bool-cases (separates ludo seed (λ i. false) keys)) [
      | inl e ↦ absurd (cc (sym (rw e at h)))
      | inr e ↦ elim (ℕ_discrete seed t) [
        | yes q ↦ rw (sym q) e
        | no q ↦ find_seed-none ludo keys n (seed + 1) (rw e at h) t (omega arith) (omega arith)
      ]
    ]
