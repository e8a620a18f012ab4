-- ===== src/NumaMemory/Handle.antt =====
-- xutils/numa_memory.hh, `NumaMemHandle`: reads, writes and the check of their bounds.
use outback_cxl_numa.Base.{
  ℕ, ◌+◌, ◌-◌, ◌%◌, ◌^◌, ◌≤◌, ◌<◌, ◌≡◌, ◌⊎◌, inl, inr, none, some, List, [], ◌∷◌, length, update,
  refl, ap, ap₂, ◌∙◌, arith,
}
use outback_cxl_numa.NumaMemory.{NumaMemHandle, load, store, read, write}

-- Outside the bytes written, memory is as before.
store_other :
    (memory : ℕ → ℕ) (at : ℕ) (bs : List ℕ) (i : ℕ)
    → at + length bs ≤ 2 ^ 64
    → (i < at) ⊎ (at + length bs ≤ i)
    → store memory at bs i ≡ memory i
unfolding store
store_other memory at [] i w h = refl
store_other memory at (b ∷ bs) i w (inl h) =
    let same : at % 2 ^ 64 ≡ at = omega (arith, w) in
    rw same (
      store_other (update memory at b) (at + 1) bs i (omega (arith, w)) (inl (omega (arith, h)))
      ∙ ground arith)
store_other memory at (b ∷ bs) i w (inr h) =
    let same : at % 2 ^ 64 ≡ at = omega (arith, w) in
    rw same (
      store_other (update memory at b) (at + 1) bs i (omega (arith, w)) (inr (omega (arith, h)))
      ∙ ground arith)

load-store :
    (memory : ℕ → ℕ) (at : ℕ) (bs : List ℕ)
    → at + length bs ≤ 2 ^ 64
    → load (store memory at bs) at (length bs) ≡ bs
unfolding load store
load-store memory at [] w = refl
load-store memory at (b ∷ bs) w =
    let same : at % 2 ^ 64 ≡ at = omega (arith, w) in
    ap₂ ◌∷◌
      (rw same (
        store_other (update memory at b) (at + 1) bs at (omega (arith, w)) (inl (omega arith))
        ∙ ground arith))
      (load-store (update memory (at % 2 ^ 64) b) (at + 1) bs (omega (arith, w)))

-- An address that is past the last one stands for one from 0 on.
store_around :
    (memory : ℕ → ℕ) (at : ℕ) (bs : List ℕ) → store memory (2 ^ 64 + at) bs ≡ store memory at bs
unfolding store
store_around memory at [] = refl
store_around memory at (b ∷ bs) =
    let same : (2 ^ 64 + at) % 2 ^ 64 ≡ at % 2 ^ 64 = omega arith in
    let next : 2 ^ 64 + at + 1 ≡ 2 ^ 64 + (at + 1) = omega arith in
    rw (same, next) (store_around (update memory (at % 2 ^ 64) b) (at + 1) bs)

-- The bytes are at an address, and every other byte of memory is as before.
pub record IsStored (memory : ℕ → ℕ) (at : ℕ) (value : List ℕ) (m : ℕ → ℕ) : Type 0 where
  pub there : load m at (length value) ≡ value
  pub others : (i : ℕ) → (i < at) ⊎ (at + length value ≤ i) → m i ≡ memory i

store-IsStored :
    (memory : ℕ → ℕ) (at : ℕ) (value : List ℕ)
    → at + length value ≤ 2 ^ 64
    → IsStored memory at value (store memory at value)
store-IsStored memory at value w = record {
  there = load-store memory at value w;
  others = λ i out. store_other memory at value i w out;
}

-- Take a handle over memory below 2 ^ 64. A write of an offset and a length that do not wrap succeeds
-- exactly when the bytes lie within the handle; then they stand from the offset on, a read there gives
-- them back, and every other byte of memory is as before. If the sum wraps to a small one the check
-- passes all the same, and if the base is at least `2 ^ 64 - offset` the bytes are stored from that many
-- bytes before the base on, over what stood there, and every other byte is as before.
pub write_reads :
    (h : NumaMemHandle) (memory : ℕ → ℕ) (offset : ℕ) (value : List ℕ)
    → h.base_addr + h.size ≤ 2 ^ 64
    → (offset + length value < 2 ^ 64
        → (offset + length value ≤ h.size
            → (m : ℕ → ℕ) × (write h memory offset value ≡ some m)
              × (read h m offset (length value) ≡ some value)
              × IsStored memory (h.base_addr + offset) value m)
          × (h.size < offset + length value → write h memory offset value ≡ none))
      × (offset < 2 ^ 64
          → length value < 2 ^ 64
          → 2 ^ 64 ≤ offset + length value
          → offset + length value - 2 ^ 64 ≤ h.size
          → 2 ^ 64 - offset ≤ h.base_addr
          → (m : ℕ → ℕ) × (write h memory offset value ≡ some m)
            × IsStored memory (h.base_addr - (2 ^ 64 - offset)) value m)
unfolding write read
write_reads h memory offset value inside = (
  λ small. (
    λ fits.
        let stored =
          store-IsStored memory (h.base_addr + offset) value (omega (arith, inside, fits)) in
        (
          store memory (h.base_addr + offset) value,
          ground arith,
          ground (arith, stored.there),
          stored,
        ),
    λ outside. ground arith,
  ),
  λ here long wraps low above.
      let at : ℕ = h.base_addr - (2 ^ 64 - offset) in
      let around : h.base_addr + offset ≡ 2 ^ 64 + at = omega (arith, here, above) in
      let same : store memory (h.base_addr + offset) value ≡ store memory at value =
        ap (λ a. store memory a value) around ∙ store_around memory at value in
      (
        store memory (h.base_addr + offset) value,
        ground arith,
        rw same (store-IsStored memory at value (omega (arith, here, above, low, inside))),
      ),
)
