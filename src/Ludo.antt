-- ===== src/Ludo.antt =====
-- What the code uses of the Ludo hashing library under deps/ludo, which is another project's: a
-- seeded 64-bit hash, and the lookup of a key's row and slot.
use outback_cxl_numa.Base.{ℕ, ◌/◌, ◌^◌, ◌<◌, ◌≡◌}

pub record Ludo : Type 0 where
  -- `h.setSeed(seed); h(key)` of `FastHasher64`
  pub hash : ℕ → ℕ → ℕ
  -- `lookup_slot(key)` of `DataPlaneLudo`, given the seeds of its buckets
  pub lookup_slot : (ℕ → ℕ) → ℕ → ℕ × ℕ
  pub hash-lt : (seed key : ℕ) → hash seed key < 2 ^ 64
  -- the row comes from the locator, which no operation of this program changes
  pub lookup_slot_row : (s t : ℕ → ℕ) (key : ℕ) → (lookup_slot s key).0 ≡ (lookup_slot t key).0
  -- the slot is the top two bits of the hash under the row's seed
  pub lookup_slot_col :
      (seeds : ℕ → ℕ) (key : ℕ)
      → (lookup_slot seeds key).1 ≡ hash (seeds (lookup_slot seeds key).0) key / 2 ^ 62
