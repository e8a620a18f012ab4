-- ===== src/Packed/Laws.antt =====
-- outback/packed_data.hh: reads after an append, an update and a removal.
use outback_cxl_numa.Base.{
  ℕ, ◌+◌, ◌^◌, ◌≤◌, ◌<◌, ◌≡◌, ◌≢◌, ◌↔◌, refl, true, ok, exited, Returns, update, arith,
}
use outback_cxl_numa.Packed.{
  PackedData, read_key, read_data_with_key_check, remove_data_with_key_check, update_data,
  bulk_load_data,
}

abbrev pub WithinCapacity : PackedData → Type 0
WithinCapacity p = p.num ≤ p.num_elements

-- The array after an append of one entry.
abbrev pub appended : PackedData → ℕ → ℕ → ℕ → PackedData
appended p key len value = record p {
  raw_array = update p.raw_array p.num (record { key = key; data_length = len; value = value });
  num = p.num + 1;
}

module _ (p : PackedData) (key len value : ℕ) where
  pub bulk_load_data-ok :
      p.num < p.num_elements
      → p.num_elements ≤ 2 ^ 32
      → bulk_load_data p key len value ≡ ok (p.num, appended p key len value)
  unfolding bulk_load_data
  bulk_load_data-ok h w = ground arith

  pub bulk_load_data-exited : p.num_elements ≤ p.num → bulk_load_data p key len value ≡ exited
  unfolding bulk_load_data
  bulk_load_data-exited h = ground arith

  -- An append into an array with room, of at most 2 ^ 32 entries, returns the next free index; the
  -- entry is read back there under its key, all other entries stay, and the count stays in bounds.
  pub bulk_load_data_reads :
      p.num < p.num_elements
      → p.num_elements ≤ 2 ^ 32
      → Returns (bulk_load_data p key len value) λ r.
        (r.0 ≡ p.num)
        × (read_data_with_key_check r.1 r.0 key ≡ (len, value))
        × ((i : ℕ) → i ≢ p.num → r.1.raw_array i ≡ p.raw_array i)
        × (r.1.num ≡ p.num + 1)
        × WithinCapacity r.1
  unfolding read_data_with_key_check
  bulk_load_data_reads h w = (
    (p.num, appended p key len value),
    bulk_load_data-ok h w,
    (refl, ground arith, λ i n. ground arith, refl, omega arith),
  )

  pub read_key-update_data : (n : ℕ) → read_key (update_data p n key len value) n ≡ key
  unfolding read_key update_data
  read_key-update_data n = ground arith

  pub read_key-update_data_ne :
      (n i : ℕ) → i ≢ n → read_key (update_data p n key len value) i ≡ read_key p i
  unfolding read_key update_data
  read_key-update_data_ne n i h = ground arith

module _ (p : PackedData) (n key : ℕ) where
  -- A removal succeeds exactly when the entry holds the key; then the entry reads as absent, and
  -- every other entry stays. A removal that fails changes nothing.
  pub remove_data_reads :
      ((remove_data_with_key_check p n key).0 ≡ true ↔ read_key p n ≡ key)
      × (read_key p n ≡ key
          → read_data_with_key_check (remove_data_with_key_check p n key).1 n key ≡ (0, 0))
      × ((i : ℕ) → i ≢ n → (remove_data_with_key_check p n key).1.raw_array i ≡ p.raw_array i)
      × (read_key p n ≢ key → (remove_data_with_key_check p n key).1 ≡ p)
  unfolding remove_data_with_key_check read_data_with_key_check read_key
  remove_data_reads = (
    (λ h. ground arith, λ h. ground arith),
    λ h. ground arith,
    λ i h. ground arith,
    λ h. ground arith,
  )
