-- ===== src/Packed.antt =====
-- outback/packed_data.hh: the array of key-value entries behind the buckets. An index is not
-- checked against the array's size, except by `bulk_load_data`, which ends the process.
pub mod Laws
use outback_cxl_numa.Base.{
  ℕ, ◌+◌, ◌*◌, ◌%◌, ◌^◌, Bool, true, false, List, [], ◌∷◌, map, ltb, ◌==◌, if◌then◌else◌, update,
  Run, ok, exited,
}

-- `PackedStruct`, with the 64-bit key and value of `trait_numa.hpp`
pub record PackedStruct : Type 0 where
  pub key : ℕ
  pub data_length : ℕ
  pub value : ℕ

abbrev pub zero_entry : PackedStruct
zero_entry = record { key = 0; data_length = 0; value = 0 }

-- `sizeof(packed_struct_t)`: 8 + 4 + 8 bytes, packed
abbrev pub sizeof_packed_struct : ℕ
sizeof_packed_struct = 20

abbrev pub sizeof_val : ℕ
sizeof_val = 8

pub record PackedData : Type 0 where
  pub raw_array : ℕ → PackedStruct
  pub num_elements : ℕ
  pub num : ℕ

-- The constructor over registered memory. Every entry is overwritten by a copy of the local
-- `packed_struct`, which has no initialiser: `junk` is what it happens to hold.
unfoldable pub attach : PackedStruct → (ℕ → PackedStruct) → ℕ → PackedData
attach junk memory n = record {
  raw_array = λ i. if ltb i n then junk else memory i;
  num_elements = n;
  num = 0;
}

unfoldable pub read_key : PackedData → ℕ → ℕ
read_key p num = (p.raw_array num).key

-- The length and the value.
unfoldable pub read_data : PackedData → ℕ → ℕ × ℕ
read_data p num = ((p.raw_array num).data_length, (p.raw_array num).value)

unfoldable pub read_data_with_key_check : PackedData → ℕ → ℕ → ℕ × ℕ
read_data_with_key_check p num key =
    if (p.raw_array num).key == key
    then ((p.raw_array num).data_length, (p.raw_array num).value)
    else (0, (p.raw_array num).value)

unfoldable pub remove_data_with_key_check : PackedData → ℕ → ℕ → Bool × PackedData
remove_data_with_key_check p num key =
    if (p.raw_array num).key == key
    then (true, record p { raw_array = update p.raw_array num zero_entry })
    else (false, p)

unfoldable pub update_data : PackedData → ℕ → ℕ → ℕ → ℕ → PackedData
update_data p num key data_length value = record p {
  raw_array =
      update p.raw_array num (record { key = key; data_length = data_length; value = value });
}

-- The index is returned as a `uint32_t`; a full array ends the process.
unfoldable pub bulk_load_data : PackedData → ℕ → ℕ → ℕ → Run (ℕ × PackedData)
bulk_load_data p key data_length value =
    if ltb p.num p.num_elements
    then ok (
      p.num % 2 ^ 32,
      record p {
        raw_array =
            update p.raw_array p.num
              (record { key = key; data_length = data_length; value = value });
        num = p.num + 1;
      },
    )
    else exited

-- The keys behind whole slot words, whose low 40 bits are the index.
unfoldable pub read_batch_keys : PackedData → List ℕ → List ℕ
read_batch_keys p = map (λ addr. (p.raw_array (addr % 2 ^ 40)).key)

unfoldable pub remove_data : PackedData → ℕ → PackedData
remove_data p num = record p {
  raw_array = update p.raw_array num (record (p.raw_array num) { data_length = 0 });
}

unfoldable pub remote_addr : ℕ → ℕ
remote_addr num = num * sizeof_packed_struct
