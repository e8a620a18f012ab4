-- ===== src/Slot/Word.antt =====
-- outback/ludo_slot.hh: the fields of a slot word.
use outback_cxl_numa.Base.{ℕ, ◌+◌, ◌%◌, ◌^◌, ◌<◌, ◌≡◌, arith}
use outback_cxl_numa.Slot.{combine, to_cachebit, to_finger, to_length, to_addr}

-- Every field is read back as written, cut to its width, and the word fits 64 bits.
pub combine_fields :
    (finger length addr : ℕ)
    → (combine finger length addr < 2 ^ 64)
      × (to_cachebit (combine finger length addr) ≡ 1)
      × (to_finger (combine finger length addr) ≡ finger % 2 ^ 7)
      × (to_length (combine finger length addr) ≡ length % 2 ^ 16)
      × (to_addr (combine finger length addr) ≡ addr % 2 ^ 40)
unfolding combine to_cachebit to_finger to_length to_addr
combine_fields f l a = omega arith

-- A word with its flag set is determined by its three fields.
pub combine_eta :
    (word : ℕ)
    → word < 2 ^ 64
    → to_cachebit word ≡ 1
    → combine (to_finger word) (to_length word) (to_addr word) ≡ word
unfolding combine to_cachebit to_finger to_length to_addr
combine_eta w h c = omega arith

pub to_length-combine :
    (finger length addr : ℕ) → to_length (combine finger length addr) ≡ length % 2 ^ 16
to_length-combine f l a = (combine_fields f l a).3

pub to_finger-combine :
    (finger length addr : ℕ) → to_finger (combine finger length addr) ≡ finger % 2 ^ 7
to_finger-combine f l a = (combine_fields f l a).2

pub to_addr-combine :
    (finger length addr : ℕ) → to_addr (combine finger length addr) ≡ addr % 2 ^ 40
to_addr-combine f l a = (combine_fields f l a).4

pub to_cachebit-combine : (finger length addr : ℕ) → to_cachebit (combine finger length addr) ≡ 1
to_cachebit-combine f l a = (combine_fields f l a).1

pub combine-set_bit :
    (finger length addr : ℕ)
    → 2 ^ 63 + combine finger length addr % 2 ^ 63 ≡ combine finger length addr
unfolding combine
combine-set_bit f l a = omega arith
