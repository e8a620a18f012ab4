-- ===== src/Slot.antt =====
-- outback/ludo_slot.hh: the 64-bit slot word (flag 1, finger 7, length 16, address 40 bits) and the
-- array of buckets of four such words. Rows and slots are not checked against the array's size.
pub mod Word
pub mod Buckets
use outback_cxl_numa.Base.{
  ℕ, ◌+◌, ◌*◌, ◌/◌, ◌%◌, ◌^◌, Bool, true, false, List, [], ◌∷◌, ◌||◌, ◌==◌, if◌then◌else◌, update,
}
use outback_cxl_numa.Ludo.{Ludo}

abbrev pub slots_num_bucket : ℕ
slots_num_bucket = 4

unfoldable pub combine : ℕ → ℕ → ℕ → ℕ
combine finger length addr =
    2 ^ 63 + finger % 2 ^ 7 * 2 ^ 56 + length % 2 ^ 16 * 2 ^ 40 + addr % 2 ^ 40

unfoldable pub to_cachebit : ℕ → ℕ
to_cachebit num = num / 2 ^ 63 % 2

unfoldable pub to_finger : ℕ → ℕ
to_finger num = num / 2 ^ 56 % 2 ^ 7

unfoldable pub to_length : ℕ → ℕ
to_length num = num / 2 ^ 40 % 2 ^ 16

unfoldable pub to_addr : ℕ → ℕ
to_addr num = num % 2 ^ 40

-- `bucketsArray[row].slots[slot]` is `slots row slot`.
pub record LudoBuckets : Type 0 where
  pub slots : ℕ → ℕ → ℕ
  pub num_elements : ℕ

unfoldable pub size : LudoBuckets → ℕ
size b = b.num_elements

unfoldable pub write_cell : LudoBuckets → ℕ → ℕ → ℕ → LudoBuckets
write_cell b row slot val = record b { slots = update b.slots row (update (b.slots row) slot val) }

unfoldable pub read_addr : LudoBuckets → ℕ → ℕ → ℕ
unfolding to_addr
read_addr b row slot = to_addr (b.slots row slot)

unfoldable pub remove_addr : LudoBuckets → ℕ → ℕ → LudoBuckets
remove_addr b row slot = record b { slots = update b.slots row (update (b.slots row) slot 0) }

unfoldable pub read_cachebit : LudoBuckets → ℕ → ℕ → Bool
unfolding to_cachebit
read_cachebit b row slot = if to_cachebit (b.slots row slot) == 0 then false else true

-- `|= 1UL << 63` on a 64-bit word
unfoldable pub set_cachebit : LudoBuckets → ℕ → ℕ → LudoBuckets
set_cachebit b row slot = record b {
  slots = update b.slots row (update (b.slots row) slot (2 ^ 63 + b.slots row slot % 2 ^ 63));
}

-- One round of the loop below: `push_back` of an occupied slot's word.
unfoldable pub push_occupied : LudoBuckets → ℕ → ℕ → List ℕ → List ℕ
unfolding to_length
push_occupied b row slot addrs =
    if to_length (b.slots row slot) == 0 then addrs else b.slots row slot ∷ addrs

-- The words of the occupied slots, whole, in the order of the slots.
unfoldable pub read_bucket_addrs : LudoBuckets → ℕ → List ℕ
unfolding push_occupied
read_bucket_addrs b row =
    push_occupied b row 0 (push_occupied b row 1 (push_occupied b row 2 (push_occupied b row 3 [])))

unfoldable pub empty_bucket : LudoBuckets → ℕ → LudoBuckets
empty_bucket b row = record b {
  slots = update b.slots row (update (update (update (update (b.slots row) 0 0) 1 0) 2 0) 3 0);
}

-- The loop of `check_slots` over the four slots: is one of them empty?
unfoldable pub has_empty : LudoBuckets → ℕ → Bool
unfolding to_length
has_empty b row =
    to_length (b.slots row 0) == 0
    || to_length (b.slots row 1) == 0
    || to_length (b.slots row 2) == 0
    || to_length (b.slots row 3) == 0

module _ (ludo : Ludo) where
  -- `hp` is seeded with 0x93ea45.
  unfoldable pub fingerprint : ℕ → ℕ
  fingerprint key = ludo.hash 0x93ea45 key % 2 ^ 7

  -- 0: the slot is empty; 1: the fingerprint agrees; 2: another slot is empty; 3: the row is full.
  unfoldable pub check_slots : LudoBuckets → ℕ → ℕ → ℕ → ℕ
  unfolding fingerprint to_length to_finger has_empty
  check_slots b key row slot =
      if to_length (b.slots row slot) == 0
      then 0
      else if to_finger (b.slots row slot) == fingerprint key
      then 1
      else if has_empty b row
      then 2
      else 3

  unfoldable pub write_addr : LudoBuckets → ℕ → ℕ → ℕ → ℕ → ℕ → LudoBuckets
  unfolding fingerprint combine
  write_addr b key row slot addr length = record b {
    slots = update b.slots row (update (b.slots row) slot (combine (fingerprint key) length addr));
  }
