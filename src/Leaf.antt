-- ===== src/Leaf.antt =====
-- rolex/leaf.hpp: a leaf of the learned index, `n` keys beside `n` values; the largest 64-bit number
-- stands for an empty slot.
pub mod Reads
use outback_cxl_numa.Base.{
  ℕ, zero, suc, ◌+◌, ◌-◌, ◌^◌, Bool, true, false, Option, none, some, ◌==◌, if◌then◌else◌, update,
  not,
}

pub record Leaf : Type 0 where
  pub keys : ℕ → ℕ
  pub vals : ℕ → ℕ

abbrev pub invalid_key : ℕ
invalid_key = 2 ^ 64 - 1

-- The constructor: every key is invalid; the values are what the memory holds.
unfoldable pub new_leaf : (ℕ → ℕ) → Leaf
new_leaf memory = record { keys = λ i. invalid_key; vals = memory }

-- The first slot with the key from slot `i` on, with `n` left.
unfoldable pub find_from : Leaf → ℕ → ℕ → ℕ → Option ℕ
find_from l key zero i = none
find_from l key (suc n) i =
    let rest = find_from l key n (i + 1) in if l.keys i == key then some i else rest

-- The loop of `isEmpty`: has no slot from `i` on, with `n` left, a valid key?
unfoldable pub empty_from : Leaf → ℕ → ℕ → Bool
empty_from l zero i = true
empty_from l (suc n) i =
    let rest = empty_from l n (i + 1) in if l.keys i == invalid_key then rest else false

-- The operations on a leaf of `n` slots.
module _ (n : ℕ) where
  unfoldable pub isfull : Leaf → Bool
  unfolding find_from
  isfull l = elim (find_from l invalid_key n 0) [ none ↦ true | some i ↦ false ]

  unfoldable pub is_empty : Leaf → Bool
  unfolding empty_from
  is_empty l = empty_from l n 0

  unfoldable pub search : Leaf → ℕ → Option ℕ
  unfolding find_from
  search l key = elim (find_from l key n 0) [ none ↦ none | some i ↦ some (l.vals i) ]

  unfoldable pub contain : Leaf → ℕ → Bool
  unfolding find_from
  contain l key = elim (find_from l key n 0) [ none ↦ false | some i ↦ true ]

  unfoldable pub update_value : Leaf → ℕ → ℕ → Bool × Leaf
  unfolding find_from
  update_value l key val = elim (find_from l key n 0) [
    | none ↦ (false, l)
    | some i ↦ (true, record l { vals = update l.vals i val })
  ]

  -- The counter is a `u8`, enough for the `n` of 4 that is used.
  unfoldable pub remove : Leaf → ℕ → Bool × Leaf
  unfolding find_from
  remove l key = elim (find_from l key n 0) [
    | none ↦ (false, l)
    | some i ↦ (true, record l { keys = update l.keys i invalid_key })
  ]

  unfoldable pub last_key : Leaf → ℕ
  last_key l = l.keys (n - 1)

-- Slot 0 takes the entry, whatever it holds; the answer 1 is constant.
unfoldable pub insert_to_remote : Leaf → ℕ → ℕ → ℕ × Leaf
insert_to_remote l key val = (1, record { keys = update l.keys 0 key; vals = update l.vals 0 val })
