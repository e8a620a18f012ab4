-- ===== src/Marshal.antt =====
-- xutils/marshal.hh: 64-bit values as bytes, and the same behind a header. Bytes are numbers below
-- 256, the least significant first.
pub mod RoundTrip
use outback_cxl_numa.Base.{
  ℕ, zero, suc, ◌+◌, ◌*◌, ◌/◌, ◌%◌, Option, none, some, List, [], ◌∷◌, ◌++◌, Run, ok, exited,
  length, ltb, if◌then◌else◌,
}

abbrev pub sizeof_u64 : ℕ
sizeof_u64 = 8

module _ {ℓ} {A : Type ℓ} where
  abbrev pub take : ℕ → List A → List A
  take zero xs = []
  take (suc n) [] = []
  take (suc n) (x ∷ xs) = x ∷ take n xs

  abbrev pub drop : ℕ → List A → List A
  drop zero xs = xs
  drop (suc n) [] = []
  drop (suc n) (x ∷ xs) = drop n xs

-- The `n` bytes of an object in memory, and the value of such bytes.
unfoldable pub to_bytes : ℕ → ℕ → List ℕ
to_bytes zero w = []
to_bytes (suc n) w = (w % 256) ∷ to_bytes n (w / 256)

unfoldable pub from_bytes : List ℕ → ℕ
from_bytes [] = 0
from_bytes (b ∷ bs) = b + 256 * from_bytes bs

-- `Marshal<u64>`
unfoldable pub serialize : ℕ → List ℕ
unfolding to_bytes
serialize t = to_bytes sizeof_u64 t

-- Over the first bytes of a string, which must have room.
unfoldable pub serialize_over : ℕ → List ℕ → Run (List ℕ)
unfolding serialize
serialize_over t s =
    if ltb (length s) sizeof_u64 then exited else ok (serialize t ++ drop sizeof_u64 s)

unfoldable pub deserialize : List ℕ → Run ℕ
unfolding from_bytes
deserialize buf =
    if ltb (length buf) sizeof_u64 then exited else ok (from_bytes (take sizeof_u64 buf))

unfoldable pub deserialize_opt : List ℕ → Option ℕ
unfolding from_bytes
deserialize_opt buf =
    if ltb (length buf) sizeof_u64 then none else some (from_bytes (take sizeof_u64 buf))

-- `*args.interpret_as<u64>(offset)`
unfoldable pub interpret_as : List ℕ → ℕ → ℕ
unfolding from_bytes
interpret_as args offset = from_bytes (take sizeof_u64 (drop offset args))

-- `MarshalT<u64>`: the size, then the value
unfoldable pub serialize_t : ℕ → List ℕ
unfolding serialize
serialize_t t = serialize sizeof_u64 ++ serialize t

unfoldable pub deserialize_t : List ℕ → Option ℕ
unfolding interpret_as
deserialize_t d =
    if ltb (length d) (sizeof_u64 + sizeof_u64) then none else some (interpret_as d sizeof_u64)
