-- ===== src/Marshal/RoundTrip.antt =====
-- xutils/marshal.hh: what is written is read back.
use mathlib.Core.List.{append_assoc}
use outback_cxl_numa.Base.{
  ℕ, zero, suc, ◌+◌, ◌*◌, ◌/◌, ◌^◌, ◌≤◌, ◌<◌, ◌≡◌, none, some, List, [], ◌∷◌, ◌++◌, ok, exited,
  length, refl, sym, ap, ◌∙◌, arith, length-append, Returns,
}
use outback_cxl_numa.Marshal.{
  sizeof_u64, take, drop, to_bytes, from_bytes, serialize, serialize_over, deserialize,
  deserialize_opt, interpret_as, serialize_t, deserialize_t,
}

-- 256 ^ n
abbrev pub bytes_limit : ℕ → ℕ
bytes_limit zero = 1
bytes_limit (suc n) = 256 * bytes_limit n

pub from-to_bytes : (n w : ℕ) → w < bytes_limit n → from_bytes (to_bytes n w) ≡ w
unfolding from_bytes to_bytes
from-to_bytes zero w h = omega arith
from-to_bytes (suc n) w h = omega (arith, from-to_bytes n (w / 256) (omega arith))

pub length-to_bytes : (n w : ℕ) → length (to_bytes n w) ≡ n
unfolding to_bytes
length-to_bytes zero w = refl
length-to_bytes (suc n) w = ap suc (length-to_bytes n (w / 256))

pub take-append {ℓ} : {A : Type ℓ} (xs ys : List A) → take (length xs) (xs ++ ys) ≡ xs
take-append [] ys = refl
take-append (x ∷ xs) ys = ap (λ zs. x ∷ zs) (take-append xs ys)

pub drop-append {ℓ} : {A : Type ℓ} (xs ys : List A) → drop (length xs) (xs ++ ys) ≡ ys
drop-append [] ys = refl
drop-append (x ∷ xs) ys = drop-append xs ys

pub length-serialize : (t : ℕ) → length (serialize t) ≡ sizeof_u64
unfolding serialize
length-serialize t = length-to_bytes 8 t

from-serialize : (t : ℕ) → t < 2 ^ 64 → from_bytes (serialize t) ≡ t
unfolding serialize
from-serialize t h = from-to_bytes 8 t (omega arith)

take-serialize : (t : ℕ) (rest : List ℕ) → take sizeof_u64 (serialize t ++ rest) ≡ serialize t
take-serialize t rest =
    ap (λ n. take n (serialize t ++ rest)) (sym (length-serialize t))
    ∙ take-append (serialize t) rest

pub drop-serialize : (t : ℕ) (rest : List ℕ) → drop sizeof_u64 (serialize t ++ rest) ≡ rest
drop-serialize t rest =
    ap (λ n. drop n (serialize t ++ rest)) (sym (length-serialize t))
    ∙ drop-append (serialize t) rest

-- The value that stands first.
pub interpret-serialize :
    (t : ℕ) (rest : List ℕ) → t < 2 ^ 64 → interpret_as (serialize t ++ rest) 0 ≡ t
unfolding interpret_as
interpret-serialize t rest h = ap from_bytes (take-serialize t rest) ∙ from-serialize t h

drop_nil {ℓ} : {A : Type ℓ} (n : ℕ) → drop {A = A} n [] ≡ []
drop_nil zero = refl
drop_nil (suc n) = refl

drop_more {ℓ} : {A : Type ℓ} (m n : ℕ) (xs : List A) → drop (m + n) xs ≡ drop n (drop m xs)
drop_more zero n xs = ap (λ k. drop k xs) (omega arith)
drop_more (suc m) n [] = drop_nil (suc m + n) ∙ sym (drop_nil n)
drop_more (suc m) n (x ∷ xs) =
    let e : suc m + n ≡ suc (m + n) = omega arith in ap (λ k. drop k (x ∷ xs)) e ∙ drop_more m n xs

-- A later one: the bytes before it can be dropped.
pub interpret_after :
    (t offset : ℕ) (rest : List ℕ)
    → interpret_as (serialize t ++ rest) (sizeof_u64 + offset) ≡ interpret_as rest offset
unfolding interpret_as
interpret_after t offset rest =
    ap (λ bs. from_bytes (take sizeof_u64 bs))
      (drop_more sizeof_u64 offset (serialize t ++ rest) ∙ ap (drop offset) (drop-serialize t rest))

enough : (t : ℕ) (rest : List ℕ) → sizeof_u64 ≤ length (serialize t ++ rest)
enough t rest = omega (arith, length-append (serialize t) rest, length-serialize t)

deserialize-serialize :
    (t : ℕ) (rest : List ℕ)
    → t < 2 ^ 64
    → (deserialize (serialize t ++ rest) ≡ ok t) × (deserialize_opt (serialize t ++ rest) ≡ some t)
unfolding deserialize deserialize_opt
deserialize-serialize t rest h =
    let read : from_bytes (take sizeof_u64 (serialize t ++ rest)) ≡ t =
      ap from_bytes (take-serialize t rest) ∙ from-serialize t h in
    (ground (arith, read, enough t rest), ground (arith, read, enough t rest))

-- A 64-bit value is read back from what is written of it, whatever follows, by both readers; a
-- buffer of fewer than eight bytes is refused, by the one with the end of the process and by the
-- other with no value; and a write over a string with room leaves its length and its further bytes.
pub serialize_roundtrip :
    (t : ℕ) (rest : List ℕ)
    → t < 2 ^ 64
    → (deserialize (serialize t ++ rest) ≡ ok t)
      × (deserialize_opt (serialize t ++ rest) ≡ some t)
      × ((buf : List ℕ)
          → length buf < sizeof_u64
          → (deserialize buf ≡ exited) × (deserialize_opt buf ≡ none))
      × ((s : List ℕ)
          → sizeof_u64 ≤ length s
          → Returns
              (serialize_over t s)
              λ s'. (deserialize s' ≡ ok t) × (drop sizeof_u64 s' ≡ drop sizeof_u64 s))
unfolding deserialize deserialize_opt serialize_over
serialize_roundtrip t rest h = (
  (deserialize-serialize t rest h).0,
  (deserialize-serialize t rest h).1,
  λ buf short. (ground arith, ground arith),
  λ s room. (
    serialize t ++ drop sizeof_u64 s,
    ground arith,
    ((deserialize-serialize t (drop sizeof_u64 s) h).0, drop-serialize t (drop sizeof_u64 s)),
  ),
)

-- Any eight bytes in the header's place are skipped.
deserialize_t-serialize :
    (header t : ℕ) (rest : List ℕ)
    → t < 2 ^ 64
    → deserialize_t (serialize header ++ (serialize t ++ rest)) ≡ some t
unfolding deserialize_t
deserialize_t-serialize header t rest h =
    let read : interpret_as (serialize header ++ (serialize t ++ rest)) 8 ≡ t =
      interpret_after header 0 (serialize t ++ rest) ∙ interpret-serialize t rest h in
    ground (
      arith,
      read,
      enough t rest,
      length-append (serialize header) (serialize t ++ rest),
      length-serialize header,
    )

-- The header form is read back, whatever follows; fewer than sixteen bytes give no value; and the
-- header itself is not checked: any eight bytes in its place are accepted.
pub serialize_t_roundtrip :
    (t : ℕ) (rest : List ℕ)
    → t < 2 ^ 64
    → (deserialize_t (serialize_t t ++ rest) ≡ some t)
      × ((buf : List ℕ) → length buf < 2 * sizeof_u64 → deserialize_t buf ≡ none)
      × ((header : ℕ) → deserialize_t (serialize header ++ (serialize t ++ rest)) ≡ some t)
unfolding deserialize_t serialize_t
serialize_t_roundtrip t rest h = (
  ap deserialize_t (append_assoc (serialize sizeof_u64) (serialize t) rest)
      ∙ deserialize_t-serialize sizeof_u64 t rest h,
  λ buf short. ground arith,
  λ header. deserialize_t-serialize header t rest h,
)
