-- ===== src/Registry/ShmNames.antt =====
-- xcomm/src/transport/numa_transport.hh: the names of the shared-memory objects, as lists of
-- characters.
use Prim.Native.Char.{code}
use Prim.Native.String.{String}
use mathlib.Core.List.{append_cancel_left}
use outback_cxl_numa.Base.{
  ℕ, zero, suc, ◌+◌, ◌-◌, ◌*◌, ◌/◌, ◌%◌, ◌^◌, ◌<◌, ◌≡◌, ◌≢◌, List, [], ◌∷◌, ◌++◌, length, ltb, ◌==◌,
  if◌then◌else◌, arith, refl, sym, ap, ◌∙◌, length-append, Bool-cases, inl, inr, ne→==, ℕ_discrete,
  if_cases,
}

abbrev pub codes : String → List ℕ
codes String.[] = []
codes (String.◌∷◌ c s) = code c ∷ codes s

-- The decimal digits of `n` before those at hand, most significant first, by `f` divisions.
pub digits : ℕ → ℕ → List ℕ → List ℕ
digits zero n later = later
digits (suc f) n later =
    let rest = digits f (n / 10) ((b'0' + n % 10) ∷ later) in
    if ltb n 10 then (b'0' + n % 10) ∷ later else rest

-- `std::to_string` of a 64-bit number, which has twenty digits at most
unfoldable pub to_string : ℕ → List ℕ
unfolding digits
to_string n = digits 20 n []

unfoldable pub numa_meta_name : List ℕ → List ℕ
numa_meta_name server_name = codes "/outback_numa_meta_" ++ server_name

unfoldable pub numa_region_name : List ℕ → ℕ → List ℕ
unfolding to_string
numa_region_name server_name version =
    if version == 0
    then codes "/outback_numa_region_" ++ server_name
    else codes "/outback_numa_region_" ++ (server_name ++ (codes "_v" ++ to_string version))

-- What a list of digits stands for, read behind `high`.
value : ℕ → List ℕ → ℕ
value high [] = high
value high (d ∷ ds) = value (high * 10 + (d - b'0')) ds

-- 10 ^ f
abbrev limit : ℕ → ℕ
limit zero = 1
limit (suc f) = 10 * limit f

value-digits : (f n : ℕ) (later : List ℕ) → n < limit f → value 0 (digits f n later) ≡ value n later
unfolding value digits
value-digits zero n later h = ap (λ m. value m later) (omega arith)
value-digits (suc f) n later h = elim (Bool-cases (ltb n 10)) [
  | inl small ↦ rw small (ap (λ m. value m later) (ground arith))
  | inr large ↦ rw large (
      value-digits f (n / 10) ((b'0' + n % 10) ∷ later) (omega arith)
      ∙ ap (λ m. value m later) (omega arith))
]

pub to_string_inj : (v w : ℕ) → v < 2 ^ 64 → w < 2 ^ 64 → to_string v ≡ to_string w → v ≡ w
unfolding to_string value
to_string_inj v w hv hw e =
    sym (value-digits 20 v [] (omega arith)) ∙ ap (value 0) e ∙ value-digits 20 w [] (omega arith)

abbrev suffix : ℕ → List ℕ
suffix version = codes "_v" ++ to_string version

abbrev region_prefix : List ℕ
region_prefix = codes "/outback_numa_region_"

abbrev char_at : ℕ → List ℕ → ℕ
char_at i [] = 0
char_at zero (c ∷ cs) = c
char_at (suc i) (c ∷ cs) = char_at i cs

module _ (s : List ℕ) where
  region_zero : numa_region_name s 0 ≡ region_prefix ++ s
  unfolding numa_region_name
  region_zero = refl

  region_versioned : (v : ℕ) → v ≢ 0 → numa_region_name s v ≡ region_prefix ++ (s ++ suffix v)
  unfolding numa_region_name
  region_versioned v h = rw (ne→== v 0 h)

  -- A name with a suffix is longer than one without.
  unversioned-ne : (v : ℕ) → v ≢ 0 → numa_region_name s 0 ≢ numa_region_name s v
  unversioned-ne v h e =
      let same : s ≡ s ++ suffix v =
        append_cancel_left region_prefix _ _ (sym region_zero ∙ e ∙ region_versioned v h) in
      omega (arith, ap length same, length-append s (suffix v))

  versioned_inj :
      (v w : ℕ)
      → v < 2 ^ 64
      → w < 2 ^ 64
      → v ≢ 0
      → w ≢ 0
      → numa_region_name s v ≡ numa_region_name s w
      → v ≡ w
  versioned_inj v w hv hw nv nw e = to_string_inj v w hv hw (
      append_cancel_left (codes "_v") _ _ (
        append_cancel_left s _ _ (
          append_cancel_left region_prefix _ _
            (sym (region_versioned v nv) ∙ e ∙ region_versioned w nw))))

  region_inj :
      (v w : ℕ) → v < 2 ^ 64 → w < 2 ^ 64 → numa_region_name s v ≡ numa_region_name s w → v ≡ w
  region_inj v w hv hw e = elim (ℕ_discrete v 0) [
    | yes zv ↦ elim (ℕ_discrete w 0) [
      | yes zw ↦ zv ∙ sym zw
      | no nw ↦ absurd (unversioned-ne w nw (ap (numa_region_name s) (sym zv) ∙ e))
    ]
    | no nv ↦ elim (ℕ_discrete w 0) [
      | yes zw ↦ absurd (unversioned-ne v nv (ap (numa_region_name s) (sym zw) ∙ sym e))
      | no nw ↦ versioned_inj v w hv hw nv nw e
    ]
  ]

  region-char : (v : ℕ) → char_at 14 (numa_region_name s v) ≡ b'r'
  unfolding numa_region_name
  region-char v = if_cases (λ name. char_at 14 name ≡ b'r') (v == 0) (λ _. refl) (λ _. refl)

  region-ne-meta : (other : List ℕ) (v : ℕ) → numa_region_name s v ≢ numa_meta_name other
  unfolding numa_meta_name
  region-ne-meta other v e = omega (arith, sym (region-char v) ∙ ap (char_at 14) e)

-- Under one server's name, regions of different 64-bit versions have different names, version 0,
-- which has no suffix, included, and none is the name of a registry; but a server whose name is that
-- of another with `_v` and a version has its unversioned region under the other's versioned name.
pub numa_region_name_distinct :
    (server_name : List ℕ)
    → ((v w : ℕ)
        → v < 2 ^ 64
        → w < 2 ^ 64
        → numa_region_name server_name v ≡ numa_region_name server_name w
        → v ≡ w)
      × ((other : List ℕ) (v : ℕ) → numa_region_name server_name v ≢ numa_meta_name other)
      × ((v : ℕ)
          → v ≢ 0
          → numa_region_name (server_name ++ (codes "_v" ++ to_string v)) 0
            ≡ numa_region_name server_name v)
numa_region_name_distinct s = (
  region_inj s,
  region-ne-meta s,
  λ v h. region_zero (s ++ suffix v) ∙ sym (region_versioned s v h),
)
