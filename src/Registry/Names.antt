-- ===== src/Registry/Names.antt =====
-- xcomm/src/transport/numa_transport.hh: the server's name as part of a shared-memory name.
use outback_cxl_numa.Base.{
  ℕ, ◌≡◌, ◌≢◌, Bool, true, List, [], ◌∷◌, ◌&&◌, ◌||◌, leb, ◌==◌, if◌then◌else◌, arith, All, map,
  refl, ap₂, Bool-cases, inl, inr,
}

-- `isalnum` of the C locale, or one of the two marks
unfoldable pub is_name_char : ℕ → Bool
is_name_char c =
    leb b'0' c && leb c b'9'
    || leb b'A' c && leb c b'Z'
    || leb b'a' c && leb c b'z'
    || c == b'_'
    || c == b'-'

unfoldable pub name_char : ℕ → ℕ
unfolding is_name_char
name_char c = if is_name_char c then c else b'_'

abbrev pub default_name : List ℕ
default_name = b'd' ∷ b'e' ∷ b'f' ∷ b'a' ∷ b'u' ∷ b'l' ∷ b't' ∷ []

unfoldable or_default : List ℕ → List ℕ
or_default [] = default_name
or_default (c ∷ cs) = c ∷ cs

unfoldable pub make_numa_server_name : List ℕ → List ℕ
unfolding name_char or_default
make_numa_server_name server_addr = or_default (map name_char server_addr)

is_name_char-name_char : (c : ℕ) → is_name_char (name_char c) ≡ true
unfolding name_char
is_name_char-name_char c = elim (Bool-cases (is_name_char c)) [
  | inl e ↦ ground arith
  | inr e ↦ ground arith
]

name_char_fixed : (c : ℕ) → is_name_char c ≡ true → name_char c ≡ c
unfolding name_char
name_char_fixed c h = ground arith

All-name_char : (cs : List ℕ) → All (λ c. is_name_char c ≡ true) (map name_char cs)
All-name_char [] = tt
All-name_char (c ∷ cs) = (is_name_char-name_char c, All-name_char cs)

map-name_char : (cs : List ℕ) → All (λ c. is_name_char c ≡ true) cs → map name_char cs ≡ cs
map-name_char [] h = refl
map-name_char (c ∷ cs) h = ap₂ ◌∷◌ (name_char_fixed c h.0) (map-name_char cs h.1)

All-make : (addr : List ℕ) → All (λ c. is_name_char c ≡ true) (make_numa_server_name addr)
unfolding make_numa_server_name
All-make [] = (refl, (refl, (refl, (refl, (refl, (refl, (refl, tt)))))))
All-make (c ∷ cs) = All-name_char (c ∷ cs)

make-ne-nil : (addr : List ℕ) → make_numa_server_name addr ≢ []
unfolding make_numa_server_name
make-ne-nil [] h = cc
make-ne-nil (c ∷ cs) h = cc

make-make-go :
    (cs : List ℕ) → cs ≢ [] → All (λ c. is_name_char c ≡ true) cs → make_numa_server_name cs ≡ cs
unfolding make_numa_server_name
make-make-go [] n h = absurd (n refl)
make-make-go (c ∷ cs) n h = map-name_char (c ∷ cs) h

-- Every address becomes a name that is not empty and has no character but letters, digits, `_` and
-- `-`, so no slash; and a name is left as it is when it is sanitised again.
pub make_numa_server_name_safe :
    (addr : List ℕ)
    → All (λ c. is_name_char c ≡ true) (make_numa_server_name addr)
      × (make_numa_server_name addr ≢ [])
      × (make_numa_server_name (make_numa_server_name addr) ≡ make_numa_server_name addr)
make_numa_server_name_safe addr =
    (All-make addr, make-ne-nil addr, make-make-go _ (make-ne-nil addr) (All-make addr))
