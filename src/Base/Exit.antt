-- ===== src/Base/Exit.antt =====
-- A call that may end the process by `exit(0)`.
use mathlib.Core.Path.{◌≡◌}

pub data Run {ℓ} (A : Type ℓ) : Type ℓ where
  exited : Run A
  ok : A → Run A

-- The call returns, in a value that satisfies `P`.
abbrev pub Returns {ℓ κ} : {A : Type ℓ} → Run A → (A → Type κ) → Type (ℓ ⊔ κ)
Returns {A} call P = (result : A) × (call ≡ ok result) × P result

infixl 5 ◌>>=◌
abbrev pub ◌>>=◌ {ℓ κ} : {A : Type ℓ} {B : Type κ} → Run A → (A → Run B) → Run B
exited >>= rest = exited
ok a >>= rest = rest a
