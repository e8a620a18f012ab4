-- ===== src/Base/Memory.antt =====
-- Memory as a function of the address: raw arrays that the code indexes without a bounds check.
use Prim.Native.Nat.{ℕ}
use mathlib.Core.Path.{◌≡◌}
use mathlib.Core.Logic.{◌≢◌}
use native.Mathlib.Omega.{arith}
use outback_cxl_numa.Base.Tests.{◌==◌, if◌then◌else◌}

abbrev pub update {ℓ} : {A : Type ℓ} → (ℕ → A) → ℕ → A → ℕ → A
update m i v j = if i == j then v else m j

pub update_self {ℓ} : {A : Type ℓ} (m : ℕ → A) (i : ℕ) (v : A) → update m i v i ≡ v
update_self m i v = ground arith

pub update_ne {ℓ} : {A : Type ℓ} (m : ℕ → A) (i j : ℕ) (v : A) → i ≢ j → update m i v j ≡ m j
update_ne m i j v h = ground arith
