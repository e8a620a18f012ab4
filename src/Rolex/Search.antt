-- ===== src/Rolex/Search.antt =====
-- rolex/rolex_util.hh: the branchless binary search. Positions start at -1 in the source; `next` is
-- a position plus one. A read outside the array is `none`, and so is a search that runs out of fuel.
pub mod Bound
use native.Mathlib.Nat.{pow-suc}
use outback_cxl_numa.Base.{
  ℕ, zero, suc, ◌+◌, ◌-◌, ◌*◌, ◌/◌, ◌^◌, ◌≤◌, ◌<◌, ◌≡◌, ◌⊎◌, inl, inr, refl, sym, ap, ◌∙◌, arith,
  true, false, Option, none, some, Bool-cases, ltb, leb, ltb→lt, if◌then◌else◌,
}

-- `31 - __builtin_clz(x)`, which is not defined at 0: the number of halvings that leave 1.
bsr_from : ℕ → ℕ → ℕ
bsr_from zero x = 0
bsr_from (suc f) x = let rest = bsr_from f (x / 2) in if ltb x 2 then 0 else suc rest

unfoldable pub bsr : ℕ → ℕ
unfolding bsr_from
bsr x = bsr_from 31 x

module _ (arr : ℕ → ℕ) (n key : ℕ) where
  unfoldable pub read : ℕ → Option ℕ
  read i = if ltb i n then some (arr i) else none

  -- `pos = (arr[index] < key ? ... : pos)`
  unfoldable pub advance : ℕ → ℕ → ℕ → Option ℕ
  unfolding read
  advance index below otherwise = elim (read index) [
    | none ↦ none
    | some v ↦ some (if ltb v key then below else otherwise)
  ]

  unfoldable pub search_loop : ℕ → ℕ → ℕ → Option ℕ
  unfolding advance
  search_loop zero step next = none
  search_loop (suc f) step next = elim (ltb 0 step) [
    | false ↦ some next
    | true ↦ elim (advance (next + step - 1) (next + step) next) [
      | none ↦ none
      | some next' ↦ search_loop f (step / 2) next'
    ]
  ]

  unfoldable pub finish : ℕ → Option ℕ
  unfolding read
  finish next = elim (read next) [ none ↦ none | some v ↦ some (if leb key v then next else n) ]

  unfoldable pub binary_search_branchless : Option ℕ
  unfolding bsr advance search_loop finish
  binary_search_branchless =
      let step = 2 ^ bsr (n - 1) in
      elim (advance (n - 1 - step) (n - step) 0) [
        | none ↦ none
        | some next ↦ elim (search_loop 33 (step / 2) next) [ none ↦ none | some pos ↦ finish pos ]
      ]
