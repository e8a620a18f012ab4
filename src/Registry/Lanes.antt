-- ===== src/Registry/Lanes.antt =====
-- outback/outback_client_numa.hh, `alloc_remote_data_slot`: clients take free entries of the packed
-- array from per-lane counters that step by the number of lanes.
pub mod Disjoint
use outback_cxl_numa.Base.{
  ℕ, suc, ◌+◌, ◌*◌, ◌%◌, ◌^◌, ◌≤◌, ◌<◌, ◌≡◌, ◌≢◌, Option, none, some, List, [], ◌∷◌, length, min,
  add64, ltb, ◌==◌, if◌then◌else◌, update, arith, ℕ_discrete, All, All-map, sym, ap, ◌∙◌, refl,
}
use native.Mathlib.Nat.{mod-lt, mod-eq_of_lt, add-mul-mod_self_right}
use outback_cxl_numa.Registry.{Registry, current_epoch, max_numa_lanes}

unfoldable pub lanes_of : Registry → ℕ
lanes_of reg = if reg.mem_threads == 0 then 1 else min reg.mem_threads max_numa_lanes

-- The index taken, if the array has it, and the registry after the counter's `fetch_and_add`.
unfoldable pub alloc_remote_data_slot : Registry → ℕ → Option ℕ × Registry
unfolding lanes_of
alloc_remote_data_slot reg lane_id =
    let lanes = lanes_of reg in
    let lane = lane_id % lanes in
    let ep = current_epoch reg in
    let idx = reg.lane_next_free_index lane in
    let reg' = record reg {
      lane_next_free_index = update reg.lane_next_free_index lane (add64 idx lanes);
    } in
    if ltb idx ep.num_data_entries then (some idx, reg') else (none, reg')

abbrev pub collect : Option ℕ → List ℕ → List ℕ
collect none rest = rest
collect (some idx) rest = idx ∷ rest

-- The indices that clients get when they call in the given order of lanes.
pub alloc_all : Registry → List ℕ → List ℕ
alloc_all reg [] = []
alloc_all reg (lane ∷ lanes) =
    let (got, reg') = alloc_remote_data_slot reg lane in
    let rest = alloc_all reg' lanes in collect got rest

-- No index twice.
abbrev pub Distinct : List ℕ → Type 0
Distinct [] = Unit
Distinct (x ∷ xs) = All (λ y. x ≢ y) xs × Distinct xs

-- The counters start one after the other, as server and resize set them.
abbrev pub IsStaggered : ℕ → Registry → Type 0
IsStaggered base reg = (l : ℕ) → l < lanes_of reg → reg.lane_next_free_index l ≡ base + l

-- No counter wraps within the given number of calls.
abbrev pub NoWrap : Registry → ℕ → Type 0
NoWrap reg calls =
    (l : ℕ) → l < lanes_of reg → reg.lane_next_free_index l + calls * max_numa_lanes < 2 ^ 64
