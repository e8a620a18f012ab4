-- ===== src/Registry/Lanes/Disjoint.antt =====
-- outback/outback_client_numa.hh, `alloc_remote_data_slot`: the lanes under calls in any order.
use outback_cxl_numa.Base.{
  ℕ, suc, ◌+◌, ◌*◌, ◌%◌, ◌^◌, ◌≤◌, ◌<◌, ◌≡◌, ◌≢◌, Option, none, some, List, [], ◌∷◌, length, arith,
  ℕ_discrete, All, All-map, sym, ap, ◌∙◌, refl,
}
use native.Mathlib.Nat.{mod-lt, mod-eq_of_lt, add-mul-mod_self_right}
use outback_cxl_numa.Registry.{Registry, current_epoch, max_numa_lanes}
use outback_cxl_numa.Registry.Lanes.{
  lanes_of, alloc_remote_data_slot, collect, alloc_all, Distinct, IsStaggered, NoWrap,
}

-- No two lanes ever reach the same index.
abbrev Apart : Registry → Type 0
Apart reg =
    (l m j k : ℕ)
    → l < lanes_of reg
    → m < lanes_of reg
    → l ≢ m
    → reg.lane_next_free_index l + j * lanes_of reg ≢ reg.lane_next_free_index m + k * lanes_of reg

lanes_of-bounds : (reg : Registry) → (0 < lanes_of reg) × (lanes_of reg ≤ max_numa_lanes)
unfolding lanes_of
lanes_of-bounds reg = ground arith

residue : (n l m j k : ℕ) → l < n → m < n → l + j * n ≡ m + k * n → l ≡ m
residue n l m j k hl hm e =
    sym (mod-eq_of_lt hl)
    ∙ sym (add-mul-mod_self_right l j n)
    ∙ ap (λ x. x % n) e
    ∙ add-mul-mod_self_right m k n
    ∙ mod-eq_of_lt hm

Apart-of_staggered : (base : ℕ) (reg : Registry) → IsStaggered base reg → Apart reg
Apart-of_staggered base reg h l m j k hl hm ne e =
    ne (residue (lanes_of reg) l m j k hl hm (omega (arith, h l hl, h m hm)))

module _ (reg : Registry) (lane : ℕ) where
  lanes_of-alloc : lanes_of (alloc_remote_data_slot reg lane).1 ≡ lanes_of reg
  unfolding alloc_remote_data_slot
  lanes_of-alloc = ground arith

  entries-alloc :
      (current_epoch (alloc_remote_data_slot reg lane).1).num_data_entries
      ≡ (current_epoch reg).num_data_entries
  unfolding alloc_remote_data_slot current_epoch
  entries-alloc = ground arith

  -- A counter stays, or steps by the number of lanes.
  next-alloc :
      (l : ℕ)
      → reg.lane_next_free_index l + max_numa_lanes < 2 ^ 64
      → (d : ℕ) × (d ≤ 1)
        × ((alloc_remote_data_slot reg lane).1.lane_next_free_index l
            ≡ reg.lane_next_free_index l + d * lanes_of reg)
        × (lane % lanes_of reg ≡ l → d ≡ 1)
        × ((alloc_remote_data_slot reg lane).1.lane_next_free_index l
            ≤ reg.lane_next_free_index l + max_numa_lanes)
  unfolding alloc_remote_data_slot
  next-alloc l h = elim (ℕ_discrete (lane % lanes_of reg) l) [
    | yes e ↦ (
      1,
      omega arith,
      ground (arith, lanes_of-bounds reg),
      λ _. refl,
      ground (arith, lanes_of-bounds reg),
    )
    | no n ↦ (0, omega arith, ground arith, λ e. absurd (n e), ground arith)
  ]

  alloc-some :
      (x : ℕ)
      → (alloc_remote_data_slot reg lane).0 ≡ some x
      → (x ≡ reg.lane_next_free_index (lane % lanes_of reg))
        × (x < (current_epoch reg).num_data_entries)
  unfolding alloc_remote_data_slot
  alloc-some x h = ground arith

-- An index that the lanes of `reg` may still hand out.
abbrev From : Registry → ℕ → Type 0
From reg x =
    (l : ℕ) × (k : ℕ) × (l < lanes_of reg) × (x ≡ reg.lane_next_free_index l + k * lanes_of reg)

module _ (reg : Registry) (lane c : ℕ) (room : NoWrap reg (suc c)) where
  NoWrap-alloc : NoWrap (alloc_remote_data_slot reg lane).1 c
  NoWrap-alloc l hl =
      let hl' : l < lanes_of reg = rw (← lanes_of-alloc reg lane) hl in
      let step = next-alloc reg lane l (omega (arith, room l hl')) in
      omega (arith, room l hl', step.4)

  From-alloc : (x : ℕ) → From (alloc_remote_data_slot reg lane).1 x → From reg x
  From-alloc x (l, k, hl, e) =
      let same = lanes_of-alloc reg lane in
      let hl' : l < lanes_of reg = rw (← same) hl in
      let step = next-alloc reg lane l (omega (arith, room l hl')) in
      (l, step.0 + k, hl', e ∙ rw (same, step.2) (omega arith))

  Apart-alloc : Apart reg → Apart (alloc_remote_data_slot reg lane).1
  Apart-alloc apart l m j k hl hm ne e =
      let same = lanes_of-alloc reg lane in
      let hl' : l < lanes_of reg = rw (← same) hl in
      let hm' : m < lanes_of reg = rw (← same) hm in
      let sl = next-alloc reg lane l (omega (arith, room l hl')) in
      let sm = next-alloc reg lane m (omega (arith, room m hm')) in
      let e' = rw (same, sl.2, sm.2) at e in
      apart l m (sl.0 + j) (sm.0 + k) hl' hm' ne (omega arith)

  -- What is handed out now is handed out to no lane later.
  fresh-alloc :
      Apart reg
      → (x y : ℕ) → (alloc_remote_data_slot reg lane).0 ≡ some x
      → From (alloc_remote_data_slot reg lane).1 y
      → x ≢ y
  fresh-alloc apart x y got (l, k, hl, e) eq =
      let same = lanes_of-alloc reg lane in
      let n = lanes_of reg in
      let mine : lane % n < n = mod-lt lane (lanes_of-bounds reg).0 in
      let hl' : l < lanes_of reg = rw (← same) hl in
      let step = next-alloc reg lane l (omega (arith, room l hl')) in
      let (ex, _) = alloc-some reg lane x got in
      let e' : y ≡ reg.lane_next_free_index l + step.0 * n + k * n = e ∙ rw (same, step.2) refl in
      elim (ℕ_discrete (lane % n) l) [
        | yes p ↦
            let one = step.3 p in
            let e'' : reg.lane_next_free_index l ≡ reg.lane_next_free_index l + 1 * n + k * n =
              ap reg.lane_next_free_index (sym p) ∙ sym ex ∙ eq ∙ e' ∙ rw one refl in
            omega (arith, e'', (lanes_of-bounds reg).0)
        | no q ↦ apart (lane % n) l 0 (step.0 + k) mine hl' q (omega (arith, ex, eq, e'))
      ]

collect-All :
    (P : ℕ → Type 0) (got : Option ℕ) (rest : List ℕ)
    → ((x : ℕ) → got ≡ some x → P x)
    → All P rest
    → All P (collect got rest)
collect-All P none rest f h = h
collect-All P (some x) rest f h = (f x refl, h)

collect-Distinct :
    (got : Option ℕ) (rest : List ℕ)
    → ((x : ℕ) → got ≡ some x → All (λ y. x ≢ y) rest)
    → Distinct rest
    → Distinct (collect got rest)
collect-Distinct none rest f h = h
collect-Distinct (some x) rest f h = (f x refl, h)

alloc_all-From :
    (reg : Registry) (ls : List ℕ) → NoWrap reg (length ls) → All (From reg) (alloc_all reg ls)
unfolding alloc_all
alloc_all-From reg [] room = tt
alloc_all-From reg (lane ∷ ls) room =
    let reg' = (alloc_remote_data_slot reg lane).1 in
    collect-All (From reg) (alloc_remote_data_slot reg lane).0 (alloc_all reg' ls)
      (λ x e. (
        lane % lanes_of reg,
        0,
        mod-lt lane (lanes_of-bounds reg).0,
        (alloc-some reg lane x e).0 ∙ omega arith,
      ))
      (All-map (From reg') (From reg) (From-alloc reg lane (length ls) room) (alloc_all reg' ls)
        (alloc_all-From reg' ls (NoWrap-alloc reg lane (length ls) room)))

alloc_all-lt :
    (reg : Registry) (ls : List ℕ)
    → All (λ x. x < (current_epoch reg).num_data_entries) (alloc_all reg ls)
unfolding alloc_all
alloc_all-lt reg [] = tt
alloc_all-lt reg (lane ∷ ls) =
    let reg' = (alloc_remote_data_slot reg lane).1 in
    collect-All (λ x. x < (current_epoch reg).num_data_entries) (alloc_remote_data_slot reg lane).0
      (alloc_all reg' ls) (λ x e. (alloc-some reg lane x e).1)
      (rw (entries-alloc reg lane) at (alloc_all-lt reg' ls))

alloc_all-Distinct :
    (reg : Registry) (ls : List ℕ)
    → Apart reg
    → NoWrap reg (length ls)
    → Distinct (alloc_all reg ls)
unfolding alloc_all
alloc_all-Distinct reg [] apart room = tt
alloc_all-Distinct reg (lane ∷ ls) apart room =
    let reg' = (alloc_remote_data_slot reg lane).1 in
    let room' = NoWrap-alloc reg lane (length ls) room in
    collect-Distinct (alloc_remote_data_slot reg lane).0 (alloc_all reg' ls)
      (λ x e.
        All-map (From reg') (λ y. x ≢ y) (λ y. fresh-alloc reg lane (length ls) room apart x y e)
          (alloc_all reg' ls) (alloc_all-From reg' ls room'))
      (alloc_all-Distinct reg' ls (Apart-alloc reg lane (length ls) room apart) room')

-- However the lanes' calls are interleaved, no two of them get the same entry of the packed array,
-- and every entry lies at or above the base of the counters and below the array's size, as long as
-- the counters start staggered from that base and do not wrap within these calls.
pub alloc_all_disjoint :
    (base : ℕ) (reg : Registry) (ls : List ℕ)
    → IsStaggered base reg
    → NoWrap reg (length ls)
    → Distinct (alloc_all reg ls)
      × All (λ x. base ≤ x) (alloc_all reg ls)
      × All (λ x. x < (current_epoch reg).num_data_entries) (alloc_all reg ls)
alloc_all_disjoint base reg ls stag room = (
  alloc_all-Distinct reg ls (Apart-of_staggered base reg stag) room,
  All-map (From reg) (λ x. base ≤ x) (λ x f. omega (arith, f.3, stag f.0 f.2)) (alloc_all reg ls)
      (alloc_all-From reg ls room),
  alloc_all-lt reg ls,
)
