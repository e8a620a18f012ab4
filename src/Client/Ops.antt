-- ===== src/Client/Ops.antt =====
-- outback/outback_client_numa.hh: search, put, update and remove on shared memory. Each works under
-- the lock byte of its row, so that it is one step.
use outback_cxl_numa.Base.{
  ℕ, zero, suc, ◌+◌, ◌%◌, ◌^◌, Option, none, some, List, [], ◌==◌, if◌then◌else◌, update,
}
use outback_cxl_numa.Ludo.{Ludo}
use outback_cxl_numa.Slot.{slots_num_bucket, read_addr, write_addr, remove_addr, check_slots}
use outback_cxl_numa.Packed.{sizeof_val, read_key, update_data, remove_data_with_key_check}
use outback_cxl_numa.Registry.Lanes.{alloc_remote_data_slot}
use outback_cxl_numa.Resize.{Region}
use outback_cxl_numa.Server.{first_free, seed_slot}
use outback_cxl_numa.Client.{ClientEnv, Client, or_else, maybe_check_version}

-- The scan of the row's other slots from slot `s` on, with `n` left. Address 0 is skipped.
unfoldable pub makeup_get : Region → ℕ → ℕ → ℕ → ℕ → ℕ → Option ℕ
unfolding read_addr read_key
makeup_get g key row slot zero s = none
makeup_get g key row slot (suc n) s =
    let rest = makeup_get g key row slot n (s + 1) in
    let a = read_addr g.buckets row s in
    if s == slot
    then rest
    else if a == 0
    then rest
    else if read_key g.packed a == key
    then some (g.packed.raw_array a).value
    else rest

-- The search in the region that the client sees.
unfoldable pub search_region : Region → ℕ → ℕ × ℕ → Option ℕ
unfolding makeup_get
search_region g key (row, slot) =
    let addr = read_addr g.buckets row slot in
    if read_key g.packed addr == key
    then some (g.packed.raw_array addr).value
    else makeup_get g key row slot slots_num_bucket 0

-- A new entry from the client's lane, unless `remote_registry` is null or the array is used up.
unfoldable pub alloc : Client → Option ℕ × Client
alloc c =
    let (got, reg) = alloc_remote_data_slot c.shared c.lane_id in
    if c.attached then (got, record c { shared = reg }) else (none, c)

abbrev pub set_region : Client → ℕ → Region → Client
set_region c v g = record c { regions = update c.regions v g }

unfoldable pub put_same : Client → ℕ → ℕ → ℕ → ℕ → ℕ → Client
put_same c v key val row slot =
    let g = c.regions v in
    let addr = read_addr g.buckets row slot in
    if read_key g.packed addr == key
    then set_region c v (record g { packed = update_data g.packed addr key 64 val })
    else c

-- The row is full: the slot's entry is overwritten, and the row's seed, a byte, goes up.
unfoldable pub put_over : Client → ℕ → ℕ → ℕ → ℕ → ℕ → Client
put_over c v key val row slot =
    let g = c.regions v in
    let addr = read_addr g.buckets row slot in
    record (set_region c v (record g { packed = update_data g.packed addr key 64 val })) {
      seeds = update c.seeds row ((c.seeds row + 1) % 2 ^ 8);
    }

-- The guard of the three writers: a view and a lock are there.
unfoldable pub with_region : (Client → ℕ → Client) → Client → Client
with_region f c = elim (or_else c.view c.remote_view) [
  | none ↦ c
  | some v ↦ elim (or_else c.lock c.remote_lock) [ none ↦ c | some l ↦ f c v ]
]

module _ (ludo : Ludo) where
  -- The search in whatever region the client has.
  unfoldable pub search_held : ℕ → Client → Option ℕ × Client
  unfolding search_region
  search_held key c = elim (or_else c.view c.remote_view) [
    | none ↦ (none, c)
    | some v ↦ (search_region (c.regions v) key (ludo.lookup_slot c.seeds key), c)
  ]

  unfoldable pub numa_search : ClientEnv → Client → ℕ → Option ℕ × Client
  unfolding search_held maybe_check_version
  numa_search env c key = search_held key (maybe_check_version env c)

  -- A new entry whose address goes to slot `t` of the row, if one could be had.
  unfoldable pub put_new : Client → ℕ → ℕ → ℕ → ℕ → ℕ → Client
  unfolding alloc
  put_new c v key val row t =
      let (got, c') = alloc c in
      elim got [
        | none ↦ c'
        | some idx ↦
            let g = c'.regions v in
            set_region c' v (record {
              buckets = write_addr ludo g.buckets key row t idx 64;
              packed = update_data g.packed idx key sizeof_val val;
            })
      ]

  unfoldable pub put_any : Client → ℕ → ℕ → ℕ → ℕ → Client
  unfolding put_new
  put_any c v key val row = elim (first_free ludo (c.regions v).buckets key row) [
    | none ↦ c
    | some t ↦ put_new c v key val row t
  ]

  unfoldable pub put_status : Client → ℕ → ℕ → ℕ → ℕ → ℕ → ℕ → Client
  unfolding put_new put_same put_any put_over
  put_status c v key val row slot status =
      if status == 0
      then put_new c v key val row slot
      else if status == 1
      then put_same c v key val row slot
      else if status == 2
      then put_any c v key val row
      else if status == 3
      then put_over c v key val row slot
      else c

  unfoldable pub put_region : Client → ℕ → ℕ → ℕ → Client
  unfolding put_status seed_slot
  put_region c v key val =
      let row = (ludo.lookup_slot c.seeds key).0 in
      let slot = seed_slot ludo c.seeds row key in
      put_status c v key val row slot (check_slots ludo (c.regions v).buckets key row slot)

  unfoldable pub update_region : Client → ℕ → ℕ → ℕ → Client
  unfolding put_same
  update_region c v key val =
      let (row, slot) = ludo.lookup_slot c.seeds key in put_same c v key val row slot

  unfoldable pub remove_region : Client → ℕ → ℕ → Client
  remove_region c v key =
      let (row, slot) = ludo.lookup_slot c.seeds key in
      let g = c.regions v in
      let (res, packed) = remove_data_with_key_check g.packed (read_addr g.buckets row slot) key in
      set_region c v (record {
        packed = packed;
        buckets = if res then remove_addr g.buckets row slot else g.buckets;
      })

  unfoldable pub numa_put : ClientEnv → Client → ℕ → ℕ → Client
  unfolding with_region put_region maybe_check_version
  numa_put env c key val = with_region (λ c' v. put_region c' v key val) (maybe_check_version env c)

  unfoldable pub numa_update : ClientEnv → Client → ℕ → ℕ → Client
  unfolding with_region update_region maybe_check_version
  numa_update env c key val =
      with_region (λ c' v. update_region c' v key val) (maybe_check_version env c)

  unfoldable pub numa_remove : ClientEnv → Client → ℕ → Client
  unfolding with_region remove_region maybe_check_version
  numa_remove env c key = with_region (λ c' v. remove_region c' v key) (maybe_check_version env c)

unfoldable pub numa_scan : ℕ → ℕ → List ℕ
numa_scan key n = []
