-- ===== src/Setup/Loaded.antt =====
-- benchs/outback/server_numa.cc: the store and the registry once `setup_ludo_table` is done.
pub mod Serving
use outback_cxl_numa.Base.{
  ℕ, zero, suc, ◌+◌, ◌*◌, ◌/◌, ◌%◌, ◌^◌, ◌≤◌, ◌<◌, ◌≡◌, ◌≢◌, true, false, some, Returns, refl, sym,
  ap, ◌∙◌, arith, ltb, lt→ltb, Bool-cases, inl, inr,
}
use outback_cxl_numa.Ludo.{Ludo}
use outback_cxl_numa.Slot.{LudoBuckets, to_length, to_addr, to_finger, read_addr}
use outback_cxl_numa.Slot.Buckets.{slot_length}
use outback_cxl_numa.Packed.{PackedData, attach, zero_entry, read_key}
use outback_cxl_numa.Registry.{
  map_numa_registry, created_registry, create_shared_numa_region, current_epoch, zero_client,
  max_clients, normal,
}
use outback_cxl_numa.Registry.Lanes.{lanes_of, IsStaggered}
use outback_cxl_numa.Store.{IsPlaced}
use outback_cxl_numa.Server.{outback_get_direct}
use outback_cxl_numa.Setup.{
  SetupEnv, Started, setup_ludo_table, fill_region, started, packed_entries, copy_buckets,
  publish_meta, first_lanes, first_epoch, effective_mem_threads,
}
use outback_cxl_numa.Setup.Load.{
  NoStops, polled_stop-false, load_keys-IsFilled, IsFilled, loaded_entry,
}

-- The word that `DataPlaneLudo` puts into the slot of the i-th key: the value of the key, which is
-- i, plus `64UL << 48`.
abbrev pub loaded_word : ℕ → ℕ
loaded_word i = i + 64 * 2 ^ 48

-- What the code relies on of Ludo hashing: every key has the slot that a lookup finds for it, with
-- the word of its number, and there is nothing else in the rows.
pub record IsGenerated (ludo : Ludo) (keys : ℕ → ℕ) (n : ℕ) (seeds : ℕ → ℕ) (b : LudoBuckets)
    : Type 0 where
  pub row_of : (i : ℕ) → i < n → (ludo.lookup_slot seeds (keys i)).0 < b.num_elements
  pub word_of :
      (i : ℕ)
      → i < n
      → b.slots (ludo.lookup_slot seeds (keys i)).0 (ludo.lookup_slot seeds (keys i)).1
        ≡ loaded_word i
  pub key_of :
      (r t : ℕ)
      → r < b.num_elements
      → to_length (b.slots r t) ≢ 0
      → (i : ℕ) × (i < n)
        × (r ≡ (ludo.lookup_slot seeds (keys i)).0)
        × (t ≡ (ludo.lookup_slot seeds (keys i)).1)

pub slot_lt : (ludo : Ludo) (seeds : ℕ → ℕ) (key : ℕ) → (ludo.lookup_slot seeds key).1 < 4
slot_lt ludo seeds key =
    omega (
      arith,
      ludo.lookup_slot_col seeds key,
      ludo.hash-lt (seeds (ludo.lookup_slot seeds key).0) key,
    )

module _ {C : Type 0} (ludo : Ludo) (env : SetupEnv C) where
  abbrev pub row_at : ℕ → ℕ
  row_at i = (ludo.lookup_slot env.seeds (env.exist_keys i)).0

  abbrev pub slot_at : ℕ → ℕ
  slot_at i = (ludo.lookup_slot env.seeds (env.exist_keys i)).1

  -- The location of the i-th key: the number of its slot.
  abbrev pub loc_at : ℕ → ℕ
  loc_at i = 4 * row_at i + slot_at i

  -- Nobody asks to stop, the system calls succeed, the keys are few enough for the 32-bit index of
  -- an entry, and the table is that of the keys.
  pub record CanStart : Type 0 where
    pub quiet : NoStops env.stops (2 * env.nkeys)
    pub registry :
        map_numa_registry env.registry_calls true created_registry ≡ some created_registry
    pub region : create_shared_numa_region env.region_calls ≡ true
    pub narrow : 2 * env.nkeys ≤ 2 ^ 32
    pub generated : IsGenerated ludo env.exist_keys env.nkeys env.seeds env.generated

  -- The server holds exactly the keys, each at its location under its number.
  pub record Serves (p : Started C) : Type 0 where
    pub placed : IsPlaced p.server.buckets p.server.packed
    pub reads :
        (i : ℕ)
        → i < env.nkeys
        → outback_get_direct p.server (loc_at i) ≡ record { status = true; val = i }
    pub keys :
        (i : ℕ)
        → i < env.nkeys
        → read_key p.server.packed (read_addr p.server.buckets (row_at i) (slot_at i))
          ≡ env.exist_keys i
    pub fingers :
        (r t : ℕ)
        → slot_length p.server.buckets r t ≢ 0
        → to_finger (p.server.buckets.slots r t) ≡ 0
    pub lengths : (i : ℕ) → i < env.nkeys → slot_length p.server.buckets (row_at i) (slot_at i) ≢ 0
    pub count : p.server.packed.num ≡ env.nkeys
    pub capacity : p.server.packed.num_elements ≡ 2 * env.nkeys
    pub entries : (current_epoch p.reg).num_data_entries ≡ 2 * env.nkeys
    pub lanes : IsStaggered env.nkeys p.reg
    pub unready : p.reg.ready ≡ 0
    pub resting : p.reg.resize_state ≡ normal
    pub nobody : (i : ℕ) → (p.reg.clients i).active ≡ 0
    pub unregistered : p.reg.registered_clients ≡ 0
    pub unblocked : p.server.blocked ≡ false
    pub seeded : p.server.seeds ≡ env.seeds
