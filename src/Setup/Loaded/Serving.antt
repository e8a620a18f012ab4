-- ===== src/Setup/Loaded/Serving.antt =====
-- benchs/outback/server_numa.cc: `setup_ludo_table` leaves a server that holds the keys.
use outback_cxl_numa.Base.{
  ℕ, ◌*◌, ◌/◌, ◌%◌, ◌^◌, ◌<◌, ◌≡◌, ◌≢◌, true, some, Returns, refl, sym, ap, ◌∙◌, arith, ltb, lt→ltb,
  Bool-cases, inl, inr,
}
use outback_cxl_numa.Ludo.{Ludo}
use outback_cxl_numa.Slot.{to_length, to_addr, to_finger, read_addr}
use outback_cxl_numa.Slot.Buckets.{slot_length}
use outback_cxl_numa.Packed.{PackedData, attach, zero_entry, read_key}
use outback_cxl_numa.Registry.{created_registry, current_epoch}
use outback_cxl_numa.Registry.Lanes.{lanes_of, IsStaggered}
use outback_cxl_numa.Store.{IsPlaced}
use outback_cxl_numa.Server.{outback_get_direct}
use outback_cxl_numa.Setup.{
  SetupEnv, Started, setup_ludo_table, fill_region, started, packed_entries, copy_buckets,
  publish_meta, first_lanes, first_epoch, effective_mem_threads,
}
use outback_cxl_numa.Setup.Load.{polled_stop-false, load_keys-IsFilled, IsFilled, loaded_entry}
use outback_cxl_numa.Setup.Loaded.{loaded_word, slot_lt, row_at, slot_at, loc_at, CanStart, Serves}

loaded_word_fields :
    (i : ℕ)
    → i < 2 ^ 32
    → (to_addr (loaded_word i) ≡ i)
      × (to_finger (loaded_word i) ≡ 0)
      × (to_length (loaded_word i) ≡ 2 ^ 14)
unfolding to_addr to_finger to_length
loaded_word_fields i h = omega arith

module _ {C : Type 0} (ludo : Ludo) (env : SetupEnv C) (can : CanStart ludo env) where
  open can use {quiet, registry, region, narrow, generated}

  slots-loaded :
      (i : ℕ)
      → i < env.nkeys
      → (copy_buckets env).slots (row_at ludo env i) (slot_at ludo env i) ≡ loaded_word i
  unfolding copy_buckets
  slots-loaded i h =
      rw (lt→ltb (row_at ludo env i) env.generated.num_elements (generated.row_of i h))
        (generated.word_of i h)

  slots-key :
      (r t : ℕ)
      → slot_length (copy_buckets env) r t ≢ 0
      → (i : ℕ) × (i < env.nkeys) × (r ≡ row_at ludo env i) × (t ≡ slot_at ludo env i)
  unfolding copy_buckets to_length
  slots-key r t h = elim (Bool-cases (ltb r env.generated.num_elements)) [
    | inl e ↦ generated.key_of r t (ground arith) (rw e at h)
    | inr n ↦ absurd (h (rw n))
  ]

  addr-loaded :
      (i : ℕ)
      → i < env.nkeys
      → to_addr ((copy_buckets env).slots (row_at ludo env i) (slot_at ludo env i)) ≡ i
  addr-loaded i h = rw (slots-loaded i h) (loaded_word_fields i (omega arith)).0

  -- The number of the key behind an occupied slot.
  addr-key :
      (r t i : ℕ)
      → i < env.nkeys
      → r ≡ row_at ludo env i
      → t ≡ slot_at ludo env i
      → to_addr ((copy_buckets env).slots r t) ≡ i
  addr-key r t i h e f = rw (e, f) (addr-loaded i h)

  abbrev empty_array : PackedData
  empty_array = attach env.junk (λ i. zero_entry) (packed_entries env)

  abbrev Filled : PackedData → Type 0
  Filled packed = IsFilled env.exist_keys 0 env.nkeys empty_array packed

  module _ (packed : PackedData) (filled : Filled packed) where
    capacity-filled : packed.num_elements ≡ 2 * env.nkeys
    unfolding attach packed_entries
    capacity-filled = filled.capacity ∙ omega arith

    filled-IsPlaced : IsPlaced (copy_buckets env) packed
    filled-IsPlaced = record {
      within = omega (arith, filled.count, capacity-filled);
      narrow = omega (arith, capacity-filled);
      placed = λ r t h.
          let (i, lt, e, f) = slots-key r t h in omega (arith, addr-key r t i lt e f, filled.count);
      unaliased = λ r t r' t' h h' same.
          let (i, lt, e, f) = slots-key r t h in
          let (j, lt', e', f') = slots-key r' t' h' in
          let ij : i ≡ j = sym (addr-key r t i lt e f) ∙ same ∙ addr-key r' t' j lt' e' f' in
          (e ∙ ap (row_at ludo env) ij ∙ sym e', f ∙ ap (slot_at ludo env) ij ∙ sym f');
    }

    abbrev result : Started C
    result = started env created_registry packed

    loc_parts :
        (i : ℕ)
        → (loc_at ludo env i / 4 ≡ row_at ludo env i) × (loc_at ludo env i % 4 ≡ slot_at ludo env i)
    loc_parts i = omega (arith, slot_lt ludo env.seeds (env.exist_keys i))

    entry_at :
        (i : ℕ)
        → i < env.nkeys
        → packed.raw_array
            (to_addr ((copy_buckets env).slots (row_at ludo env i) (slot_at ludo env i)))
          ≡ loaded_entry env.exist_keys i
    entry_at i h = rw (addr-loaded i h) (filled.loaded i (omega arith) h)

    get-loaded :
        (i : ℕ)
        → i < env.nkeys
        → outback_get_direct result.server (loc_at ludo env i) ≡ record { status = true; val = i }
    unfolding outback_get_direct started read_addr
    get-loaded i h = rw ((loc_parts i).0, (loc_parts i).1, entry_at i h)

    key-loaded :
        (i : ℕ)
        → i < env.nkeys
        → read_key packed (read_addr (copy_buckets env) (row_at ludo env i) (slot_at ludo env i))
          ≡ env.exist_keys i
    unfolding read_key read_addr
    key-loaded i h = ap (λ e. e.key) (entry_at i h)

    finger-loaded :
        (r t : ℕ)
        → slot_length (copy_buckets env) r t ≢ 0
        → to_finger ((copy_buckets env).slots r t) ≡ 0
    finger-loaded r t h =
        let (i, lt, e, f) = slots-key r t h in
        rw (e, f) (rw (slots-loaded i lt) (loaded_word_fields i (omega arith)).1)

    length-loaded :
        (i : ℕ)
        → i < env.nkeys
        → slot_length (copy_buckets env) (row_at ludo env i) (slot_at ludo env i) ≢ 0
    length-loaded i h z =
        let same : slot_length (copy_buckets env) (row_at ludo env i) (slot_at ludo env i)
            ≡ 2 ^ 14 =
          rw (slots-loaded i h) (loaded_word_fields i (omega arith)).2 in
        omega (arith, z, same)

    lanes-loaded : IsStaggered env.nkeys (publish_meta env created_registry)
    unfolding publish_meta first_lanes effective_mem_threads lanes_of
    lanes-loaded l h = ground arith

    result-Serves : Serves ludo env result
    unfolding started publish_meta first_epoch packed_entries current_epoch created_registry
    result-Serves = record {
      placed = filled-IsPlaced;
      reads = get-loaded;
      keys = key-loaded;
      fingers = finger-loaded;
      lengths = length-loaded;
      count = filled.count;
      capacity = capacity-filled;
      entries = omega arith;
      lanes = lanes-loaded;
      unready = refl;
      resting = refl;
      nobody = λ i. refl;
      unregistered = refl;
      unblocked = refl;
      seeded = refl;
    }

  -- If nobody asks to stop, the system calls succeed, twice the keys are at most 2 ^ 32, and Ludo
  -- hashing made its table of the keys, the server comes up holding exactly the keys: a GET at a key's
  -- location gives the key's number, the lanes start one after the other behind the loaded entries, the
  -- resize machine is in NORMAL with no client, and the registry is not yet marked as ready.
  pub setup-Serves :
      Returns (setup_ludo_table env) λ r. (p : Started C) × (r ≡ some p) × Serves ludo env p
  unfolding setup_ludo_table fill_region attach
  setup-Serves =
      let (packed, run, filled) =
        load_keys-IsFilled env.exist_keys env.stops env.nkeys (2 * env.nkeys) quiet env.nkeys 0
          env.nkeys empty_array (omega arith) (omega arith) refl (omega arith) (omega arith) in
      (
        some (result packed filled),
        rw
            (
              polled_stop-false env.stops env.nkeys 0 (2 * env.nkeys) quiet (omega arith),
              registry,
              region,
            )
            (rw run),
        (result packed filled, refl, result-Serves packed filled),
      )
