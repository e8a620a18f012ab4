-- ===== src/Setup/FirstPut.antt =====
-- benchs/outback/server_numa.cc with outback/outback_server_numa.hh and
-- outback/outback_client_numa.hh: the first mutations of a server that has just come up.
use outback_cxl_numa.Base.{
  ℕ, ◌/◌, ◌%◌, ◌<◌, ◌≡◌, ◌≢◌, true, some, Run, Returns, refl, sym, ◌∙◌, arith, inl, inr,
}
use outback_cxl_numa.Ludo.{Ludo}
use outback_cxl_numa.Slot.{to_finger, fingerprint}
use outback_cxl_numa.Slot.Buckets.{slot_length, StatusMeans, check_slots_status}
use outback_cxl_numa.Packed.{bulk_load_data}
use outback_cxl_numa.Packed.Laws.{bulk_load_data-ok}
use outback_cxl_numa.Registry.{Registry}
use outback_cxl_numa.Registry.Lanes.{lanes_of, alloc_remote_data_slot}
use outback_cxl_numa.Store.{IsPlaced}
use outback_cxl_numa.Server.{
  Server, Reply, Lru, put_case, put_spare, put_full, seed_slot, outback_put_direct,
  outback_get_direct,
}
use outback_cxl_numa.Server.Stored.{first_free-some, HasRoom, IsValid, stored, store_new-ok}
use outback_cxl_numa.Server.Put.{put_direct_reads, PutMeans, Fits}
use outback_cxl_numa.Setup.{SetupEnv, Started}
use outback_cxl_numa.Setup.Loaded.{Serves, row_at, slot_at, loc_at, slot_lt}

-- One call has one result.
Returns-both {ℓ} :
    {A : Type 0} (call : Run A) (P Q : A → Type ℓ)
    → Returns call P
    → Returns call Q
    → Returns call (λ r. P r × Q r)
Returns-both call P Q (r, run, p) (r', run', q) =
    let same : r' ≡ r = cc in (r, run, (p, rw (← same) q))

module _ {C : Type 0} (ludo : Ludo) (s : Server C) (cache : Lru C) (key val loc : ℕ) where
  -- A put past an occupied slot with another fingerprint reports success.
  case-succeeds :
      IsValid ludo s
      → HasRoom ludo s
      → (reply : Reply) (status : ℕ) → slot_length s.buckets (loc / 4) (loc % 4) ≢ 0
      → to_finger (s.buckets.slots (loc / 4) (loc % 4)) ≢ fingerprint ludo key
      → StatusMeans ludo s.buckets key (loc / 4) (loc % 4) status
      → Returns
          (put_case ludo cache s key val (loc / 4) (loc % 4) status reply)
          (λ r. r.0.status ≡ true)
  unfolding put_case put_full put_spare
  case-succeeds valid room reply status occ ne (inl (e, empty)) = absurd (occ empty)
  case-succeeds valid room reply status occ ne (inr (inl (e, _, finger))) = absurd (ne finger)
  case-succeeds valid room reply status occ ne (inr (inr (inl (e, _, _, spare)))) =
      let (t, free, lt, empty) = first_free-some ludo s.buckets key (loc / 4) (loc % 4) spare in
      rw e (
        (record { status = true; val = 2 }, stored ludo s key val (loc / 4) t),
        rw (free, put_spare, store_new-ok ludo s key val (loc / 4) t room valid),
        refl,
      )
  case-succeeds valid room reply status occ ne (inr (inr (inr (e, _, full)))) =
      rw e (put_full cache s key val (loc / 4) (loc % 4), refl, refl)

pub lanes_of_pos : (reg : Registry) → 0 < lanes_of reg
unfolding lanes_of
lanes_of_pos reg = ground arith

module _ {C : Type 0} (ludo : Ludo) (env : SetupEnv C) (p : Started C)
    (up : Serves ludo env p) where
  module _ (i : ℕ) (h : i < env.nkeys) where
    loc_row : loc_at ludo env i / 4 ≡ row_at ludo env i
    loc_row = omega (arith, slot_lt ludo env.seeds (env.exist_keys i))

    loc_slot : loc_at ludo env i % 4 ≡ slot_at ludo env i
    loc_slot = omega (arith, slot_lt ludo env.seeds (env.exist_keys i))

    room : HasRoom ludo p.server
    room = omega (arith, h, up.count, up.capacity)

    abbrev key : ℕ
    key = env.exist_keys i

    abbrev loc : ℕ
    loc = loc_at ludo env i

    occ : slot_length p.server.buckets (loc / 4) (loc % 4) ≢ 0
    occ = rw (loc_row, loc_slot) (up.lengths i h)

    seed : seed_slot ludo p.server.seeds (loc / 4) key ≡ loc % 4
    unfolding seed_slot
    seed = rw (loc_row, loc_slot, up.seeded) (sym (ludo.lookup_slot_col env.seeds key))

    module _ (finger : fingerprint ludo key ≢ 0) where
      other : to_finger (p.server.buckets.slots (loc / 4) (loc % 4)) ≢ fingerprint ludo key
      other e = finger (sym e ∙ up.fingers (loc / 4) (loc % 4) occ)

      not-Fits : ¬ Fits ludo p.server loc key
      not-Fits (inl e) = occ e
      not-Fits (inr (_, f, _)) = other f

      module _ (cache : Lru C) (now val : ℕ) (reply : Reply) where
        put_succeeds :
            Returns
              (outback_put_direct ludo cache now p.server loc key val reply)
              (λ r. r.0.status ≡ true)
        unfolding outback_put_direct
        put_succeeds =
            simp (up.unblocked, seed)
              (case-succeeds ludo p.server cache key val loc up.placed room reply _ occ other
                (check_slots_status ludo p.server.buckets key (loc / 4) (loc % 4)))

        -- A PUT of a key that the server was loaded with, if the key's fingerprint is not 0, reports
        -- success and keeps the store valid, and a GET at the key's location still sees the loaded
        -- value: the slots are loaded without fingerprints.
        pub loaded_put_misses :
            Returns (outback_put_direct ludo cache now p.server loc key val reply) λ r.
              (r.0.status ≡ true)
              × IsPlaced r.1.buckets r.1.packed
              × (outback_get_direct r.1 loc ≡ record { status = true; val = i })
        loaded_put_misses =
            let (r, run, (said, (placed, _, _, old))) =
              Returns-both (outback_put_direct ludo cache now p.server loc key val reply)
                (λ r. r.0.status ≡ true) (PutMeans ludo p.server loc key val) put_succeeds
                (put_direct_reads ludo p.server up.placed room loc key val cache now reply
                  up.unblocked seed) in
            (r, run, (said, placed, old not-Fits ∙ up.reads i h))

  -- The server's append and the clients' first lane both take the entry behind the loaded ones.
  module _ (some_keys : 0 < env.nkeys) (key val lane : ℕ) (first : lane % lanes_of p.reg ≡ 0) where
    lane_next : p.reg.lane_next_free_index (lane % lanes_of p.reg) ≡ env.nkeys
    lane_next = rw first (up.lanes 0 (lanes_of_pos p.reg) ∙ omega arith)

    -- On a server that has just come up with some keys, the first entry that the server appends is
    -- the entry that the first client of lane 0 gets.
    pub append_meets_lane :
        Returns
          (bulk_load_data p.server.packed key 8 val)
          λ r. (alloc_remote_data_slot p.reg lane).0 ≡ some r.0
    unfolding alloc_remote_data_slot
    append_meets_lane = (
      _,
      bulk_load_data-ok p.server.packed key 8 val (omega (arith, up.count, up.capacity))
          up.placed.narrow,
      ground (arith, lane_next, up.entries, up.count),
    )
