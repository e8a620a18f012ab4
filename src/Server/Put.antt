-- ===== src/Server/Put.antt =====
-- outback/outback_server_numa.hh, `outback_put_direct`: the store and a `GET` after it.
use outback_cxl_numa.Base.{
  ℕ, zero, suc, ◌+◌, ◌/◌, ◌%◌, ◌^◌, ◌<◌, ◌≡◌, ◌≢◌, ◌⊎◌, inl, inr, refl, sym, ◌∙◌, arith, ◌==◌, true,
  false, Option, none, some, Returns, Bool-cases, ==_iff,
}
use outback_cxl_numa.Ludo.{Ludo}
use outback_cxl_numa.Slot.{to_finger, fingerprint, read_addr, set_cachebit}
use outback_cxl_numa.Slot.Buckets.{
  slot_length, SpareSlot, FullRow, StatusMeans, check_slots_status, slots-write_addr_ne,
  read-write_addr,
}
use outback_cxl_numa.Packed.{update_data, read_key}
use outback_cxl_numa.Store.{
  IsPlaced, IsNamed, append-IsPlaced, append-IsNamed, update-IsPlaced, update-IsNamed,
  cachebit-IsPlaced, cachebit-IsNamed, set_cachebit_fields,
}
use outback_cxl_numa.Server.{
  Server, Reply, Lru, put_empty, put_matched, put_spare, put_full, put_case, seed_slot,
  outback_put_direct, outback_get_direct,
}
use outback_cxl_numa.Server.Stored.{
  first_free-some, IsValid, HasNames, HasRoom, stored, store_new-ok,
}

module _ {C : Type 0} (ludo : Ludo) (s : Server C) where
  -- The slot that `loc` names is free for the key, or it has the key's fingerprint and its entry is
  -- the key's.
  abbrev pub Fits : ℕ → ℕ → Type 0
  Fits loc key =
      (slot_length s.buckets (loc / 4) (loc % 4) ≡ 0)
      ⊎ ((slot_length s.buckets (loc / 4) (loc % 4) ≢ 0)
          × (to_finger (s.buckets.slots (loc / 4) (loc % 4)) ≡ fingerprint ludo key)
          × (read_key s.packed (read_addr s.buckets (loc / 4) (loc % 4)) ≡ key))

  -- What the property says of the reply and the server after a put of `val` under `key`.
  abbrev pub PutMeans : ℕ → ℕ → ℕ → Reply × Server C → Type 0
  PutMeans loc key val r =
      IsPlaced r.1.buckets r.1.packed
      × (HasNames ludo s → IsNamed ludo r.1.buckets r.1.packed)
      × (Fits loc key → outback_get_direct r.1 loc ≡ record { status = true; val = val })
      × (¬ Fits loc key → outback_get_direct r.1 loc ≡ outback_get_direct s loc)

  module _ (valid : IsValid ludo s) (room : HasRoom ludo s) (loc key val : ℕ) where
    -- The slot has another fingerprint, or its entry another key.
    abbrev Other : Type 0
    Other =
        (to_finger (s.buckets.slots (loc / 4) (loc % 4)) ≢ fingerprint ludo key)
        ⊎ (read_key s.packed (read_addr s.buckets (loc / 4) (loc % 4)) ≢ key)

    not-Fits : Fits loc key → slot_length s.buckets (loc / 4) (loc % 4) ≢ 0 → Other → ⊥
    not-Fits (inl e) occ other = occ e
    not-Fits (inr (_, f, e)) occ (inl other) = other f
    not-Fits (inr (_, f, e)) occ (inr other) = other e

    get-stored_self :
        outback_get_direct (stored ludo s key val (loc / 4) (loc % 4)) loc
        ≡ record { status = true; val = val }
    unfolding outback_get_direct
    get-stored_self =
        let e : read_addr (stored ludo s key val (loc / 4) (loc % 4)).buckets (loc / 4) (loc % 4)
            ≡ s.packed.num =
          (read-write_addr ludo s.buckets key (loc / 4) (loc % 4) s.packed.num 64 (omega arith)).1
          ∙ omega (arith, room, valid.narrow) in
        rw e (ground arith)

    get-stored_ne :
        (t : ℕ)
        → t ≢ loc % 4
        → slot_length s.buckets (loc / 4) (loc % 4) ≢ 0
        → outback_get_direct (stored ludo s key val (loc / 4) t) loc ≡ outback_get_direct s loc
    unfolding outback_get_direct read_addr
    get-stored_ne t n occ =
        rw
          (slots-write_addr_ne ludo s.buckets key (loc / 4) t s.packed.num 64 (loc / 4) (loc % 4)
            (inr (λ e. n (sym e))))
          (ground (arith, valid.placed (loc / 4) (loc % 4) occ))

    -- What stays of a word when its flag is set.
    get-cachebit :
        (c : Option C)
        → outback_get_direct
            (record s { lru = c; buckets = set_cachebit s.buckets (loc / 4) (loc % 4) })
            loc
          ≡ outback_get_direct s loc
    unfolding outback_get_direct read_addr
    get-cachebit c = rw (set_cachebit_fields s.buckets (loc / 4) (loc % 4) (loc / 4) (loc % 4)).2

    empty-PutMeans :
        slot_length s.buckets (loc / 4) (loc % 4) ≡ 0
        → Returns (put_empty ludo s key val (loc / 4) (loc % 4)) (PutMeans loc key val)
    unfolding put_empty
    empty-PutMeans e = (
      (record { status = true; val = 0 }, stored ludo s key val (loc / 4) (loc % 4)),
      rw (store_new-ok ludo s key val (loc / 4) (loc % 4) room valid),
      (
        append-IsPlaced ludo s.buckets s.packed key val (loc / 4) (loc % 4) room valid,
        append-IsNamed ludo s.buckets s.packed key val (loc / 4) (loc % 4) room valid,
        λ f. get-stored_self,
        λ n. absurd (n (inl e)),
      ),
    )

    spare-PutMeans :
        (reply : Reply)
        → slot_length s.buckets (loc / 4) (loc % 4) ≢ 0
        → Other
        → SpareSlot s.buckets (loc / 4) (loc % 4)
        → Returns (put_spare ludo s key val (loc / 4) reply) (PutMeans loc key val)
    unfolding put_spare
    spare-PutMeans reply occ other spare =
        let (t, free, lt, e) = first_free-some ludo s.buckets key (loc / 4) (loc % 4) spare in
        let ne : t ≢ loc % 4 = λ q. occ (rw q at e) in
        (
          (record { status = true; val = 2 }, stored ludo s key val (loc / 4) t),
          rw (free, put_spare, store_new-ok ludo s key val (loc / 4) t room valid),
          (
            append-IsPlaced ludo s.buckets s.packed key val (loc / 4) t room valid,
            append-IsNamed ludo s.buckets s.packed key val (loc / 4) t room valid,
            λ f. absurd (not-Fits f occ other),
            λ n. get-stored_ne t ne occ,
          ),
        )

    updated-PutMeans :
        slot_length s.buckets (loc / 4) (loc % 4) ≢ 0
        → to_finger (s.buckets.slots (loc / 4) (loc % 4)) ≡ fingerprint ludo key
        → read_key s.packed (read_addr s.buckets (loc / 4) (loc % 4)) ≡ key
        → PutMeans loc key val (
          record { status = true; val = 1 },
          record s {
            packed = update_data s.packed (read_addr s.buckets (loc / 4) (loc % 4)) key 64 val;
          },
        )
    unfolding outback_get_direct update_data
    updated-PutMeans occ finger e = (
      update-IsPlaced s.buckets s.packed valid (read_addr s.buckets (loc / 4) (loc % 4)) key 64 val,
      λ m.
          update-IsNamed s.buckets s.packed valid ludo m (read_addr s.buckets (loc / 4) (loc % 4))
            key 64 val e,
      λ f. ground arith,
      λ n. absurd (n (inr (occ, finger, e))),
    )

    matched-PutMeans :
        slot_length s.buckets (loc / 4) (loc % 4) ≢ 0
        → to_finger (s.buckets.slots (loc / 4) (loc % 4)) ≡ fingerprint ludo key
        → PutMeans loc key val (put_matched s key val (loc / 4) (loc % 4))
    unfolding put_matched
    matched-PutMeans occ finger =
        elim (Bool-cases (read_key s.packed (read_addr s.buckets (loc / 4) (loc % 4)) == key)) [
          | inl e ↦ rw e (updated-PutMeans occ finger ((==_iff _ _).0 e))
          | inr n ↦ rw n (
            valid,
            λ m. m,
            λ f. absurd (not-Fits f occ (inr λ e. cc (sym n ∙ (==_iff _ _).1 e))),
            λ m. refl,
          )
        ]

    cached :
        (cache : Lru C) (o : Option C) (reply : Reply)
        → slot_length s.buckets (loc / 4) (loc % 4) ≢ 0
        → Other
        → PutMeans loc key val (
          reply,
          elim o [
            | none ↦ s
            | some c ↦ record s {
              lru = some (cache.insert key val c);
              buckets = set_cachebit s.buckets (loc / 4) (loc % 4);
            }
          ],
        )
    cached cache none reply occ other =
        (valid, λ m. m, λ f. absurd (not-Fits f occ other), λ n. refl)
    cached cache (some c) reply occ other = (
      cachebit-IsPlaced s.buckets s.packed valid (loc / 4) (loc % 4),
      λ m. cachebit-IsNamed s.buckets s.packed valid ludo m (loc / 4) (loc % 4),
      λ f. absurd (not-Fits f occ other),
      λ n. get-cachebit (some (cache.insert key val c)),
    )

    full_slot :
        (slot : ℕ)
        → slot < 4
        → FullRow s.buckets (loc / 4)
        → slot_length s.buckets (loc / 4) slot ≢ 0
    full_slot zero lt f = f.0
    full_slot (suc zero) lt f = f.1
    full_slot (suc (suc zero)) lt f = f.2
    full_slot (suc (suc (suc zero))) lt f = f.3
    full_slot (suc (suc (suc (suc n)))) lt f = absurd (omega arith)

    case-PutMeans :
        (cache : Lru C) (reply : Reply) (status : ℕ)
        → StatusMeans ludo s.buckets key (loc / 4) (loc % 4) status
        → Returns
            (put_case ludo cache s key val (loc / 4) (loc % 4) status reply)
            (PutMeans loc key val)
    unfolding put_case put_full
    case-PutMeans cache reply status (inl (e, empty)) = rw e (empty-PutMeans empty)
    case-PutMeans cache reply status (inr (inl (e, occ, finger))) =
        rw e (put_matched s key val (loc / 4) (loc % 4), refl, matched-PutMeans occ finger)
    case-PutMeans cache reply status (inr (inr (inl (e, occ, ne, spare)))) =
        rw e (spare-PutMeans reply occ (inl ne) spare)
    case-PutMeans cache reply status (inr (inr (inr (e, ne, full)))) =
        let occ = full_slot (loc % 4) (omega arith) full in
        rw e (
          put_full cache s key val (loc / 4) (loc % 4),
          refl,
          cached cache s.lru (record { status = true; val = 2 ^ 8 + s.seeds (loc / 4) % 2 ^ 8 }) occ
              (inl ne),
        )

    -- A put that is not blocked, into a valid store with room, at the location that the row's seed
    -- gives the key, returns and keeps the store valid, and its slots named if they were. A `GET` at
    -- that location then sees the new value exactly when its slot was empty or held the key under its
    -- fingerprint; otherwise it sees what it saw before.
    pub put_direct_reads :
        (cache : Lru C) (now : ℕ) (reply : Reply)
        → s.blocked ≡ false
        → seed_slot ludo s.seeds (loc / 4) key ≡ loc % 4
        → Returns (outback_put_direct ludo cache now s loc key val reply) (PutMeans loc key val)
    unfolding outback_put_direct
    put_direct_reads cache now reply open_ seed =
        simp (open_, seed)
          (case-PutMeans cache reply _ (check_slots_status ludo s.buckets key (loc / 4) (loc % 4)))
