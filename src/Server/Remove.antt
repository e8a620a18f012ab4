-- ===== src/Server/Remove.antt =====
-- outback/outback_server_numa.hh, `outback_remove_direct` and `outback_update_direct`: the store
-- and a `GET` after them.
use outback_cxl_numa.Base.{
  ℕ, ◌/◌, ◌%◌, ◌≡◌, ◌≢◌, ◌⊎◌, inl, inr, refl, arith, ◌==◌, ==_iff, Bool-cases, sym, ◌∙◌, true,
  false, update, ℕ_discrete,
}
use outback_cxl_numa.Ludo.{Ludo}
use outback_cxl_numa.Slot.{read_addr, remove_addr, to_length}
use outback_cxl_numa.Slot.Buckets.{slot_length}
use outback_cxl_numa.Packed.{read_key, update_data, remove_data_with_key_check, zero_entry}
use outback_cxl_numa.Store.{update-IsPlaced, update-IsNamed, remove-IsPlaced, remove-IsNamed}
use outback_cxl_numa.Server.{
  Server, outback_get_direct, outback_update_direct, outback_remove_direct,
}
use outback_cxl_numa.Server.Stored.{IsValid, HasNames}

module _ {C : Type 0} (ludo : Ludo) (s : Server C) (loc key : ℕ) where
  -- The key of the entry that the slot named by `loc` points to.
  abbrev pub key_at : ℕ
  key_at = read_key s.packed (read_addr s.buckets (loc / 4) (loc % 4))

  -- An update keeps the store valid, and its slots named if they were. It succeeds exactly when the
  -- slot's entry has the key, and then a `GET` at that location sees the new value; otherwise it
  -- changes nothing.
  pub update_direct_reads :
      (val : ℕ)
      → IsValid ludo s
      → IsValid ludo (outback_update_direct s loc key val).1
        × (HasNames ludo s → HasNames ludo (outback_update_direct s loc key val).1)
        × (key_at ≡ key
            → ((outback_update_direct s loc key val).0 ≡ record { status = true; val = 1 })
              × (outback_get_direct (outback_update_direct s loc key val).1 loc
                  ≡ record { status = true; val = val }))
        × (key_at ≢ key
            → outback_update_direct s loc key val ≡ (record { status = false; val = 0 }, s))
  unfolding outback_update_direct outback_get_direct update_data
  update_direct_reads val v = elim (Bool-cases (key_at == key)) [
    | inl e ↦
        let same = (==_iff key_at key).0 e in
        rw e (
          update-IsPlaced s.buckets s.packed v _ key 64 val,
          λ m. update-IsNamed s.buckets s.packed v ludo m _ key 64 val same,
          λ h. (refl, ground arith),
          λ n. absurd (n same),
        )
    | inr n ↦ rw n (v, λ m. m, λ h. cc (sym n ∙ (==_iff key_at key).1 h), λ m. refl)
  ]

  -- The server after the slot named by `loc` and its entry are cleared.
  abbrev cleared : Server C
  cleared = record s {
    packed = record s.packed {
      raw_array = update s.packed.raw_array (read_addr s.buckets (loc / 4) (loc % 4)) zero_entry;
    };
    buckets = remove_addr s.buckets (loc / 4) (loc % 4);
  }

  remove_hit :
      (now : ℕ)
      → s.blocked ≡ false
      → key_at ≡ key
      → outback_remove_direct now s loc key ≡ (record { status = true; val = 0 }, cleared)
  unfolding outback_remove_direct remove_data_with_key_check read_key
  remove_hit now open_ e = ground arith

  remove_miss :
      (now : ℕ)
      → s.blocked ≡ false
      → key_at ≢ key
      → outback_remove_direct now s loc key ≡ (record { status = true; val = 0 }, s)
  unfolding outback_remove_direct remove_data_with_key_check read_key
  remove_miss now open_ n = ground arith

  cleared_empty : slot_length cleared.buckets (loc / 4) (loc % 4) ≡ 0
  unfolding remove_addr to_length
  cleared_empty = ground arith

  occupied :
      (slot_length s.buckets (loc / 4) (loc % 4) ≢ 0) ⊎ (key_at ≢ key)
      → key_at ≡ key
      → slot_length s.buckets (loc / 4) (loc % 4) ≢ 0
  occupied (inl o) same = o
  occupied (inr n) same = absurd (n same)

  -- A removal that is not blocked keeps the store valid, and its slots named if they were and the
  -- slot is occupied or its entry has another key. If the entry has the key the slot is empty
  -- afterwards; otherwise nothing changes. The reply is the same in both cases.
  pub remove_direct_reads :
      (now : ℕ)
      → s.blocked ≡ false
      → IsValid ludo s
      → IsValid ludo (outback_remove_direct now s loc key).1
        × (HasNames ludo s
            → (slot_length s.buckets (loc / 4) (loc % 4) ≢ 0) ⊎ (key_at ≢ key)
            → HasNames ludo (outback_remove_direct now s loc key).1)
        × ((outback_remove_direct now s loc key).0 ≡ record { status = true; val = 0 })
        × (key_at ≡ key
            → slot_length (outback_remove_direct now s loc key).1.buckets (loc / 4) (loc % 4) ≡ 0)
        × (key_at ≢ key → (outback_remove_direct now s loc key).1 ≡ s)
  remove_direct_reads now open_ v = elim (ℕ_discrete key_at key) [
    | yes e ↦ rw (remove_hit now open_ e) (
      remove-IsPlaced s.buckets s.packed v (loc / 4) (loc % 4),
      λ m h. remove-IsNamed s.buckets s.packed v ludo m (loc / 4) (loc % 4) (occupied h e),
      refl,
      λ _. cleared_empty,
      λ n. absurd (n e),
    )
    | no n ↦ rw (remove_miss now open_ n) (v, λ m h. m, refl, λ e. absurd (n e), λ m. refl)
  ]
