-- ===== src/Client/Keeps.antt =====
-- outback/outback_client_numa.hh, `numa_put`: the fields that it leaves alone.
use outback_cxl_numa.Base.{
  ℕ, ◌%◌, ◌≡◌, ◌⊎◌, inl, inr, refl, sym, ◌∙◌, false, ltb, Option, ◌==◌, if_cases, ==_iff,
  Bool-cases, Option-cases,
}
use outback_cxl_numa.Ludo.{Ludo}
use outback_cxl_numa.Slot.{read_addr, check_slots}
use outback_cxl_numa.Packed.{read_key}
use outback_cxl_numa.Registry.Lanes.{alloc_remote_data_slot, lanes_of}
use outback_cxl_numa.Registry.{Registry, current_epoch}
use outback_cxl_numa.Server.{first_free, seed_slot}
use outback_cxl_numa.Client.{ClientEnv, Client, maybe_check_version}
use outback_cxl_numa.Client.Ops.{
  alloc, put_new, put_same, put_any, put_over, put_status, put_region,
}

-- Nothing new to see for the client: it stays in its region.
abbrev pub IsCurrent : Client → Type 0
IsCurrent c = (c.attached ≡ false) ⊎ (c.shared.generation ≡ c.local_generation)

pub maybe_check_version-same :
    (env : ClientEnv) (c : Client) → IsCurrent c → maybe_check_version env c ≡ c
unfolding maybe_check_version
maybe_check_version-same env c (inl e) = rw e
maybe_check_version-same env c (inr e) = elim (Bool-cases c.attached) [
  | inl a ↦ rw (a, (==_iff _ _).1 e)
  | inr a ↦ rw a
]

module _ (ludo : Ludo) (c : Client) (v key val : ℕ) where
  -- What a put leaves alone.
  abbrev pub Keeps : Client → Type 0
  Keeps c' =
      (c'.attached ≡ c.attached)
      × (c'.shared.generation ≡ c.shared.generation)
      × (c'.local_generation ≡ c.local_generation)
      × (c'.view ≡ c.view)
      × (c'.remote_view ≡ c.remote_view)

  alloc_slot-generation :
      (alloc_remote_data_slot c.shared c.lane_id).1.generation ≡ c.shared.generation
  unfolding alloc_remote_data_slot
  alloc_slot-generation =
      if_cases (λ (r : Option ℕ × Registry). r.1.generation ≡ c.shared.generation)
        (ltb (c.shared.lane_next_free_index (c.lane_id % lanes_of c.shared))
          (current_epoch c.shared).num_data_entries)
        (λ _. refl) (λ _. refl)

  alloc-Keeps : Keeps (alloc c).1
  unfolding alloc
  alloc-Keeps =
      if_cases (λ (r : Option ℕ × Client). Keeps r.1) c.attached
        (λ _. (refl, alloc_slot-generation, refl, refl, refl)) (λ _. (refl, refl, refl, refl, refl))

  put_new-Keeps : (row t : ℕ) → Keeps (put_new ludo c v key val row t)
  unfolding put_new
  put_new-Keeps row t = elim (Option-cases (alloc c).0) [
    | inl e ↦ rw (e, put_new) alloc-Keeps
    | inr (idx, e) ↦ rw (e, put_new) alloc-Keeps
  ]

  put_any-Keeps : (row : ℕ) → Keeps (put_any ludo c v key val row)
  unfolding put_any
  put_any-Keeps row = elim (Option-cases (first_free ludo (c.regions v).buckets key row)) [
    | inl e ↦ rw (e, put_any) (refl, refl, refl, refl, refl)
    | inr (t, e) ↦ rw (e, put_any) (put_new-Keeps row t)
  ]

  pub put_region-Keeps : Keeps (put_region ludo c v key val)
  unfolding put_region put_status put_same put_over
  put_region-Keeps =
      let row = (ludo.lookup_slot c.seeds key).0 in
      let slot = seed_slot ludo c.seeds row key in
      let status = check_slots ludo (c.regions v).buckets key row slot in
      if_cases Keeps (status == 0) (λ _. put_new-Keeps row slot)
        (λ _.
          if_cases Keeps (status == 1)
            (λ _.
              if_cases Keeps
                (read_key (c.regions v).packed (read_addr (c.regions v).buckets row slot) == key)
                (λ _. (refl, refl, refl, refl, refl)) (λ _. (refl, refl, refl, refl, refl)))
            (λ _.
              if_cases Keeps (status == 2) (λ _. put_any-Keeps row)
                (λ _.
                  if_cases Keeps (status == 3) (λ _. (refl, refl, refl, refl, refl))
                    (λ _. (refl, refl, refl, refl, refl)))))

  pub Keeps-IsCurrent : (c' : Client) → Keeps c' → IsCurrent c → IsCurrent c'
  Keeps-IsCurrent c' (a, g, l, _, _) (inl e) = inl (a ∙ e)
  Keeps-IsCurrent c' (a, g, l, _, _) (inr e) = inr (g ∙ e ∙ sym l)
