-- ===== src/Client/Versions.antt =====
-- outback/outback_client_numa.hh, `maybe_check_version`: the way a client's move takes, and a move
-- that fails.
pub mod Moves
use outback_cxl_numa.Base.{
  ℕ, ◌%◌, ◌≡◌, ◌≢◌, true, false, none, ◌∷◌, sub64, ne→==, if_cases, update_self,
}
use outback_cxl_numa.Registry.{Registry, current_epoch, open_shared_numa_region}
use outback_cxl_numa.Client.{
  ClientEnv, Client, beat, client_heartbeat, release_region, beat_slot, acknowledge, enter_region,
  acknowledged, remap_to_current_epoch, maybe_check_version,
}

module _ (env : ClientEnv) (c : Client) where
  abbrev pub remapped : Client
  remapped = maybe_check_version env c

  abbrev pub entered : Client
  entered = acknowledged (enter_region env (release_region c))

  pub check-remaps :
      c.attached ≡ true
      → c.shared.generation ≢ c.local_generation
      → c.shared.current_version ≢ c.local_version
      → remapped ≡ (remap_to_current_epoch env c).1
  unfolding maybe_check_version
  check-remaps at_ gen ver = simp (at_, ne→== _ _ gen, ne→== _ _ ver)

  pub remap-opens :
      c.attached ≡ true
      → (current_epoch c.shared).published ≢ 0
      → open_shared_numa_region env.region_calls ≡ true
      → remap_to_current_epoch env c ≡ (true, client_heartbeat env entered)
  unfolding remap_to_current_epoch
  remap-opens at_ pub_ opens = simp (at_, ne→== _ _ pub_, opens)

  pub remap-fails :
      c.attached ≡ true
      → (current_epoch c.shared).published ≢ 0
      → open_shared_numa_region env.region_calls ≡ false
      → remap_to_current_epoch env c ≡ (false, release_region c)
  unfolding remap_to_current_epoch
  remap-fails at_ pub_ opens = simp (at_, ne→== _ _ pub_, opens)

module _ (env : ClientEnv) (c : Client) (base fd v : ℕ) where
  -- The client after its region was given back.
  abbrev released : Client
  released = record c {
    deleted = v ∷ c.deleted;
    view = none;
    unmapped = base ∷ c.unmapped;
    closed = fd ∷ c.closed;
  }
