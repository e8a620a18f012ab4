-- ===== src/Setup/Cleanup.antt =====
-- benchs/outback/server_numa.cc, `cleanup_numa_ipc`: what is given back, and what is not.
use outback_cxl_numa.Base.{
  ℕ, ◌^◌, ◌<◌, ◌≡◌, ◌≢◌, true, false, some, none, ◌∷◌, refl, arith, if◌then◌else◌,
}
use outback_cxl_numa.Registry.ShmNames.{numa_meta_name, numa_region_name, numa_region_name_distinct}
use outback_cxl_numa.Setup.Lifecycle.{Process, Handles, cleanup_numa_ipc}

abbrev no_handles : Handles
no_handles = record {
  shared_meta = none;
  shared_region_base = none;
  shared_region_fd = none;
  shared_meta_fd = none;
}

module _ (p : Process) (meta base region_fd meta_fd : ℕ) where
  abbrev all_handles : Handles
  all_handles = record {
    shared_meta = some meta;
    shared_region_base = some base;
    shared_region_fd = some region_fd;
    shared_meta_fd = some meta_fd;
  }

  -- The process after its first clean-up.
  abbrev cleaned : Process
  cleaned = record p {
    cleanup_done = true;
    orchestrating = false;
    blocked = if p.orchestrating then false else p.blocked;
    registry = record p.registry { ready = 0 };
    state = some no_handles;
    metas_unmapped = meta ∷ p.metas_unmapped;
    regions_unmapped = (base, p.region_size) ∷ p.regions_unmapped;
    closed = region_fd ∷ (meta_fd ∷ p.closed);
    unlinked = numa_region_name p.server_name 0 ∷ (numa_meta_name p.server_name ∷ p.unlinked);
  }

  cleanup-cleaned :
      p.cleanup_done ≡ false
      → 0 < p.region_size
      → p.state ≡ some all_handles
      → cleanup_numa_ipc p ≡ cleaned
  unfolding cleanup_numa_ipc
  cleanup-cleaned first size e = ground arith

  cleanup-cleanup : cleanup_numa_ipc cleaned ≡ cleaned
  unfolding cleanup_numa_ipc
  cleanup-cleanup = refl

-- The first clean-up of a server that is up stops the orchestrator, lets mutations in if it was
-- running, marks the registry as not ready, and unmaps and closes registry and region; a second one
-- does nothing. It unlinks the registry, and no region that has a version, so that the region of the
-- server stays behind.
pub cleanup_releases :
    (p : Process) (meta base region_fd meta_fd : ℕ)
    → p.cleanup_done ≡ false
    → 0 < p.region_size
    → p.state
      ≡ some (record {
        shared_meta = some meta;
        shared_region_base = some base;
        shared_region_fd = some region_fd;
        shared_meta_fd = some meta_fd;
      })
    → ((cleanup_numa_ipc p).orchestrating ≡ false)
      × (p.orchestrating ≡ true → (cleanup_numa_ipc p).blocked ≡ false)
      × ((cleanup_numa_ipc p).registry.ready ≡ 0)
      × ((cleanup_numa_ipc p).state ≡ some no_handles)
      × ((cleanup_numa_ipc p).metas_unmapped ≡ meta ∷ p.metas_unmapped)
      × ((cleanup_numa_ipc p).regions_unmapped ≡ (base, p.region_size) ∷ p.regions_unmapped)
      × ((cleanup_numa_ipc p).closed ≡ region_fd ∷ (meta_fd ∷ p.closed))
      × (cleanup_numa_ipc (cleanup_numa_ipc p) ≡ cleanup_numa_ipc p)
      × ((cleanup_numa_ipc p).unlinked
          ≡ numa_region_name p.server_name 0 ∷ (numa_meta_name p.server_name ∷ p.unlinked))
      × ((v : ℕ)
          → v ≢ 0
          → v < 2 ^ 64
          → (numa_region_name p.server_name v ≢ numa_region_name p.server_name 0)
            × (numa_region_name p.server_name v ≢ numa_meta_name p.server_name))
cleanup_releases p meta base region_fd meta_fd first size e =
    let names = numa_region_name_distinct p.server_name in
    rw (cleanup-cleaned p meta base region_fd meta_fd first size e) (
      refl,
      λ running. rw running,
      refl,
      refl,
      refl,
      refl,
      refl,
      cleanup-cleanup p meta base region_fd meta_fd,
      refl,
      λ v versioned small.
          (λ same. versioned (names.0 v 0 small (omega arith) same), names.1 p.server_name v),
    )
