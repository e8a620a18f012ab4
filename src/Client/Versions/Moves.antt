-- ===== src/Client/Versions/Moves.antt =====
-- outback/outback_client_numa.hh, `maybe_check_version`: what a client has after it looked for a new
-- version.
use outback_cxl_numa.Base.{
  ℕ, ◌+◌, ◌%◌, ◌≡◌, ◌≢◌, ◌⊎◌, inl, inr, refl, sym, ◌∙◌, ap, true, false, Option, none, some, ◌∷◌,
  sub64, ne→==, ==_iff, if_cases, update_self, update_ne,
}
use outback_cxl_numa.Registry.{Registry, ResizeEpoch, current_epoch, open_shared_numa_region}
use outback_cxl_numa.Client.{
  ClientEnv, Client, delete_view, beat, client_heartbeat, release, release_region, beat_slot,
  acknowledge, wrap_region, enter_region, acknowledged, remap_to_current_epoch, maybe_check_version,
}
use outback_cxl_numa.Client.Versions.{remapped, entered, check-remaps, remap-opens}

module _ (env : ClientEnv) (c : Client) where
  -- The old region's view, base and descriptor are given back if it had both.
  pub record HasReleased (c' : Client) : Type 0 where
    pub held :
        (base fd : ℕ)
        → c.region_base ≡ some base
        → c.region_fd ≡ some fd
        → (c'.unmapped ≡ base ∷ c.unmapped)
          × (c'.closed ≡ fd ∷ c.closed)
          × (c'.deleted ≡ delete_view c.view c.deleted)
    pub unheld :
        (c.region_base ≡ none) ⊎ (c.region_fd ≡ none)
        → (c'.unmapped ≡ c.unmapped) × (c'.closed ≡ c.closed) × (c'.deleted ≡ c.deleted)

  -- What a client that moved to the current version has: the new region under a new view, with the
  -- epoch's sizes; the old region given back; one acknowledgement less awaited, in this epoch only.
  pub record HasMoved (c' : Client) : Type 0 where
    pub version : c'.local_version ≡ c.shared.current_version
    pub generation : c'.local_generation ≡ c.shared.generation
    pub viewed : c'.view ≡ some env.new_view
    pub base : c'.region_base ≡ some env.new_base
    pub fd : c'.region_fd ≡ some env.new_fd
    pub lock : c'.lock ≡ some (env.new_base + (current_epoch c.shared).lock_array_offset)
    pub size : c'.region_size ≡ (current_epoch c.shared).region_size
    pub buckets :
        (c'.regions env.new_view).buckets.num_elements ≡ (current_epoch c.shared).num_buckets
    pub entries :
        (c'.regions env.new_view).packed.num_elements ≡ (current_epoch c.shared).num_data_entries
    pub other_views : (v : ℕ) → v ≢ env.new_view → c'.regions v ≡ c.regions v
    pub released : HasReleased c'
    pub acked :
        (current_epoch c'.shared).clients_pending_ack
        ≡ sub64 (current_epoch c.shared).clients_pending_ack 1
    pub other_epochs :
        (k : ℕ) → k ≢ c.shared.current_version % 16 → c'.shared.epoch k ≡ c.shared.epoch k
    pub waits : c'.shared.generation ≡ c.shared.generation

  release-keeps :
      (base fd : Option ℕ)
      → ((release base fd c).shared ≡ c.shared)
        × ((release base fd c).regions ≡ c.regions)
        × ((release base fd c).client_slot ≡ c.client_slot)
        × ((release base fd c).attached ≡ c.attached)
  unfolding release
  release-keeps none fd = (refl, refl, refl, refl)
  release-keeps (some b) none = (refl, refl, refl, refl)
  release-keeps (some b) (some f) = (refl, refl, refl, refl)

  release_region-shared : (release_region c).shared ≡ c.shared
  unfolding release_region
  release_region-shared = (release-keeps c.region_base c.region_fd).0

  release_region-keeps :
      ((release_region c).shared ≡ c.shared) × ((release_region c).regions ≡ c.regions)
  unfolding release_region
  release_region-keeps = let (a, b, _, _) = release-keeps c.region_base c.region_fd in (a, b)

  release_region-HasReleased : HasReleased (release_region c)
  unfolding release_region release
  release_region-HasReleased = record {
    held = λ base fd b f. rw (b, f) (refl, refl, refl);
    unheld = unheld_;
  }
    where
      unheld_ :
          (c.region_base ≡ none) ⊎ (c.region_fd ≡ none)
          → ((release_region c).unmapped ≡ c.unmapped)
            × ((release_region c).closed ≡ c.closed)
            × ((release_region c).deleted ≡ c.deleted)
      unheld_ (inl b) = rw b (refl, refl, refl)
      unheld_ (inr f) = none_fd c.region_base f
        where
          none_fd :
              (base : Option ℕ)
              → c.region_fd ≡ none
              → ((release base c.region_fd c).unmapped ≡ c.unmapped)
                × ((release base c.region_fd c).closed ≡ c.closed)
                × ((release base c.region_fd c).deleted ≡ c.deleted)
          none_fd none f = (refl, refl, refl)
          none_fd (some b) f = rw f (refl, refl, refl)

  entered-HasMoved : HasMoved (entered env c)
  unfolding enter_region acknowledged acknowledge current_epoch wrap_region
  entered-HasMoved =
      let (shared, regions) = release_region-keeps in
      let back = release_region-HasReleased in
      record {
        version = ap (λ r. r.current_version) shared;
        generation = ap (λ r. r.generation) shared;
        viewed = refl;
        base = refl;
        fd = refl;
        lock = ap (λ r. some (env.new_base + (current_epoch r).lock_array_offset)) shared;
        size = ap (λ r. (current_epoch r).region_size) shared;
        buckets =
            ap (λ g. g.buckets.num_elements) (view_at (current_epoch (release_region c).shared))
            ∙ ap (λ r. (current_epoch r).num_buckets) shared;
        entries =
            ap (λ g. g.packed.num_elements) (view_at (current_epoch (release_region c).shared))
            ∙ ap (λ r. (current_epoch r).num_data_entries) shared;
        other_views = λ v n.
            update_ne (release_region c).regions env.new_view v _ (λ e. n (sym e))
            ∙ ap (λ r. r v) regions;
        released = record { held = back.held; unheld = back.unheld };
        acked =
            update_acked (release_region c).shared
            ∙ ap (λ r. sub64 (current_epoch r).clients_pending_ack 1) shared;
        other_epochs = λ k n.
            update_ne (release_region c).shared.epoch
              ((release_region c).shared.current_version % 16) k _
              (λ e. n (sym e ∙ ap (λ r. r.current_version % 16) shared))
            ∙ ap (λ r. r.epoch k) shared;
        waits = ap (λ r. r.generation) shared;
      }
    where
      view_at :
          (ep : ResizeEpoch)
          → (entered env c).regions env.new_view
            ≡ wrap_region env (current_epoch (release_region c).shared)
      view_at ep = update_self (release_region c).regions env.new_view _

      update_acked :
          (r : Registry)
          → (current_epoch (acknowledge r r.current_version)).clients_pending_ack
            ≡ sub64 (current_epoch r).clients_pending_ack 1
      update_acked r =
          ap (λ e. e.clients_pending_ack) (update_self r.epoch (r.current_version % 16) _)

  beat_slot-HasMoved :
      (slot : Option ℕ) (c' : Client) → HasMoved c' → HasMoved (beat_slot env slot c')
  unfolding beat_slot beat current_epoch
  beat_slot-HasMoved none c' h = h
  beat_slot-HasMoved (some s) c' h = record {
    version = h.version;
    generation = h.generation;
    viewed = h.viewed;
    base = h.base;
    fd = h.fd;
    lock = h.lock;
    size = h.size;
    buckets = h.buckets;
    entries = h.entries;
    other_views = h.other_views;
    released = record { held = h.released.held; unheld = h.released.unheld };
    acked = h.acked;
    other_epochs = h.other_epochs;
    waits = h.waits;
  }

  heartbeat-HasMoved : (c' : Client) → HasMoved c' → HasMoved (client_heartbeat env c')
  unfolding client_heartbeat
  heartbeat-HasMoved c' h =
      if_cases HasMoved c'.attached (λ _. beat_slot-HasMoved c'.client_slot c' h) (λ _. h)

  -- What a client has that only noticed the new generation.
  pub record HasNoticed (c' : Client) : Type 0 where
    pub generation : c'.local_generation ≡ c.shared.generation
    pub version : c'.local_version ≡ c.local_version
    pub viewed : c'.view ≡ c.view
    pub regions : c'.regions ≡ c.regions
    pub unmapped : c'.unmapped ≡ c.unmapped
    pub epochs : c'.shared.epoch ≡ c.shared.epoch

  noticed : Client
  noticed = record c { local_generation = c.shared.generation }

  notice-HasNoticed : (slot : Option ℕ) → HasNoticed (beat_slot env slot noticed)
  unfolding noticed beat_slot beat
  notice-HasNoticed none = record {
    generation = refl;
    version = refl;
    viewed = refl;
    regions = refl;
    unmapped = refl;
    epochs = refl;
  }
  notice-HasNoticed (some s) = record {
    generation = refl;
    version = refl;
    viewed = refl;
    regions = refl;
    unmapped = refl;
    epochs = refl;
  }

  check-noticed :
      c.attached ≡ true
      → c.shared.generation ≢ c.local_generation
      → c.shared.current_version ≡ c.local_version
      → remapped env c ≡ beat_slot env c.client_slot noticed
  unfolding maybe_check_version client_heartbeat noticed
  check-noticed at_ gen ver = simp (at_, ne→== _ _ gen, (==_iff _ _).1 ver)

  check-notices :
      c.attached ≡ true
      → c.shared.generation ≢ c.local_generation
      → c.shared.current_version ≡ c.local_version
      → HasNoticed (remapped env c)
  check-notices at_ gen ver = rw (check-noticed at_ gen ver) (notice-HasNoticed c.client_slot)

  check-stays : c.attached ≡ true → c.shared.generation ≡ c.local_generation → remapped env c ≡ c
  unfolding maybe_check_version
  check-stays at_ gen = rw (at_, (==_iff c.shared.generation c.local_generation).1 gen) refl

  remap-unpublished :
      c.attached ≡ true
      → (current_epoch c.shared).published ≡ 0
      → remap_to_current_epoch env c ≡ (false, c)
  unfolding remap_to_current_epoch
  remap-unpublished at_ pub_ = rw (at_, (==_iff _ _).1 pub_) refl

  -- An attached client looks for a new version. Without a new generation it is as before. With a new
  -- generation of the same version it notices it, and keeps version, view and regions, and no epoch
  -- changes. With a new version whose epoch is not published it is as before. If that is published and
  -- its region can be mapped, the client ends in the current version with a fresh view of the epoch's
  -- sizes, new base, descriptor and locks, its old region is given back if it had one, and the epoch
  -- waits for one acknowledgement less, a count that wraps from 0 to 2^64 - 1.
  pub check_moves :
      c.attached ≡ true
      → (c.shared.generation ≡ c.local_generation → remapped env c ≡ c)
        × (c.shared.generation ≢ c.local_generation
            → (c.shared.current_version ≡ c.local_version → HasNoticed (remapped env c))
              × (c.shared.current_version ≢ c.local_version
                  → ((current_epoch c.shared).published ≡ 0 → remapped env c ≡ c)
                    × ((current_epoch c.shared).published ≢ 0
                        → open_shared_numa_region env.region_calls ≡ true
                        → HasMoved (remapped env c))))
  check_moves at_ = (
    check-stays at_,
    λ gen. (
      check-notices at_ gen,
      λ ver. (
        λ unpub. check-remaps env c at_ gen ver ∙ ap (λ r. r.1) (remap-unpublished at_ unpub),
        λ pub_ opens.
            rw (check-remaps env c at_ gen ver, remap-opens env c at_ pub_ opens)
              (heartbeat-HasMoved (entered env c) entered-HasMoved),
      ),
    ),
  )
