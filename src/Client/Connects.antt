-- ===== src/Client/Connects.antt =====
-- outback/outback_client_numa.hh, `connect_to_numa_server`: a connection that fails after it has
-- claimed a slot of the client table.
use outback_cxl_numa.Base.{
  ℕ, zero, suc, ◌+◌, ◌<◌, ◌≡◌, ◌≢◌, refl, ◌∙◌, ap, arith, true, false, some, add64, ne→==, ==_iff,
  ℕ_discrete, ◌≤◌, update_self,
}
use outback_cxl_numa.Registry.{
  current_epoch, open_shared_numa_region, map_numa_registry, numa_meta_magic, max_clients,
}
use outback_cxl_numa.Client.{
  ClientEnv, Client, claim, claim_from, check_registry, join_region, connect_cross_process,
}

claim_from-first :
    (c : Client) (i n j : ℕ)
    → j ≤ i
    → i < j + n
    → ((k : ℕ) → k < i → (c.shared.clients k).active ≢ 0)
    → (c.shared.clients i).active ≡ 0
    → claim_from n j c ≡ claim i c
unfolding claim_from
claim_from-first c i zero j lo hi others free = absurd (omega arith)
claim_from-first c i (suc n) j lo hi others free = elim (ℕ_discrete j i) [
  | yes e ↦ rw e (rw ((==_iff _ _).1 free) refl)
  | no ne ↦
      rw (ne→== _ _ (others j (omega arith)))
        (claim_from-first c i n (j + 1) (omega arith) (omega arith) others free)
]

-- A client that claims a slot and then fails to map the region gives the registry up without giving
-- the slot back: the server waits for a client that is not there.
pub failed_connect_keeps_slot :
    (env : ClientEnv) (c : Client) (i : ℕ)
    → c.shared.magic ≡ numa_meta_magic
    → c.shared.ready ≢ 0
    → (current_epoch c.shared).published ≢ 0
    → map_numa_registry env.registry_calls false c.shared ≡ some c.shared
    → open_shared_numa_region env.region_calls ≡ false
    → i < max_clients
    → ((j : ℕ) → j < i → (c.shared.clients j).active ≢ 0)
    → (c.shared.clients i).active ≡ 0
    → ((connect_cross_process env c).0 ≡ false)
      × ((connect_cross_process env c).1.attached ≡ false)
      × (((connect_cross_process env c).1.shared.clients i).active ≡ 1)
      × ((connect_cross_process env c).1.shared.registered_clients
          ≡ add64 c.shared.registered_clients 1)
unfolding connect_cross_process check_registry join_region
failed_connect_keeps_slot env c i magic ready published maps opens lt others free =
    let seen = record c { attached = true } in
    let e : connect_cross_process env c ≡ (false, record (claim i seen) { attached = false }) =
      ap (check_registry env c) maps
      ∙ simp (
        (==_iff _ _).1 magic,
        ne→== _ _ ready,
        ne→== _ _ published,
        claim_from-first seen i max_clients 0 (omega arith) (omega arith) others free,
        opens,
      ) in
    rw e (refl, refl, ap (λ x. x.active) (update_self c.shared.clients i _), refl)
