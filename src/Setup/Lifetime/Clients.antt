-- ===== src/Setup/Lifetime/Clients.antt =====
-- outback/outback_client_numa.hh: the clients' slots in the registry and the count of the clients.
use outback_cxl_numa.Base.{ℕ, dec_lt, update, zero, suc, ◌+◌, ◌-◌, ◌<◌, ◌≡◌, refl, sym, ◌∙◌, arith}
use outback_cxl_numa.Registry.{Registry, ClientLiveness, max_clients}
use outback_cxl_numa.Resize.Clients.{
  count_active, count_active-above, count_active-le, count_active-update, flag_update,
}
use outback_cxl_numa.Client.{beat, claim, Client}
use outback_cxl_numa.Setup.Lifetime.{IsTalliedUp, take_slot, count_client}

-- A claim of a slot is the two steps of a client.
claim-steps : (i : ℕ) (c : Client) → (claim i c).shared ≡ count_client (take_slot i c.shared)
unfolding claim count_client take_slot
claim-steps i c = refl

pub same-IsTalliedUp :
    (n : ℕ) (reg reg' : Registry)
    → reg'.clients ≡ reg.clients
    → reg'.registered_clients ≡ reg.registered_clients
    → IsTalliedUp n reg
    → IsTalliedUp n reg'
same-IsTalliedUp n reg reg' c r h = record { flags = rw c h.flags; counted = rw (c, r) h.counted }

pub take-IsTalliedUp :
    (n i : ℕ) (reg : Registry)
    → i < max_clients
    → (reg.clients i).active ≡ 0
    → IsTalliedUp n reg
    → IsTalliedUp (n + 1) (take_slot i reg)
unfolding take_slot
take-IsTalliedUp n i reg lt z h = record {
  flags = λ j. flag_update reg.clients i j _ h.flags (omega arith);
  counted = ground (
    arith,
    z,
    h.counted,
    count_active-update max_clients i reg.clients (record (reg.clients i) { active = 1 }) lt,
  );
}

pub count-IsTalliedUp :
    (n : ℕ) (reg : Registry) → 0 < n → IsTalliedUp n reg → IsTalliedUp (n - 1) (count_client reg)
unfolding count_client
count-IsTalliedUp n reg pos h = record {
  flags = h.flags;
  counted = let few = count_active-le max_clients reg.clients in omega (arith, pos, few, h.counted);
}

-- Another slot with the same flag counts the same.
count_active_beat :
    (n i : ℕ) (clients : ℕ → ClientLiveness) (c : ClientLiveness)
    → c.active ≡ (clients i).active
    → count_active n (update clients i c) ≡ count_active n clients
count_active_beat n i clients c e = elim (dec_lt i n) [
  | yes lt ↦ ground (arith, e, count_active-update n i clients c lt)
  | no le ↦ count_active-above n i clients c (omega (arith, le))
]

pub beat-IsTalliedUp :
    (n now i : ℕ) (reg : Registry) → IsTalliedUp n reg → IsTalliedUp n (beat now reg i)
unfolding beat
beat-IsTalliedUp n now i reg h = record {
  flags = λ j. flag_update reg.clients i j _ h.flags (h.flags i);
  counted = h.counted ∙ sym (count_active_beat max_clients i reg.clients _ refl);
}

-- Without an active slot the count is 0.
pub count_active_none :
    (n : ℕ) (clients : ℕ → ClientLiveness)
    → ((i : ℕ) → (clients i).active ≡ 0)
    → count_active n clients ≡ 0
unfolding count_active
count_active_none zero clients h = refl
count_active_none (suc n) clients h = ground (arith, h n, count_active_none n clients h)
