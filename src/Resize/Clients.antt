-- ===== src/Resize/Clients.antt =====
-- outback/outback_resize.hh: the table of clients and the count `registered_clients`.
use outback_cxl_numa.Base.{
  ℕ, zero, suc, ◌+◌, ◌≤◌, ◌<◌, ◌≡◌, ◌≢◌, ◌⊎◌, inl, inr, refl, sym, ap, ◌∙◌, arith, Option, false,
  List, [], ◌∷◌, none, some, ◌==◌, leb, if◌then◌else◌, update, ℕ_discrete, Bool-cases, if_cases,
  ==_iff,
}
use outback_cxl_numa.Registry.{Registry, ClientLiveness, max_clients}
use outback_cxl_numa.Resize.{
  fresh_client, register_from, register_client, update_heartbeat, deregister_client,
}

-- The active ones among the first `n` slots.
unfoldable pub count_active : ℕ → (ℕ → ClientLiveness) → ℕ
count_active zero clients = 0
count_active (suc n) clients =
    let m = count_active n clients in if (clients n).active == 0 then m else m + 1

pub record IsCensus (reg : Registry) : Type 0 where
  pub flags : (i : ℕ) → (reg.clients i).active ≤ 1
  pub counted : reg.registered_clients ≡ count_active max_clients reg.clients

pub count_active-le : (n : ℕ) (clients : ℕ → ClientLiveness) → count_active n clients ≤ n
unfolding count_active
count_active-le zero clients = omega arith
count_active-le (suc n) clients = ground (arith, count_active-le n clients)

pub count_active-above :
    (n i : ℕ) (clients : ℕ → ClientLiveness) (c : ClientLiveness)
    → n ≤ i
    → count_active n (update clients i c) ≡ count_active n clients
unfolding count_active
count_active-above zero i clients c h = refl
count_active-above (suc n) i clients c h = ground (arith, count_active-above n i clients c)

abbrev pub weight : ClientLiveness → ℕ
weight c = if c.active == 0 then 0 else 1

pub count_active-update :
    (n i : ℕ) (clients : ℕ → ClientLiveness) (c : ClientLiveness)
    → i < n
    → count_active n (update clients i c) + weight (clients i) ≡ count_active n clients + weight c
unfolding count_active
count_active-update zero i clients c h = absurd (omega arith)
count_active-update (suc n) i clients c h = elim (ℕ_discrete i n) [
  | yes e ↦ ground (arith, count_active-above n i clients c)
  | no ne ↦ ground (arith, count_active-update n i clients c)
]

module _ (reg : Registry) (now : ℕ) where
  -- The first free slot among `n` from slot `i`, or none is free.
  abbrev FirstFree : ℕ → ℕ → Option ℕ × Registry → Type 0
  FirstFree n i r =
      ((r.0 ≡ none) × (r.1 ≡ reg) × ((j : ℕ) → i ≤ j → j < i + n → (reg.clients j).active ≢ 0))
      ⊎ ((s : ℕ) × (r.0 ≡ some s)
          × (i ≤ s)
          × (s < i + n)
          × ((reg.clients s).active ≡ 0)
          × (r.1 ≡ fresh_client reg s now)
          × ((j : ℕ) → i ≤ j → j < s → (reg.clients j).active ≢ 0))

  register_from_first : (n i : ℕ) → FirstFree n i (register_from n i reg now)
  unfolding register_from
  register_from_first zero i = inl (refl, refl, λ j a b. absurd (omega arith))
  register_from_first (suc n) i = elim (Bool-cases ((reg.clients i).active == 0)) [
    | inl e ↦ rw e (
        inr (
          i,
          refl,
          omega arith,
          omega arith,
          (==_iff _ _).0 e,
          refl,
          λ j a b. absurd (omega arith),
        ))
    | inr e ↦ rw e (later e (register_from_first n (i + 1)))
  ]
    where
      here : ((reg.clients i).active == 0) ≡ false → (j : ℕ) → j ≡ i → (reg.clients j).active ≢ 0
      here e j q z = cc (sym e ∙ (==_iff _ _).1 (ap (λ k. (reg.clients k).active) (sym q) ∙ z))

      later :
          ((reg.clients i).active == 0) ≡ false
          → FirstFree n (i + 1) (register_from n (i + 1) reg now)
          → FirstFree (suc n) i (register_from n (i + 1) reg now)
      later e (inl (a, b, c)) = inl (
        a,
        b,
        λ j lo hi. elim (ℕ_discrete j i) [
          | yes q ↦ here e j q
          | no q ↦ c j (omega arith) (omega arith)
        ],
      )
      later e (inr (s, a, lo, hi, z, b, c)) = inr (
        s,
        a,
        omega arith,
        omega arith,
        z,
        b,
        λ j l h. elim (ℕ_discrete j i) [
          | yes q ↦ here e j q
          | no q ↦ c j (omega arith) (omega arith)
        ],
      )

  -- A registered client has the first free slot, or the table is full and nothing changed.
  pub register_client_first : FirstFree max_clients 0 (register_client reg now)
  unfolding register_client
  register_client_first = register_from_first max_clients 0

pub flag_update :
    (clients : ℕ → ClientLiveness) (i j : ℕ) (c : ClientLiveness)
    → ((k : ℕ) → (clients k).active ≤ 1)
    → c.active ≤ 1
    → (update clients i c j).active ≤ 1
flag_update clients i j c h hc =
    if_cases (λ (x : ClientLiveness). x.active ≤ 1) (i == j) (λ _. hc) (λ _. h j)

flags_update :
    (reg : Registry) (i j : ℕ) (c : ClientLiveness)
    → IsCensus reg
    → c.active ≤ 1
    → (update reg.clients i c j).active ≤ 1
flags_update reg i j c h hc = flag_update reg.clients i j c h.flags hc

census_small : (reg : Registry) → IsCensus reg → reg.registered_clients ≤ max_clients
census_small reg h = rw h.counted (count_active-le max_clients reg.clients)

fresh-IsCensus :
    (reg : Registry) (s now : ℕ)
    → IsCensus reg
    → s < max_clients
    → (reg.clients s).active ≡ 0
    → IsCensus (fresh_client reg s now)
unfolding fresh_client
fresh-IsCensus reg s now h hi z = record {
  flags = λ j. flags_update reg s j _ h (omega arith);
  counted = ground (
    arith,
    z,
    h.counted,
    census_small reg h,
    count_active-update max_clients s reg.clients
        (record { active = 1; last_heartbeat_ns = now; last_seen_generation = reg.generation }) hi,
  );
}

register-IsCensus : (reg : Registry) (now : ℕ) → IsCensus reg → IsCensus (register_client reg now).1
register-IsCensus reg now h = go (register_client_first reg now)
  where
    go :
        FirstFree reg now max_clients 0 (register_client reg now)
        → IsCensus (register_client reg now).1
    go (inl (_, e, _)) = rw e h
    go (inr (s, _, lo, hi, z, e, _)) = rw e (fresh-IsCensus reg s now h hi z)

heartbeat-IsCensus :
    (reg : Registry) (slot : Option ℕ) (now : ℕ)
    → IsCensus reg
    → IsCensus (update_heartbeat reg slot now)
unfolding update_heartbeat
heartbeat-IsCensus reg none now h = h
heartbeat-IsCensus reg (some s) now h =
    if_cases IsCensus (leb max_clients s) (λ _. h)
      (λ b. record {
        flags = λ j. flags_update reg s j _ h (h.flags s);
        counted = ground (
          arith,
          h.counted,
          count_active-update max_clients s reg.clients
              (record (reg.clients s) {
                last_heartbeat_ns = now;
                last_seen_generation = reg.generation;
              })
              (ground arith),
        );
      })

deregister-IsCensus :
    (reg : Registry) (slot : Option ℕ) → IsCensus reg → IsCensus (deregister_client reg slot)
unfolding deregister_client
deregister-IsCensus reg none h = h
deregister-IsCensus reg (some s) h =
    if_cases IsCensus (leb max_clients s) (λ _. h)
      (λ b.
        if_cases IsCensus ((reg.clients s).active == 1)
          (λ a. record {
            flags = λ j. flags_update reg s j _ h (omega arith);
            counted = ground (
              arith,
              h.counted,
              census_small reg h,
              (==_iff _ _).0 a,
              count_active-update max_clients s reg.clients (record (reg.clients s) { active = 0 })
                  (ground arith),
            );
          })
          (λ _. h))

-- The calls that clients make on the table, with the clock's reading.
pub data Call : Type 0 where
  register : ℕ → Call
  heartbeat : Option ℕ → ℕ → Call
  deregister : Option ℕ → Call

abbrev pub call : Registry → Call → Registry
call reg (register now) = (register_client reg now).1
call reg (heartbeat slot now) = update_heartbeat reg slot now
call reg (deregister slot) = deregister_client reg slot

abbrev pub calls : Registry → List Call → Registry
calls reg [] = reg
calls reg (c ∷ cs) = calls (call reg c) cs

-- Whatever clients call in whatever order, `registered_clients` stays the number of active slots,
-- and every flag stays 0 or 1.
pub calls-IsCensus : (cs : List Call) (reg : Registry) → IsCensus reg → IsCensus (calls reg cs)
calls-IsCensus [] reg h = h
calls-IsCensus (register now ∷ cs) reg h = calls-IsCensus cs _ (register-IsCensus reg now h)
calls-IsCensus (heartbeat slot now ∷ cs) reg h =
    calls-IsCensus cs _ (heartbeat-IsCensus reg slot now h)
calls-IsCensus (deregister slot ∷ cs) reg h = calls-IsCensus cs _ (deregister-IsCensus reg slot h)
