-- ===== src/Server/Blocked.antt =====
-- outback/outback_server_numa.hh: the handlers while a resize blocks insertions and removals.
use outback_cxl_numa.Base.{
  [], ◌∷◌, ◌++◌, ◌+◌, ◌%◌, ◌^◌, ℕ, ◌≤◌, ◌<◌, ◌≡◌, refl, arith, true, false, some, length, Returns,
}
use outback_cxl_numa.Ludo.{Ludo}
use outback_cxl_numa.Deferred.{Deferred, max_deferred_depth, defer_insert, defer_delete}
use outback_cxl_numa.Server.{
  Server, Reply, Lru, outback_put_direct, outback_remove_direct, defer_put, defer_remove,
}

-- The insertion stands behind those that waited, and its count and the total are one more.
pub record JoinsInserts (now key val : ℕ) (d d' : Deferred) : Type 0 where
  pub queue : d'.inserts ≡ d.inserts ++ record { key = key; value = val; enqueue_ts_ns = now } ∷ []
  pub count : d'.insert_count ≡ (d.insert_count + 1) % 2 ^ 64
  pub total : d'.inserts_total ≡ (d.inserts_total + 1) % 2 ^ 64
  pub deletes : d'.deletes ≡ d.deletes
  pub delete_count : d'.delete_count ≡ d.delete_count
  pub deletes_total : d'.deletes_total ≡ d.deletes_total

-- The same for a removal.
pub record JoinsDeletes (now key : ℕ) (d d' : Deferred) : Type 0 where
  pub queue : d'.deletes ≡ d.deletes ++ record { key = key; enqueue_ts_ns = now } ∷ []
  pub count : d'.delete_count ≡ (d.delete_count + 1) % 2 ^ 64
  pub total : d'.deletes_total ≡ (d.deletes_total + 1) % 2 ^ 64
  pub inserts : d'.inserts ≡ d.inserts
  pub insert_count : d'.insert_count ≡ d.insert_count
  pub inserts_total : d'.inserts_total ≡ d.inserts_total

defer_insert-Joins :
    (now : ℕ) (d : Deferred) (key val : ℕ)
    → length d.inserts < max_deferred_depth
    → JoinsInserts now key val d (defer_insert now d key val).1
unfolding defer_insert
defer_insert-Joins now d key val h = record {
  queue = ground arith;
  count = ground arith;
  total = ground arith;
  deletes = ground arith;
  delete_count = ground arith;
  deletes_total = ground arith;
}

defer_delete-Joins :
    (now : ℕ) (d : Deferred) (key : ℕ)
    → length d.deletes < max_deferred_depth
    → JoinsDeletes now key d (defer_delete now d key).1
unfolding defer_delete
defer_delete-Joins now d key h = record {
  queue = ground arith;
  count = ground arith;
  total = ground arith;
  inserts = ground arith;
  insert_count = ground arith;
  inserts_total = ground arith;
}

module _ {C : Type 0} (ludo : Ludo) (s : Server C) (d : Deferred) where
  -- While mutations are blocked and the orchestrator is there, a put and a removal leave buckets and
  -- entries alone and answer DEFERRED. If its queue is shorter than the depth, the mutation stands at
  -- its end with key, value and time, its count and total are one more, and the other queue is as it
  -- was; if not, the answer is the same, the queues are as they were, and the mutation is lost.
  pub blocked_defers :
      (cache : Lru C) (now loc key val : ℕ) (reply : Reply)
      → s.blocked ≡ true
      → s.hook ≡ some d
      → Returns (outback_put_direct ludo cache now s loc key val reply) (λ r.
        (r.0 ≡ record { status = false; val = 4 })
        × (r.1.buckets ≡ s.buckets)
        × (r.1.packed ≡ s.packed)
        × (length d.inserts < max_deferred_depth
            → (d' : Deferred) × (r.1.hook ≡ some d') × JoinsInserts now key val d d')
        × (max_deferred_depth ≤ length d.inserts → r.1.hook ≡ some d))
        × ((outback_remove_direct now s loc key).0 ≡ record { status = false; val = 4 })
        × ((outback_remove_direct now s loc key).1.buckets ≡ s.buckets)
        × ((outback_remove_direct now s loc key).1.packed ≡ s.packed)
        × (length d.deletes < max_deferred_depth
            → (d' : Deferred) × ((outback_remove_direct now s loc key).1.hook ≡ some d')
              × JoinsDeletes now key d d')
        × (max_deferred_depth ≤ length d.deletes
            → (outback_remove_direct now s loc key).1.hook ≡ some d)
  unfolding outback_put_direct outback_remove_direct defer_put defer_remove
  blocked_defers cache now loc key val reply blocked hook = (
    (
      (record { status = false; val = 4 }, defer_put now s key val),
      ground arith,
      (
        refl,
        ground arith,
        ground arith,
        λ h. ((defer_insert now d key val).1, ground arith, defer_insert-Joins now d key val h),
        λ h. unfold defer_insert in ground arith,
      ),
    ),
    ground arith,
    ground arith,
    ground arith,
    λ h. ((defer_delete now d key).1, ground arith, defer_delete-Joins now d key h),
    λ h. unfold defer_delete in ground arith,
  )
