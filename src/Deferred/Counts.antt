-- ===== src/Deferred/Counts.antt =====
-- outback/outback_resize.hh, `defer_insert` and `defer_delete`: the depth and the counts of the
-- queues.
use outback_cxl_numa.Base.{ℕ, ◌≤◌, ◌≡◌, false, [], ◌∷◌, length, length-append, arith}
use outback_cxl_numa.Deferred.{Deferred, max_deferred_depth, defer_insert, defer_delete}

pub record IsCounted (d : Deferred) : Type 0 where
  pub insert_depth : length d.inserts ≤ max_deferred_depth
  pub delete_depth : length d.deletes ≤ max_deferred_depth
  pub insert_counted : d.insert_count ≡ length d.inserts
  pub delete_counted : d.delete_count ≡ length d.deletes

-- Neither call lets a queue grow past its depth, and the counts in the registry stay the lengths of
-- the queues; a call is refused only when its queue is full, and then changes nothing.
pub defer-IsCounted :
    (now : ℕ) (d : Deferred) (key val : ℕ)
    → IsCounted d
    → IsCounted (defer_insert now d key val).1
      × IsCounted (defer_delete now d key).1
      × ((defer_insert now d key val).0 ≡ false
          → (length d.inserts ≡ max_deferred_depth) × ((defer_insert now d key val).1 ≡ d))
      × ((defer_delete now d key).0 ≡ false
          → (length d.deletes ≡ max_deferred_depth) × ((defer_delete now d key).1 ≡ d))
unfolding defer_insert defer_delete
defer-IsCounted now d key val c = (
  ground (
    arith,
    length-append d.inserts (record { key = key; value = val; enqueue_ts_ns = now } ∷ []),
  ),
  ground (arith, length-append d.deletes (record { key = key; enqueue_ts_ns = now } ∷ [])),
  λ h. ground arith,
  λ h. ground arith,
)
