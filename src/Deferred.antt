-- ===== src/Deferred.antt =====
-- outback/outback_resize.hh: the queues of the mutations that arrive while a resize is under way.
pub mod Counts
use outback_cxl_numa.Base.{
  ℕ, ◌+◌, Bool, true, false, List, [], ◌∷◌, ◌++◌, length, add64, leb, if◌then◌else◌,
}

pub record DeferredInsert : Type 0 where
  pub key : ℕ
  pub value : ℕ
  pub enqueue_ts_ns : ℕ

pub record DeferredDelete : Type 0 where
  pub key : ℕ
  pub enqueue_ts_ns : ℕ

-- The two queues, their lengths in the registry, and the totals of the metrics.
pub record Deferred : Type 0 where
  pub inserts : List DeferredInsert
  pub deletes : List DeferredDelete
  pub insert_count : ℕ
  pub delete_count : ℕ
  pub inserts_total : ℕ
  pub deletes_total : ℕ

abbrev pub max_deferred_depth : ℕ
max_deferred_depth = 1_000_000

-- `now` is the clock's answer in nanoseconds.
unfoldable pub defer_insert : ℕ → Deferred → ℕ → ℕ → Bool × Deferred
defer_insert now d key val = if leb max_deferred_depth (length d.inserts) then (false, d) else (
  true,
  record d {
    inserts = d.inserts ++ record { key = key; value = val; enqueue_ts_ns = now } ∷ [];
    insert_count = add64 d.insert_count 1;
    inserts_total = add64 d.inserts_total 1;
  },
)

unfoldable pub defer_delete : ℕ → Deferred → ℕ → Bool × Deferred
defer_delete now d key = if leb max_deferred_depth (length d.deletes) then (false, d) else (
  true,
  record d {
    deletes = d.deletes ++ record { key = key; enqueue_ts_ns = now } ∷ [];
    delete_count = add64 d.delete_count 1;
    deletes_total = add64 d.deletes_total 1;
  },
)
