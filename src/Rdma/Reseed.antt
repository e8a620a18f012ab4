-- ===== src/Rdma/Reseed.antt =====
-- outback/outback_server.hh and outback/outback_client.hh: a put into a row with room but an
-- occupied slot, from the client's call to its next search.
use outback_cxl_numa.Base.{ℕ, ◌<◌, ◌≡◌, ◌⊎◌, false, some, List, Run, exited, Returns, update}
use outback_cxl_numa.Ludo.{Ludo}
use outback_cxl_numa.Slot.{LudoBuckets, empty_bucket}
use outback_cxl_numa.Packed.{sizeof_val}
use outback_cxl_numa.Packed.Laws.{appended}
use outback_cxl_numa.Server.{Lru}
use outback_cxl_numa.Rdma.{RdmaServer, separates, write_cells, row_keys, row_words, remote_search}
use outback_cxl_numa.Rdma.Seeds.{Separated, Placed}

module _ {C : Type 0} (ludo : Ludo) (cache : Lru C) (seeds : ℕ → ℕ) (s : RdmaServer C)
    (key val : ℕ) where
  abbrev row_of : ℕ
  row_of = (ludo.lookup_slot seeds key).0

  abbrev keys : List ℕ
  keys = row_keys s.buckets s.packed row_of key

  abbrev words : List ℕ
  words = row_words ludo s.buckets row_of key s.packed.num

  abbrev arranged : ℕ → LudoBuckets
  arranged seed = write_cells ludo seed row_of (empty_bucket s.buckets row_of) keys words

  abbrev reseeded : ℕ → RdmaServer C
  reseeded seed = record s {
    packed = appended s.packed key sizeof_val val;
    seeds = update s.seeds row_of seed;
    buckets = arranged seed;
  }

  -- Client and server agree on a seed under which every key of the row, the new one too, has a slot
  -- of its own with its word, and the client reads the new value.
  abbrev pub IsReseeded : (ℕ → ℕ) × RdmaServer C → Type 0
  IsReseeded (seeds', s') =
      (seeds' row_of ≡ s'.seeds row_of)
      × Separated ludo (s'.seeds row_of) keys
      × Placed ludo (s'.seeds row_of) row_of s'.buckets keys words
      × (remote_search ludo seeds' s' key ≡ some val)

  -- No seed serves and the process ends, or the call returns in a row that is arranged anew.
  abbrev pub Reseeds : Run ((ℕ → ℕ) × RdmaServer C) → Type 0
  Reseeds r =
      (((seed : ℕ) → seed < 255 → separates ludo seed (λ i. false) keys ≡ false) × (r ≡ exited))
      ⊎ Returns r IsReseeded
