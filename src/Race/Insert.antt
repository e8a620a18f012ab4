-- ===== src/Race/Insert.antt =====
-- race/race_table.hh, `insert`: the bucket that takes a key.
use outback_cxl_numa.Base.{
  ℕ, ◌/◌, ◌%◌, ◌^◌, ◌<◌, ◌≡◌, ◌≢◌, ◌⊎◌, Bool, true, false, none, some, List, [], ◌∷◌, All, ◌==◌,
}
use outback_cxl_numa.Race.{
  CuckooBucket, RaceHashTable, fingerprint, is_free, try_buckets, candidates,
}

-- One of the listed buckets.
abbrev pub Among : ℕ → List ℕ → Type 0
Among b [] = ⊥
Among b (c ∷ cs) = (b ≡ c) ⊎ Among b cs

-- All four slots are taken.
abbrev pub IsFull : CuckooBucket → Type 0
IsFull b = (s : ℕ) → s < 4 → is_free b s ≡ false

abbrev bit_clear : ℕ → ℕ → Bool
bit_clear o slot = o / 2 ^ slot % 2 == 0

module _ (key addr len : ℕ) where
  -- Slot `slot` of the bucket, which was free, has the key's fingerprint, its address and length; the
  -- other slots are as they were.
  pub record IsFilled (slot : ℕ) (b b' : CuckooBucket) : Type 0 where
    pub was_free : is_free b slot ≡ true
    pub taken : is_free b' slot ≡ false
    pub finger : b'.fps slot ≡ fingerprint key
    pub address : b'.addrs slot ≡ addr
    pub length : b'.lens slot ≡ len
    pub others :
        (i : ℕ)
        → i < 4
        → i ≢ slot
        → (is_free b' i ≡ is_free b i)
          × (b'.fps i ≡ b.fps i)
          × (b'.addrs i ≡ b.addrs i)
          × (b'.lens i ≡ b.lens i)

  -- The key stands in one free slot of one of the buckets, and every other bucket is as it was.
  abbrev pub Stored : List ℕ → RaceHashTable → RaceHashTable → Type 0
  Stored bs t t' =
      (b : ℕ) × (slot : ℕ) × Among b bs
      × (slot < 4)
      × IsFilled slot (t.cuckoo_buckets b) (t'.cuckoo_buckets b)
      × ((c : ℕ) → c ≢ b → t'.cuckoo_buckets c ≡ t.cuckoo_buckets c)
      × (t'.nsize ≡ t.nsize)

  abbrev Tried : RaceHashTable → List ℕ → Type 0
  Tried t bs =
      ((try_buckets t bs key addr len ≡ none) × All (λ b. IsFull (t.cuckoo_buckets b)) bs)
      ⊎ ((t' : RaceHashTable) × (try_buckets t bs key addr len ≡ some t') × Stored bs t t')

-- One of the key's buckets took it, or all of them are full and nothing changed.
abbrev pub Inserts : RaceHashTable → ℕ → ℕ → ℕ → Bool × RaceHashTable → Type 0
Inserts t key addr len r =
    ((r.0 ≡ true) × Stored key addr len (candidates t key) t r.1)
    ⊎ ((r.0 ≡ false) × (r.1 ≡ t) × All (λ b. IsFull (t.cuckoo_buckets b)) (candidates t key))
