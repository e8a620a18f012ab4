-- ===== src/Leaf/Reads.antt =====
-- rolex/leaf.hpp: a leaf after an update and after a removal.
use outback_cxl_numa.Base.{
  ℕ, zero, suc, ◌+◌, ◌≤◌, ◌<◌, ◌≡◌, ◌≢◌, ◌⊎◌, inl, inr, refl, sym, ap, ◌∙◌, arith, Bool, true,
  false, Option, none, some, ◌==◌, ==_iff, ne→==, update, update_self, update_ne, Bool-cases,
  ℕ_discrete,
}
use outback_cxl_numa.Leaf.{Leaf, invalid_key, find_from, search, contain, update_value, remove}

-- Either no slot from `i` on has the key, or the one found is the first.
abbrev pub Found : Leaf → ℕ → ℕ → ℕ → Type 0
Found l key n i =
    ((find_from l key n i ≡ none) × ((j : ℕ) → i ≤ j → j < i + n → l.keys j ≢ key))
    ⊎ ((j : ℕ) × (find_from l key n i ≡ some j) × (i ≤ j) × (j < i + n) × (l.keys j ≡ key))

find_from-Found : (l : Leaf) (key n i : ℕ) → Found l key n i
unfolding find_from
find_from-Found l key zero i = inl (refl, λ j lo hi. absurd (omega arith))
find_from-Found l key (suc n) i = elim (Bool-cases (l.keys i == key)) [
  | inl e ↦ inr (i, rw e, omega arith, omega arith, (==_iff _ _).0 e)
  | inr e ↦ later e (find_from-Found l key n (i + 1))
]
  where
    later : (l.keys i == key) ≡ false → Found l key n (i + 1) → Found l key (suc n) i
    later e (inl (r, all)) = inl (
      rw (e, find_from) r,
      λ j lo hi. elim (ℕ_discrete j i) [
        | yes q ↦ λ k. cc (sym e ∙ (==_iff _ _).1 (ap l.keys (sym q) ∙ k))
        | no q ↦ all j (omega arith) (omega arith)
      ],
    )
    later e (inr (j, r, lo, hi, k)) = inr (j, rw (e, find_from) r, omega arith, omega arith, k)

-- A search depends on the keys alone for where it looks.
find_from-keys :
    (l m : Leaf) (key n i : ℕ)
    → ((j : ℕ) → (l.keys j == key) ≡ (m.keys j == key))
    → find_from l key n i ≡ find_from m key n i
unfolding find_from
find_from-keys l m key zero i h = refl
find_from-keys l m key (suc n) i h = rw (h i, find_from-keys l m key n (i + 1) h)

module _ (n : ℕ) (l : Leaf) (key : ℕ) where
  search-some : (i : ℕ) → find_from l key n 0 ≡ some i → search n l key ≡ some (l.vals i)
  unfolding search
  search-some i e = rw (e, search)

  search-none : find_from l key n 0 ≡ none → search n l key ≡ none
  unfolding search
  search-none e = rw (e, search)

  contain-some : (i : ℕ) → find_from l key n 0 ≡ some i → contain n l key ≡ true
  unfolding contain
  contain-some i e = rw (e, contain)

  contain-none : find_from l key n 0 ≡ none → contain n l key ≡ false
  unfolding contain
  contain-none e = rw (e, contain)

  update-some :
      (val i : ℕ)
      → find_from l key n 0 ≡ some i
      → update_value n l key val ≡ (true, record l { vals = update l.vals i val })
  unfolding update_value
  update-some val i e = rw (e, update_value)

  update-none : (val : ℕ) → find_from l key n 0 ≡ none → update_value n l key val ≡ (false, l)
  unfolding update_value
  update-none val e = rw (e, update_value)

  -- The leaf after slot `i` was cleared.
  abbrev cleared : ℕ → Leaf
  cleared i = record l { keys = update l.keys i invalid_key }

  remove-some : (i : ℕ) → find_from l key n 0 ≡ some i → remove n l key ≡ (true, cleared i)
  unfolding remove
  remove-some i e = rw (e, remove)

  remove-none : find_from l key n 0 ≡ none → remove n l key ≡ (false, l)
  unfolding remove
  remove-none e = rw (e, remove)

module _ (n : ℕ) (l : Leaf) (key : ℕ) where
  -- What a search, an update and a search after it say of a key that is there, and of one that is not.
  abbrev pub UpdateReads : ℕ → Type 0
  UpdateReads val =
      ((contain n l key ≡ true)
        × ((update_value n l key val).0 ≡ true)
        × (search n (update_value n l key val).1 key ≡ some val))
      ⊎ ((contain n l key ≡ false)
          × (update_value n l key val ≡ (false, l))
          × (search n l key ≡ none))

  -- An update succeeds exactly when the leaf contains the key, and then a search for it gives the new
  -- value. If it does not, the leaf is as it was.
  pub update_value_reads : (val : ℕ) → UpdateReads val
  update_value_reads val = go (find_from-Found l key n 0)
    where
      go : Found l key n 0 → UpdateReads val
      go (inl (e, _)) =
          inr (contain-none n l key e, update-none n l key val e, search-none n l key e)
      go (inr (i, e, _, _, _)) =
          let m : Leaf = record l { vals = update l.vals i val } in
          let e' : find_from m key n 0 ≡ some i = find_from-keys m l key n 0 (λ j. refl) ∙ e in
          inl (
            contain-some n l key i e,
            ap (λ r. r.0) (update-some n l key val i e),
            ap (λ r. search n r.1 key) (update-some n l key val i e)
                ∙ search-some n m key i e'
                ∙ ap some (update_self l.vals i val),
          )

  -- No key stands in two slots.
  abbrev pub IsUnique : Type 0
  IsUnique = (i j : ℕ) → i < n → j < n → l.keys i ≡ key → l.keys j ≡ key → i ≡ j

  search_absent : (m : Leaf) → ((j : ℕ) → j < n → m.keys j ≢ key) → search n m key ≡ none
  search_absent m h = go (find_from-Found m key n 0)
    where
      go : Found m key n 0 → search n m key ≡ none
      go (inl (e, _)) = search-none n m key e
      go (inr (i, e, lo, hi, k)) = absurd (h i (omega arith) k)

  cleared-absent :
      (i : ℕ)
      → i < n
      → l.keys i ≡ key
      → key ≢ invalid_key
      → IsUnique
      → (j : ℕ) → j < n
      → update l.keys i invalid_key j ≢ key
  cleared-absent i lt k valid unique j hj e = elim (ℕ_discrete i j) [
    | yes q ↦
        valid (sym e ∙ ap (update l.keys i invalid_key) (sym q) ∙ update_self l.keys i invalid_key)
    | no q ↦ q (unique i j lt hj k (sym (update_ne l.keys i j invalid_key q) ∙ e))
  ]

  cleared-other :
      (i other j : ℕ)
      → l.keys i ≡ key
      → other ≢ key
      → other ≢ invalid_key
      → (update l.keys i invalid_key j == other) ≡ (l.keys j == other)
  cleared-other i other j k ne valid = elim (ℕ_discrete i j) [
    | yes q ↦ rw (sym q) (
        rw (update_self l.keys i invalid_key, k)
          (ne→== invalid_key other (λ e. valid (sym e)) ∙ sym (ne→== key other (λ e. ne (sym e)))))
    | no q ↦ ap (λ x. x == other) (update_ne l.keys i j invalid_key q)
  ]

  cleared-search :
      (i other : ℕ)
      → l.keys i ≡ key
      → other ≢ key
      → other ≢ invalid_key
      → search n (record l { keys = update l.keys i invalid_key }) other ≡ search n l other
  unfolding search
  cleared-search i other k ne valid =
      ap (λ (f : Option ℕ). elim f [ none ↦ none | some j ↦ some (l.vals j) ])
        (find_from-keys (record l { keys = update l.keys i invalid_key }) l other n 0
          (λ j. cleared-other i other j k ne valid))

  -- What a removal answers, and what searches say of the leaf after it.
  abbrev pub RemoveReads : Bool × Leaf → Type 0
  RemoveReads r =
      (r.0 ≡ contain n l key)
      × (search n r.1 key ≡ none)
      × ((other : ℕ) → other ≢ key → other ≢ invalid_key → search n r.1 other ≡ search n l other)

  -- A removal of a valid key that stands in one slot at most succeeds exactly when the leaf contains
  -- it; then the key is gone, and every other valid key is found as before.
  pub remove_reads : key ≢ invalid_key → IsUnique → RemoveReads (remove n l key)
  remove_reads valid unique = go (find_from-Found l key n 0)
    where
      go : Found l key n 0 → RemoveReads (remove n l key)
      go (inl (e, _)) =
          rw (remove-none n l key e)
            (sym (contain-none n l key e), search-none n l key e, λ other a b. refl)
      go (inr (i, e, lo, hi, k)) = rw (remove-some n l key i e) (
        sym (contain-some n l key i e),
        search_absent (record l { keys = update l.keys i invalid_key })
            (cleared-absent i (omega arith) k valid unique),
        λ other a b. cleared-search i other k a b,
      )
