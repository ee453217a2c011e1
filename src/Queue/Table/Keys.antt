-- ===== src/Queue/Table/Keys.antt =====
-- The keys that `keys_where` collects, as a reclaim loop meets them.
use vantage.Prelude.{
  ℕ, ◌≤◌, ◌<◌, ◌≡◌, refl, Bool, true, ◌&&◌, List, [], ◌∷◌, some, arith, length, ◌==◌, indicator,
  Bool-cases, inl, inr,
}
use vantage.Prelude.Weigh.{weigh, count, weigh-one}
use vantage.Queue.Table.{Table, lookup, delete, keys_where, sort}
use vantage.Queue.Table.Laws.{entries_at, weigh-delete, sort-SameItems}

-- How often a list of keys has the key.
abbrev pub times : ℕ → List ℕ → ℕ
times k = weigh (λ i. indicator (i == k))

module _ {ℓ} {V : Type ℓ} (p : V → Bool) where
  -- How many of a map's values pass the test, and how many of those stand under one key.
  abbrev pub chosen : Table V → ℕ
  chosen = count (λ kv. p kv.1)

  abbrev pub chosen_at : ℕ → Table V → ℕ
  chosen_at k = weigh (λ kv. indicator (kv.0 == k && p kv.1))

  times-keys_where : (k : ℕ) (m : Table V) → times k (keys_where p m) ≡ chosen_at k m
  unfolding keys_where
  times-keys_where k [] = refl
  times-keys_where k ((j, v) ∷ m) = ground (arith, times-keys_where k m)

  length-keys_where : (m : Table V) → length (keys_where p m) ≡ chosen m
  unfolding keys_where
  length-keys_where [] = refl
  length-keys_where ((j, v) ∷ m) = ground (arith, length-keys_where m)

  -- The keys are those of the values that pass the test, and every key has one entry.
  abbrev pub Chosen : List ℕ → Table V → Type 0
  Chosen ks m = (k : ℕ) → (times k ks ≡ chosen_at k m) × (entries_at k m ≤ 1)

  pub sort-Chosen :
      (m : Table V) → ((k : ℕ) → entries_at k m ≤ 1) → Chosen (sort (keys_where p m)) m
  sort-Chosen m one k = (
    omega (arith, sort-SameItems (keys_where p m) (λ i. indicator (i == k)), times-keys_where k m),
    one k,
  )

  pub length-sort_keys : (m : Table V) → length (sort (keys_where p m)) ≡ chosen m
  length-sort_keys m = omega (
    arith,
    sort-SameItems (keys_where p m) (λ _. 1),
    weigh-one (sort (keys_where p m)),
    weigh-one (keys_where p m),
    length-keys_where m,
  )

  chosen_at_le : (k : ℕ) (m : Table V) → chosen_at k m ≤ entries_at k m
  chosen_at_le k [] = omega arith
  chosen_at_le k ((j, v) ∷ m) = ground (arith, chosen_at_le k m)

  chosen_at_found :
      (k : ℕ) (m : Table V)
      → 0 < chosen_at k m
      → entries_at k m ≤ 1
      → (v : V) × (lookup k m ≡ some v) × (p v ≡ true)
  unfolding lookup
  chosen_at_found k [] h one = absurd (omega arith)
  chosen_at_found k ((j, v) ∷ m) h one = elim (Bool-cases (j == k)) [
    | inl here ↦ (v, ground arith, ground (arith, chosen_at_le k m))
    | inr there ↦
        let (u, found, passed) = chosen_at_found k m (ground arith) (ground arith) in
        (u, ground (arith, found), passed)
  ]

  -- The first key is in the map, with a value that passes; without it the others are as before.
  pub Chosen-cons :
      (k : ℕ) (ks : List ℕ) (m : Table V)
      → Chosen (k ∷ ks) m
      → (v : V) × (lookup k m ≡ some v) × (p v ≡ true) × Chosen ks (delete k m)
  Chosen-cons k ks m c =
      let (v, found, passed) = chosen_at_found k m (ground (arith, (c k).0)) ((c k).1) in
      (
        v,
        found,
        passed,
        λ j. (
          ground (arith, (c j).0, weigh-delete (λ kv. indicator (kv.0 == j && p kv.1)) k m v found),
          omega (arith, (c j).1, weigh-delete (λ kv. indicator (kv.0 == j)) k m v found),
        ),
      )

  -- When no key is left, no value passes.
  pub Chosen-nil : (m : Table V) → ((k : ℕ) → chosen_at k m ≡ 0) → chosen m ≡ 0
  Chosen-nil [] c = refl
  Chosen-nil ((j, v) ∷ m) c = ground (arith, c j, Chosen-nil m (λ k. ground (arith, c k)))
