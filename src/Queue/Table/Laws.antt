-- ===== src/Queue/Table/Laws.antt =====
-- Maps by weights: what an insertion adds and a deletion takes.
use vantage.Prelude.{
  ℕ, ◌+◌, ◌≤◌, ◌≡◌, refl, false, List, [], ◌∷◌, none, some, arith, ◌==◌, if◌then◌else◌, indicator,
}
use vantage.Prelude.Weigh.{weigh, SameItems}
use vantage.Queue.Table.{Table, lookup, delete, insert, insert_sorted, sort}

-- In increasing order.
abbrev pub IsSorted : List ℕ → Type 0
IsSorted [] = Unit
IsSorted (x ∷ []) = Unit
IsSorted (x ∷ y ∷ ys) = (x ≤ y) × IsSorted (y ∷ ys)

module _ {ℓ} {V : Type ℓ} where
  -- The weight of a map's values.
  abbrev pub weigh_values : (V → ℕ) → Table V → ℕ
  weigh_values w = weigh (λ kv. w kv.1)

  pub weigh-delete :
      (w : ℕ × V → ℕ) (k : ℕ) (m : Table V) (v : V)
      → lookup k m ≡ some v
      → w (k, v) + weigh w (delete k m) ≡ weigh w m
  unfolding lookup delete
  weigh-delete w k [] v e = ground arith
  weigh-delete w k ((j, u) ∷ m) v e = ground (arith, weigh-delete w k m v)

  -- A key that the map lacks adds one entry.
  pub weigh-insert :
      (w : ℕ × V → ℕ) (k : ℕ) (v : V) (m : Table V)
      → lookup k m ≡ none
      → weigh w (insert k v m) ≡ w (k, v) + weigh w m
  unfolding lookup insert
  weigh-insert w k v [] e = refl
  weigh-insert w k v ((j, u) ∷ m) e = ground (arith, weigh-insert w k v m)

  -- The entry that `lookup` finds weighs in.
  pub lookup_le_weigh :
      (w : ℕ × V → ℕ) (k : ℕ) (m : Table V) (v : V) → lookup k m ≡ some v → w (k, v) ≤ weigh w m
  lookup_le_weigh w k m v e = omega (arith, weigh-delete w k m v e)

  pub lookup-delete_ne :
      (k j : ℕ) (m : Table V) → ((k == j) ≡ false) → lookup j (delete k m) ≡ lookup j m
  unfolding lookup delete
  lookup-delete_ne k j [] h = refl
  lookup-delete_ne k j ((i, v) ∷ m) h = ground (arith, lookup-delete_ne k j m)

  pub lookup-insert :
      (k j : ℕ) (v : V) (m : Table V)
      → lookup j (insert k v m) ≡ (if k == j then some v else lookup j m)
  unfolding lookup insert
  lookup-insert k j v [] = refl
  lookup-insert k j v ((i, u) ∷ m) = ground (arith, lookup-insert k j v m)

  -- How many entries a key has.
  abbrev pub entries_at : ℕ → Table V → ℕ
  entries_at k = weigh (λ kv. indicator (kv.0 == k))

  pub lookup_of_entries_zero : (k : ℕ) (m : Table V) → entries_at k m ≡ 0 → lookup k m ≡ none
  unfolding lookup
  lookup_of_entries_zero k [] h = refl
  lookup_of_entries_zero k ((j, v) ∷ m) h = ground (arith, lookup_of_entries_zero k m)

insert_sorted-IsSorted : (x : ℕ) (xs : List ℕ) → IsSorted xs → IsSorted (insert_sorted x xs)
unfolding insert_sorted
insert_sorted-IsSorted x [] h = tt
insert_sorted-IsSorted x (y ∷ []) h = ground arith
insert_sorted-IsSorted x (y ∷ z ∷ zs) h = ground (arith, insert_sorted-IsSorted x (z ∷ zs) h.1)

pub sort-IsSorted : (xs : List ℕ) → IsSorted (sort xs)
unfolding sort
sort-IsSorted [] = tt
sort-IsSorted (x ∷ xs) = insert_sorted-IsSorted x (sort xs) (sort-IsSorted xs)

weigh-insert_sorted :
    (w : ℕ → ℕ) (x : ℕ) (xs : List ℕ) → weigh w (insert_sorted x xs) ≡ w x + weigh w xs
unfolding insert_sorted
weigh-insert_sorted w x [] = refl
weigh-insert_sorted w x (y ∷ ys) = ground (arith, weigh-insert_sorted w x ys)

-- Sorting keeps every item.
pub sort-SameItems : (xs : List ℕ) → SameItems (sort xs) xs
unfolding sort
sort-SameItems [] w = refl
sort-SameItems (x ∷ xs) w = omega (arith, weigh-insert_sorted w x (sort xs), sort-SameItems xs w)
