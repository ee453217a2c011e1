-- ===== src/Queue/Table.antt =====
-- The Go map `leases` of internal/queue/broker.go, as a list of its entries, and the sorted lists
-- of its keys. No operation depends on the order of the entries: a sweep sorts the ids first.
pub mod Laws
pub mod Keys
use vantage.Prelude.{ℕ, Bool, List, [], ◌∷◌, Option, none, some, ltb, ◌==◌, if◌then◌else◌}

abbrev pub Table {ℓ} : Type ℓ → Type ℓ
Table V = List (ℕ × V)

module _ {ℓ} {V : Type ℓ} where
  unfoldable pub lookup : ℕ → Table V → Option V
  lookup k [] = none
  lookup k ((j, v) ∷ m) = if j == k then some v else lookup k m

  -- `delete(m, k)`: a key has one entry.
  pub delete : ℕ → Table V → Table V
  delete k [] = []
  delete k ((j, v) ∷ m) = if j == k then m else (j, v) ∷ delete k m

  -- `m[k] = v`
  pub insert : ℕ → V → Table V → Table V
  insert k v [] = (k, v) ∷ []
  insert k v ((j, w) ∷ m) = if j == k then (k, v) ∷ m else (j, w) ∷ insert k v m

  -- The keys whose values pass the test, as the `for … range` collects them.
  pub keys_where : (V → Bool) → Table V → List ℕ
  keys_where p [] = []
  keys_where p ((j, v) ∷ m) = let rest = keys_where p m in if p v then j ∷ rest else rest

insert_sorted : ℕ → List ℕ → List ℕ
insert_sorted x [] = x ∷ []
insert_sorted x (y ∷ ys) = if ltb y x then y ∷ insert_sorted x ys else x ∷ y ∷ ys

-- `sort.Slice` by `<`
pub sort : List ℕ → List ℕ
unfolding insert_sorted
sort [] = []
sort (x ∷ xs) = insert_sorted x (sort xs)
