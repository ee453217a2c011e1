-- ===== src/Database/Distinct.antt =====
-- `DistinctGPUIDs` of pkg/db/read.go against `GPUExists`.
use text.Mathlib.Text.{◌==◌ as str_eq}
use Prim.Native.String.{String}
use vantage.Prelude.{
  All, All-mono, ◌≡◌, refl, ap, sym, ◌∙◌, Bool, true, false, ◌||◌, List, [], ◌∷◌, if◌then◌else◌,
  arith, inl, inr, Bool-cases,
}
use vantage.Prelude.Order.{IsStrict}
use vantage.Collector.{GpuMetric}
use vantage.Database.{Dialect, add_id, distinct_ids, any_row}

abbrev pub lists : List String → String → Bool
lists [] id = false
lists (x ∷ xs) id = let rest = lists xs id in str_eq x id || rest

or_swap : (a b c : Bool) → (a || (b || c)) ≡ (b || (a || c))
or_swap true true c = refl
or_swap true false c = refl
or_swap false b c = refl

or_idem : (a b : Bool) → (a || b) ≡ (a || (a || b))
or_idem true b = refl
or_idem false b = refl

module _ {Time : Type 0} (sql : Dialect Time) where
  -- In ascending order, and so each once.
  abbrev pub IsAscending : List String → Type 0
  IsAscending [] = Unit
  IsAscending (x ∷ xs) = All (λ y. sql.collates x y ≡ true) xs × IsAscending xs

  -- The collation tells an id from another one.
  abbrev pub TellsApart : String → String → Type 0
  TellsApart x y = sql.collates y x ≡ false → sql.collates x y ≡ false → x ≡ y

  abbrev pub AllApart : List (GpuMetric Time) → Type 0
  AllApart [] = Unit
  AllApart (row ∷ rows) = All (λ r. TellsApart row.gpu_id r.gpu_id) rows × AllApart rows

  abbrev added : Bool → Bool → String → String → List String → List String → List String
  added before after id x xs later =
      if before then x ∷ later else if after then id ∷ x ∷ xs else x ∷ xs

  All-add_id :
      (P : String → Type 0) (id : String) (xs : List String)
      → P id
      → All P xs
      → All P (add_id sql id xs)
  unfolding add_id
  All-add_id P id [] h all = (h, tt)
  All-add_id P id (x ∷ xs) h (p, all) =
      go (All-add_id P id xs h all) (sql.collates x id) (sql.collates id x)
    where
      go : All P (add_id sql id xs) → (q r : Bool) → All P (added q r id x xs (add_id sql id xs))
      go later true r = (p, later)
      go later false true = (h, (p, all))
      go later false false = (p, all)

  All-distinct_ids :
      (P : String → Type 0) (rows : List (GpuMetric Time))
      → All (λ r. P r.gpu_id) rows
      → All P (distinct_ids sql rows)
  unfolding distinct_ids
  All-distinct_ids P [] all = tt
  All-distinct_ids P (row ∷ rows) (p, all) =
      All-add_id P row.gpu_id (distinct_ids sql rows) p (All-distinct_ids P rows all)

  lists-add_id :
      (id k : String) (xs : List String)
      → All (TellsApart id) xs
      → lists (add_id sql id xs) k ≡ (str_eq id k || lists xs k)
  unfolding add_id
  lists-add_id id k [] apart = refl
  lists-add_id id k (x ∷ xs) (here, apart) =
      go (lists-add_id id k xs apart) (sql.collates x id) refl (sql.collates id x) refl
    where
      go :
          lists (add_id sql id xs) k ≡ (str_eq id k || lists xs k)
          → (q : Bool) → sql.collates x id ≡ q
          → (r : Bool) → sql.collates id x ≡ r
          → lists (added q r id x xs (add_id sql id xs)) k
            ≡ (str_eq id k || (str_eq x k || lists xs k))
      go later true before r after =
          ap (λ b. str_eq x k || b) later ∙ or_swap (str_eq x k) (str_eq id k) (lists xs k)
      go later false before true after = refl
      go later false before false after =
          or_idem (str_eq x k) (lists xs k)
          ∙ ap (λ y. str_eq y k || (str_eq x k || lists xs k)) (sym (here before after))

  pub lists-distinct_ids :
      (rows : List (GpuMetric Time)) (k : String)
      → AllApart rows
      → lists (distinct_ids sql rows) k ≡ any_row sql k rows
  unfolding distinct_ids
  lists-distinct_ids [] k apart = refl
  lists-distinct_ids (row ∷ rows) k (here, apart) =
      lists-add_id row.gpu_id k (distinct_ids sql rows)
        (All-distinct_ids (TellsApart row.gpu_id) rows here)
      ∙ ap (λ b. str_eq row.gpu_id k || b) (lists-distinct_ids rows k apart)

  module _ (strict : IsStrict sql.collates) where
    below :
        (x y z : String)
        → sql.collates x y ≡ true
        → sql.collates y z ≡ true
        → sql.collates x z ≡ true
    below x y z h k = elim (Bool-cases (sql.collates x z)) [
      | inl less ↦ less
      | inr other ↦ absurd (ground (arith, h, strict.not_trans y z x (strict.asym y z k) other))
    ]

    add_id-IsAscending :
        (id : String) (xs : List String) → IsAscending xs → IsAscending (add_id sql id xs)
    unfolding add_id
    add_id-IsAscending id [] o = (tt, tt)
    add_id-IsAscending id (x ∷ xs) (above, o) =
        go (add_id-IsAscending id xs o) (sql.collates x id) refl (sql.collates id x) refl
      where
        go :
            IsAscending (add_id sql id xs)
            → (q : Bool) → sql.collates x id ≡ q
            → (r : Bool) → sql.collates id x ≡ r
            → IsAscending (added q r id x xs (add_id sql id xs))
        go later true before r after =
            (All-add_id (λ y. sql.collates x y ≡ true) id xs before above, later)
        go later false before true after = (
          (
            after,
            All-mono (λ y. sql.collates x y ≡ true) (λ y. sql.collates id y ≡ true)
                (λ y h. below id x y after h) xs above,
          ),
          (above, o),
        )
        go later false before false after = (above, o)

    pub distinct_ids-IsAscending :
        (rows : List (GpuMetric Time)) → IsAscending (distinct_ids sql rows)
    unfolding distinct_ids
    distinct_ids-IsAscending [] = tt
    distinct_ids-IsAscending (row ∷ rows) =
        add_id-IsAscending row.gpu_id (distinct_ids sql rows) (distinct_ids-IsAscending rows)
