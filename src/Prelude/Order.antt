-- ===== src/Prelude/Order.antt =====
-- Lists in the order of a test, and the part of a list that passes one.
use mathlib.Core.Path.{◌≡◌, refl, sym, ap, ◌∙◌}
use mathlib.Core.Logic.{◌⊎◌, inl, inr}
use mathlib.Core.Bool.{Bool, true, false}
use mathlib.Core.List.{List, [], ◌∷◌, ◌++◌}
use native.Mathlib.Omega.{arith}
use vantage.Prelude.Tests.{if◌then◌else◌}

abbrev pub filter {ℓ} : {A : Type ℓ} → (A → Bool) → List A → List A
filter p [] = []
filter p (x ∷ xs) = let rest = filter p xs in if p x then x ∷ rest else rest

-- A strict order whose complement is transitive.
pub record IsStrict {A : Type 0} (lt : A → A → Bool) : Type 0 where
  pub asym : (x y : A) → lt x y ≡ true → lt y x ≡ false
  pub not_trans : (x y z : A) → lt y x ≡ false → lt z y ≡ false → lt z x ≡ false

module _ {A : Type 0} (lt : A → A → Bool) where
  abbrev pub insert : A → List A → List A
  insert x [] = x ∷ []
  insert x (y ∷ ys) = let later = insert x ys in if lt y x then y ∷ later else x ∷ y ∷ ys

  abbrev pub order : List A → List A
  order [] = []
  order (x ∷ xs) = insert x (order xs)

  -- Nothing in the list comes before `x`.
  abbrev pub NoneBefore : A → List A → Type 0
  NoneBefore x [] = Unit
  NoneBefore x (y ∷ ys) = (lt y x ≡ false) × NoneBefore x ys

  abbrev pub IsOrdered : List A → Type 0
  IsOrdered [] = Unit
  IsOrdered (x ∷ xs) = NoneBefore x xs × IsOrdered xs

  module _ (strict : IsStrict lt) where
    NoneBefore-later : (x y : A) (ys : List A) → lt y x ≡ false → NoneBefore y ys → NoneBefore x ys
    NoneBefore-later x y [] h none = tt
    NoneBefore-later x y (z ∷ zs) h (here, rest) =
        (strict.not_trans x y z h here, NoneBefore-later x y zs h rest)

    NoneBefore-insert :
        (x y : A) (ys : List A) → lt y x ≡ false → NoneBefore x ys → NoneBefore x (insert y ys)
    NoneBefore-insert x y [] h none = (h, tt)
    NoneBefore-insert x y (z ∷ zs) h (here, rest) =
        elim (lt z y) as (λ q. NoneBefore x (if q then z ∷ insert y zs else y ∷ z ∷ zs)) [
          | true ↦ (here, NoneBefore-insert x y zs h rest)
          | false ↦ (h, (here, rest))
        ]

    insert-IsOrdered : (x : A) (ys : List A) → IsOrdered ys → IsOrdered (insert x ys)
    insert-IsOrdered x [] o = (tt, tt)
    insert-IsOrdered x (y ∷ ys) (none, o) = go (insert-IsOrdered x ys o) (lt y x) refl
      where
        go :
            IsOrdered (insert x ys)
            → (q : Bool) → lt y x ≡ q
            → IsOrdered (if q then y ∷ insert x ys else x ∷ y ∷ ys)
        go later true before = (NoneBefore-insert y x ys (strict.asym y x before) none, later)
        go later false after = ((after, NoneBefore-later x y ys after none), (none, o))

    pub order-IsOrdered : (xs : List A) → IsOrdered (order xs)
    order-IsOrdered [] = tt
    order-IsOrdered (x ∷ xs) = insert-IsOrdered x (order xs) (order-IsOrdered xs)

    NoneBefore-filter :
        (p : A → Bool) (x : A) (ys : List A) → NoneBefore x ys → NoneBefore x (filter p ys)
    NoneBefore-filter p x [] none = tt
    NoneBefore-filter p x (y ∷ ys) (here, rest) =
        elim (p y) as (λ q. NoneBefore x (if q then y ∷ filter p ys else filter p ys)) [
          | true ↦ (here, NoneBefore-filter p x ys rest)
          | false ↦ NoneBefore-filter p x ys rest
        ]

    insert_first : (x : A) (ys : List A) → NoneBefore x ys → insert x ys ≡ x ∷ ys
    insert_first x [] none = refl
    insert_first x (y ∷ ys) (here, rest) = ap (λ q. if q then y ∷ insert x ys else x ∷ y ∷ ys) here

    -- An item that fails the test leaves no trace.
    filter-insert_out :
        (p : A → Bool) (x : A) (ys : List A) → p x ≡ false → filter p (insert x ys) ≡ filter p ys
    filter-insert_out p x [] out = ap (λ q. if q then x ∷ [] else []) out
    filter-insert_out p x (y ∷ ys) out =
        elim (lt y x)
          as (λ q. filter p (if q then y ∷ insert x ys else x ∷ y ∷ ys) ≡ filter p (y ∷ ys)) [
            | true ↦ ap (λ zs. if p y then y ∷ zs else zs) (filter-insert_out p x ys out)
            | false ↦ ap (λ q. if q then x ∷ filter p (y ∷ ys) else filter p (y ∷ ys)) out
          ]

    filter-insert_in :
        (p : A → Bool) (x : A) (ys : List A)
        → p x ≡ true
        → IsOrdered ys
        → filter p (insert x ys) ≡ insert x (filter p ys)
    filter-insert_in p x [] pass o = ap (λ q. if q then x ∷ [] else []) pass
    filter-insert_in p x (y ∷ ys) pass (none, o) =
        go (filter-insert_in p x ys pass o) (lt y x) refl (p y) refl
      where
        kept : (q : Bool) (zs : List A) → q ≡ true → (if q then x ∷ zs else zs) ≡ x ∷ zs
        kept q zs h = ap (λ q. if q then x ∷ zs else zs) h

        go :
            filter p (insert x ys) ≡ insert x (filter p ys)
            → (q : Bool) → lt y x ≡ q
            → (s : Bool) → p y ≡ s
            → filter p (if q then y ∷ insert x ys else x ∷ y ∷ ys)
              ≡ insert x (if s then y ∷ filter p ys else filter p ys)
        go rest true before true h =
            ap (λ s. if s then y ∷ filter p (insert x ys) else filter p (insert x ys)) h
            ∙ ap (λ zs. y ∷ zs) rest
            ∙ sym (ap (λ q. if q then y ∷ insert x (filter p ys) else x ∷ y ∷ filter p ys) before)
        go rest true before false h =
            ap (λ s. if s then y ∷ filter p (insert x ys) else filter p (insert x ys)) h ∙ rest
        go rest false after true h =
            kept (p x) (filter p (y ∷ ys)) pass
            ∙ ap (λ s. x ∷ (if s then y ∷ filter p ys else filter p ys)) h
            ∙ sym (ap (λ q. if q then y ∷ insert x (filter p ys) else x ∷ y ∷ filter p ys) after)
        go rest false after false h =
            kept (p x) (filter p (y ∷ ys)) pass
            ∙ ap (λ s. x ∷ (if s then y ∷ filter p ys else filter p ys)) h
            ∙ sym (
                insert_first x (filter p ys)
                  (NoneBefore-filter p x ys (NoneBefore-later x y ys after none)))

    -- The items that pass, in order, are those of the ordered list that pass.
    pub filter-order : (p : A → Bool) (xs : List A) → filter p (order xs) ≡ order (filter p xs)
    filter-order p [] = refl
    filter-order p (x ∷ xs) = go (filter-order p xs) (p x) refl
      where
        go :
            filter p (order xs) ≡ order (filter p xs)
            → (q : Bool) → p x ≡ q
            → filter p (insert x (order xs)) ≡ order (if q then x ∷ filter p xs else filter p xs)
        go rest true pass =
            filter-insert_in p x (order xs) pass (order-IsOrdered xs) ∙ ap (insert x) rest
        go rest false out = filter-insert_out p x (order xs) out ∙ rest

  -- No two items are equal in the order.
  abbrev pub Comparable : A → List A → Type 0
  Comparable x [] = Unit
  Comparable x (y ∷ ys) = ((lt x y ≡ true) ⊎ (lt y x ≡ true)) × Comparable x ys

  abbrev pub IsKeyed : List A → Type 0
  IsKeyed [] = Unit
  IsKeyed (x ∷ xs) = Comparable x xs × IsKeyed xs

  -- Everything in the list comes after `x`.
  abbrev pub AllAfter : A → List A → Type 0
  AllAfter x [] = Unit
  AllAfter x (y ∷ ys) = (lt x y ≡ true) × AllAfter x ys

  Comparable-insert :
      (x y : A) (ys : List A)
      → (lt x y ≡ true) ⊎ (lt y x ≡ true)
      → Comparable x ys
      → Comparable x (insert y ys)
  Comparable-insert x y [] here rest = (here, tt)
  Comparable-insert x y (z ∷ zs) here (first, rest) =
      elim (lt z y) as (λ q. Comparable x (if q then z ∷ insert y zs else y ∷ z ∷ zs)) [
        | true ↦ (first, Comparable-insert x y zs here rest)
        | false ↦ (here, (first, rest))
      ]

  swapped : (x y : A) → (lt x y ≡ true) ⊎ (lt y x ≡ true) → (lt y x ≡ true) ⊎ (lt x y ≡ true)
  swapped x y (inl h) = inr h
  swapped x y (inr h) = inl h

  insert-IsKeyed : (x : A) (ys : List A) → Comparable x ys → IsKeyed ys → IsKeyed (insert x ys)
  insert-IsKeyed x [] c k = (tt, tt)
  insert-IsKeyed x (y ∷ ys) (here, rest) (c, k) =
      elim (lt y x) as (λ q. IsKeyed (if q then y ∷ insert x ys else x ∷ y ∷ ys)) [
        | true ↦ (Comparable-insert y x ys (swapped x y here) c, insert-IsKeyed x ys rest k)
        | false ↦ ((here, rest), (c, k))
      ]

  Comparable-order : (x : A) (ys : List A) → Comparable x ys → Comparable x (order ys)
  Comparable-order x [] c = tt
  Comparable-order x (y ∷ ys) (here, rest) =
      Comparable-insert x y (order ys) here (Comparable-order x ys rest)

  pub order-IsKeyed : (xs : List A) → IsKeyed xs → IsKeyed (order xs)
  order-IsKeyed [] k = tt
  order-IsKeyed (x ∷ xs) (c, k) =
      insert-IsKeyed x (order xs) (Comparable-order x xs c) (order-IsKeyed xs k)

  AllAfter-from : (x : A) (ys : List A) → NoneBefore x ys → Comparable x ys → AllAfter x ys
  AllAfter-from x [] none c = tt
  AllAfter-from x (y ∷ ys) (first, none) (inl h, c) = (h, AllAfter-from x ys none c)
  AllAfter-from x (y ∷ ys) (first, none) (inr h, c) = absurd (ground (arith, first, h))

  keep_all : (c : A) (ys : List A) → AllAfter c ys → filter (lt c) ys ≡ ys
  keep_all c [] all = refl
  keep_all c (y ∷ ys) (here, rest) =
      ap (λ q. if q then y ∷ filter (lt c) ys else filter (lt c) ys) here
      ∙ ap (λ zs. y ∷ zs) (keep_all c ys rest)

  NoneBefore-at : (x c : A) (xs ys : List A) → NoneBefore x (xs ++ c ∷ ys) → lt c x ≡ false
  NoneBefore-at x c [] ys (here, rest) = here
  NoneBefore-at x c (z ∷ xs) ys (here, rest) = NoneBefore-at x c xs ys rest

  -- In an ordered list without equal items, those after an item are the rest of the list.
  pub filter_after :
      (strict : IsStrict lt) (xs : List A) (c : A) (ys : List A)
      → IsOrdered (xs ++ c ∷ ys)
      → IsKeyed (xs ++ c ∷ ys)
      → filter (lt c) (xs ++ c ∷ ys) ≡ ys
  filter_after strict [] c ys (none, o) (comparable, k) =
      ap (λ q. if q then c ∷ filter (lt c) ys else filter (lt c) ys) (irrefl (lt c c) refl)
      ∙ keep_all c ys (AllAfter-from c ys none comparable)
    where
      irrefl : (q : Bool) → lt c c ≡ q → lt c c ≡ false
      irrefl true h = strict.asym c c h
      irrefl false h = h
  filter_after strict (x ∷ xs) c ys (none, o) (comparable, k) =
      ap (λ q. if q then x ∷ filter (lt c) (xs ++ c ∷ ys) else filter (lt c) (xs ++ c ∷ ys))
        (NoneBefore-at x c xs ys none)
      ∙ filter_after strict xs c ys o k
