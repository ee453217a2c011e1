-- ===== src/Queue/Heap/Array.antt =====
-- Slices read with a default, and `swap` on them.
use vantage.Prelude.{
  ℕ, zero, suc, ◌+◌, ◌<◌, ◌≡◌, refl, ap, ◌∙◌, Bool, List, [], ◌∷◌, ◌++◌, some, arith, ◌==◌,
  if◌then◌else◌, length, length-set, get_elem?, set, take, ok, load, load-ok, store-ok,
}
use vantage.Prelude.Weigh.{weigh, weigh-set}
use vantage.Queue.Heap.{swap, compare_at}

module _ {ℓ} {A : Type ℓ} where
  abbrev pub get_or : List A → ℕ → A → A
  get_or [] i d = d
  get_or (x ∷ xs) zero d = x
  get_or (x ∷ xs) (suc i) d = get_or xs i d

module _ {ℓ} {A : Type ℓ} (d : A) where
  pub get_elem?-get_or : (h : List A) (i : ℕ) → i < length h → get_elem? h i ≡ some (get_or h i d)
  get_elem?-get_or [] i p = absurd (omega arith)
  get_elem?-get_or (x ∷ h) zero p = refl
  get_elem?-get_or (x ∷ h) (suc i) p = get_elem?-get_or h i (omega arith)

  pub load-get_or : (h : List A) (i : ℕ) → i < length h → load h i ≡ ok (get_or h i d)
  load-get_or h i p = load-ok h i (get_elem?-get_or h i p)

  pub get_or-set :
      (h : List A) (i j : ℕ) (v : A)
      → i < length h
      → get_or (set h i v) j d ≡ (if i == j then v else get_or h j d)
  get_or-set [] i j v p = absurd (omega arith)
  get_or-set (x ∷ h) zero zero v p = refl
  get_or-set (x ∷ h) zero (suc j) v p = ground arith
  get_or-set (x ∷ h) (suc i) zero v p = ground arith
  get_or-set (x ∷ h) (suc i) (suc j) v p = ground (arith, get_or-set h i j v)

  pub get_or-append : (h k : List A) (i : ℕ) → i < length h → get_or (h ++ k) i d ≡ get_or h i d
  get_or-append [] k i p = absurd (omega arith)
  get_or-append (x ∷ h) k zero p = refl
  get_or-append (x ∷ h) k (suc i) p = get_or-append h k i (omega arith)

  pub get_or-take : (n : ℕ) (h : List A) (i : ℕ) → i < n → get_or (take n h) i d ≡ get_or h i d
  get_or-take zero h i p = absurd (omega arith)
  get_or-take (suc n) [] i p = refl
  get_or-take (suc n) (x ∷ h) zero p = refl
  get_or-take (suc n) (x ∷ h) (suc i) p = get_or-take n h i (omega arith)

  pub weigh-take :
      (w : A → ℕ) (n : ℕ) (h : List A)
      → length h ≡ n + 1
      → weigh w (take n h) + w (get_or h n d) ≡ weigh w h
  weigh-take w n [] e = absurd (omega arith)
  weigh-take w zero (x ∷ []) e = omega arith
  weigh-take w zero (x ∷ y ∷ h) e = absurd (omega arith)
  weigh-take w (suc n) (x ∷ h) e = omega (arith, weigh-take w n h (omega arith))

  -- The slice with the items at `i` and `j` exchanged.
  pub swapped : List A → ℕ → ℕ → List A
  swapped h i j = set (set h i (get_or h j d)) j (get_or h i d)

  pub length-swapped : (h : List A) (i j : ℕ) → length (swapped h i j) ≡ length h
  unfolding swapped
  length-swapped h i j =
      length-set (set h i (get_or h j d)) j (get_or h i d) ∙ length-set h i (get_or h j d)

  module _ (h : List A) (i j : ℕ) (hi : i < length h) (hj : j < length h) where
    pub compare_at-ok :
        (less : A → A → Bool) → compare_at less h i j ≡ ok (less (get_or h i d) (get_or h j d))
    unfolding compare_at
    compare_at-ok less = rw (load-get_or h i hi, load-get_or h j hj)

    pub swap-ok : (less : A → A → Bool) → swap less h i j ≡ ok (swapped h i j)
    unfolding swap swapped
    swap-ok less = rw (
      load-get_or h i hi,
      load-get_or h j hj,
      store-ok h i (get_or h j d) hi,
      store-ok (set h i (get_or h j d)) j (get_or h i d) (rw length-set hj),
    )

    pub get_or-swapped :
        (c : ℕ)
        → get_or (swapped h i j) c d
          ≡ (if j == c then get_or h i d else if i == c then get_or h j d else get_or h c d)
    unfolding swapped
    get_or-swapped c = rw (
      get_or-set (set h i (get_or h j d)) j c (get_or h i d) (rw length-set hj),
      get_or-set h i c (get_or h j d) hi,
    )

    pub weigh-swapped : (w : A → ℕ) → weigh w (swapped h i j) ≡ weigh w h
    unfolding swapped
    weigh-swapped w =
        let h' = set h i (get_or h j d) in
        let kept : get_or h' j d ≡ get_or h j d = ground (arith, get_or-set h i j (get_or h j d)) in
        omega (
          arith,
          weigh-set w h i (get_or h j d) (get_elem?-get_or h i hi),
          weigh-set w h' j (get_or h i d) (get_elem?-get_or h' j (rw length-set hj)),
          ap w kept,
        )
