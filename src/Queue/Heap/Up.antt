-- ===== src/Queue/Heap/Up.antt =====
-- `up` repairs a heap in which one item may be too small for its place.
use vantage.Prelude.{
  ℕ, zero, suc, ◌+◌, ◌-◌, ◌/◌, ◌<◌, ◌≡◌, ◌≢◌, Bool, true, false, List, arith, length, Returns, ◌==◌,
  ◌∙◌, refl, Bool-cases, inl, inr, if◌then◌else◌, [], ◌∷◌, ◌++◌, length-append,
}
use vantage.Prelude.Weigh.{SameItems, weigh-append}
use vantage.Queue.Heap.{up_loop, push}
use vantage.Queue.Heap.Array.{
  get_or, swapped, length-swapped, compare_at-ok, swap-ok, get_or-swapped, weigh-swapped,
  get_or-append,
}

-- What container/heap asks of `Less`: that it is a strict weak order.
pub record IsOrder {ℓ} {A : Type ℓ} (less : A → A → Bool) : Type ℓ where
  pub asym : (x y : A) → less x y ≡ true → less y x ≡ false
  pub le_trans : (x y z : A) → less y x ≡ false → less z y ≡ false → less z x ≡ false

abbrev pub parent : ℕ → ℕ
parent c = (c - 1) / 2

module _ {ℓ} {A : Type ℓ} (less : A → A → Bool) (d : A) where
  -- The item at `i` is no larger than the one at `j`.
  abbrev pub LeAt : List A → ℕ → ℕ → Type 0
  LeAt h i j = less (get_or h j d) (get_or h i d) ≡ false

  -- Every one of the first `n` items is no smaller than its parent.
  abbrev pub IsHeapTo : ℕ → List A → Type 0
  IsHeapTo n h = (c : ℕ) → 0 < c → c < n → LeAt h (parent c) c

  abbrev pub IsHeap : List A → Type 0
  IsHeap h = IsHeapTo (length h) h

  -- Only the edge above `i` may be out of order.
  pub record UpInv (h : List A) (i : ℕ) : Type 0 where
    pub inside : i < length h
    pub edges : (c : ℕ) → 0 < c → c < length h → c ≢ i → LeAt h (parent c) c
    pub past : (c : ℕ) → 0 < c → c < length h → parent c ≡ i → 0 < i → LeAt h (parent i) c

  -- A heap of the same items.
  abbrev pub Repaired : List A → List A → Type ℓ
  Repaired h h' = IsHeap h' × SameItems h' h

module _ {ℓ} {A : Type ℓ} (less : A → A → Bool) (d : A) (o : IsOrder less) where
  swapped-UpInv :
      (h : List A) (i : ℕ)
      → UpInv less d h i
      → 0 < i
      → less (get_or h i d) (get_or h (parent i) d) ≡ true
      → UpInv less d (swapped d h (parent i) i) (parent i)
  swapped-UpInv h i v pos below = record {
    inside = omega (arith, size, v.inside);
    edges = λ c p q r. ground (
      arith,
      size,
      at c,
      at (parent c),
      v.edges c,
      v.past c,
      o.asym (get_or h i d) (get_or h (parent i) d),
      o.le_trans (get_or h i d) (get_or h (parent i) d) (get_or h c d),
    );
    past = λ c p q r s. ground (
      arith,
      size,
      at c,
      at (parent (parent i)),
      v.edges c,
      v.edges (parent i),
      o.le_trans (get_or h (parent (parent i)) d) (get_or h (parent i) d) (get_or h c d),
    );
  }
    where
      size : length (swapped d h (parent i) i) ≡ length h
      size = length-swapped d h (parent i) i

      at :
          (c : ℕ)
          → get_or (swapped d h (parent i) i) c d ≡ (
              if i == c
              then get_or h (parent i) d
              else if parent i == c
              then get_or h i d
              else get_or h c d)
      at = get_or-swapped d h (parent i) i (omega (arith, v.inside)) v.inside

  up_loop_repairs :
      (fuel : ℕ) (h : List A) (i : ℕ)
      → i < fuel
      → UpInv less d h i
      → Returns (Repaired less d h) (up_loop less fuel h i)
  unfolding up_loop
  up_loop_repairs zero h i f v = absurd (omega arith)
  up_loop_repairs (suc fuel) h i f v =
      let above : parent i < length h = omega (arith, v.inside) in
      elim (Bool-cases (parent i == i)) [
        | inl root ↦ (h, rw root, (λ c p q. v.edges c p q (ground arith), λ w. refl))
        | inr inner ↦ elim (Bool-cases (less (get_or h i d) (get_or h (parent i) d))) [
          | inl below ↦
              let pos : 0 < i = ground arith in
              let (h', e, rep) =
                up_loop_repairs fuel (swapped d h (parent i) i) (parent i) (omega arith)
                  (swapped-UpInv h i v pos below) in
              (
                h',
                rw
                    (
                      inner,
                      compare_at-ok d h i (parent i) v.inside above less,
                      below,
                      swap-ok d h (parent i) i above v.inside less,
                    )
                    e,
                (rep.0, λ w. rep.1 w ∙ weigh-swapped d h (parent i) i above v.inside w),
              )
          | inr settled ↦ (
            h,
            rw (inner, compare_at-ok d h i (parent i) v.inside above less, settled),
            (λ c p q. ground (arith, v.edges c), λ w. refl),
          )
        ]
      ]

  -- `heap.Push` makes a heap of the old items and the new one.
  pub push-IsHeap :
      (h : List A) (x : A) → IsHeap less d h → Returns (Repaired less d (x ∷ h)) (push less h x)
  unfolding push
  push-IsHeap h x v =
      let (h', e, rep) =
        up_loop_repairs (length h + 1) (h ++ x ∷ []) (length (h ++ x ∷ []) - 1)
          (omega (arith, size)) start in
      (h', e, (rep.0, λ w. omega (arith, rep.1 w, weigh-append w h (x ∷ []))))
    where
      size : length (h ++ x ∷ []) ≡ length h + 1
      size = length-append h (x ∷ [])

      start : UpInv less d (h ++ x ∷ []) (length (h ++ x ∷ []) - 1)
      start = record {
        inside = omega (arith, size);
        edges = λ c p q r.
            ground (
              arith,
              size,
              v c,
              get_or-append d h (x ∷ []) c,
              get_or-append d h (x ∷ []) (parent c),
            );
        past = λ c p q r s. absurd (omega (arith, size));
      }
