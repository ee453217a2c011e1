-- ===== src/Queue/Heap/Down.antt =====
-- `down` repairs the first `n` items of a heap in which one item may be too large for its place.
use vantage.Prelude.{
  ◌⊎◌, ℕ, zero, suc, ◌+◌, ◌-◌, ◌*◌, ◌≤◌, ◌<◌, ◌≡◌, refl, ◌∙◌, ◌≢◌, Bool, true, false, List, arith,
  length, Returns, ◌==◌, ltb, Bool-cases, inl, inr, if◌then◌else◌, take, length-take, ok, ap,
}
use vantage.Prelude.Weigh.{SameItems, weigh, SameItems-length}
use vantage.Queue.Heap.{smaller_child, down_loop, pop}
use vantage.Queue.Heap.Array.{
  get_or, swapped, length-swapped, compare_at-ok, swap-ok, get_or-swapped, weigh-swapped,
  get_or-take, load-get_or, weigh-take,
}
use vantage.Queue.Heap.Up.{IsOrder, parent, LeAt, IsHeapTo, IsHeap}

children : (c i : ℕ) → 0 < c → parent c ≡ i → (c ≡ 2 * i + 1) ⊎ (c ≡ 2 * i + 1 + 1)
children c i p e = omega arith

module _ {ℓ} {A : Type ℓ} (less : A → A → Bool) (d : A) where
  -- Only the edges below `i` may be out of order.
  record DownInv (n : ℕ) (h : List A) (i : ℕ) : Type 0 where
    bound : n ≤ length h
    edges : (c : ℕ) → 0 < c → c < n → parent c ≢ i → LeAt less d h (parent c) c
    past : (c : ℕ) → 0 < c → c < n → parent c ≡ i → 0 < i → LeAt less d h (parent i) c

  -- `j` is a child of `i` that is no larger than its sibling.
  record IsSmallerChild (n : ℕ) (h : List A) (i j : ℕ) : Type 0 where
    inside : j < n
    child : parent j ≡ i
    later : i < j
    least : (c : ℕ) → 0 < c → c < n → parent c ≡ i → LeAt less d h j c

  -- The first `n` items are a heap, no item is lost, and those from `n` on stay in place.
  abbrev Sunk : ℕ → List A → List A → Type ℓ
  Sunk n h h' =
      IsHeapTo less d n h' × SameItems h' h × ((c : ℕ) → n ≤ c → get_or h' c d ≡ get_or h c d)

module _ {ℓ} {A : Type ℓ} (less : A → A → Bool) (d : A) (o : IsOrder less) (n : ℕ) where
  refl_le : (x : A) → less x x ≡ false
  refl_le x = ground (arith, o.asym x x)

  smaller_child-IsSmallerChild :
      (h : List A) (i : ℕ)
      → n ≤ length h
      → 2 * i + 1 < n
      → Returns (IsSmallerChild less d n h i) (smaller_child less h (2 * i + 1) n)
  unfolding smaller_child
  smaller_child-IsSmallerChild h i b p = elim (Bool-cases (ltb (2 * i + 1 + 1) n)) [
    | inl two ↦
        let both =
          compare_at-ok d h (2 * i + 1 + 1) (2 * i + 1) (ground arith) (omega arith) less in
        elim (Bool-cases (less (get_or h (2 * i + 1 + 1) d) (get_or h (2 * i + 1) d))) [
          | inl right ↦ (
            2 * i + 1 + 1,
            rw (two, both, right),
            record {
              inside = ground arith;
              child = omega arith;
              later = omega arith;
              least = λ c q r e. ground (
                arith,
                children c i q e,
                o.asym (get_or h (2 * i + 1 + 1) d) (get_or h (2 * i + 1) d),
                refl_le (get_or h (2 * i + 1 + 1) d),
              );
            },
          )
          | inr left ↦ (
            2 * i + 1,
            rw (two, both, left),
            record {
              inside = p;
              child = omega arith;
              later = omega arith;
              least = λ c q r e. ground (arith, children c i q e, refl_le (get_or h (2 * i + 1) d));
            },
          )
        ]
    | inr one ↦ (
      2 * i + 1,
      rw one,
      record {
        inside = p;
        child = omega arith;
        later = omega arith;
        least = λ c q r e. ground (arith, children c i q e, refl_le (get_or h (2 * i + 1) d));
      },
    )
  ]

  swapped-DownInv :
      (h : List A) (i j : ℕ)
      → DownInv less d n h i
      → IsSmallerChild less d n h i j
      → less (get_or h j d) (get_or h i d) ≡ true
      → DownInv less d n (swapped d h i j) j
  swapped-DownInv h i j v s below = record {
    bound = omega (arith, length-swapped d h i j, v.bound);
    edges = λ c p q r. ground (
      arith,
      at c,
      at (parent c),
      v.edges c,
      v.past c,
      v.past j,
      s.inside,
      s.least c,
      s.later,
      s.child,
      o.asym (get_or h j d) (get_or h i d),
    );
    past = λ c p q r t. ground (arith, at c, at (parent j), v.edges c, s.later, s.child);
  }
    where
      at :
          (c : ℕ)
          → get_or (swapped d h i j) c d
            ≡ (if j == c then get_or h i d else if i == c then get_or h j d else get_or h c d)
      at =
          get_or-swapped d h i j (omega (arith, v.bound, s.inside, s.later))
            (omega (arith, v.bound, s.inside))

  down_loop_sinks :
      (fuel : ℕ) (h : List A) (i : ℕ)
      → i ≤ n
      → n < i + fuel
      → DownInv less d n h i
      → Returns (Sunk less d n h) (down_loop less fuel h i n)
  unfolding down_loop
  down_loop_sinks zero h i b f v = absurd (omega arith)
  down_loop_sinks (suc fuel) h i b f v = elim (Bool-cases (ltb (2 * i + 1) n)) [
    | inl some_child ↦
        let (j, e, s) = smaller_child-IsSmallerChild h i v.bound (ground arith) in
        let hi : i < length h = omega (arith, v.bound, s.inside, s.later) in
        let hj : j < length h = omega (arith, v.bound, s.inside) in
        let both = compare_at-ok d h j i hj hi less in
        elim (Bool-cases (less (get_or h j d) (get_or h i d))) [
          | inl below ↦
              let (h', e', (heap, same, rest)) =
                down_loop_sinks fuel (swapped d h i j) j (omega (arith, s.inside))
                  (omega (arith, s.later)) (swapped-DownInv h i j v s below) in
              (
                h',
                rw (some_child, e, both, below, swap-ok d h i j hi hj less) e',
                (
                  heap,
                  (λ w. same w ∙ weigh-swapped d h i j hi hj w),
                  λ c q.
                      rest c q ∙ ground (arith, get_or-swapped d h i j hi hj c, s.inside, s.later),
                ),
              )
          | inr settled ↦ (
            h,
            rw (some_child, e, both, settled),
            (
              (λ c q r. ground (
                arith,
                v.edges c,
                s.least c,
                o.le_trans (get_or h i d) (get_or h j d) (get_or h c d),
              )),
              (λ w. refl),
              λ c q. refl,
            ),
          )
        ]
    | inr leaf ↦ (h, rw leaf, ((λ c q r. ground (arith, v.edges c)), (λ w. refl), λ c q. refl))
  ]

module _ {ℓ} {A : Type ℓ} (less : A → A → Bool) (d : A) (h : List A) (n : ℕ)
    (size : length h ≡ n + 1) where
  -- With the last item at the root, only the edges below the root may be out of order.
  swapped_root-DownInv : IsHeap less d h → DownInv less d n (swapped d h 0 n) 0
  swapped_root-DownInv v = record {
    bound = omega (arith, length-swapped d h 0 n);
    edges = λ c p q r. ground (arith, v c, at c, at (parent c));
    past = λ c p q r s. absurd (omega arith);
  }
    where
      at :
          (c : ℕ)
          → get_or (swapped d h 0 n) c d
            ≡ (if n == c then get_or h 0 d else if 0 == c then get_or h n d else get_or h c d)
      at = get_or-swapped d h 0 n (omega arith) (omega arith)

  -- What `heap.Pop` returns, once `down` is done.
  pop_ends :
      (h' : List A)
      → down_loop less (n + 1) (swapped d h 0 n) 0 n ≡ ok h'
      → Sunk less d n (swapped d h 0 n) h'
      → (k : List A) × (pop less h ≡ ok (get_or h 0 d, k))
        × IsHeap less d k
        × ((w : A → ℕ) → w (get_or h 0 d) + weigh w k ≡ weigh w h)
  unfolding pop
  pop_ends h' e (heap, same, rest) = (
    take n h',
    rw (
      off,
      nonempty,
      swap-ok d h 0 n (omega arith) (omega arith) less,
      e,
      load-get_or d h' n (omega (arith, size')),
      last,
    ),
    (λ c p q.
        ground
          (arith, length-take n h', heap c, get_or-take d n h' c, get_or-take d n h' (parent c))),
    λ w. omega (
      arith,
      weigh-take d w n h' size',
      ap w last,
      same w,
      weigh-swapped d h 0 n (omega arith) (omega arith) w,
    ),
  )
    where
      off : length h - 1 ≡ n
      off = omega arith

      nonempty : (length h == 0) ≡ false
      nonempty = ground arith

      size' : length h' ≡ n + 1
      size' = omega (arith, SameItems-length h' (swapped d h 0 n) same, length-swapped d h 0 n)

      last : get_or h' n d ≡ get_or h 0 d
      last =
          rest n (omega arith)
          ∙ ground (arith, get_or-swapped d h 0 n (omega arith) (omega arith) n)

-- `heap.Pop` takes the root off, and leaves a heap of the rest.
pub pop-IsHeap {ℓ} :
    {A : Type ℓ} (less : A → A → Bool) (d : A)
    → IsOrder less
    → (h : List A) → 0 < length h
    → IsHeap less d h
    → (k : List A) × (pop less h ≡ ok (get_or h 0 d, k))
      × IsHeap less d k
      × ((w : A → ℕ) → w (get_or h 0 d) + weigh w k ≡ weigh w h)
pop-IsHeap less d o h pos v =
    let n = length h - 1 in
    let (h', e, sunk) =
      down_loop_sinks less d o n (n + 1) (swapped d h 0 n) 0 (omega arith) (omega arith)
        (swapped_root-DownInv less d h n (omega arith) v) in
    pop_ends less d h n (omega arith) h' e sunk
