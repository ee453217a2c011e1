-- ===== src/Queue/Ring/Refine.antt =====
-- `deque` and `dlqRing` refine a first-in first-out list, which `contents` reads off the slots.
use vantage.Prelude.{
  ℕ, zero, suc, ◌+◌, ◌%◌, ◌<◌, ◌≡◌, refl, sym, ap, subst, ◌∙◌, ◌⊎◌, inl, inr, List, [], ◌∷◌, ◌++◌,
  Option, none, some, Bool, true, false, arith, length, get_elem?, ok, load, load-ok,
}
use vantage.Queue.Ring.{Ring, new_ring, push_back, pop_front, push_evict, gather, contents}
use vantage.Queue.Ring.Window.{
  Window, Holds, new_ring-Holds, push_back-Holds, pop_front-Holds, pop_front-empty,
  push_evict-Holds, push_evict_full-Holds,
}

module _ {ℓ} {A : Type ℓ} where
  gather-Window :
      (buf : List (Option A)) (h : ℕ) (xs : List A)
      → Window buf h xs
      → gather buf h (length xs) ≡ xs
  unfolding gather
  gather-Window buf h [] w = refl
  gather-Window buf h (x ∷ xs) w = rw (w.0, gather-Window buf (h + 1) xs w.1)

  pub contents-Holds : (n : ℕ) (r : Ring A) (xs : List A) → Holds n r xs → contents r ≡ xs
  unfolding contents
  contents-Holds n r xs v = rw v.counted (gather-Window r.buf r.head xs v.window)

  -- A ring of capacity `n` whose slots are filled as its indices say.
  abbrev pub IsRing : ℕ → Ring A → Type ℓ
  IsRing n r = Holds n r (contents r)

  to-IsRing : (n : ℕ) (r : Ring A) (xs : List A) → Holds n r xs → IsRing n r × (contents r ≡ xs)
  to-IsRing n r xs v = let e = contents-Holds n r xs v in (subst (Holds n r) (sym e) v, e)

  -- A new ring is empty.
  pub new_ring-IsRing :
      (n : ℕ) → 0 < n → IsRing n (new_ring {A = A} n) × (contents (new_ring {A = A} n) ≡ [])
  new_ring-IsRing n p = to-IsRing n (new_ring n) [] (new_ring-Holds n p)

  pub count-contents : (n : ℕ) (r : Ring A) → IsRing n r → r.count ≡ length (contents r)
  count-contents n r v = v.counted

  Window-at :
      (buf : List (Option A)) (h i : ℕ) (xs : List A) (x : A)
      → Window buf h xs
      → get_elem? xs i ≡ some x
      → get_elem? buf ((h + i) % length buf) ≡ some (some x)
  Window-at buf h i [] x w e = ground arith
  Window-at buf h zero (y ∷ ys) x w e =
      let at : h + 0 ≡ h = omega arith in
      ap (λ j. get_elem? buf (j % length buf)) at ∙ w.0 ∙ ap some e
  Window-at buf h (suc i) (y ∷ ys) x w e =
      let at : h + suc i ≡ h + 1 + i = omega arith in
      ap (λ j. get_elem? buf (j % length buf)) at ∙ Window-at buf (h + 1) i ys x w.1 e

  -- The `i`-th value stands in the `i`-th slot from the head, going round.
  pub load-contents :
      (n : ℕ) (r : Ring A) (i : ℕ) (x : A)
      → IsRing n r
      → get_elem? (contents r) i ≡ some x
      → load r.buf ((r.head + i) % length r.buf) ≡ ok (some x)
  load-contents n r i x v e =
      load-ok r.buf ((r.head + i) % length r.buf)
        (Window-at r.buf r.head i (contents r) x v.window e)

  -- Below its capacity `push_back` appends, and does not panic.
  pub push_back-append :
      (n : ℕ) (r : Ring A) (x : A)
      → IsRing n r
      → r.count < n
      → (r' : Ring A) × (push_back r x ≡ ok r') × IsRing n r' × (contents r' ≡ contents r ++ x ∷ [])
  push_back-append n r x v room =
      let (r', e, h) = push_back-Holds n r (contents r) x v (omega (arith, v.counted)) in
      let (h', c) = to-IsRing n r' (contents r ++ x ∷ []) h in (r', e, h', c)

  -- What `pop_front` does to a ring that holds `xs`.
  abbrev pub Pops : ℕ → Ring A → List A → Type ℓ
  Pops n r [] = pop_front r ≡ ok (none, r)
  Pops n r (x ∷ xs) =
      (r' : Ring A) × (pop_front r ≡ ok (some (some x), r')) × IsRing n r' × (contents r' ≡ xs)

  Holds-Pops : (n : ℕ) (r : Ring A) (xs : List A) → Holds n r xs → Pops n r xs
  Holds-Pops n r [] v = pop_front-empty n r v
  Holds-Pops n r (x ∷ xs) v =
      let (r', e, h) = pop_front-Holds n r x xs v in
      let (h', c) = to-IsRing n r' xs h in (r', e, h', c)

  -- `pop_front` takes the oldest value off, and reports an empty ring as such.
  pub pop_front-Pops : (n : ℕ) (r : Ring A) → IsRing n r → Pops n r (contents r)
  pop_front-Pops n r v = Holds-Pops n r (contents r) v

  -- What `push_evict` of `x` does to a ring that holds `xs`: only a full ring lets its oldest go.
  abbrev pub Evicts : ℕ → Ring A → A → List A → Bool → Ring A → Type ℓ
  Evicts n r x xs false r' = (length xs < n) × (contents r' ≡ xs ++ x ∷ [])
  Evicts n r x xs true r' =
      (y : A) × (ys : List A) × (xs ≡ y ∷ ys) × (length xs ≡ n) × (contents r' ≡ ys ++ x ∷ [])

  Holds-Evicts :
      (n : ℕ) (r : Ring A) (x : A) (xs : List A)
      → Holds n r xs
      → (length xs < n) ⊎ (length xs ≡ n)
      → (evicted : Bool) × (r' : Ring A) × (push_evict r x ≡ ok (evicted, r'))
        × IsRing n r'
        × Evicts n r x xs evicted r'
  Holds-Evicts n r x xs v (inl room) =
      let (r', e, h) = push_evict-Holds n r xs x v room in
      let (h', c) = to-IsRing n r' (xs ++ x ∷ []) h in (false, r', e, h', (room, c))
  Holds-Evicts n r x [] v (inr full) = absurd (omega (arith, v.head_in))
  Holds-Evicts n r x (y ∷ ys) v (inr full) =
      let (r', e, h) = push_evict_full-Holds n r y ys x v full in
      let (h', c) = to-IsRing n r' (ys ++ x ∷ []) h in (true, r', e, h', (y, ys, refl, full, c))

  -- `push_evict` appends; a ring that is full, and only such a ring, loses its oldest value.
  pub push_evict-Evicts :
      (n : ℕ) (r : Ring A) (x : A)
      → IsRing n r
      → (evicted : Bool) × (r' : Ring A) × (push_evict r x ≡ ok (evicted, r'))
        × IsRing n r'
        × Evicts n r x (contents r) evicted r'
  push_evict-Evicts n r x v = Holds-Evicts n r x (contents r) v (grind (arith, v.fits))
