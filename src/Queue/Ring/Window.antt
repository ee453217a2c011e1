-- ===== src/Queue/Ring/Window.antt =====
-- The ring against a list of values: what a ring that holds `xs` holds after each operation.
use native.Mathlib.Nat.{mod-add-mod, mod-eq_of_lt, mod-eq-sub-mod, mod-lt, mod-mod}
use vantage.Prelude.{
  ℕ, suc, ◌+◌, ◌-◌, ◌%◌, ◌≤◌, ◌<◌, ◌≡◌, refl, ap, sym, ◌∙◌, ◌≢◌, List, [], ◌∷◌, ◌++◌, Option, none,
  some, arith, length, length-set, length-append, length-replicate, get_elem?, set,
  get_elem?-set_self, get_elem?-set_ne, ok, load-ok, store-ok, Returns, true, false,
}
use native.Mathlib.Decide.{dec_lt}
use vantage.Queue.Ring.{Ring, new_ring, put, advance, push_back, pop_front, push_evict}

-- Positions less than a lap apart are different slots.
mod_ne : (n a k : ℕ) → suc k < n → (a + suc k) % n ≢ a % n
mod_ne n a k h e = elim (dec_lt (a % n + suc k) n) [
  | yes p ↦ omega (arith, whole, e, mod-eq_of_lt p)
  | no p ↦ omega (
    arith,
    whole,
    e,
    mod-lt a {m = n} (omega arith),
    mod-eq-sub-mod {n = a % n + suc k} {m = n} (omega arith),
    mod-eq_of_lt {n = a % n + suc k - n} {m = n} (omega (arith, mod-lt a {m = n} (omega arith))),
  )
]
  where
    whole : (a % n + suc k) % n ≡ (a + suc k) % n
    whole = mod-add-mod a n (suc k)

module _ {ℓ} {A : Type ℓ} where
  -- The slots from position `h` on, going round, hold exactly `xs`.
  abbrev pub Window : List (Option A) → ℕ → List A → Type ℓ
  Window buf h [] = Unit
  Window buf h (x ∷ xs) = (get_elem? buf (h % length buf) ≡ some (some x)) × Window buf (h + 1) xs

  -- The ring `r` of capacity `n` holds the values `xs`, oldest first.
  pub record Holds (n : ℕ) (r : Ring A) (xs : List A) : Type ℓ where
    pub size : length r.buf ≡ n
    pub head_in : r.head < n
    pub counted : r.count ≡ length xs
    pub fits : length xs ≤ n
    pub window : Window r.buf r.head xs

  Window-mod :
      (buf : List (Option A)) (h h' : ℕ) (xs : List A)
      → h % length buf ≡ h' % length buf
      → Window buf h xs
      → Window buf h' xs
  Window-mod buf h h' [] e w = tt
  Window-mod buf h h' (x ∷ xs) e w = (
    rw (← e) (w.0),
    Window-mod buf (h + 1) (h' + 1) xs
        (sym (mod-add-mod h (length buf) 1)
          ∙ ap (λ r. (r + 1) % length buf) e
          ∙ mod-add-mod h' (length buf) 1)
        w.1,
  )

  -- A write outside the window leaves it.
  Window-set_ne :
      (buf : List (Option A)) (i : ℕ) (v : Option A) (h : ℕ) (xs : List A)
      → ((k : ℕ) → k < length xs → i ≢ (h + k) % length buf)
      → Window buf h xs
      → Window (set buf i v) h xs
  Window-set_ne buf i v h [] out w = tt
  Window-set_ne buf i v h (x ∷ xs) out w = (
    rw (length-set buf i v) (
        get_elem?-set_ne buf i (h % length buf) v
          (λ e. out 0 (omega arith) (e ∙ ap (λ n. n % length buf) (omega arith)))
        ∙ w.0),
    Window-set_ne buf i v (h + 1) xs
        (λ k p e. out (k + 1) (omega arith) (e ∙ ap (λ n. n % length buf) (omega arith))) w.1,
  )

  -- A value in the slot behind the window extends it.
  Window-append :
      (buf : List (Option A)) (h : ℕ) (xs : List A) (x : A)
      → Window buf h xs
      → get_elem? buf ((h + length xs) % length buf) ≡ some (some x)
      → Window buf h (xs ++ x ∷ [])
  Window-append buf h [] x w e = (ap (λ n. get_elem? buf (n % length buf)) (omega arith) ∙ e, tt)
  Window-append buf h (y ∷ xs) x w e = (
    w.0,
    Window-append buf (h + 1) xs x w.1 (ap (λ n. get_elem? buf (n % length buf)) (omega arith) ∙ e),
  )

  pub new_ring-Holds : (n : ℕ) → 0 < n → Holds n (new_ring {A = A} n) []
  unfolding new_ring
  new_ring-Holds n h = record {
    size = length-replicate {A = Option A} n none;
    head_in = h;
    counted = refl;
    fits = omega arith;
    window = tt;
  }

module _ {ℓ} {A : Type ℓ} (n : ℕ) (r : Ring A) where
  -- Below the capacity a value goes to the end.
  put-Holds :
      (xs : List A) (x : A)
      → Holds n r xs
      → length xs < n
      → Returns (λ r'. Holds n r' (xs ++ x ∷ [])) (put r x)
  unfolding put
  put-Holds xs x v room = (
    record r { buf = set r.buf i (some x); count = r.count + 1 },
    rw (store-ok r.buf i (some x) inside),
    record {
      size = same ∙ v.size;
      head_in = v.head_in;
      counted = omega (arith, v.counted, length-append xs (x ∷ []));
      fits = omega (arith, length-append xs (x ∷ []));
      window =
          Window-append (set r.buf i (some x)) r.head xs x
            (Window-set_ne r.buf i (some x) r.head xs apart v.window)
            (rw same (rw (← v.counted) (get_elem?-set_self r.buf i (some x) inside)));
    },
  )
    where
      i : ℕ
      i = (r.head + r.count) % length r.buf

      inside : i < length r.buf
      inside = mod-lt (r.head + r.count) (omega (arith, v.size, v.head_in))

      same : length (set r.buf i (some x)) ≡ length r.buf
      same = length-set r.buf i (some x)

      apart : (k : ℕ) → k < length xs → i ≢ (r.head + k) % length r.buf
      apart k p e =
          mod_ne (length r.buf) (r.head + k) (length xs - k - 1) (omega (arith, v.size))
            (ap (λ n. n % length r.buf) (omega (arith, v.counted)) ∙ e)

  advance-Holds :
      (x : A) (xs : List A) → Holds n r (x ∷ xs) → Returns (λ r'. Holds n r' xs) (advance r)
  unfolding advance
  advance-Holds x xs v = (
    record { buf = set r.buf r.head none; head = (r.head + 1) % length r.buf; count = r.count - 1 },
    rw (store-ok r.buf r.head none (omega (arith, v.size, v.head_in))),
    record {
      size = same ∙ v.size;
      head_in = rw (← v.size) (mod-lt (r.head + 1) (omega (arith, v.size, v.head_in)));
      counted = omega (arith, v.counted);
      fits = omega (arith, v.fits);
      window =
          Window-mod (set r.buf r.head none) (r.head + 1) ((r.head + 1) % length r.buf) xs
            (rw same (sym (mod-mod (r.head + 1) (length r.buf))))
            (Window-set_ne r.buf r.head none (r.head + 1) xs apart v.window.1);
    },
  )
    where
      same : length (set r.buf r.head none) ≡ length r.buf
      same = length-set r.buf r.head none

      apart : (k : ℕ) → k < length xs → r.head ≢ (r.head + 1 + k) % length r.buf
      apart k p e = mod_ne (length r.buf) r.head k (omega (arith, v.fits, v.size)) (
          ap (λ n. n % length r.buf) (omega arith)
          ∙ sym e
          ∙ sym (mod-eq_of_lt (omega (arith, v.size, v.head_in))))

  -- Below its capacity `push_back` adds the value at the end, and does not panic.
  pub push_back-Holds :
      (xs : List A) (x : A)
      → Holds n r xs
      → length xs < n
      → Returns (λ r'. Holds n r' (xs ++ x ∷ [])) (push_back r x)
  unfolding push_back
  push_back-Holds xs x v room = ground (arith, put-Holds xs x v room)

  pub pop_front-empty : Holds n r [] → pop_front r ≡ ok (none, r)
  unfolding pop_front
  pop_front-empty v = rw (v.counted)

  -- `pop_front` takes the oldest value.
  pub pop_front-Holds :
      (x : A) (xs : List A)
      → Holds n r (x ∷ xs)
      → (r' : Ring A) × (pop_front r ≡ ok (some (some x), r')) × Holds n r' xs
  unfolding pop_front
  pop_front-Holds x xs v =
      let (r', e, h) = advance-Holds x xs v in
      let found =
        rw (mod-eq_of_lt {n = r.head} {m = length r.buf} (omega (arith, v.size, v.head_in))) at
          (v.window.0) in
      (r', ground (arith, v.counted, load-ok r.buf r.head found, e), h)

  -- `push_evict` adds the value at the end, and lets go of the oldest one if the ring is full.
  pub push_evict-Holds :
      (xs : List A) (x : A)
      → Holds n r xs
      → length xs < n
      → (r' : Ring A) × (push_evict r x ≡ ok (false, r')) × Holds n r' (xs ++ x ∷ [])
  unfolding push_evict
  push_evict-Holds xs x v room =
      let (r', e, h) = put-Holds xs x v room in (r', ground (arith, e, v.counted, v.size), h)

module _ {ℓ} {A : Type ℓ} (n : ℕ) (r : Ring A) where
  pub push_evict_full-Holds :
      (y : A) (ys : List A) (x : A)
      → Holds n r (y ∷ ys)
      → length (y ∷ ys) ≡ n
      → (r' : Ring A) × (push_evict r x ≡ ok (true, r')) × Holds n r' (ys ++ x ∷ [])
  unfolding push_evict
  push_evict_full-Holds y ys x v full =
      let (r₁, e₁, h₁) = advance-Holds n r y ys v in
      let (r₂, e₂, h₂) = put-Holds n r₁ ys x h₁ (omega arith) in
      (r₂, ground (arith, e₁, e₂, v.counted, v.size), h₂)
