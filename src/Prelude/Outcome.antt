-- ===== src/Prelude/Outcome.antt =====
-- What a run of Go code can come to: a value, a panic, or, in a model of a loop, no fuel left.
use Prim.Native.Nat.{ℕ, ◌<◌}
use mathlib.Core.Path.{◌≡◌, sym, ap, subst, ◌∙◌}
use mathlib.Core.List.{List}
use mathlib.Core.Option.{Option, none, some}
use vantage.Prelude.Lists.{length, get_elem?, set}
use vantage.Prelude.Tests.{ltb, if◌then◌else◌, lt→ltb}

pub data Run {ℓ} (A : Type ℓ) : Type ℓ where
  ok : A → Run A
  panic : Run A
  out_of_fuel : Run A

infixl 5 ◌>>=◌
abbrev pub ◌>>=◌ {ℓ κ} : {A : Type ℓ} {B : Type κ} → Run A → (A → Run B) → Run B
ok a >>= f = f a
panic >>= f = panic
out_of_fuel >>= f = out_of_fuel

-- A nil pointer panics when it is followed.
abbrev pub deref {ℓ} : {A : Type ℓ} → Option A → Run A
deref (some a) = ok a
deref none = panic

-- `a[i]`, read and written; out of range it panics.
pub load {ℓ} : {A : Type ℓ} → List A → ℕ → Run A
load xs i = deref (get_elem? xs i)

pub store {ℓ} : {A : Type ℓ} → List A → ℕ → A → Run (List A)
store xs i v = if ltb i (length xs) then ok (set xs i v) else panic

module _ {ℓ} {A : Type ℓ} where
  pub load-ok : (xs : List A) (i : ℕ) {a : A} → get_elem? xs i ≡ some a → load xs i ≡ ok a
  unfolding load
  load-ok xs i e = rw e

  pub store-ok : (xs : List A) (i : ℕ) (v : A) → i < length xs → store xs i v ≡ ok (set xs i v)
  unfolding store
  store-ok xs i v h = rw (lt→ltb i (length xs) h)

-- The run ends with a value of which `P` holds.
abbrev pub Returns {ℓ κ} : {A : Type ℓ} → (A → Type κ) → Run A → Type (ℓ ⊔ κ)
Returns {A = A} P r = (a : A) × (r ≡ ok a) × P a

module _ {ℓ} {A : Type ℓ} where
  -- A run has one result.
  pub same_result : {r : Run A} {a a' : A} → r ≡ ok a → r ≡ ok a' → a' ≡ a
  same_result {a = a} e e' = ap (value_or a) (sym e' ∙ e)
    where
      value_or : A → Run A → A
      value_or d (ok a) = a
      value_or d panic = d
      value_or d out_of_fuel = d

  -- Two facts about one run.
  pub Returns-both {κ μ} :
      {P : A → Type κ} {Q : A → Type μ} (r : Run A)
      → Returns P r
      → Returns Q r
      → Returns (λ a. P a × Q a) r
  Returns-both {P = P} r (a, e, p) (a', e', q) = (a', e', (subst P (sym (same_result e e')) p, q))
