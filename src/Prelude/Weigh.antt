-- ===== src/Prelude/Weigh.antt =====
-- Multisets by weights: two lists hold the same items when they agree under every weight.
-- Weight 1 gives the length, an indicator gives the number of occurrences.
use Prim.Native.Nat.{ℕ, zero, suc, ◌+◌, ◌≤◌}
use mathlib.Core.Path.{◌≡◌, refl}
use mathlib.Core.Bool.{Bool}
use mathlib.Core.List.{List, [], ◌∷◌, ◌++◌}
use mathlib.Core.Option.{some}
use native.Mathlib.Omega.{arith}
use vantage.Prelude.Tests.{indicator}
use vantage.Prelude.Lists.{length, get_elem?, set}

module _ {ℓ} {A : Type ℓ} where
  abbrev pub weigh : (A → ℕ) → List A → ℕ
  weigh w [] = 0
  weigh w (x ∷ xs) = w x + weigh w xs

module _ {ℓ} {A : Type ℓ} where
  -- How many items pass the test.
  abbrev pub count : (A → Bool) → List A → ℕ
  count p = weigh (λ x. indicator (p x))

  abbrev pub SameItems : List A → List A → Type ℓ
  SameItems xs ys = (w : A → ℕ) → weigh w xs ≡ weigh w ys

  pub weigh-append : (w : A → ℕ) (xs ys : List A) → weigh w (xs ++ ys) ≡ weigh w xs + weigh w ys
  weigh-append w [] ys = omega arith
  weigh-append w (x ∷ xs) ys = omega (arith, weigh-append w xs ys)

  pub weigh-one : (xs : List A) → weigh (λ _. 1) xs ≡ length xs
  weigh-one [] = refl
  weigh-one (x ∷ xs) = omega (arith, weigh-one xs)

  -- A write trades the old item for the new one.
  pub weigh-set :
      (w : A → ℕ) (xs : List A) (i : ℕ) (v : A) {a : A}
      → get_elem? xs i ≡ some a
      → weigh w (set xs i v) + w a ≡ weigh w xs + w v
  weigh-set w [] i v e = ground arith
  weigh-set w (x ∷ xs) zero v e = ground arith
  weigh-set w (x ∷ xs) (suc i) v e = omega (arith, weigh-set w xs i v e)

  pub weigh_at_le :
      (w : A → ℕ) (xs : List A) (i : ℕ) {a : A} → get_elem? xs i ≡ some a → w a ≤ weigh w xs
  weigh_at_le w [] i e = ground arith
  weigh_at_le w (x ∷ xs) zero e = ground arith
  weigh_at_le w (x ∷ xs) (suc i) e = omega (arith, weigh_at_le w xs i e)

  pub SameItems-length : (xs ys : List A) → SameItems xs ys → length xs ≡ length ys
  SameItems-length xs ys h = omega (arith, weigh-one xs, weigh-one ys, h (λ _. 1))
