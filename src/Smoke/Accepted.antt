-- ===== src/Smoke/Accepted.antt =====
-- The calls of scripts/smoke/mqprobe/main.go that are accepted.
use vantage.Prelude.{ℕ, suc, ◌≤◌, ◌<◌, ◌≡◌, subst, none, some, ◌==◌, arith, inl, inr, Bool-cases}
use vantage.Smoke.{ProbeError, World}

pub some_not_none : {e : ProbeError} → ¬ (some e ≡ none)
some_not_none h = absurd (ground (arith, h))

module _ (w : World) where
  -- The calls of `Produce` with the numbers from `i` to `k` are accepted.
  abbrev pub AllAccepted : ℕ → ℕ → Type 0
  AllAccepted i k = (j : ℕ) → i ≤ j → j < k → w.produces j ≡ none

  pub none_accepted : (i : ℕ) → AllAccepted i i
  none_accepted i j h₁ h₂ = absurd (omega (arith, h₁, h₂))

  pub AllAccepted-suc : (i k : ℕ) → w.produces i ≡ none → AllAccepted (suc i) k → AllAccepted i k
  AllAccepted-suc i k h all j h₁ h₂ = elim (Bool-cases (i == j)) [
    | inl same ↦ subst (λ x. w.produces x ≡ none) (ground (arith, same)) h
    | inr other ↦ all j (ground (arith, h₁, other)) h₂
  ]
