-- ===== src/Smoke/Refused.antt =====
-- `produceExpectReject` of scripts/smoke/mqprobe/main.go.
use vantage.Prelude.{
  ℕ, zero, suc, ◌+◌, ◌<◌, ◌≡◌, ◌⊎◌, refl, sym, subst, true, false, Option, none, some,
  if◌then◌else◌, arith, inl, inr, Bool-cases, Option-cases,
}
use vantage.Smoke.{Code, ProbeError, unexpected_code, not_refused, World, is_refusal, expect_reject}
use vantage.Smoke.Accepted.{AllAccepted, none_accepted, AllAccepted-suc}

module _ (w : World) where
  -- What a report says of the calls from `i` on, of which there are `n`.
  abbrev pub Reports : ℕ → ℕ → ℕ × Option ProbeError → Type 0
  Reports n i (k, none) =
      (code : Code) × (k < i + n)
      × AllAccepted w i k
      × (w.produces k ≡ some code)
      × (is_refusal w code ≡ true)
  Reports n i (k, some e) =
      (e ≡ not_refused) × (k ≡ i + n) × AllAccepted w i k
      ⊎ ((code : Code) × (e ≡ unexpected_code k code)
          × (k < i + n)
          × AllAccepted w i k
          × (w.produces k ≡ some code)
          × (is_refusal w code ≡ false))

  Reports-suc :
      (n i : ℕ) (r : ℕ × Option ProbeError)
      → w.produces i ≡ none
      → Reports n (suc i) r
      → Reports (suc n) i r
  Reports-suc n i (k, none) h (code, below, all, fails, refusal) =
      (code, omega (arith, below), AllAccepted-suc w i k h all, fails, refusal)
  Reports-suc n i (k, some e) h (inl (same, last, all)) =
      inl (same, omega (arith, last), AllAccepted-suc w i k h all)
  Reports-suc n i (k, some e) h (inr (code, same, below, all, fails, other)) =
      inr (code, same, omega (arith, below), AllAccepted-suc w i k h all, fails, other)

  refused-Reports :
      (n i : ℕ) (code : Code)
      → w.produces i ≡ some code
      → Reports (suc n) i (i, if is_refusal w code then none else some (unexpected_code i code))
  refused-Reports n i code h = elim (Bool-cases (is_refusal w code)) [
    | inl refusal ↦
        subst (λ q. Reports (suc n) i (i, if q then none else some (unexpected_code i code)))
          (sym refusal) (code, omega (arith), none_accepted w i, h, refusal)
    | inr other ↦
        subst (λ q. Reports (suc n) i (i, if q then none else some (unexpected_code i code)))
          (sym other) (inr (code, refl, omega (arith), none_accepted w i, h, other))
  ]

  -- The report of `produceExpectReject` is right: it names the number of the first call that failed,
  -- all before it having been accepted, and passes just if that call's code is ResourceExhausted or
  -- Unavailable; it fails as not refused, with the number of all calls, just if all were accepted.
  pub expect_reject-Reports : (n i : ℕ) → Reports n i (expect_reject w n i)
  unfolding expect_reject
  expect_reject-Reports zero i = inl (refl, omega (arith), none_accepted w i)
  expect_reject-Reports (suc n) i = elim (Option-cases (w.produces i)) [
    | inl h ↦
        subst
          (λ o. Reports (suc n) i (elim o [
            | none ↦ expect_reject w n (suc i)
            | some code ↦ (i, if is_refusal w code then none else some (unexpected_code i code))
          ]))
          (sym h) (Reports-suc n i (expect_reject w n (suc i)) h (expect_reject-Reports n (suc i)))
    | inr (code, h) ↦
        subst
          (λ o. Reports (suc n) i (elim o [
            | none ↦ expect_reject w n (suc i)
            | some code ↦ (i, if is_refusal w code then none else some (unexpected_code i code))
          ]))
          (sym h) (refused-Reports n i code h)
  ]
