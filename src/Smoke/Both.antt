-- ===== src/Smoke/Both.antt =====
-- `runBoth` of scripts/smoke/mqprobe/main.go.
use text.Mathlib.Text.{◌==◌ as str_eq}
use vantage.Prelude.{
  ℕ, zero, suc, ◌+◌, ◌<◌, ◌≡◌, ◌⊎◌, refl, ap, sym, subst, ◌∙◌, Bool, true, false, List, [], ◌∷◌,
  Option, none, some, if◌then◌else◌, arith, inl, inr, Bool-cases, Option-cases,
}
use vantage.Message.{TelemetryMessage}
use vantage.Smoke.{
  ProbeError, produce_failed, recv_failed, empty_metric_name, ack_failed, both_timed_out, World,
  produce_loop, open_consume, recv_and_ack, received, run_both,
}
use vantage.Smoke.Accepted.{AllAccepted, AllAccepted-suc, some_not_none}

module _ (w : World) where
  -- `Recv` number `i` and those after it, up to `k`, gave messages with a metric name, and their ids,
  -- in that order, were acknowledged.
  abbrev pub Acked : ℕ → List ℕ → ℕ → Type 0
  Acked i [] k = k ≡ i
  Acked i (id ∷ ids) k =
      (m : TelemetryMessage) × (w.receives i ≡ some m)
      × (str_eq m.metric_name "" ≡ false)
      × (m.id ≡ id)
      × (w.sends i ≡ true)
      × Acked (suc i) ids k

  -- What went wrong with message number `k`.
  abbrev pub Fails : ℕ → ProbeError → Type 0
  Fails k e =
      (e ≡ recv_failed k) × (w.receives k ≡ none)
      ⊎ ((m : TelemetryMessage) × (w.receives k ≡ some m)
          × ((e ≡ empty_metric_name k) × (str_eq m.metric_name "" ≡ true)
              ⊎ (e ≡ ack_failed m.id) × (str_eq m.metric_name "" ≡ false) × (w.sends k ≡ false)))

  abbrev pub Received : ℕ → ℕ → ℕ × Option ProbeError × List ℕ → Type 0
  Received n i (k, none, ids) = (k ≡ i + n) × Acked i ids k
  Received n i (k, some e, ids) = (k < i + n) × Acked i ids k × Fails k e

  Received-suc :
      (n i : ℕ) (m : TelemetryMessage) (r : ℕ × Option ProbeError × List ℕ)
      → w.receives i ≡ some m
      → str_eq m.metric_name "" ≡ false
      → w.sends i ≡ true
      → Received n (suc i) r
      → Received (suc n) i (r.0, r.1, m.id ∷ r.2)
  Received-suc n i m (k, none, ids) h named sent (last, acked) =
      (omega (arith, last), (m, h, named, refl, sent, acked))
  Received-suc n i m (k, some e, ids) h named sent (below, acked, fails) =
      (omega (arith, below), (m, h, named, refl, sent, acked), fails)

  -- One turn of the loop of `recvAndAck`, after what the rest of the loop gives.
  acked_or :
      ℕ
      → TelemetryMessage
      → ℕ × Option ProbeError × List ℕ
      → Bool
      → Bool
      → ℕ × Option ProbeError × List ℕ
  acked_or i m rest unnamed sent =
      if unnamed
      then (i, some (empty_metric_name i), [])
      else if sent
      then (rest.0, rest.1, m.id ∷ rest.2)
      else (i, some (ack_failed m.id), [])

  acked_or-Received :
      (n i : ℕ) (m : TelemetryMessage) (r : ℕ × Option ProbeError × List ℕ)
      → w.receives i ≡ some m
      → Received n (suc i) r
      → Received (suc n) i (acked_or i m r (str_eq m.metric_name "") (w.sends i))
  unfolding acked_or
  acked_or-Received n i m r h rest = elim (Bool-cases (str_eq m.metric_name "")) [
    | inl unnamed ↦
        subst (λ q. Received (suc n) i (acked_or i m r q (w.sends i))) (sym unnamed)
          (omega (arith), refl, inr (m, h, inl (refl, unnamed)))
    | inr named ↦
        subst (λ q. Received (suc n) i (acked_or i m r q (w.sends i))) (sym named)
          (elim (Bool-cases (w.sends i)) [
            | inl sent ↦
                subst (λ q. Received (suc n) i (acked_or i m r false q)) (sym sent)
                  (Received-suc n i m r h named sent rest)
            | inr unsent ↦
                subst (λ q. Received (suc n) i (acked_or i m r false q)) (sym unsent)
                  (omega (arith), refl, inr (m, h, inr (refl, named, unsent)))
          ])
  ]

  -- `recvAndAck` acknowledges the ids of the messages that it counts, in the order in which they come,
  -- each with a metric name; it passes just when all have come, and its error is what went wrong with
  -- the message after them.
  recv_and_ack-Received : (n i : ℕ) → Received n i (recv_and_ack w n i)
  unfolding recv_and_ack acked_or
  recv_and_ack-Received zero i = (omega (arith), refl)
  recv_and_ack-Received (suc n) i = elim (Option-cases (w.receives i)) [
    | inl h ↦
        subst
          (λ o. Received (suc n) i (elim o [
            | none ↦ (i, some (recv_failed i), [])
            | some m ↦ acked_or i m (recv_and_ack w n (suc i)) (str_eq m.metric_name "") (w.sends i)
          ]))
          (sym h) (omega (arith), refl, inl (refl, h))
    | inr (m, h) ↦
        subst
          (λ o. Received (suc n) i (elim o [
            | none ↦ (i, some (recv_failed i), [])
            | some m ↦ acked_or i m (recv_and_ack w n (suc i)) (str_eq m.metric_name "") (w.sends i)
          ]))
          (sym h)
          (acked_or-Received n i m (recv_and_ack w n (suc i)) h (recv_and_ack-Received n (suc i)))
  ]

  produce_loop-AllAccepted : (n i : ℕ) → produce_loop w n i ≡ none → AllAccepted w i (i + n)
  unfolding produce_loop
  produce_loop-AllAccepted zero i h = λ j h₁ h₂. absurd (omega (arith, h₁, h₂))
  produce_loop-AllAccepted (suc n) i h = elim (Option-cases (w.produces i)) [
    | inl fine ↦ AllAccepted-suc w i (i + suc n) fine (λ j h₁ h₂.
        produce_loop-AllAccepted n (suc i)
          (ap
              (λ o. elim o [
                | some code ↦ some (produce_failed i code)
                | none ↦ produce_loop w n (suc i)
              ])
              (sym fine)
            ∙ h)
          j h₁ (omega (arith, h₂)))
    | inr (code, fails) ↦ absurd (
        some_not_none (
          ap
            (λ o. elim o [
              | some code ↦ some (produce_failed i code)
              | none ↦ produce_loop w n (suc i)
            ])
            (sym fails)
          ∙ h))
  ]

  Received-none :
      (n i k : ℕ) (r : ℕ × Option ProbeError × List ℕ)
      → i + n ≡ k
      → Received n i r
      → r.1 ≡ none
      → Acked i r.2 k
  Received-none n i k (got, none, ids) end (last, acked) h =
      subst (λ x. Acked i ids x) (last ∙ end) acked
  Received-none n i k (got, some e, ids) end rest h = absurd (some_not_none h)

  received-Acked : (n : ℕ) → (received w n).0 ≡ none → Acked 0 (received w n).1 n
  unfolding received
  received-Acked n h = elim (Bool-cases w.in_time) [
    | inl inside ↦
        Received-none n 0 n (recv_and_ack w n 0) (omega (arith)) (recv_and_ack-Received n 0)
          (ap (λ q. if q then (recv_and_ack w n 0).1 else some both_timed_out) (sym inside) ∙ h)
    | inr late ↦ absurd (
        some_not_none
          (ap (λ q. if q then (recv_and_ack w n 0).1 else some both_timed_out) (sym late) ∙ h))
  ]

  abbrev both_from : ℕ → Option ProbeError → Option ProbeError → Option ProbeError × List ℕ
  both_from n opened produced = elim opened [
    | some e ↦ (some e, [])
    | none ↦ elim produced [ some e ↦ (some e, []) | none ↦ received w n ]
  ]

  both_from-Acked :
      (n : ℕ) (opened produced : Option ProbeError)
      → open_consume w ≡ opened
      → produce_loop w n 0 ≡ produced
      → (both_from n opened produced).0 ≡ none
      → (open_consume w ≡ none) × AllAccepted w 0 n × Acked 0 (both_from n opened produced).1 n
  both_from-Acked n none none h p fine = (
    h,
    (λ j h₁ h₂. produce_loop-AllAccepted n 0 p j h₁ (omega (arith, h₂))),
    received-Acked n fine,
  )
  both_from-Acked n none (some e) h p fails = absurd (some_not_none fails)
  both_from-Acked n (some e) produced h p fails = absurd (some_not_none fails)

  -- When the probe of both ways passes, the stream was open, all its calls of `Produce` were
  -- accepted, and exactly that many messages came back, each with a metric name; the ids that it
  -- acknowledged are theirs, in the order in which they came.
  pub run_both-Acked :
      (n : ℕ)
      → (run_both w n).0 ≡ none
      → (open_consume w ≡ none) × AllAccepted w 0 n × Acked 0 (run_both w n).1 n
  unfolding run_both
  run_both-Acked n h = both_from-Acked n (open_consume w) (produce_loop w n 0) refl refl h
