-- ===== src/Collector/Runner/Reconnects.antt =====
-- What holds of `Runner.Run` of internal/collector/collector.go over all its streams.
use vantage.Prelude.{All, ℕ, ◌≤◌, ◌≡◌, false, List, [], ◌∷◌, ◌++◌, Returns}
use vantage.Message.{TelemetryMessage}
use vantage.Collector.{Env, ids_of}
use vantage.Collector.Lasting.{IsLasting, IsSettled}
use vantage.Collector.Stream.Flushed.{arrivals}
use vantage.Collector.Runner.{
  Round, context_over, dial_fails, streams, Running, RunEnd, run_rounds, is_ready,
}

-- The messages are, stream by stream, the first that came over it.
abbrev pub Firsts : List Round → List TelemetryMessage → Type 0
Firsts [] done = done ≡ []
Firsts (context_over ∷ rounds) done = done ≡ []
Firsts (dial_fails cut ∷ rounds) done = Firsts rounds done
Firsts (streams x ∷ rounds) done =
    (now : List TelemetryMessage) × (left : List TelemetryMessage) × (later : List TelemetryMessage)
    × (done ≡ now ++ later)
    × (now ++ left ≡ arrivals x.events)
    × Firsts rounds later

abbrev pub IsPause : ℕ → Type 0
IsPause p = (100 ≤ p) × (p ≤ 5000)

module _ {Time S : Type 0} (env : Env Time S) (d : IsLasting env) (size : ℕ) where
  -- What holds throughout, when `before` was acknowledged.
  record Holds (before : List TelemetryMessage) (r : Running S) : Type 0 where
    acked : r.run_acked ≡ ids_of env before
    settled : All (IsSettled env d r.run_db) before
    paused : All IsPause r.run_pauses
    unready : is_ready r.run_marks ≡ false

  -- The rounds that are left acknowledge some more.
  abbrev Adds : List Round → List TelemetryMessage → RunEnd × Running S → Type 0
  Adds rounds before r =
      (done : List TelemetryMessage) × Holds (before ++ done) r.1 × Firsts rounds done

  abbrev Goes : List Round → Type 0
  Goes rounds =
      (b : ℕ) (r : Running S) (before : List TelemetryMessage)
      → IsPause b
      → Holds before r
      → Returns (Adds rounds before) (run_rounds env size rounds b r)

  -- What `Run` has acknowledged, over all its streams.
  abbrev pub Runs : List Round → RunEnd × Running S → Type 0
  Runs rounds r =
      (done : List TelemetryMessage) × (r.1.run_acked ≡ ids_of env done)
      × All (IsSettled env d r.1.run_db) done
      × All IsPause r.1.run_pauses
      × (is_ready r.1.run_marks ≡ false)
      × Firsts rounds done
