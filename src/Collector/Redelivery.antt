-- ===== src/Collector/Redelivery.antt =====
-- `InsertSQL` of pkg/models/telemetry.go, and what a redelivery to internal/collector/collector.go
-- changes. The statement inserts a row unless one with its natural key is in the table; whether two
-- timestamps are stored as one is PostgreSQL's.
use text.Mathlib.Text.{◌==◌ as str_eq}
use mathlib.Core.Path.{fun_ext}
use text.Mathlib.TextPositions.{eq_refl}
use vantage.Prelude.{
  none, some, All, All-mono, ◌≡◌, refl, ap, sym, ◌∙◌, Bool, true, false, ◌&&◌, ◌||◌, List, [], ◌∷◌,
  ◌++◌, if◌then◌else◌, Run, ok, ◌>>=◌, Returns, arith, inl, inr, Bool-cases,
}
use vantage.Message.{TelemetryMessage}
use vantage.Collector.{from_proto, GpuMetric, Env, Persisted, persist_resilient}
use vantage.Collector.Persist.{persist_resilient-Landed}
use vantage.Collector.Healthy.{AllStorable, upsert_all, Healthy, landing, buried, Landed}

-- The messages of a batch, with the delivery counts of another lease.
abbrev pub ComesAgain : List TelemetryMessage → List TelemetryMessage → Type 0
ComesAgain [] [] = Unit
ComesAgain [] (m' ∷ ms') = ⊥
ComesAgain (m ∷ ms) [] = ⊥
ComesAgain (m ∷ ms) (m' ∷ ms') =
    (m' ≡ record m { delivery_attempts = m'.delivery_attempts }) × ComesAgain ms ms'

-- The row of a message does not hold its delivery count.
landing_again :
    {Time S T : Type 0} (env : Env Time S) (h : Healthy T env) (ms again : List TelemetryMessage)
    → ComesAgain ms again
    → landing env h again ≡ landing env h ms
unfolding from_proto
landing_again env h [] [] same = refl
landing_again env h [] (m' ∷ ms') same = absurd same
landing_again env h (m ∷ ms) [] same = absurd same
landing_again env h (m ∷ ms) (m' ∷ ms') (here, same) =
    ap
      (λ o. elim o [
        | none ↦ landing env h ms'
        | some row ↦ if h.bad row then landing env h ms' else row ∷ landing env h ms'
      ])
      (ap (from_proto env) here)
    ∙ ap
        (λ rows. elim (from_proto env m) [
          | none ↦ rows
          | some row ↦ if h.bad row then rows else row ∷ rows
        ])
        (landing_again env h ms ms' same)

module _ {Time : Type 0} (same_instant : Time → Time → Bool) where
  -- The columns of `uq_gpu_metrics_natural_key`.
  same_key : GpuMetric Time → GpuMetric Time → Bool
  same_key r row =
      str_eq r.gpu_id row.gpu_id
      && (str_eq r.metric_name row.metric_name && same_instant r.timestamp row.timestamp)

  pub conflicts : List (GpuMetric Time) → GpuMetric Time → Bool
  unfolding same_key
  conflicts [] row = false
  conflicts (r ∷ table) row = same_key r row || conflicts table row

  -- ON CONFLICT DO NOTHING
  pub insert_metric : List (GpuMetric Time) → GpuMetric Time → List (GpuMetric Time)
  unfolding conflicts
  insert_metric table row = if conflicts table row then table else table ++ row ∷ []

  module _ (reflexive : (t : Time) → same_instant t t ≡ true) where
    same_key_refl : (row : GpuMetric Time) → same_key row row ≡ true
    unfolding same_key
    same_key_refl row =
        rw (eq_refl row.gpu_id, eq_refl row.metric_name, reflexive row.timestamp) refl

    conflicts-append_left :
        (table more : List (GpuMetric Time)) (row : GpuMetric Time)
        → conflicts table row ≡ true
        → conflicts (table ++ more) row ≡ true
    unfolding conflicts
    conflicts-append_left [] more row h = absurd (ground (arith, h))
    conflicts-append_left (r ∷ table) more row h = elim (Bool-cases (same_key r row)) [
      | inl same ↦ rw same refl
      | inr other ↦
          ap (λ q. q || conflicts (table ++ more) row) other
          ∙ conflicts-append_left table more row
              (ap (λ q. q || conflicts table row) (sym other) ∙ h)
    ]

    conflicts-append_last :
        (table : List (GpuMetric Time)) (row : GpuMetric Time)
        → conflicts (table ++ row ∷ []) row ≡ true
    unfolding conflicts
    conflicts-append_last [] row = rw (same_key_refl row) refl
    conflicts-append_last (r ∷ table) row = elim (Bool-cases (same_key r row)) [
      | inl same ↦ rw same refl
      | inr other ↦ rw other (conflicts-append_last table row)
    ]

    -- An inserted row conflicts from then on, and so does what did before.
    conflicts-insert_metric :
        (table : List (GpuMetric Time)) (row : GpuMetric Time)
        → conflicts (insert_metric table row) row ≡ true
    unfolding insert_metric
    conflicts-insert_metric table row = elim (Bool-cases (conflicts table row)) [
      | inl old ↦ rw old old
      | inr new ↦ rw new (conflicts-append_last table row)
    ]

    conflicts-insert_metric_mono :
        (table : List (GpuMetric Time)) (row r : GpuMetric Time)
        → conflicts table r ≡ true
        → conflicts (insert_metric table row) r ≡ true
    unfolding insert_metric
    conflicts-insert_metric_mono table row r h = elim (Bool-cases (conflicts table row)) [
      | inl old ↦ rw old h
      | inr new ↦ rw new (conflicts-append_left table (row ∷ []) r h)
    ]

    abbrev pub upserted : List (GpuMetric Time) → List (GpuMetric Time) → List (GpuMetric Time)
    upserted = upsert_all insert_metric

    pub conflicts-upserted_mono :
        (rows table : List (GpuMetric Time)) (r : GpuMetric Time)
        → conflicts table r ≡ true
        → conflicts (upserted table rows) r ≡ true
    conflicts-upserted_mono [] table r h = h
    conflicts-upserted_mono (row ∷ rows) table r h =
        conflicts-upserted_mono rows (insert_metric table row) r
          (conflicts-insert_metric_mono table row r h)

    abbrev pub AllConflict : List (GpuMetric Time) → List (GpuMetric Time) → Type 0
    AllConflict table rows = All (λ r. conflicts table r ≡ true) rows

    pub upserted-AllConflict :
        (rows table : List (GpuMetric Time)) → AllConflict (upserted table rows) rows
    upserted-AllConflict [] table = tt
    upserted-AllConflict (row ∷ rows) table = (
      conflicts-upserted_mono rows (insert_metric table row) row
          (conflicts-insert_metric table row),
      upserted-AllConflict rows (insert_metric table row),
    )

    -- Rows that all conflict change nothing.
    upserted_same :
        (rows table : List (GpuMetric Time)) → AllConflict table rows → upserted table rows ≡ table
    unfolding insert_metric
    upserted_same [] table all = refl
    upserted_same (row ∷ rows) table (old, all) =
        ap (λ q. upserted (if q then table else table ++ row ∷ []) rows) old
        ∙ upserted_same rows table all

    upserted_again :
        (rows between table : List (GpuMetric Time))
        → upserted (upserted (upserted table rows) between) rows
          ≡ upserted (upserted table rows) between
    upserted_again rows between table =
        upserted_same rows (upserted (upserted table rows) between) (
          All-mono (λ r. conflicts (upserted table rows) r ≡ true)
            (λ r. conflicts (upserted (upserted table rows) between) r ≡ true)
            (conflicts-upserted_mono between (upserted table rows)) rows
            (upserted-AllConflict rows table))

    module _ {S : Type 0} (env : Env Time S) (h : Healthy (List (GpuMetric Time)) env)
        (as_sql : (table : List (GpuMetric Time)) (row : GpuMetric Time)
          → h.upsert table row ≡ insert_metric table row) where
      same_upsert :
          (s : S) (ms : List TelemetryMessage) (r : Persisted env)
          → Landed env h s ms r
          → h.table r.2 ≡ upserted (h.table s) (landing env h ms)
      same_upsert s ms r (_, _, _, table) =
          table
          ∙ ap (λ f. upsert_all f (h.table s) (landing env h ms))
              (fun_ext (λ t. fun_ext (λ row. as_sql t row)))

      -- A batch, another one, and the first batch as it comes again.
      abbrev pub redelivered :
          S → List TelemetryMessage → List TelemetryMessage → List TelemetryMessage → Run (S × S)
      redelivered s ms between again = do
        first ← persist_resilient env s ms
        second ← persist_resilient env first.2 between
        third ← persist_resilient env second.2 again
        ok (second.2, third.2)

      -- While the database behaves as documented, its upsert is that of `InsertSQL`, and the payloads
      -- of the poisonous messages are storable as JSONB: a batch that is delivered again, with other
      -- delivery counts and after any other batch, leaves the telemetry table as it was, whatever
      -- the first delivery found there; its poisonous messages are dead-lettered again.
      pub redelivered_same :
          (s : S) (ms between again : List TelemetryMessage)
          → ComesAgain ms again
          → AllStorable env h ms
          → AllStorable env h between
          → AllStorable env h again
          → Returns
              (λ r. (h.table r.1 ≡ h.table r.0) × (h.dead r.1 ≡ h.dead r.0 ++ buried env h again))
              (redelivered s ms between again)
      redelivered_same s ms between again same fits₁ fits₂ fits₃ =
          let (r₁, e₁, l₁) = persist_resilient-Landed env h s ms fits₁ in
          let (r₂, e₂, l₂) = persist_resilient-Landed env h r₁.2 between fits₂ in
          let (r₃, e₃, l₃) = persist_resilient-Landed env h r₂.2 again fits₃ in
          let rows = landing env h ms in
          let after =
            same_upsert r₁.2 between r₂ l₂
            ∙ ap (λ t. upserted t (landing env h between)) (same_upsert s ms r₁ l₁) in
          (
            (r₂.2, r₃.2),
            ap
                  (λ o. o >>= λ first. persist_resilient env first.2 between >>= λ second.
                    persist_resilient env second.2 again >>= λ third. ok (second.2, third.2))
                  e₁
                ∙ ap
                    (λ o. o >>= λ second.
                      persist_resilient env second.2 again >>= λ third. ok (second.2, third.2))
                    e₂
                ∙ ap (λ o. o >>= λ third. ok (r₂.2, third.2)) e₃,
            (
              same_upsert r₂.2 again r₃ l₃
                  ∙ ap (upserted (h.table r₂.2)) (landing_again env h ms again same)
                  ∙ ap (λ t. upserted t rows) after
                  ∙ upserted_again rows (landing env h between) (h.table s)
                  ∙ sym after,
              l₃.2,
            ),
          )
