-- ===== src/Collector/Lasting.antt =====
-- A database that may fail at any time, and what internal/collector/collector.go has stored in it.
use vantage.Prelude.{All, ℕ, ◌≡◌, refl, sym, subst, List, [], ◌∷◌, Option, none, some}
use Prim.Native.String.{String}
use vantage.Message.{TelemetryMessage}
use vantage.Collector.{
  GpuMetric, DbError, Env, from_proto, queued, first_error, send, persist_batch, Persisted,
}

-- A database by what it keeps: the rows whose key is in the telemetry table, and the dead-letter
-- rows, by id, attempts and payload. As PostgreSQL and pgx document it, a batch whose rows and whose
-- `Close` report no error is committed, and so is an insert without an error; neither takes away
-- what is there, also when it fails.
pub record IsLasting {Time S : Type 0} (env : Env Time S) : Type 1 where
  pub has_row : S → GpuMetric Time → Type 0
  pub has_dead : S → ℕ → ℕ → String → Type 0
  pub batch_keeps_row :
      (s : S) (rows : List (GpuMetric Time)) (row : GpuMetric Time)
      → has_row s row
      → has_row (env.send_batch s rows).2 row
  pub batch_keeps_dead :
      (s : S) (rows : List (GpuMetric Time)) (id attempts : ℕ) (payload : String)
      → has_dead s id attempts payload
      → has_dead (env.send_batch s rows).2 id attempts payload
  pub commits :
      (s : S) (rows : List (GpuMetric Time))
      → first_error env (env.send_batch s rows).0 (env.send_batch s rows).1 ≡ none
      → All (has_row (env.send_batch s rows).2) rows
  pub insert_keeps_row :
      (s : S) (id attempts : ℕ) (payload : String) (cause : DbError) (row : GpuMetric Time)
      → has_row s row
      → has_row (env.insert_dlq s id attempts payload cause).1 row
  pub insert_keeps_dead :
      (s : S) (id attempts : ℕ) (payload : String) (cause : DbError) (id' attempts' : ℕ)
      (payload' : String)
      → has_dead s id' attempts' payload'
      → has_dead (env.insert_dlq s id attempts payload cause).1 id' attempts' payload'
  pub inserts :
      (s : S) (id attempts : ℕ) (payload : String) (cause : DbError)
      → (env.insert_dlq s id attempts payload cause).0 ≡ none
      → has_dead (env.insert_dlq s id attempts payload cause).1 id attempts payload

module _ {Time S : Type 0} (env : Env Time S) (d : IsLasting env) where
  open d use {has_row, has_dead}

  -- A message is settled when its row or its payload is stored, or if it has no row.
  pub data IsSettled (s : S) (m : TelemetryMessage) : Type 0 where
    stored : (row : GpuMetric Time) → from_proto env m ≡ some row → has_row s row → IsSettled s m
    buried :
        (payload : String)
        → env.marshal m ≡ some payload
        → has_dead s m.id m.delivery_attempts payload
        → IsSettled s m
    unparsed : from_proto env m ≡ none → IsSettled s m

  -- What is settled stays so.
  abbrev pub Lasts : S → S → Type 0
  Lasts s s' = (m : TelemetryMessage) → IsSettled s m → IsSettled s' m

  pub Lasts-of :
      (s s' : S)
      → ((row : GpuMetric Time) → has_row s row → has_row s' row)
      → ((id attempts : ℕ) (payload : String)
          → has_dead s id attempts payload
          → has_dead s' id attempts payload)
      → Lasts s s'
  Lasts-of s s' rows dead m (stored row parsed h) = stored row parsed (rows row h)
  Lasts-of s s' rows dead m (buried payload marshalled h) =
      buried payload marshalled (dead m.id m.delivery_attempts payload h)
  Lasts-of s s' rows dead m (unparsed none_parsed) = unparsed none_parsed

  -- After a batch: without an error its messages are settled.
  abbrev pub Sent : S → List TelemetryMessage → Option DbError × S → Type 0
  Sent s ms (none, s') = Lasts s s' × All (IsSettled s') ms
  Sent s ms (some e, s') = Lasts s s'

  abbrev pub After : S → List TelemetryMessage → Persisted env → Type 0
  After s ms (n, none, s') = Lasts s s' × All (IsSettled s') ms
  After s ms (n, some e, s') = Lasts s s'

  settled_row :
      (s : S) (m : TelemetryMessage) (ms : List TelemetryMessage) (o : Option (GpuMetric Time))
      → (All (has_row s) (queued env ms) → All (IsSettled s) ms)
      → from_proto env m ≡ o
      → All (has_row s) (elim o [ none ↦ queued env ms | some row ↦ row ∷ queued env ms ])
      → All (IsSettled s) (m ∷ ms)
  settled_row s m ms none rest parsed all = (unparsed parsed, rest all)
  settled_row s m ms (some row) rest parsed (has, all) = (stored row parsed has, rest all)

  settled_rows :
      (s : S) (ms : List TelemetryMessage) → All (has_row s) (queued env ms) → All (IsSettled s) ms
  unfolding queued
  settled_rows s [] all = tt
  settled_rows s (m ∷ ms) all = settled_row s m ms (from_proto env m) (settled_rows s ms) refl all

  send-Sent :
      (s : S) (ms : List TelemetryMessage) (rows : List (GpuMetric Time))
      → queued env ms ≡ rows
      → Sent s ms (send env s rows)
  unfolding send
  send-Sent s ms [] e = (λ m h. h, settled_rows s ms (subst (All (has_row s)) (sym e) tt))
  send-Sent s ms (row ∷ rows) e =
      let all = row ∷ rows in
      let r = env.send_batch s all in answered (first_error env r.0 r.1) refl
    where
      answered :
          (x : Option DbError)
          → first_error env (env.send_batch s (row ∷ rows)).0 (env.send_batch s (row ∷ rows)).1 ≡ x
          → Sent s ms (x, (env.send_batch s (row ∷ rows)).2)
      answered none clean = (
        Lasts-of s (env.send_batch s (row ∷ rows)).2 (d.batch_keeps_row s (row ∷ rows))
            (d.batch_keeps_dead s (row ∷ rows)),
        settled_rows (env.send_batch s (row ∷ rows)).2 ms (
            subst (All (has_row (env.send_batch s (row ∷ rows)).2)) (sym e)
              (d.commits s (row ∷ rows) clean)),
      )
      answered (some x) failed =
          Lasts-of s (env.send_batch s (row ∷ rows)).2 (d.batch_keeps_row s (row ∷ rows))
            (d.batch_keeps_dead s (row ∷ rows))

  pub persist_batch-Sent : (s : S) (ms : List TelemetryMessage) → Sent s ms (persist_batch env s ms)
  unfolding persist_batch
  persist_batch-Sent s ms = send-Sent s ms (queued env ms) refl
