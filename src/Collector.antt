-- ===== src/Collector.antt =====
-- internal/collector/collector.go and `FromProto` of pkg/models/telemetry.go: a batch of messages
-- goes into the database, and rows that it refuses for good are isolated by bisection.
--
-- The database, the clock's text formats and protojson are not of this repository: `Env` has the
-- calls that the code makes of them, and a state `S` that the database's calls change. Log lines
-- and metrics are left out.
pub mod Healthy
pub mod Persist
pub mod Flush
pub mod Lasting
pub mod Durable
pub mod Redelivery
pub mod Stream
pub mod Runner
mod Tests
use Prim.Native.String.{String}
use text.Mathlib.Text.{starts_with}
use vantage.Prelude.{
  ℕ, zero, suc, ◌+◌, ◌/◌, ◌==◌, ltb, leb, Bool, true, false, ◌||◌, List, [], ◌∷◌, ◌++◌, Option,
  none, some, if◌then◌else◌, length, take, drop, Run, ok, out_of_fuel, ◌>>=◌, load,
}
use vantage.Message.{TelemetryMessage}

-- `models.GpuMetric`
pub record GpuMetric (Time : Type 0) : Type 0 where
  pub gpu_id : String
  pub timestamp : Time
  pub metric_name : String
  pub value : ℕ
  pub device : String
  pub model_name : String
  pub hostname : String
  pub container : String
  pub pod : String
  pub namespace : String
  pub labels_raw : String

-- An error of the database: one with an SQLSTATE code of two characters or more, or any other.
pub data DbError : Type 0 where
  pg_error : String → DbError
  other_error : DbError

pub data PersistError : Type 0 where
  db_failed : DbError → PersistError
  marshal_failed : ℕ → PersistError

-- An error of a flush: the batch did not land, or the acknowledgement of an id was not sent.
pub data FlushError : Type 0 where
  persist_failed : PersistError → FlushError
  ack_failed : ℕ → FlushError

-- `send_batch` gives the result of each row's `Exec`, then that of `Close`.
pub record Env (Time S : Type 0) : Type 0 where
  pub parse_nano : String → Option Time
  pub parse_rfc3339 : String → Option Time
  pub utc : Time → Time
  pub marshal : TelemetryMessage → Option String
  pub send_batch : S → List (GpuMetric Time) → List (Option DbError) × Option DbError × S
  pub insert_dlq : S → ℕ → ℕ → String → DbError → Option DbError × S

module _ {Time S : Type 0} (env : Env Time S) where
  parse_timestamp : String → Option Time
  parse_timestamp raw = elim (env.parse_nano raw) [ some t ↦ some t | none ↦ env.parse_rfc3339 raw ]

  -- `FromProto`: the GPU's identity is the `uuid`, not the ordinal `gpu_id`.
  pub from_proto : TelemetryMessage → Option (GpuMetric Time)
  unfolding parse_timestamp
  from_proto m = elim (parse_timestamp m.timestamp) [
    | none ↦ none
    | some ts ↦ some (record {
      gpu_id = m.uuid;
      timestamp = env.utc ts;
      metric_name = m.metric_name;
      value = m.value;
      device = m.device;
      model_name = m.model_name;
      hostname = m.hostname;
      container = m.container;
      pod = m.pod;
      namespace = m.namespace;
      labels_raw = m.labels_raw;
    })
  ]

  -- The rows of the messages that parse; the others are skipped.
  pub queued : List TelemetryMessage → List (GpuMetric Time)
  queued [] = []
  queued (m ∷ ms) =
      let rest = queued ms in elim (from_proto m) [ none ↦ rest | some row ↦ row ∷ rest ]

  -- The first error of the rows, or that of `Close`.
  pub first_error : List (Option DbError) → Option DbError → Option DbError
  first_error [] close = close
  first_error (some e ∷ es) close = some e
  first_error (none ∷ es) close = first_error es close

  -- An empty batch is not sent.
  send : S → List (GpuMetric Time) → Option DbError × S
  unfolding first_error
  send s [] = (none, s)
  send s (row ∷ rows) =
      let (es, close, s') = env.send_batch s (row ∷ rows) in (first_error es close, s')

  pub persist_batch : S → List TelemetryMessage → Option DbError × S
  unfolding send queued
  persist_batch s ms = send s (queued ms)

  unfoldable pub is_poison_err : DbError → Bool
  is_poison_err (pg_error code) = starts_with code "22" || starts_with code "23"
  is_poison_err other_error = false

  pub dead_letter_row : S → TelemetryMessage → DbError → Option PersistError × S
  dead_letter_row s m cause = elim (env.marshal m) [
    | none ↦ (some (marshal_failed m.id), s)
    | some payload ↦
        let (err, s') = env.insert_dlq s m.id m.delivery_attempts payload cause in
        elim err [ none ↦ (none, s') | some e ↦ (some (db_failed e), s') ]
  ]

  abbrev pub Persisted : Type 0
  Persisted = ℕ × Option PersistError × S

  -- How many were dead-lettered when the only row of a batch is.
  one_dead : Option PersistError × S → Persisted
  one_dead (none, s) = (1, none, s)
  one_dead (some e, s) = (0, some e, s)

  second_half :
      (S → List TelemetryMessage → Run Persisted)
      → List TelemetryMessage
      → Persisted
      → Run Persisted
  second_half again right (left, some e, s) = ok (left, some e, s)
  second_half again right (left, none, s) = again s right >>= λ r. ok (left + r.0, r.1, r.2)

  -- What a poison error leads to: the row itself, or the two halves.
  isolate :
      (S → List TelemetryMessage → Run Persisted)
      → S
      → List TelemetryMessage
      → DbError
      → Run Persisted
  unfolding one_dead second_half
  isolate again s ms e =
      if length ms == 1
      then load ms 0 >>= (λ m. ok (one_dead (dead_letter_row s m e)))
      else (again s (take (length ms / 2) ms) >>= second_half again (drop (length ms / 2) ms))

  after_batch :
      (S → List TelemetryMessage → Run Persisted)
      → List TelemetryMessage
      → Option DbError × S
      → Run Persisted
  unfolding isolate
  after_batch again ms (none, s) = ok (0, none, s)
  after_batch again ms (some e, s) =
      if is_poison_err e then isolate again s ms e else ok (0, some (db_failed e), s)

  persist_loop : ℕ → S → List TelemetryMessage → Run Persisted
  unfolding after_batch
  persist_loop zero s ms = out_of_fuel
  persist_loop (suc fuel) s ms = after_batch (persist_loop fuel) ms (persist_batch s ms)

  -- Each half is shorter than the batch.
  pub persist_resilient : S → List TelemetryMessage → Run Persisted
  unfolding persist_loop
  persist_resilient s ms = persist_loop (length ms + 1) s ms

  pub ids_of : List TelemetryMessage → List ℕ
  ids_of [] = []
  ids_of (m ∷ ms) = m.id ∷ ids_of ms

  -- The acknowledgements that go out, until one fails; `sends k` says whether the stream's `Send`
  -- number `k` succeeds.
  pub send_acks : (ℕ → Bool) → ℕ → List TelemetryMessage → List ℕ × Option FlushError
  send_acks sends k [] = ([], none)
  send_acks sends k (m ∷ ms) =
      let (acks, err) = send_acks sends (suc k) ms in
      if sends k then (m.id ∷ acks, err) else ([], some (ack_failed m.id))

  -- A batch that is acknowledged is emptied, unless a `Send` fails.
  acknowledged :
      S
      → List TelemetryMessage
      → List ℕ × Option FlushError
      → List ℕ × List TelemetryMessage × Option FlushError × S
  acknowledged s ms (acks, none) = (acks, [], none, s)
  acknowledged s ms (acks, some e) = (acks, ms, some e, s)

  -- `flush`, when `k` calls of `Send` have been made: the ids acknowledged, the batch that is left,
  -- the error, and the database.
  pub flush :
      (ℕ → Bool)
      → ℕ
      → S
      → List TelemetryMessage
      → Run (List ℕ × List TelemetryMessage × Option FlushError × S)
  unfolding send_acks acknowledged
  flush sends k s [] = ok ([], [], none, s)
  flush sends k s (m ∷ ms) = persist_resilient s (m ∷ ms) >>= λ r. elim r.1 [
    | some e ↦ ok ([], m ∷ ms, some (persist_failed e), r.2)
    | none ↦ ok (acknowledged r.2 (m ∷ ms) (send_acks sends k (m ∷ ms)))
  ]
