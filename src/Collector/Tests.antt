-- ===== src/Collector/Tests.antt =====
-- The theorems on internal/collector at a concrete database, which refuses rows of value 1.
use vantage.Prelude.{
  map, All, replicate, ℕ, ◌<◌, ◌≡◌, ◌⊎◌, refl, Bool, true, false, List, [], ◌∷◌, ◌++◌, Option, none,
  some, ltb, leb, ◌==◌, length, if◌then◌else◌, ok, Returns, arith, inl, inr,
}
use vantage.Prelude.Weigh.{count}
use vantage.Message.{TelemetryMessage}
use vantage.Collector.Stream.{
  StreamEvent, new_batching, message_arrives, flush_tick, stream_closes, consume_loop,
}
use vantage.Collector.Stream.Flushed.{arrivals}
use vantage.Collector.Durable.{persist_resilient-After}
use vantage.Collector.Lasting.{IsLasting, After}
use vantage.Collector.Runner.{Session, Round, dial_fails, streams}
use vantage.Collector.Stream.Acks.{Handles, consume_loop-Handles}
use vantage.Collector.{
  GpuMetric, DbError, pg_error, PersistError, Env, first_error, is_poison_err, persist_resilient,
  flush,
}
use vantage.Collector.Redelivery.{
  insert_metric, conflicts, conflicts-upserted_mono, upserted-AllConflict, redelivered,
  redelivered_same,
}
use vantage.Collector.Persist.{persist_resilient-Landed}
use vantage.Collector.Healthy.{AllStorable, buried, DeadRow, Healthy, upsert_all, Landed}
use vantage.Collector.Flush.{AllOrNone, Reported, flush-AllOrNone}

abbrev Store : Type 0
Store = List (GpuMetric ℕ) × List DeadRow

abbrev refused_row : GpuMetric ℕ → Bool
refused_row row = row.value == 1

abbrev add_row : List (GpuMetric ℕ) → GpuMetric ℕ → List (GpuMetric ℕ)
add_row = insert_metric ◌==◌

same_time : (t : ℕ) → (t == t) ≡ true
same_time t = ground arith

abbrev transaction : Store → List (GpuMetric ℕ) → List (Option DbError) × Option DbError × Store
transaction s rows =
    if ltb 0 (count refused_row rows)
    then (some (pg_error "22003") ∷ [], none, s)
    else (replicate (length rows) none, none, (upsert_all add_row s.0 rows, s.1))

abbrev env : Env ℕ Store
env = record {
  parse_nano = λ _. some 1;
  parse_rfc3339 = λ _. none;
  utc = λ t. t;
  marshal = λ m. some m.metric_name;
  send_batch = transaction;
  insert_dlq = λ s id attempts payload cause. (none, (s.0, s.1 ++ (id, attempts, payload) ∷ []));
}

accepted_rows :
    (s : Store) (rows : List (GpuMetric ℕ))
    → count refused_row rows ≡ 0
    → transaction s rows ≡ (replicate (length rows) none, none, (upsert_all add_row s.0 rows, s.1))
accepted_rows s rows clean = rw clean refl

refused_rows :
    (s : Store) (rows : List (GpuMetric ℕ))
    → 0 < count refused_row rows
    → transaction s rows ≡ (some (pg_error "22003") ∷ [], none, s)
refused_rows s rows dirty =
    let positive : ltb 0 (count refused_row rows) ≡ true = ground arith in rw positive refl

env-Healthy : Healthy (List (GpuMetric ℕ)) env
unfolding is_poison_err
env-Healthy = record {
  bad = refused_row;
  table = λ s. s.0;
  upsert = add_row;
  dead = λ s. s.1;
  storable = λ payload. true;
  encode = λ m. m.metric_name;
  marshals = λ m. refl;
  accepts =
      λ s rows clean. ((upsert_all add_row s.0 rows, s.1), accepted_rows s rows clean, refl, refl);
  refuses = λ s rows dirty.
      (0, pg_error "22003", [], none, s, refused_rows s rows dirty, ("003", inl refl), refl, refl);
  buries = λ s id attempts payload cause fits.
      ((s.0, s.1 ++ (id, attempts, payload) ∷ []), refl, refl, refl);
}

abbrev sample : ℕ → ℕ → TelemetryMessage
sample i v = record {
  timestamp = "2025-07-18T20:42:34Z";
  metric_name = "DCGM_FI_DEV_GPU_UTIL";
  gpu_id = "0";
  device = "nvidia0";
  uuid = "GPU-5fd4f087";
  model_name = "H100";
  hostname = "host-1";
  container = "";
  pod = "";
  namespace = "";
  value = v;
  labels_raw = "";
  id = i;
  delivery_attempts = 1;
}

abbrev batch : List TelemetryMessage
batch = sample 1 5 ∷ sample 2 1 ∷ sample 3 7 ∷ sample 4 1 ∷ []

batch-AllStorable : AllStorable env env-Healthy batch
unfolding env-Healthy
batch-AllStorable = ((λ p. refl), ((λ p. refl), ((λ p. refl), ((λ p. refl), tt))))

-- The batch as the next lease sends it.
abbrev batch_again : List TelemetryMessage
batch_again = map {A = TelemetryMessage} (λ m. record m { delivery_attempts = 2 }) batch

batch_again-AllStorable : AllStorable env env-Healthy batch_again
unfolding env-Healthy
batch_again-AllStorable = ((λ p. refl), ((λ p. refl), ((λ p. refl), ((λ p. refl), tt))))

persist_resilient-Landed_example :
    Returns (Landed env env-Healthy ([], []) batch) (persist_resilient env ([], []) batch)
persist_resilient-Landed_example =
    persist_resilient-Landed env env-Healthy ([], []) batch batch-AllStorable

-- The second acknowledgement is not sent.
abbrev sends : ℕ → Bool
sends k = leb k 1

flush-AllOrNone_example :
    (n : ℕ) × (err : Option PersistError) × (s' : Store) × (persist_resilient env ([], []) batch
      ≡ ok (n, err, s'))
    × Returns
        (λ r. (r.3 ≡ s') × AllOrNone env batch r.0 r.1 r.2 × Reported env err r.2)
        (flush env sends 1 ([], []) batch)
flush-AllOrNone_example =
    flush-AllOrNone env sends 1 ([], []) (sample 1 5) (sample 2 1 ∷ sample 3 7 ∷ sample 4 1 ∷ [])

-- Three messages; the tick flushes the first two, and the second acknowledgement fails.
abbrev events : List StreamEvent
events =
    message_arrives (sample 1 5)
    ∷ message_arrives (sample 2 1)
    ∷ flush_tick
    ∷ message_arrives (sample 3 7)
    ∷ stream_closes
    ∷ []

consume_loop-Handles_example :
    Returns
      (Handles env 3 sends (arrivals events))
      (consume_loop env 3 sends events (new_batching env 3 sends ([], [])))
consume_loop-Handles_example = consume_loop-Handles env 3 sends events ([], []) (omega arith)

abbrev In : DeadRow → List DeadRow → Type 0
In a [] = ⊥
In a (x ∷ xs) = (a ≡ x) ⊎ In a xs

In-append : (a : DeadRow) (xs ys : List DeadRow) → In a xs ⊎ In a ys → In a (xs ++ ys)
In-append a [] ys (inl h) = absurd h
In-append a [] ys (inr h) = h
In-append a (x ∷ xs) ys (inl (inl e)) = inl e
In-append a (x ∷ xs) ys (inl (inr h)) = inr (In-append a xs ys (inl h))
In-append a (x ∷ xs) ys (inr h) = inr (In-append a xs ys (inr h))

abbrev answer : Bool → Store → List (GpuMetric ℕ) → List (Option DbError) × Option DbError × Store
answer q s rows =
    if q
    then (some (pg_error "22003") ∷ [], none, s)
    else (replicate (length rows) none, none, (upsert_all add_row s.0 rows, s.1))

keeps_row :
    (q : Bool) (s : Store) (rows : List (GpuMetric ℕ)) (row : GpuMetric ℕ)
    → conflicts ◌==◌ s.0 row ≡ true
    → conflicts ◌==◌ (answer q s rows).2.0 row ≡ true
keeps_row true s rows row h = h
keeps_row false s rows row h = conflicts-upserted_mono ◌==◌ same_time rows s.0 row h

keeps_dead :
    (q : Bool) (s : Store) (rows : List (GpuMetric ℕ)) (row : DeadRow)
    → In row s.1
    → In row (answer q s rows).2.1
keeps_dead true s rows row h = h
keeps_dead false s rows row h = h

lands_clean :
    (q : Bool) (s : Store) (rows : List (GpuMetric ℕ))
    → first_error env (answer q s rows).0 (answer q s rows).1 ≡ none
    → All (λ row. conflicts ◌==◌ (answer q s rows).2.0 row ≡ true) rows
unfolding first_error
lands_clean true s rows clean = absurd (ground (arith, clean))
lands_clean false s rows clean = upserted-AllConflict ◌==◌ same_time rows s.0

env-IsLasting : IsLasting env
env-IsLasting = record {
  has_row = λ s row. conflicts ◌==◌ s.0 row ≡ true;
  has_dead = λ s id attempts payload. In (id, attempts, payload) s.1;
  batch_keeps_row = λ s rows row h. keeps_row (ltb 0 (count refused_row rows)) s rows row h;
  batch_keeps_dead = λ s rows id attempts payload h.
      keeps_dead (ltb 0 (count refused_row rows)) s rows (id, attempts, payload) h;
  commits = λ s rows clean. lands_clean (ltb 0 (count refused_row rows)) s rows clean;
  insert_keeps_row = λ s id attempts payload cause row h. h;
  insert_keeps_dead = λ s id attempts payload cause id' attempts' payload' h.
      In-append (id', attempts', payload') s.1 ((id, attempts, payload) ∷ []) (inl h);
  inserts = λ s id attempts payload cause clean.
      In-append (id, attempts, payload) s.1 ((id, attempts, payload) ∷ []) (inr (inl refl));
}

persist_resilient-After_example :
    Returns (After env env-IsLasting ([], []) batch) (persist_resilient env ([], []) batch)
persist_resilient-After_example = persist_resilient-After env env-IsLasting ([], []) batch

-- A dial that fails, a stream whose second acknowledgement fails, and a second stream.
abbrev session : Session
session = record {
  opens = true;
  sends = sends;
  events = events;
  long_lived = false;
  cancelled = false;
  cut = false;
}

abbrev rounds : List Round
rounds =
    dial_fails false
    ∷ streams session
    ∷ streams (record session { sends = λ k. true; cancelled = true })
    ∷ []

env-upsert :
    (table : List (GpuMetric ℕ)) (row : GpuMetric ℕ)
    → env-Healthy.upsert table row ≡ insert_metric ◌==◌ table row
unfolding env-Healthy
env-upsert table row = refl

-- The batch comes again after another one.
redelivered_same_example :
    Returns
      (λ r.
        (env-Healthy.table r.1 ≡ env-Healthy.table r.0)
        × (env-Healthy.dead r.1 ≡ env-Healthy.dead r.0 ++ buried env env-Healthy batch_again))
      (redelivered ◌==◌ same_time env env-Healthy env-upsert
        ([], [])
        batch
        (sample 9 2 ∷ [])
        batch_again)
unfolding env-Healthy
redelivered_same_example =
    redelivered_same ◌==◌ same_time env env-Healthy env-upsert ([], []) batch (sample 9 2 ∷ [])
      batch_again (refl, (refl, (refl, (refl, tt)))) batch-AllStorable ((λ p. refl), tt)
      batch_again-AllStorable
