-- ===== src/Collector/Healthy.antt =====
-- A database that behaves as documented, under the batches of internal/collector/collector.go.
use Prim.Native.String.{String, ◌++◌ as str_append}
use text.Mathlib.Text.{starts_with}
use text.Mathlib.TextPositions.{starts_with-append}
use vantage.Prelude.{
  All, ◌⊎◌, inl, inr, ◌||◌, ℕ, zero, suc, ◌<◌, ◌≡◌, refl, ap, sym, ◌∙◌, Bool, true, false, List, [],
  ◌∷◌, ◌++◌, Option, none, some, length, replicate, arith, Run, ok, append-nil, if◌then◌else◌,
}
use vantage.Prelude.Weigh.{count}
use vantage.Message.{TelemetryMessage}
use vantage.Collector.{
  GpuMetric, DbError, pg_error, Env, from_proto, queued, first_error, send, persist_batch,
  is_poison_err, dead_letter_row, Persisted,
}

first_error-replicate :
    {Time S : Type 0} (env : Env Time S) (n : ℕ) (e : DbError) (es : List (Option DbError))
    (close : Option DbError)
    → first_error env (replicate n none ++ some e ∷ es) close ≡ some e
unfolding first_error
first_error-replicate env zero e es close = refl
first_error-replicate env (suc n) e es close = first_error-replicate env n e es close

first_error-none :
    {Time S : Type 0} (env : Env Time S) (n : ℕ) → first_error env (replicate n none) none ≡ none
unfolding first_error
first_error-none env zero = refl
first_error-none env (suc n) = first_error-none env n

-- The rows of a batch, one after another.
abbrev pub upsert_all : {T R : Type 0} → (T → R → T) → T → List R → T
upsert_all f t [] = t
upsert_all f t (row ∷ rows) = upsert_all f (f t row) rows

-- What a dead-letter row holds of a message besides the cause.
abbrev pub DeadRow : Type 0
DeadRow = ℕ × ℕ × String

-- An error of SQLSTATE class 22 or 23.
abbrev pub IsDataError : DbError → Type 0
IsDataError e =
    (rest : String) × ((e ≡ pg_error (str_append "22" rest))
      ⊎ (e ≡ pg_error (str_append "23" rest)))

-- A database as PostgreSQL documents it, by what can be seen of its state: the telemetry table,
-- which an upsert changes row by row, and the dead-letter rows. A batch is one transaction. It
-- lands if no row is bad; otherwise one row's error, of SQLSTATE class 22 or 23, is the first, and
-- nothing lands. A payload that is storable as JSONB goes into the dead-letter table; JSONB refuses
-- others, such as a text with the escape of the character 0. Other failures do not happen while this
-- holds.
pub record Healthy {Time S : Type 0} (T : Type 0) (env : Env Time S) : Type 0 where
  pub bad : GpuMetric Time → Bool
  pub table : S → T
  pub upsert : T → GpuMetric Time → T
  pub dead : S → List DeadRow
  pub storable : String → Bool
  pub encode : TelemetryMessage → String
  pub marshals : (m : TelemetryMessage) → env.marshal m ≡ some (encode m)
  pub accepts :
      (s : S) (rows : List (GpuMetric Time))
      → count bad rows ≡ 0
      → (s' : S) × (env.send_batch s rows ≡ (replicate (length rows) none, none, s'))
        × (dead s' ≡ dead s)
        × (table s' ≡ upsert_all upsert (table s) rows)
  pub refuses :
      (s : S) (rows : List (GpuMetric Time))
      → 0 < count bad rows
      → (n : ℕ) × (e : DbError) × (es : List (Option DbError)) × (close : Option DbError) × (s' : S)
        × (env.send_batch s rows ≡ (replicate n none ++ some e ∷ es, close, s'))
        × IsDataError e
        × (dead s' ≡ dead s)
        × (table s' ≡ table s)
  pub buries :
      (s : S) (id attempts : ℕ) (payload : String) (cause : DbError)
      → storable payload ≡ true
      → (s' : S) × (env.insert_dlq s id attempts payload cause ≡ (none, s'))
        × (dead s' ≡ dead s ++ (id, attempts, payload) ∷ [])
        × (table s' ≡ table s)

module _ {Time S T : Type 0} (env : Env Time S) (h : Healthy T env) where
  -- A message whose row the database refuses for good; one that does not parse is none.
  abbrev pub is_poisonous : TelemetryMessage → Bool
  is_poisonous m = elim (from_proto env m) [ none ↦ false | some row ↦ h.bad row ]

  -- The message of a bad row can be dead-lettered.
  abbrev pub AllStorable : List TelemetryMessage → Type 0
  AllStorable = All (λ m. is_poisonous m ≡ true → h.storable (h.encode m) ≡ true)

  -- The rows that can land, and the dead-letter rows of the others.
  abbrev pub landing : List TelemetryMessage → List (GpuMetric Time)
  landing [] = []
  landing (m ∷ ms) = elim (from_proto env m) [
    | none ↦ landing ms
    | some row ↦ if h.bad row then landing ms else row ∷ landing ms
  ]

  abbrev pub buried : List TelemetryMessage → List DeadRow
  buried [] = []
  buried (m ∷ ms) =
      if is_poisonous m then (m.id, m.delivery_attempts, h.encode m) ∷ buried ms else buried ms

  -- How a batch ends: without an error, the poisonous messages in the dead-letter table, in order
  -- and each once, and every other row that parses in the telemetry table.
  abbrev pub Landed : S → List TelemetryMessage → Persisted env → Type 0
  Landed s ms r =
      (r.0 ≡ count is_poisonous ms)
      × (r.1 ≡ none)
      × (h.dead r.2 ≡ h.dead s ++ buried ms)
      × (h.table r.2 ≡ upsert_all h.upsert (h.table s) (landing ms))

  abbrev pub Lands : S → List TelemetryMessage → Run (Persisted env) → Type 0
  Lands s ms o = (n : ℕ) × (s' : S) × (o ≡ ok (n, none, s')) × Landed s ms (n, none, s')

  count-queued : (ms : List TelemetryMessage) → count h.bad (queued env ms) ≡ count is_poisonous ms
  unfolding queued
  count-queued [] = refl
  count-queued (m ∷ ms) = ground (arith, count-queued ms)

  queued_clean :
      (ms : List TelemetryMessage) → count is_poisonous ms ≡ 0 → queued env ms ≡ landing ms
  unfolding queued
  queued_clean [] e = refl
  queued_clean (m ∷ ms) e = ground (arith, queued_clean ms)

  buried_clean : (ms : List TelemetryMessage) → count is_poisonous ms ≡ 0 → buried ms ≡ []
  buried_clean [] e = refl
  buried_clean (m ∷ ms) e = ground (arith, buried_clean ms)

  pub landing-append :
      (xs ys : List TelemetryMessage) → landing (xs ++ ys) ≡ landing xs ++ landing ys
  landing-append [] ys = refl
  landing-append (m ∷ ms) ys = ground (arith, landing-append ms ys)

  pub buried-append : (xs ys : List TelemetryMessage) → buried (xs ++ ys) ≡ buried xs ++ buried ys
  buried-append [] ys = refl
  buried-append (m ∷ ms) ys = ground (arith, buried-append ms ys)

  pub upsert_all-append :
      (t : T) (xs ys : List (GpuMetric Time))
      → upsert_all h.upsert t (xs ++ ys) ≡ upsert_all h.upsert (upsert_all h.upsert t xs) ys
  upsert_all-append t [] ys = refl
  upsert_all-append t (x ∷ xs) ys = upsert_all-append (h.upsert t x) xs ys

  send_clean :
      (s : S) (rows : List (GpuMetric Time))
      → count h.bad rows ≡ 0
      → (s' : S) × (send env s rows ≡ (none, s'))
        × (h.dead s' ≡ h.dead s)
        × (h.table s' ≡ upsert_all h.upsert (h.table s) rows)
  unfolding send
  send_clean s [] clean = (s, refl, refl, refl)
  send_clean s (row ∷ rows) clean =
      let (s', e, d, t) = h.accepts s (row ∷ rows) clean in
      (
        s',
        ap (λ o. (first_error env o.0 o.1, o.2)) e
            ∙ ap (λ x. (x, s')) (first_error-none env (length (row ∷ rows))),
        d,
        t,
      )

  data_error_poisons : (e : DbError) → IsDataError e → is_poison_err env e ≡ true
  unfolding is_poison_err
  data_error_poisons e (rest, inl of_22) =
      ap (is_poison_err env) of_22
      ∙ ap (λ q. q || starts_with (str_append "22" rest) "23") (starts_with-append "22" rest)
  data_error_poisons e (rest, inr of_23) =
      ap (is_poison_err env) of_23
      ∙ ap (λ q. starts_with (str_append "23" rest) "22" || q) (starts_with-append "23" rest)
      ∙ or_true (starts_with (str_append "23" rest) "22")
    where
      or_true : (q : Bool) → (q || true) ≡ true
      or_true true = refl
      or_true false = refl

  send_poisoned :
      (s : S) (rows : List (GpuMetric Time))
      → 0 < count h.bad rows
      → (e : DbError) × (s' : S) × (send env s rows ≡ (some e, s'))
        × (is_poison_err env e ≡ true)
        × (h.dead s' ≡ h.dead s)
        × (h.table s' ≡ h.table s)
  unfolding send
  send_poisoned s [] some_bad = absurd (omega arith)
  send_poisoned s (row ∷ rows) some_bad =
      let (n, e, es, close, s', eq, p, d, t) = h.refuses s (row ∷ rows) some_bad in
      (
        e,
        s',
        ap (λ o. (first_error env o.0 o.1, o.2)) eq
            ∙ ap (λ x. (x, s')) (first_error-replicate env n e es close),
        data_error_poisons e p,
        d,
        t,
      )

  -- A batch that lands at once.
  pub persist_batch_clean :
      (s : S) (ms : List TelemetryMessage)
      → count is_poisonous ms ≡ 0
      → (s' : S) × (persist_batch env s ms ≡ (none, s')) × Landed s ms (0, none, s')
  unfolding persist_batch
  persist_batch_clean s ms clean =
      let (s', e, d, t) = send_clean s (queued env ms) (omega (arith, count-queued ms, clean)) in
      (
        s',
        e,
        (
          sym clean,
          refl,
          d ∙ sym (append-nil (h.dead s)) ∙ ap (λ z. h.dead s ++ z) (sym (buried_clean ms clean)),
          t ∙ ap (upsert_all h.upsert (h.table s)) (queued_clean ms clean),
        ),
      )

  -- A batch with a poisonous row leaves the database as it was.
  pub persist_batch_poisoned :
      (s : S) (ms : List TelemetryMessage)
      → 0 < count is_poisonous ms
      → (e : DbError) × (s' : S) × (persist_batch env s ms ≡ (some e, s'))
        × (is_poison_err env e ≡ true)
        × (h.dead s' ≡ h.dead s)
        × (h.table s' ≡ h.table s)
  unfolding persist_batch
  persist_batch_poisoned s ms some_bad =
      send_poisoned s (queued env ms) (omega (arith, count-queued ms, some_bad))

  pub dead_letter_row-buried :
      (s : S) (m : TelemetryMessage) (cause : DbError)
      → h.storable (h.encode m) ≡ true
      → (s' : S) × (dead_letter_row env s m cause ≡ (none, s'))
        × (h.dead s' ≡ h.dead s ++ (m.id, m.delivery_attempts, h.encode m) ∷ [])
        × (h.table s' ≡ h.table s)
  unfolding dead_letter_row
  dead_letter_row-buried s m cause fits =
      let (s', e, d, t) = h.buries s m.id m.delivery_attempts (h.encode m) cause fits in
      (s', rw (h.marshals m, dead_letter_row, e) (ap (λ o. (none, o.1)) e), d, t)
