-- ===== src/Collector/Durable.antt =====
-- What internal/collector/collector.go has stored when `persistResilient` reports no error, over a
-- database that may fail at any time.
use vantage.Prelude.{
  ◌/◌, All-append, All-mono, ℕ, zero, suc, ◌+◌, ◌<◌, ◌≡◌, refl, ap, subst, ◌∙◌, true, false, List,
  [], ◌∷◌, ◌++◌, Option, none, some, ◌==◌, length, take, drop, if◌then◌else◌, Run, ok, ◌>>=◌,
  Returns, arith, length-take, length-drop, take-drop, load, load-ok,
}
use Prim.Native.String.{String}
use vantage.Message.{TelemetryMessage}
use vantage.Collector.{
  DbError, PersistError, db_failed, marshal_failed, Env, queued, send, persist_batch, is_poison_err,
  dead_letter_row, Persisted, one_dead, second_half, isolate, after_batch, persist_loop,
  persist_resilient,
}
use vantage.Collector.Lasting.{
  IsLasting, IsSettled, Lasts, Lasts-of, Sent, After, persist_batch-Sent, buried,
}

module _ {Time S : Type 0} (env : Env Time S) (d : IsLasting env) where
  open d use {has_row, has_dead}

  one_dead-After :
      (s : S) (m : TelemetryMessage) (e : DbError)
      → After env d s (m ∷ []) (one_dead env (dead_letter_row env s m e))
  unfolding one_dead dead_letter_row
  one_dead-After s m e = of_payload (env.marshal m) refl
    where
      of_answer :
          (payload : String)
          → env.marshal m ≡ some payload
          → (x : Option DbError) → (env.insert_dlq s m.id m.delivery_attempts payload e).0 ≡ x
          → let s' = (env.insert_dlq s m.id m.delivery_attempts payload e).1 in
            After env d s
              (m ∷ [])
              (one_dead env (elim x [ none ↦ (none, s') | some y ↦ (some (db_failed y), s') ]))
      of_answer payload marshalled none clean = (
        Lasts-of env d s (env.insert_dlq s m.id m.delivery_attempts payload e).1
            (d.insert_keeps_row s m.id m.delivery_attempts payload e)
            (d.insert_keeps_dead s m.id m.delivery_attempts payload e),
        (buried payload marshalled (d.inserts s m.id m.delivery_attempts payload e clean), tt),
      )
      of_answer payload marshalled (some y) failed =
          Lasts-of env d s (env.insert_dlq s m.id m.delivery_attempts payload e).1
            (d.insert_keeps_row s m.id m.delivery_attempts payload e)
            (d.insert_keeps_dead s m.id m.delivery_attempts payload e)

      of_payload :
          (o : Option String)
          → env.marshal m ≡ o
          → After env d s (m ∷ []) (
              one_dead env (elim o [
                | none ↦ (some (marshal_failed m.id), s)
                | some payload ↦
                    let (err, s') = env.insert_dlq s m.id m.delivery_attempts payload e in
                    elim err [ none ↦ (none, s') | some y ↦ (some (db_failed y), s') ]
              ]))
      of_payload none missing = λ m' h. h
      of_payload (some payload) marshalled =
          of_answer payload marshalled (env.insert_dlq s m.id m.delivery_attempts payload e).0 refl

  second_half-After :
      (again : S → List TelemetryMessage → Run (Persisted env)) (s : S)
      (xs ys : List TelemetryMessage)
      → ((s : S) → Returns (After env d s ys) (again s ys))
      → (r : Persisted env) → After env d s xs r
      → Returns (After env d s (xs ++ ys)) (second_half env again ys r)
  unfolding second_half
  second_half-After again s xs ys second (left, some e, s') keeps =
      ((left, some e, s'), refl, keeps)
  second_half-After again s xs ys second (left, none, s') (keeps, all) =
      let ((n, err, s''), e, after) = second s' in
      (
        (left + n, err, s''),
        ap (λ o. o >>= (λ r. ok (left + r.0, r.1, r.2))) e,
        both n (left + n) err s'' after,
      )
    where
      both :
          (n k : ℕ) (err : Option PersistError) (s'' : S)
          → After env d s' ys (n, err, s'')
          → After env d s (xs ++ ys) (k, err, s'')
      both n k none s'' (keeps', all') = (
        λ m h. keeps' m (keeps m h),
        All-append (IsSettled env d s'') xs ys
            (All-mono (IsSettled env d s') (IsSettled env d s'') keeps' xs all) all',
      )
      both n k (some x) s'' keeps' = λ m h. keeps' m (keeps m h)

  isolate-After :
      (again : S → List TelemetryMessage → Run (Persisted env)) (s : S) (ms : List TelemetryMessage)
      (e : DbError)
      → ((s : S) (xs : List TelemetryMessage)
          → length xs < length ms
          → Returns (After env d s xs) (again s xs))
      → 0 < length ms
      → Returns (After env d s ms) (isolate env again s ms e)
  unfolding isolate
  isolate-After again s [] e ih some_row = absurd (omega arith)
  isolate-After again s (m ∷ []) e ih some_row = (
    one_dead env (dead_letter_row env s m e),
    ap (λ o. o >>= (λ m. ok (one_dead env (dead_letter_row env s m e)))) (load-ok (m ∷ []) 0 refl),
    one_dead-After s m e,
  )
  isolate-After again s (m ∷ m' ∷ ms) e ih some_row =
      let all = m ∷ m' ∷ ms in
      let k = length all / 2 in
      let half : (k < length all) × (0 < k) = (omega arith, omega arith) in
      let several : (length all == 1) ≡ false = ground arith in
      let (r, eq, after) = ih s (take k all) (omega (arith, length-take k all, half)) in
      let (r', eq', after') =
        second_half-After again s (take k all) (drop k all)
          (λ s. ih s (drop k all) (omega (arith, length-drop k all, half))) r after in
      (
        r',
        ap
              (λ q.
                if q
                then (load all 0 >>= (λ m. ok (one_dead env (dead_letter_row env s m e))))
                else (again s (take k all) >>= second_half env again (drop k all)))
              several
            ∙ ap (λ o. o >>= second_half env again (drop k all)) eq
            ∙ eq',
        subst (λ ms. After env d s ms r') (take-drop k all) after',
      )

  After-from :
      (s s' : S) (ms : List TelemetryMessage) (r : Persisted env)
      → Lasts env d s s'
      → After env d s' ms r
      → After env d s ms r
  After-from s s' ms (n, none, s'') keeps (keeps', all) = (λ m h. keeps' m (keeps m h), all)
  After-from s s' ms (n, some e, s'') keeps keeps' = λ m h. keeps' m (keeps m h)

  after_batch-After :
      (again : S → List TelemetryMessage → Run (Persisted env)) (s : S) (ms : List TelemetryMessage)
      → ((s : S) (xs : List TelemetryMessage)
          → length xs < length ms
          → Returns (After env d s xs) (again s xs))
      → 0 < length ms
      → (o : Option DbError × S) → Sent env d s ms o
      → Returns (After env d s ms) (after_batch env again ms o)
  unfolding after_batch
  after_batch-After again s ms ih some_row (none, s') sent = ((0, none, s'), refl, sent)
  after_batch-After again s ms ih some_row (some e, s') keeps =
      elim (is_poison_err env e)
        as (λ q.
          Returns (After env d s ms)
            (if q then isolate env again s' ms e else ok (0, some (db_failed e), s'))) [
              | true ↦
                  let (r, eq, after) = isolate-After again s' ms e ih some_row in
                  (r, eq, After-from s s' ms r keeps after)
              | false ↦ ((0, some (db_failed e), s'), refl, keeps)
            ]

  persist_loop-After :
      (fuel : ℕ) (s : S) (ms : List TelemetryMessage)
      → length ms < fuel
      → Returns (After env d s ms) (persist_loop env fuel s ms)
  unfolding persist_loop after_batch persist_batch send queued
  persist_loop-After zero s ms short = absurd (omega arith)
  persist_loop-After (suc fuel) s [] short = ((0, none, s), refl, ((λ m h. h), tt))
  persist_loop-After (suc fuel) s (m ∷ ms) short =
      after_batch-After (persist_loop env fuel) s (m ∷ ms)
        (λ s xs shorter. persist_loop-After fuel s xs (omega (arith, short, shorter))) (omega arith)
        (persist_batch env s (m ∷ ms)) (persist_batch-Sent env d s (m ∷ ms))

  -- Over a database that keeps what it has committed, and whatever else it does, `persistResilient`
  -- ends, and what was settled before stays so; when it reports no error, every message of the batch
  -- is settled: its row or its dead letter is stored, or it has no row.
  pub persist_resilient-After :
      (s : S) (ms : List TelemetryMessage) → Returns (After env d s ms) (persist_resilient env s ms)
  unfolding persist_resilient
  persist_resilient-After s ms = persist_loop-After (length ms + 1) s ms (omega arith)
