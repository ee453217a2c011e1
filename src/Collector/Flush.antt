-- ===== src/Collector/Flush.antt =====
-- `flush` of internal/collector/collector.go over any database.
use vantage.Prelude.{
  ◌/◌, ℕ, zero, suc, ◌+◌, ◌≤◌, ◌<◌, ◌≡◌, refl, ap, ◌∙◌, Bool, true, false, List, [], ◌∷◌, ◌++◌,
  Option, none, some, ◌==◌, length, take, drop, if◌then◌else◌, Run, ok, ◌>>=◌, Returns, arith,
  length-take, length-drop, load, load-ok,
}
use vantage.Message.{TelemetryMessage}
use vantage.Collector.{
  DbError, PersistError, db_failed, FlushError, persist_failed, ack_failed, send_acks, acknowledged,
  Env, queued, send, persist_batch, is_poison_err, dead_letter_row, Persisted, one_dead,
  second_half, isolate, after_batch, persist_loop, persist_resilient, ids_of, flush,
}

module _ {Time S : Type 0} (env : Env Time S) where
  -- At most every message of the batch is dead-lettered.
  abbrev pub Ends : ℕ → Run (Persisted env) → Type 0
  Ends n o = Returns (λ r. r.0 ≤ n) o

  one_dead_le : (o : Option PersistError × S) → (one_dead env o).0 ≤ 1
  unfolding one_dead
  one_dead_le (none, s) = omega arith
  one_dead_le (some e, s) = omega arith

  second_half-Ends :
      (again : S → List TelemetryMessage → Run (Persisted env)) (ys : List TelemetryMessage)
      (n k : ℕ)
      → ((s : S) → Ends k (again s ys))
      → (r : Persisted env) → r.0 ≤ n
      → Ends (n + k) (second_half env again ys r)
  unfolding second_half
  second_half-Ends again ys n k second (left, some e, s) le =
      ((left, some e, s), refl, omega (arith, le))
  second_half-Ends again ys n k second (left, none, s) le =
      let (r, e, le') = second s in
      (
        (left + r.0, r.1, r.2),
        ap (λ o. o >>= (λ r. ok (left + r.0, r.1, r.2))) e,
        omega (arith, le, le'),
      )

  isolate-Ends :
      (again : S → List TelemetryMessage → Run (Persisted env)) (s : S) (ms : List TelemetryMessage)
      (e : DbError)
      → ((s : S) (xs : List TelemetryMessage)
          → length xs < length ms
          → Ends (length xs) (again s xs))
      → 0 < length ms
      → Ends (length ms) (isolate env again s ms e)
  unfolding isolate
  isolate-Ends again s [] e ih some_row = absurd (omega arith)
  isolate-Ends again s (m ∷ []) e ih some_row = (
    one_dead env (dead_letter_row env s m e),
    ap (λ o. o >>= (λ m. ok (one_dead env (dead_letter_row env s m e)))) (load-ok (m ∷ []) 0 refl),
    one_dead_le (dead_letter_row env s m e),
  )
  isolate-Ends again s (m ∷ m' ∷ ms) e ih some_row =
      let all = m ∷ m' ∷ ms in
      let k = length all / 2 in
      let half : (k < length all) × (0 < k) = (omega arith, omega arith) in
      let xs = take k all in
      let ys = drop k all in
      let several : (length all == 1) ≡ false = ground arith in
      let (r, eq, le) = ih s xs (omega (arith, length-take k all, half)) in
      let (r', eq', le') =
        second_half-Ends again ys (length xs) (length ys)
          (λ s. ih s ys (omega (arith, length-drop k all, half))) r le in
      (
        r',
        ap
              (λ q.
                if q
                then (load all 0 >>= (λ m. ok (one_dead env (dead_letter_row env s m e))))
                else (again s xs >>= second_half env again ys))
              several
            ∙ ap (λ o. o >>= second_half env again ys) eq
            ∙ eq',
        omega (arith, le', length-take k all, length-drop k all, half),
      )

  -- The result of a batch that is not empty, when every shorter one ends.
  after_batch-Ends :
      (again : S → List TelemetryMessage → Run (Persisted env)) (ms : List TelemetryMessage)
      → ((s : S) (xs : List TelemetryMessage)
          → length xs < length ms
          → Ends (length xs) (again s xs))
      → 0 < length ms
      → (o : Option DbError × S) → Ends (length ms) (after_batch env again ms o)
  unfolding after_batch
  after_batch-Ends again ms ih some_row (none, s) = ((0, none, s), refl, omega arith)
  after_batch-Ends again ms ih some_row (some e, s) =
      elim (is_poison_err env e)
        as (λ q.
          Ends (length ms)
            (if q then isolate env again s ms e else ok (0, some (db_failed e), s))) [
              | true ↦ isolate-Ends again s ms e ih some_row
              | false ↦ ((0, some (db_failed e), s), refl, omega arith)
            ]

  persist_loop-Ends :
      (fuel : ℕ) (s : S) (ms : List TelemetryMessage)
      → length ms < fuel
      → Ends (length ms) (persist_loop env fuel s ms)
  unfolding persist_loop after_batch persist_batch send queued
  persist_loop-Ends zero s ms short = absurd (omega arith)
  persist_loop-Ends (suc fuel) s [] short = ((0, none, s), refl, omega arith)
  persist_loop-Ends (suc fuel) s (m ∷ ms) short =
      after_batch-Ends (persist_loop env fuel) (m ∷ ms)
        (λ s xs shorter. persist_loop-Ends fuel s xs (omega (arith, short, shorter))) (omega arith)
        (persist_batch env s (m ∷ ms))

  -- Whatever the database answers, `persistResilient` ends within its fuel, without a panic, and
  -- reports no more dead letters than the batch has messages.
  pub persist_resilient-Ends :
      (s : S) (ms : List TelemetryMessage) → Ends (length ms) (persist_resilient env s ms)
  unfolding persist_resilient
  persist_resilient-Ends s ms = persist_loop-Ends (length ms + 1) s ms (omega arith)

  -- Without an error the whole batch is acknowledged, and none of it is left. With one it is kept,
  -- and nothing is acknowledged, unless a `Send` fails: then the messages before that one are.
  abbrev pub AllOrNone :
      List TelemetryMessage → List ℕ → List TelemetryMessage → Option FlushError → Type 0
  AllOrNone ms acks left none = (acks ≡ ids_of env ms) × (left ≡ [])
  AllOrNone ms acks left (some (persist_failed e)) = (acks ≡ []) × (left ≡ ms)
  AllOrNone ms acks left (some (ack_failed id)) =
      (sent : List TelemetryMessage) × (m : TelemetryMessage) × (rest : List TelemetryMessage)
      × (acks ≡ ids_of env sent)
      × (ms ≡ sent ++ m ∷ rest)
      × (id ≡ m.id)
      × (left ≡ ms)

  -- An error of the database is the error of the flush; without one only a `Send` can fail.
  abbrev pub Reported : Option PersistError → Option FlushError → Type 0
  Reported (some e) err = err ≡ some (persist_failed e)
  Reported none none = Unit
  Reported none (some (persist_failed e)) = ⊥
  Reported none (some (ack_failed id)) = Unit

  -- The acknowledgements of a batch that has landed.
  module _ (sends : ℕ → Bool) where
    abbrev Acks : List TelemetryMessage → List ℕ × Option FlushError → Type 0
    Acks ms (acks, none) = acks ≡ ids_of env ms
    Acks ms (acks, some (persist_failed e)) = ⊥
    Acks ms (acks, some (ack_failed id)) =
        (sent : List TelemetryMessage) × (m : TelemetryMessage) × (rest : List TelemetryMessage)
        × (acks ≡ ids_of env sent)
        × (ms ≡ sent ++ m ∷ rest)
        × (id ≡ m.id)

    Acks-cons :
        (m : TelemetryMessage) (ms : List TelemetryMessage) (r : List ℕ × Option FlushError)
        → Acks ms r
        → Acks (m ∷ ms) (m.id ∷ r.0, r.1)
    unfolding ids_of
    Acks-cons m ms (acks, none) all = ap (λ ids. m.id ∷ ids) all
    Acks-cons m ms (acks, some (persist_failed e)) never = never
    Acks-cons m ms (acks, some (ack_failed id)) (sent, m', rest, e, e', named) =
        (m ∷ sent, m', rest, ap (λ ids. m.id ∷ ids) e, ap (λ ms. m ∷ ms) e', named)

    send_acks-Acks : (k : ℕ) (ms : List TelemetryMessage) → Acks ms (send_acks env sends k ms)
    unfolding send_acks ids_of
    send_acks-Acks k [] = refl
    send_acks-Acks k (m ∷ ms) =
        elim (sends k)
          as (λ q. Acks (m ∷ ms) (
            if q
            then (m.id ∷ (send_acks env sends (suc k) ms).0, (send_acks env sends (suc k) ms).1)
            else ([], some (ack_failed m.id)))) [
              | true ↦ Acks-cons m ms (send_acks env sends (suc k) ms) (send_acks-Acks (suc k) ms)
              | false ↦ ([], m, ms, refl, refl, refl)
            ]

    acknowledged-AllOrNone :
        (s : S) (ms : List TelemetryMessage) (r : List ℕ × Option FlushError)
        → Acks ms r
        → let q = acknowledged env s ms r in
          (q.3 ≡ s) × AllOrNone ms q.0 q.1 q.2 × Reported none q.2
    unfolding acknowledged
    acknowledged-AllOrNone s ms (acks, none) all = (refl, (all, refl), tt)
    acknowledged-AllOrNone s ms (acks, some (persist_failed e)) never = absurd never
    acknowledged-AllOrNone s ms (acks, some (ack_failed id)) (sent, m, rest, e, e', named) =
        (refl, (sent, m, rest, e, e', named, refl), tt)

    flush_from :
        (k : ℕ) (s : S) (m : TelemetryMessage) (ms : List TelemetryMessage) (n : ℕ)
        (err : Option PersistError) (s' : S)
        → persist_resilient env s (m ∷ ms) ≡ ok (n, err, s')
        → Returns
            (λ r. (r.3 ≡ s') × AllOrNone (m ∷ ms) r.0 r.1 r.2 × Reported err r.2)
            (flush env sends k s (m ∷ ms))
    unfolding flush
    flush_from k s m ms n none s' e = (
      acknowledged env s' (m ∷ ms) (send_acks env sends k (m ∷ ms)),
      rw e refl,
      acknowledged-AllOrNone s' (m ∷ ms) (send_acks env sends k (m ∷ ms))
          (send_acks-Acks k (m ∷ ms)),
    )
    flush_from k s m ms n (some x) s' e =
        (([], m ∷ ms, some (persist_failed x), s'), rw e refl, (refl, (refl, refl), refl))

    -- Whatever the database answers and whichever calls of `Send` fail, `flush` of a batch ends with
    -- the database of `persistResilient` and reports that one's error. Without an error every message
    -- of the batch is acknowledged, in order, and none is left in it. If the database fails, no
    -- message is acknowledged and the batch is kept; if a `Send` fails, the messages before it are
    -- acknowledged, in order, and the batch is kept.
    pub flush-AllOrNone :
        (k : ℕ) (s : S) (m : TelemetryMessage) (ms : List TelemetryMessage)
        → (n : ℕ) × (err : Option PersistError) × (s' : S) × (persist_resilient env s (m ∷ ms)
            ≡ ok (n, err, s'))
          × Returns
              (λ r. (r.3 ≡ s') × AllOrNone (m ∷ ms) r.0 r.1 r.2 × Reported err r.2)
              (flush env sends k s (m ∷ ms))
    flush-AllOrNone k s m ms =
        let ((n, err, s'), e, _) = persist_resilient-Ends s (m ∷ ms) in
        (n, err, s', e, flush_from k s m ms n err s' e)
