-- ===== src/Collector/Stream/Flushed.antt =====
-- What a flush of a stream of internal/collector/collector.go does to its batch, with a property
-- `Good` of the database and the messages acknowledged so far that every flush keeps.
use vantage.Prelude.{
  ℕ, suc, ◌≡◌, refl, ap, sym, subst, ◌∙◌, Bool, List, [], ◌∷◌, ◌++◌, append-nil, append_assoc,
  Option, none, some, length, ok, ◌>>=◌, Returns, arith,
}
use vantage.Message.{TelemetryMessage}
use vantage.Collector.{
  Env, PersistError, FlushError, persist_failed, ack_failed, ids_of, flush, persist_resilient,
}
use vantage.Collector.Flush.{AllOrNone, Reported, flush-AllOrNone}
use vantage.Collector.Stream.{
  StreamEvent, message_arrives, flush_tick, stream_closes, context_done, LoopEnd, still_running,
  recv_ended, context_ended, flush_failed, Batching, flushed_as, flush_stream,
}

abbrev pub arrivals : List StreamEvent → List TelemetryMessage
arrivals [] = []
arrivals (message_arrives m ∷ events) = m ∷ arrivals events
arrivals (flush_tick ∷ events) = arrivals events
arrivals (stream_closes ∷ events) = arrivals events
arrivals (context_done ∷ events) = arrivals events

-- Only a flush that ends the loop can leave acknowledged messages in the batch.
abbrev pub Resent : LoopEnd → List TelemetryMessage → Type 0
Resent still_running again = again ≡ []
Resent context_ended again = again ≡ []
Resent recv_ended again = Unit
Resent (flush_failed e) again = Unit

module _ {Time S : Type 0} (env : Env Time S) where
  -- What a flush must keep, with the messages that were acknowledged.
  pub record Keeps (Good : S → List TelemetryMessage → Type 0) : Type 0 where
    pub lands :
        (s : S) (done : List TelemetryMessage) (ms : List TelemetryMessage) (n : ℕ) (s' : S)
        → persist_resilient env s ms ≡ ok (n, none, s')
        → Good s done
        → Good s' (done ++ ms)
    pub fails :
        (s : S) (done : List TelemetryMessage) (ms : List TelemetryMessage) (n : ℕ)
        (e : PersistError) (s' : S)
        → persist_resilient env s ms ≡ ok (n, some e, s')
        → Good s done
        → Good s' done
    pub fewer : (s : S) (done more : List TelemetryMessage) → Good s (done ++ more) → Good s done

  pub ids_of-append :
      (xs ys : List TelemetryMessage) → ids_of env (xs ++ ys) ≡ ids_of env xs ++ ids_of env ys
  unfolding ids_of
  ids_of-append [] ys = refl
  ids_of-append (x ∷ xs) ys = ap (λ zs. x.id ∷ zs) (ids_of-append xs ys)

  module _ (Good : S → List TelemetryMessage → Type 0) (keeps : Keeps Good) (size : ℕ)
      (sends : ℕ → Bool) where
    -- Where the loop is: what was acknowledged.
    abbrev pub Acked : List TelemetryMessage → Batching S → Type 0
    Acked done c = (c.acked ≡ ids_of env done) × Good c.db done

    -- A flush that goes well acknowledges the batch; one that fails, a first part of it.
    unfoldable pub Flushed :
        List TelemetryMessage → Batching S → Option FlushError × Batching S → Type 0
    Flushed done c (none, c') = Acked (done ++ c.batch) c' × (c'.batch ≡ [])
    Flushed done c (some e, c') =
        (sent : List TelemetryMessage) × (rest : List TelemetryMessage) × Acked (done ++ sent) c'
        × (c.batch ≡ sent ++ rest)
        × (c'.batch ≡ c.batch)

    acked_more :
        (done sent : List TelemetryMessage) (acked acks : List ℕ)
        → acked ≡ ids_of env done
        → acks ≡ ids_of env sent
        → acked ++ acks ≡ ids_of env (done ++ sent)
    acked_more done sent acked acks e e' =
        ap (λ a. a ++ acks) e ∙ ap (λ a. ids_of env done ++ a) e' ∙ sym (ids_of-append done sent)

    landed-Flushed :
        (done : List TelemetryMessage) (c : Batching S) (acks : List ℕ)
        (left : List TelemetryMessage) (err : Option FlushError) (db : S)
        → c.acked ≡ ids_of env done
        → Good db (done ++ c.batch)
        → AllOrNone env c.batch acks left err
        → Reported env none err
        → Flushed done c (flushed_as env size sends c (acks, left, err, db))
    unfolding Flushed flushed_as
    landed-Flushed done c acks left none db e good (all, empty) r =
        ((acked_more done c.batch c.acked acks e all, good), empty)
    landed-Flushed done c acks left (some (persist_failed x)) db e good all r = absurd r
    landed-Flushed done c acks left (some (ack_failed id)) db e good
          (sent, m, rest, some_acks, split, _, kept) r =
        (
          sent,
          m ∷ rest,
          (
            acked_more done sent c.acked acks e some_acks,
            keeps.fewer db (done ++ sent) (m ∷ rest) (
                subst (Good db)
                  (ap (λ b. done ++ b) split ∙ sym (append_assoc done sent (m ∷ rest))) good),
          ),
          split,
          kept,
        )

    failed-Flushed :
        (done : List TelemetryMessage) (c : Batching S) (acks : List ℕ)
        (left : List TelemetryMessage) (err : Option FlushError) (db : S) (x : PersistError)
        → c.acked ≡ ids_of env done
        → Good db done
        → AllOrNone env c.batch acks left err
        → Reported env (some x) err
        → Flushed done c (flushed_as env size sends c (acks, left, err, db))
    unfolding Flushed flushed_as ids_of
    failed-Flushed done c acks left none db x e good all r = absurd (ground (arith, r))
    failed-Flushed done c acks left (some (ack_failed id)) db x e good all r =
        absurd (ground (arith, r))
    failed-Flushed done c acks left (some (persist_failed y)) db x e good (nothing, kept) r = (
      [],
      c.batch,
      (acked_more done [] c.acked acks e nothing, subst (Good db) (sym (append-nil done)) good),
      refl,
      kept,
    )

    Reported-Flushed :
        (done : List TelemetryMessage) (c : Batching S) (n : ℕ) (x : Option PersistError) (s' : S)
        (q : List ℕ × List TelemetryMessage × Option FlushError × S)
        → persist_resilient env c.db c.batch ≡ ok (n, x, s')
        → Acked done c
        → q.3 ≡ s'
        → AllOrNone env c.batch q.0 q.1 q.2
        → Reported env x q.2
        → Flushed done c (flushed_as env size sends c q)
    Reported-Flushed done c n none s' (acks, left, err, db) run (e, good) same all r =
        landed-Flushed done c acks left err db e
          (subst (λ s. Good s (done ++ c.batch)) (sym same)
            (keeps.lands c.db done c.batch n s' run good))
          all r
    Reported-Flushed done c n (some x) s' (acks, left, err, db) run (e, good) same all r =
        failed-Flushed done c acks left err db x e
          (subst (λ s. Good s done) (sym same) (keeps.fails c.db done c.batch n x s' run good)) all
          r

    abbrev batching : List ℕ → List TelemetryMessage → S → Batching S
    batching acked batch db = record { acked = acked; batch = batch; db = db }

    flush-Flushed :
        (done : List TelemetryMessage) (acked : List ℕ) (db : S) (batch : List TelemetryMessage)
        (k : ℕ)
        → Acked done (batching acked batch db)
        → Returns
            (λ q.
              Flushed done
                (batching acked batch db)
                (flushed_as env size sends (batching acked batch db) q))
            (flush env sends k db batch)
    unfolding flush Flushed flushed_as ids_of
    flush-Flushed done acked db [] k (e, good) = (
      ([], [], none, db),
      refl,
      ((acked_more done [] acked [] e refl, subst (Good db) (sym (append-nil done)) good), refl),
    )
    flush-Flushed done acked db (m ∷ ms) k known =
        let (n, x, s', run, (q, e, (same, all, r))) = flush-AllOrNone env sends k db m ms in
        (q, e, Reported-Flushed done (batching acked (m ∷ ms) db) n x s' q run known same all r)

    pub flush_stream-Flushed :
        (done : List TelemetryMessage) (c : Batching S)
        → Acked done c
        → Returns (Flushed done c) (flush_stream env size sends c)
    unfolding flush_stream
    flush_stream-Flushed done c known =
        let (q, e, flushed) =
          flush-Flushed done c.acked c.db c.batch (suc (length c.acked)) known in
        (
          flushed_as env size sends c q,
          ap (λ o. o >>= λ r. ok (flushed_as env size sends c r)) e,
          flushed,
        )
