-- ===== src/Collector/Stream/Durable.antt =====
-- What is stored when `consumeStream` of internal/collector/collector.go acknowledges a message.
use vantage.Prelude.{
  All, All-append, All-mono, All-left, same_result, ℕ, ◌<◌, ◌≡◌, refl, ap, subst, Bool, true, false,
  List, [], ◌++◌, Option, none, some, ok, ◌>>=◌, Returns,
}
use vantage.Message.{TelemetryMessage}
use vantage.Collector.{Env, PersistError, ids_of, persist_resilient}
use vantage.Collector.Durable.{persist_resilient-After}
use vantage.Collector.Lasting.{IsLasting, IsSettled, Lasts, After}
use vantage.Collector.Stream.{
  StreamEvent, Batching, new_batching, StreamEnd, open_failed, handshake_failed, loop_ended,
  handshake, consume_stream,
}
use vantage.Collector.Stream.Tracked.{consume_loop-Tracks}
use vantage.Collector.Stream.Flushed.{arrivals, Keeps}

module _ {Time S : Type 0} (env : Env Time S) (d : IsLasting env) where
  -- The messages acknowledged, each of which is settled.
  abbrev AllSettled : S → List TelemetryMessage → Type 0
  AllSettled s done = All (IsSettled env d s) done

  persisted :
      (s s' : S) (ms : List TelemetryMessage) (n : ℕ) (x : Option PersistError)
      → persist_resilient env s ms ≡ ok (n, x, s')
      → After env d s ms (n, x, s')
  persisted s s' ms n x run =
      let (r, e, after) = persist_resilient-After env d s ms in
      subst (After env d s ms) (same_result run e) after

  settles : Keeps env AllSettled
  settles = record {
    lands = λ s done ms n s' run all.
        let (keeps, landed) = persisted s s' ms n none run in
        All-append (IsSettled env d s') done ms
          (All-mono (IsSettled env d s) (IsSettled env d s') keeps done all) landed;
    fails = λ s done ms n e s' run all.
        All-mono (IsSettled env d s) (IsSettled env d s') (persisted s s' ms n (some e) run) done
          all;
    fewer = λ s done more all. All-left (IsSettled env d s) done more all;
  }

  persist-Lasts :
      (s s' : S) (ms : List TelemetryMessage) (n : ℕ) (x : Option PersistError)
      → persist_resilient env s ms ≡ ok (n, x, s')
      → Lasts env d s s'
  persist-Lasts s s' ms n none run = (persisted s s' ms n none run).0
  persist-Lasts s s' ms n (some e) run = persisted s s' ms n (some e) run

  -- What was settled before the stream stays so, whatever was acknowledged.
  outlasts :
      (before : List TelemetryMessage)
      → Keeps env (λ s done. AllSettled s before × AllSettled s done)
  outlasts before = record {
    lands = λ s done ms n s' run all. (
      All-mono (IsSettled env d s) (IsSettled env d s') (persist-Lasts s s' ms n none run) before
          all.0,
      settles.lands s done ms n s' run all.1,
    );
    fails = λ s done ms n e s' run all. (
      All-mono (IsSettled env d s) (IsSettled env d s') (persist-Lasts s s' ms n (some e) run)
          before all.0,
      settles.fails s done ms n e s' run all.1,
    );
    fewer = λ s done more all. (all.0, settles.fewer s done more all.1);
  }

  -- A stream's acknowledgements are of the first messages that came over it, in their order, and all
  -- of those are settled, as is what was settled before.
  abbrev pub Settles :
      List TelemetryMessage → List TelemetryMessage → StreamEnd × Batching S → Type 0
  Settles before came r =
      (done : List TelemetryMessage) × (left : List TelemetryMessage) × (r.1.acked
        ≡ ids_of env done)
      × AllSettled r.1.db before
      × AllSettled r.1.db done
      × (done ++ left ≡ came)

  nothing_done :
      (end : StreamEnd) (before came : List TelemetryMessage) (size : ℕ) (sends : ℕ → Bool) (s : S)
      → AllSettled s before
      → Settles before came (end, new_batching env size sends s)
  unfolding ids_of
  nothing_done end before came size sends s all = ([], came, refl, all, tt, refl)

  -- Over a database that keeps what it has committed, and may fail at any time, whether or not the
  -- stream opens, whichever calls of `Send` fail, and whatever comes over it, `consumeStream` never
  -- panics. The messages that it acknowledges are the first that came, in their order, and each of
  -- them is settled: its row or its dead letter is stored, or it has no row. What was settled before
  -- stays so.
  pub consume_stream-Settles :
      (size : ℕ) (sends : ℕ → Bool) (opens : Bool) (events : List StreamEvent) (s : S)
      (before : List TelemetryMessage)
      → 0 < size
      → All (IsSettled env d s) before
      → Returns (Settles before (arrivals events)) (consume_stream env size sends opens events s)
  unfolding consume_stream handshake ids_of
  consume_stream-Settles size sends false events s before room all = (
    (open_failed, new_batching env size sends s),
    refl,
    nothing_done open_failed before (arrivals events) size sends s all,
  )
  consume_stream-Settles size sends true events s before room all = after (sends 0)
    where
      after :
          (q : Bool)
          → Returns (Settles before (arrivals events)) (handshake env size sends q events s)
      after false = (
        (handshake_failed, new_batching env size sends s),
        refl,
        nothing_done handshake_failed before (arrivals events) size sends s all,
      )
      after true =
          let (r, e, (done, again, pending, left, acked, (old, new), _, _, same, _)) =
            consume_loop-Tracks env (λ s done. AllSettled s before × AllSettled s done)
              (outlasts before) size sends events [] (new_batching env size sends s)
              (refl, (all, tt)) room in
          (
            (loop_ended r.0, r.1),
            ap (λ o. o >>= λ r. ok (loop_ended r.0, r.1)) e,
            (done, pending ++ left, acked, old, new, same),
          )
