-- ===== src/Collector/Runner.antt =====
-- `Runner.Run` of internal/collector/collector.go: the loop that dials the MQ server, consumes a
-- stream, and reconnects after a pause. Durations are in milliseconds; `grpc.NewClient` and the clock
-- are not of this repository, so that a round of the loop says what they come to.
pub mod Reconnects
use vantage.Prelude.{
  ℕ, ◌*◌, min, Bool, true, false, List, [], ◌∷◌, ◌++◌, if◌then◌else◌, Run, ok, ◌>>=◌,
}
use vantage.Collector.{Env}
use vantage.Collector.Stream.{StreamEvent, StreamEnd, Batching, marks, consume_stream}

abbrev pub reconnect_base : ℕ
reconnect_base = 100

abbrev pub reconnect_cap : ℕ
reconnect_cap = 5000

-- A stream: whether it opens, which calls of `Send` succeed, what comes over it, whether it has
-- lasted for more than 5 s, and whether the context has ended by its end, or ends in the pause after
-- it.
pub record Session : Type 0 where
  pub opens : Bool
  pub sends : ℕ → Bool
  pub events : List StreamEvent
  pub long_lived : Bool
  pub cancelled : Bool
  pub cut : Bool

-- A round: the context has ended before it, or the dial fails, with the flag of the pause, or there
-- is a stream.
pub data Round : Type 0 where
  context_over : Round
  dial_fails : Bool → Round
  streams : Session → Round

-- What `Run` has done: the acknowledgements of all its streams, its pauses, the database, and the
-- values that it has stored in `ready`.
pub record Running (S : Type 0) : Type 0 where
  pub run_acked : List ℕ
  pub run_pauses : List ℕ
  pub run_db : S
  pub run_marks : List Bool

-- `IsReady`, after the values that were stored.
pub is_ready : List Bool → Bool
is_ready [] = false
is_ready (mark ∷ []) = mark
is_ready (mark ∷ next ∷ later) = is_ready (next ∷ later)

-- `Run` returns only with the context's error.
pub data RunEnd : Type 0 where
  run_ended still_trying : RunEnd

module _ {Time S : Type 0} (env : Env Time S) (batch_size : ℕ) where
  -- The pause, by whether the context ends in it, and the next round with twice the backoff.
  pause_then :
      (ℕ → Running S → Run (RunEnd × Running S)) → Bool → ℕ → Running S → Run (RunEnd × Running S)
  pause_then again true b r = ok (run_ended, record r { run_pauses = r.run_pauses ++ b ∷ [] })
  pause_then again false b r =
      again (min (b * 2) reconnect_cap) (record r { run_pauses = r.run_pauses ++ b ∷ [] })

  -- After a stream: a long one resets the backoff.
  after_stream :
      (ℕ → Running S → Run (RunEnd × Running S))
      → Session
      → ℕ
      → Running S
      → StreamEnd × Batching S
      → Run (RunEnd × Running S)
  unfolding pause_then
  after_stream again x b r (end, c) =
      let r' = record r {
        run_acked = r.run_acked ++ c.acked;
        run_db = c.db;
        run_marks = r.run_marks ++ marks end;
      } in
      let next = pause_then again x.cut (if x.long_lived then reconnect_base else b) r' in
      if x.cancelled then ok (run_ended, r') else next

  run_rounds : List Round → ℕ → Running S → Run (RunEnd × Running S)
  unfolding after_stream
  run_rounds [] b r = ok (still_trying, r)
  run_rounds (context_over ∷ rounds) b r = ok (run_ended, r)
  run_rounds (dial_fails cut ∷ rounds) b r = pause_then (run_rounds rounds) cut b r
  run_rounds (streams x ∷ rounds) b r =
      consume_stream env batch_size x.sends x.opens x.events r.run_db
      >>= after_stream (run_rounds rounds) x b r

  -- `Run`, until the rounds of the list are used up.
  pub run_collector : List Round → S → Run (RunEnd × Running S)
  unfolding run_rounds
  run_collector rounds s =
      run_rounds rounds reconnect_base
        (record { run_acked = []; run_pauses = []; run_db = s; run_marks = [] })
