-- ===== src/Collector/Stream/Acks.antt =====
-- What the loop of `consumeStream` in internal/collector/collector.go acknowledges.
use vantage.Prelude.{ℕ, ◌≤◌, ◌<◌, ◌≡◌, refl, Bool, List, [], ◌++◌, length, Returns}
use vantage.Message.{TelemetryMessage}
use vantage.Collector.{Env, ids_of}
use vantage.Collector.Stream.{StreamEvent, LoopEnd, Batching, new_batching, consume_loop}
use vantage.Collector.Stream.Tracked.{consume_loop-Tracks}
use vantage.Collector.Stream.Flushed.{arrivals, Resent, Keeps}

module _ {Time S : Type 0} (env : Env Time S) (size : ℕ) (sends : ℕ → Bool) where
  -- The messages that came, in their order: those that were acknowledged, those of the batch that
  -- were not, and those that were not taken. The batch is short.
  abbrev pub Handles : List TelemetryMessage → LoopEnd × Batching S → Type 0
  Handles came (end, c) =
      (done : List TelemetryMessage) × (again : List TelemetryMessage) × (pending : List
        TelemetryMessage)
      × (left : List TelemetryMessage) × (c.acked ≡ ids_of env done)
      × (c.batch ≡ again ++ pending)
      × Resent end again
      × (done ++ (pending ++ left) ≡ came)
      × (length c.batch ≤ size)

  anything : Keeps env (λ s done. Unit)
  anything = record {
    lands = λ s done ms n s' run good. tt;
    fails = λ s done ms n e s' run good. tt;
    fewer = λ s done more good. tt;
  }

  -- Whatever the database answers, whichever calls of `Send` fail, and whatever comes in whatever
  -- order, the loop never panics. The messages that came are, in their order, first those that were
  -- acknowledged, so that none is acknowledged twice or out of turn; then those of the batch that
  -- were not, so that none is lost from the batch without an acknowledgement; then those that the
  -- loop did not take. Only a flush that ends the loop leaves acknowledged messages in the batch,
  -- which holds at most as many messages as the batch size.
  pub consume_loop-Handles :
      (events : List StreamEvent) (s : S)
      → 0 < size
      → Returns
          (Handles (arrivals events))
          (consume_loop env size sends events (new_batching env size sends s))
  unfolding ids_of
  consume_loop-Handles events s room =
      let (r, e, (done, again, pending, left, acked, _, batch, resent, all, short)) =
        consume_loop-Tracks env (λ s done. Unit) anything size sends events []
          (new_batching env size sends s) (refl, tt) room in
      (r, e, (done, again, pending, left, acked, batch, resent, all, short))
