-- ===== src/Pipeline.antt =====
-- The streamer of internal/streamer at the server of internal/server: the calls of
-- `produceBatchWithRetry` are answered by `ProduceBatch`. Between two calls the other clients may
-- have brought the server into any other state.
pub mod Oversized
mod Tests
use vantage.Prelude.{ℕ, Bool, List, [], ◌∷◌, some, map, Run, ok, ◌>>=◌}
use vantage.Message.{TelemetryMessage}
use vantage.Queue.Broker.Enqueue.{Wake}
use vantage.Server.{MqServer}
use vantage.Server.Batch.{
  Turn, BatchReply, batch_invalid, batch_unavailable, batch_pending, batch_response, produce_batch,
}
use vantage.Streamer.{Attempt, accepts, fails, context_over, Sending, produce_batch_with_retry}
use vantage.Streamer.Retry.{left_by}

-- A call: the server that it finds, what its loop meets there, and whether the streamer's context
-- ends in the pause that follows.
pub record Call : Type 0 where
  pub server : MqServer
  pub turns : ℕ → Turn
  pub over : Bool

-- What the streamer sees. A call that stays parked comes back only once the context has ended.
pub attempt_of : Bool → BatchReply → Attempt
attempt_of over batch_invalid = fails over
attempt_of over batch_unavailable = fails over
attempt_of over batch_pending = context_over
attempt_of over (batch_response taken left) = accepts taken over

-- The attempts of a streamer that has `rest` left to send: each call sends what the one before has
-- left.
pub attempts_at : List Call → List TelemetryMessage → Run (List Attempt)
unfolding attempt_of
attempts_at [] rest = ok []
attempts_at (c ∷ calls) rest = do
  r ← produce_batch c.server (map some rest) c.turns
  let a = attempt_of c.over r.0
  later ← attempts_at calls (left_by a rest)
  ok (a ∷ later)

pub publish_batch : List Call → List TelemetryMessage → Run Sending
unfolding attempts_at
publish_batch calls msgs =
    attempts_at calls msgs >>= λ attempts. produce_batch_with_retry attempts msgs
