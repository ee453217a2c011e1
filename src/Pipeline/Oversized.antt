-- ===== src/Pipeline/Oversized.antt =====
-- A batch of internal/streamer that is longer than `ProduceBatch` of internal/server takes.
use vantage.Prelude.{
  suc, ◌<◌, ◌≡◌, refl, ap, ◌∙◌, Bool, List, [], ◌∷◌, map, some, length, ok, ◌>>=◌, Returns, arith,
}
use vantage.Message.{TelemetryMessage}
use vantage.Server.Batch.Prefix.{produce_batch-long}
use vantage.Streamer.{fails, produce_batch_with_retry}
use vantage.Streamer.Retry.Refused.{IsStuck, produce_batch_with_retry-refused}
use vantage.Pipeline.{Call, attempt_of, attempts_at, publish_batch}

length-map-some : (ms : List TelemetryMessage) → length (map some ms) ≡ length ms
length-map-some [] = refl
length-map-some (m ∷ ms) = ap suc (length-map-some ms)

abbrev interruptions : List Call → List Bool
interruptions [] = []
interruptions (c ∷ calls) = c.over ∷ interruptions calls

-- Every call is refused, and sends the same batch again.
refused_at :
    (calls : List Call) (ms : List TelemetryMessage)
    → 1000 < length ms
    → attempts_at calls ms ≡ ok (map fails (interruptions calls))
unfolding attempts_at attempt_of
refused_at [] ms long = refl
refused_at (c ∷ calls) ms long =
    rw
      (
        produce_batch-long c.server (map some ms) c.turns (omega (arith, long, length-map-some ms)),
        refused_at calls ms long,
      )
      refl

-- A batch of more than 1000 messages never gets anywhere: whatever the states in which its calls
-- find their servers, and however many calls there are, nothing panics, no call takes a message, and
-- `produceBatchWithRetry` does not return without an error.
pub publish_batch-IsStuck :
    (calls : List Call) (msgs : List TelemetryMessage)
    → 1000 < length msgs
    → Returns (IsStuck msgs) (publish_batch calls msgs)
unfolding publish_batch
publish_batch-IsStuck calls msgs long =
    let (s, e, stuck) =
      produce_batch_with_retry-refused (interruptions calls) msgs (omega (arith, long)) in
    (
      s,
      ap (λ o. o >>= λ done. produce_batch_with_retry done msgs) (refused_at calls msgs long) ∙ e,
      stuck,
    )
