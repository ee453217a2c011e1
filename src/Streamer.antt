-- ===== src/Streamer.antt =====
-- internal/streamer/streamer.go: the rows of the CSV file become messages, which go to the broker
-- in batches with retries. encoding/csv, strconv, the clock and gRPC are not of this repository: a
-- row comes with the time at which it was read, and is `none` where the reader reports an error;
-- what a call of the broker comes to is an `Attempt`. Durations are in milliseconds.
pub mod Retry
pub mod Rows
pub mod Unary
pub mod Passes
mod Tests
use Prim.Native.String.{String}
use vantage.Prelude.{
  ℕ, zero, suc, ◌+◌, ◌*◌, min, Bool, true, false, List, [], ◌∷◌, ◌++◌, Option, none, some, ltb, leb,
  length, take, drop, if◌then◌else◌, Run, ok, panic, ◌>>=◌, load,
}
use vantage.Message.{TelemetryMessage}

abbrev pub base_backoff : ℕ
base_backoff = 100

abbrev pub max_backoff : ℕ
max_backoff = 5000

-- What a call of `ProduceBatch` or `Produce` and the pause after it come to: the broker accepts
-- some messages, or the call fails, and the context ends during the pause if the flag is set; or
-- the context has ended by the time that the call fails.
pub data Attempt : Type 0 where
  accepts : ℕ → Bool → Attempt
  fails : Bool → Attempt
  context_over : Attempt

pub data SendEnd : Type 0 where
  all_sent context_err retrying : SendEnd

-- The messages that were accepted and those that were not, the pauses, and the counters of
-- produced rows and of retries.
pub record Sending : Type 0 where
  pub accepted : List TelemetryMessage
  pub rest : List TelemetryMessage
  pub pauses : List ℕ
  pub produced : ℕ
  pub retries : ℕ
  pub end : SendEnd

pub is_empty : List TelemetryMessage → Bool
is_empty [] = true
is_empty (m ∷ ms) = false

abbrev pub pause : ℕ → Sending → Sending
pause backoff s = record s { pauses = s.pauses ++ backoff ∷ []; retries = s.retries + 1 }

-- How an attempt leaves the loop: it returns, it pauses for the backoff and goes on, or it panics,
-- as the slice `rest[accepted:]` does when the broker claims more messages than it was sent.
pub data Next : Type 0 where
  returns : Sending → Next
  goes_on : ℕ → Sending → Next
  crashes : Next

-- Once a reply or an error has been seen: whether all is sent, and whether the context ends during
-- the pause.
pub after_attempt : Bool → Bool → ℕ → Sending → Next
after_attempt true ended backoff s = returns (record s { end = all_sent })
after_attempt false true backoff s = returns (record (pause backoff s) { end = context_err })
after_attempt false false backoff s = goes_on backoff (pause backoff s)

pub attempt_step : Attempt → ℕ → Sending → Next
unfolding after_attempt is_empty
attempt_step (accepts n ended) backoff s =
    let rest = drop n s.rest in
    if ltb (length s.rest) n
    then crashes
    else after_attempt (is_empty rest) ended (if ltb 0 n then base_backoff else backoff) (record s {
      accepted = s.accepted ++ take n s.rest;
      rest = rest;
      produced = s.produced + n;
    })
attempt_step (fails ended) backoff s = after_attempt false ended backoff s
attempt_step context_over backoff s = returns (record s { end = context_err })

pub follow : (ℕ → Sending → Run Sending) → Next → Run Sending
follow again (returns s) = ok s
follow again (goes_on backoff s) = again backoff s
follow again crashes = panic

-- The loop of `produceBatchWithRetry`, until the attempts of the list are used up.
pub retry_loop : List Attempt → ℕ → Sending → Run Sending
unfolding is_empty attempt_step follow
retry_loop [] backoff s = ok (record s { end = if is_empty s.rest then all_sent else retrying })
retry_loop (attempt ∷ attempts) backoff s =
    let more =
      follow (λ used s'. retry_loop attempts (min (used * 2) max_backoff) s')
        (attempt_step attempt backoff s) in
    if is_empty s.rest then ok (record s { end = all_sent }) else more

pub start_sending : List TelemetryMessage → Sending
start_sending msgs = record {
  accepted = [];
  rest = msgs;
  pauses = [];
  produced = 0;
  retries = 0;
  end = retrying;
}

pub produce_batch_with_retry : List Attempt → List TelemetryMessage → Run Sending
unfolding retry_loop start_sending
produce_batch_with_retry attempts msgs = retry_loop attempts base_backoff (start_sending msgs)
