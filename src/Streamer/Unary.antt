-- ===== src/Streamer/Unary.antt =====
-- `produceWithRetry` of internal/streamer/streamer.go, for one message.
pub mod Schedule
use vantage.Prelude.{ℕ, ◌*◌, min, List, [], ◌∷◌, ◌++◌, if◌then◌else◌}
use vantage.Streamer.{
  base_backoff, max_backoff, Attempt, accepts, fails, context_over, SendEnd, all_sent, context_err,
  retrying,
}

-- The loop, with the pauses so far; each of them is counted as a retry.
unary_loop : List Attempt → ℕ → List ℕ → SendEnd × List ℕ
unary_loop [] backoff pauses = (retrying, pauses)
unary_loop (accepts n over ∷ attempts) backoff pauses = (all_sent, pauses)
unary_loop (context_over ∷ attempts) backoff pauses = (context_err, pauses)
unary_loop (fails over ∷ attempts) backoff pauses =
    let again = unary_loop attempts (min (backoff * 2) max_backoff) (pauses ++ backoff ∷ []) in
    if over then (context_err, pauses ++ backoff ∷ []) else again

pub produce_with_retry : List Attempt → SendEnd × List ℕ
unfolding unary_loop
produce_with_retry attempts = unary_loop attempts base_backoff []
