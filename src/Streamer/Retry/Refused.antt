-- ===== src/Streamer/Retry/Refused.antt =====
-- The retries of internal/streamer/streamer.go when every call fails.
use vantage.Prelude.{
  ℕ, ◌*◌, ◌<◌, ◌≡◌, ◌≢◌, refl, ap, ◌∙◌, min, Bool, true, false, List, [], ◌∷◌, map, length,
  if◌then◌else◌, ok, Returns, arith,
}
use vantage.Message.{TelemetryMessage}
use vantage.Streamer.{
  fails, Sending, all_sent, context_err, retrying, max_backoff, is_empty, pause, after_attempt,
  attempt_step, follow, retry_loop, start_sending, produce_batch_with_retry,
}

-- The batch as it was, and the call has not returned without an error.
abbrev pub IsStuck : List TelemetryMessage → Sending → Type 0
IsStuck ms s = (s.accepted ≡ []) × (s.rest ≡ ms) × (s.end ≢ all_sent)

retry_loop-refused :
    (flags : List Bool) (b : ℕ) (s : Sending)
    → is_empty s.rest ≡ false
    → s.accepted ≡ []
    → Returns (IsStuck s.rest) (retry_loop (map fails flags) b s)
unfolding retry_loop attempt_step after_attempt follow
retry_loop-refused [] b s more none_yet = (
  record s { end = retrying },
  ap (λ q. ok (record s { end = if q then all_sent else retrying })) more,
  (none_yet, refl, λ e. cc),
)
retry_loop-refused (true ∷ flags) b s more none_yet = (
  record (pause b s) { end = context_err },
  ap
      (λ q.
        if q
        then ok (record s { end = all_sent })
        else ok (record (pause b s) { end = context_err }))
      more,
  (none_yet, refl, λ e. cc),
)
retry_loop-refused (false ∷ flags) b s more none_yet =
    let again = retry_loop (map fails flags) (min (b * 2) max_backoff) (pause b s) in
    let (r, e, stuck) =
      retry_loop-refused flags (min (b * 2) max_backoff) (pause b s) more none_yet in
    (r, ap (λ q. if q then ok (record s { end = all_sent }) else again) more ∙ e, stuck)

pub produce_batch_with_retry-refused :
    (flags : List Bool) (ms : List TelemetryMessage)
    → 0 < length ms
    → Returns (IsStuck ms) (produce_batch_with_retry (map fails flags) ms)
unfolding produce_batch_with_retry start_sending is_empty
produce_batch_with_retry-refused flags [] some_left = absurd (omega arith)
produce_batch_with_retry-refused flags (m ∷ ms) some_left =
    retry_loop-refused flags 100 (start_sending (m ∷ ms)) refl refl
