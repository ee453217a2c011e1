-- ===== src/Streamer/Retry/Done.antt =====
-- When the retries of internal/streamer/streamer.go come to an end.
use vantage.Prelude.{
  Returns-both, indicator, ℕ, ◌+◌, ◌*◌, ◌≤◌, ◌<◌, ◌≡◌, refl, ap, sym, subst, ◌∙◌, min, Bool, true,
  false, List, [], ◌∷◌, ◌++◌, append-nil, ltb, length, take, drop, if◌then◌else◌, ok, Returns,
  arith, length-drop,
}
use vantage.Message.{TelemetryMessage}
use vantage.Streamer.{
  max_backoff, Attempt, Next, returns, goes_on, crashes, after_attempt, attempt_step, follow,
  accepts, fails, context_over, all_sent, retrying, Sending, is_empty, retry_loop, start_sending,
  produce_batch_with_retry,
}
use vantage.Streamer.Retry.{
  IsHonest, Sent, Ends, is_empty-some, left_by, IsHonest-rest, honest,
  produce_batch_with_retry-Sent,
}

-- The context does not end.
abbrev pub AllAlive : List Attempt → Type 0
AllAlive [] = Unit
AllAlive (accepts n over ∷ more) = (over ≡ false) × AllAlive more
AllAlive (fails over ∷ more) = (over ≡ false) × AllAlive more
AllAlive (context_over ∷ more) = ⊥

-- How often the broker accepts something.
abbrev pub gains : List Attempt → ℕ
gains [] = 0
gains (accepts n over ∷ more) = indicator (ltb 0 n) + gains more
gains (fails over ∷ more) = gains more
gains (context_over ∷ more) = gains more

abbrev IsOver : Sending → Type 0
IsOver s = s.end ≡ all_sent

-- A step that sends all, or leaves `rest`.
abbrev Goes : List TelemetryMessage → Next → Type 0
Goes rest (returns s) = IsOver s
Goes rest (goes_on b s) = s.rest ≡ rest
Goes rest crashes = ⊥

after_attempt-Goes :
    (emptied over : Bool) (b : ℕ) (s : Sending)
    → over ≡ false
    → Goes s.rest (after_attempt emptied over b s)
unfolding after_attempt
after_attempt-Goes true over b s alive = refl
after_attempt-Goes false true b s alive = absurd (ground (arith, alive))
after_attempt-Goes false false b s alive = refl

attempt_step-Goes :
    (a : Attempt) (more : List Attempt) (b : ℕ) (s : Sending)
    → IsHonest s.rest (a ∷ more)
    → AllAlive (a ∷ more)
    → Goes (left_by a s.rest) (attempt_step a b s)
unfolding attempt_step
attempt_step-Goes (accepts n over) more b s (within, _) (alive, _) =
    let s' : Sending = record s {
      accepted = s.accepted ++ take n s.rest;
      rest = drop n s.rest;
      produced = s.produced + n;
    } in
    let b' = if ltb 0 n then 100 else b in
    subst
      (λ q.
        Goes (drop n s.rest)
          (if q then crashes else after_attempt (is_empty (drop n s.rest)) over b' s'))
      (sym (honest n (length s.rest) within))
      (after_attempt-Goes (is_empty (drop n s.rest)) over b' s' alive)
attempt_step-Goes (fails over) more b s h (alive, _) = after_attempt-Goes false over b s alive
attempt_step-Goes context_over more b s h alive = absurd alive

-- Each gain is a message less to send.
gains-rest :
    (a : Attempt) (more : List Attempt) (rest : List TelemetryMessage)
    → 0 < length rest
    → length rest ≤ gains (a ∷ more)
    → length (left_by a rest) ≤ gains more
gains-rest (accepts n over) more rest some_left enough = ground (arith, length-drop n rest, enough)
gains-rest (fails over) more rest some_left enough = enough
gains-rest context_over more rest some_left enough = enough

alive_rest : (a : Attempt) (more : List Attempt) → AllAlive (a ∷ more) → AllAlive more
alive_rest (accepts n over) more (_, alive) = alive
alive_rest (fails over) more (_, alive) = alive
alive_rest context_over more alive = absurd alive

follow-IsOver :
    (more : List Attempt) (rest : List TelemetryMessage) (next : Next)
    → ((b' : ℕ) (s' : Sending) → s'.rest ≡ rest → Returns IsOver (retry_loop more b' s'))
    → Goes rest next
    → Returns IsOver (follow (λ used s'. retry_loop more (min (used * 2) max_backoff) s') next)
unfolding follow
follow-IsOver more rest crashes again over = elim over [ ]
follow-IsOver more rest (returns s) again over = (s, refl, over)
follow-IsOver more rest (goes_on b s) again same = again (min (b * 2) 5000) s same

retry_loop-IsOver :
    (more : List Attempt) (b : ℕ) (s : Sending) (done : Bool)
    → is_empty s.rest ≡ done
    → IsHonest s.rest more
    → AllAlive more
    → length s.rest ≤ gains more
    → Returns IsOver (retry_loop more b s)
unfolding retry_loop
retry_loop-IsOver [] b s true e h alive enough = (
  record s { end = all_sent },
  ap (λ q. ok (record s { end = if q then all_sent else retrying })) e,
  refl,
)
retry_loop-IsOver [] b s false e h alive enough =
    absurd (omega (arith, enough, is_empty-some s.rest e))
retry_loop-IsOver (a ∷ more) b s true e h alive enough = (
  record s { end = all_sent },
  ap
      (λ q.
        if q
        then ok (record s { end = all_sent })
        else follow (λ used s'. retry_loop more (min (used * 2) max_backoff) s')
            (attempt_step a b s))
      e,
  refl,
)
retry_loop-IsOver (a ∷ more) b s false e h alive enough =
    let left = left_by a s.rest in
    let (r, run, over) =
      follow-IsOver more left (attempt_step a b s)
        (λ b' s' same.
          retry_loop-IsOver more b' s' (is_empty s'.rest) refl
            (subst (λ r. IsHonest r more) (sym same) (IsHonest-rest a more s.rest h))
            (alive_rest a more alive)
            (subst (λ r. length r ≤ gains more) (sym same)
              (gains-rest a more s.rest (is_empty-some s.rest e) enough)))
        (attempt_step-Goes a more b s h alive) in
    (
      r,
      ap
            (λ q.
              if q
              then ok (record s { end = all_sent })
              else follow (λ used s'. retry_loop more (min (used * 2) max_backoff) s')
                  (attempt_step a b s))
            e
          ∙ run,
      over,
    )

all_accepted :
    (msgs : List TelemetryMessage) (s : Sending) → Sent msgs s → IsOver s → s.accepted ≡ msgs
all_accepted msgs s (v, ends) over =
    let none_left : s.rest ≡ [] = subst (λ e. Ends e s.rest) over ends in
    sym (append-nil s.accepted) ∙ ap (λ r. s.accepted ++ r) (sym none_left) ∙ v.order

-- When the context does not end and the broker, which accepts no more messages than it was sent,
-- accepts something at least as often as the batch has messages, whatever the failures in between,
-- `produceBatchWithRetry` returns without an error and the whole batch was accepted, in its order.
pub produce_batch_with_retry-all :
    (attempts : List Attempt) (msgs : List TelemetryMessage)
    → IsHonest msgs attempts
    → AllAlive attempts
    → length msgs ≤ gains attempts
    → Returns
        (λ s. (s.end ≡ all_sent) × (s.accepted ≡ msgs))
        (produce_batch_with_retry attempts msgs)
unfolding produce_batch_with_retry start_sending
produce_batch_with_retry-all attempts msgs h alive enough =
    let (s, run, (sent, over)) =
      Returns-both (produce_batch_with_retry attempts msgs)
        (produce_batch_with_retry-Sent attempts msgs h)
        (retry_loop-IsOver attempts 100 (start_sending msgs) (is_empty msgs) refl h alive enough) in
    (s, run, (over, all_accepted msgs s sent over))
