-- ===== src/Streamer/Retry.antt =====
-- The retries of internal/streamer/streamer.go.
pub mod Done
pub mod Refused
use vantage.Prelude.{
  Returns-both, indicator, length-take, take-drop, length-append, ℕ, zero, suc, ◌+◌, ◌*◌, ◌≤◌, ◌<◌,
  ◌≡◌, refl, ap, sym, subst, ◌∙◌, min, Bool, true, false, List, [], ◌∷◌, ◌++◌, append-nil,
  append_assoc, ltb, length, take, drop, if◌then◌else◌, Run, ok, panic, Returns, arith, length-drop,
  inl, inr, Bool-cases,
}
use vantage.Message.{TelemetryMessage}
use vantage.Streamer.{
  max_backoff, Attempt, Next, returns, goes_on, crashes, after_attempt, attempt_step, follow,
  accepts, fails, context_over, SendEnd, all_sent, context_err, retrying, Sending, is_empty, pause,
  retry_loop, start_sending, produce_batch_with_retry,
}

-- The broker accepts no more messages than it was sent.
abbrev pub IsHonest : List TelemetryMessage → List Attempt → Type 0
IsHonest rest [] = Unit
IsHonest rest (accepts n ended ∷ attempts) = (n ≤ length rest) × IsHonest (drop n rest) attempts
IsHonest rest (fails ended ∷ attempts) = IsHonest rest attempts
IsHonest rest (context_over ∷ attempts) = IsHonest rest attempts

abbrev pub AllPauses : List ℕ → Type 0
AllPauses [] = Unit
AllPauses (p ∷ ps) = (100 ≤ p) × (p ≤ 5000) × AllPauses ps

-- What holds of a sending of `msgs` throughout.
pub record Sends (msgs : List TelemetryMessage) (s : Sending) : Type 0 where
  pub order : s.accepted ++ s.rest ≡ msgs
  pub counted : s.produced ≡ length s.accepted
  pub paused : AllPauses s.pauses
  pub retried : s.retries ≡ length s.pauses

-- The end says whether all was sent.
abbrev pub Ends : SendEnd → List TelemetryMessage → Type 0
Ends all_sent rest = rest ≡ []
Ends context_err rest = 0 < length rest
Ends retrying rest = 0 < length rest

abbrev pub Sent : List TelemetryMessage → Sending → Type 0
Sent msgs s = Sends msgs s × Ends s.end s.rest

is_empty-nil : (xs : List TelemetryMessage) → is_empty xs ≡ true → xs ≡ []
unfolding is_empty
is_empty-nil [] h = refl
is_empty-nil (x ∷ xs) h = absurd (ground (arith, h))

is_empty-some : (xs : List TelemetryMessage) → is_empty xs ≡ false → 0 < length xs
unfolding is_empty
is_empty-some [] h = absurd (ground (arith, h))
is_empty-some (x ∷ xs) h = omega arith

AllPauses-snoc :
    (ps : List ℕ) (p : ℕ) → AllPauses ps → 100 ≤ p → p ≤ 5000 → AllPauses (ps ++ p ∷ [])
AllPauses-snoc [] p all low high = (low, high, tt)
AllPauses-snoc (q ∷ ps) p (l, h, all) low high = (l, h, AllPauses-snoc ps p all low high)

-- What a step of the loop promises, when it leaves off with `rest` messages to send.
abbrev Steps : List TelemetryMessage → List TelemetryMessage → Next → Type 0
Steps msgs rest (returns s) = Sent msgs s
Steps msgs rest (goes_on b s) = Sends msgs s × (100 ≤ b) × (b ≤ 5000) × (s.rest ≡ rest)
Steps msgs rest crashes = ⊥

-- What the attempt leaves to send.
abbrev pub left_by : Attempt → List TelemetryMessage → List TelemetryMessage
left_by (accepts n over) rest = drop n rest
left_by (fails over) rest = rest
left_by context_over rest = rest

honest : (n k : ℕ) → n ≤ k → ltb k n ≡ false
honest n k le = ground arith

IsHonest-rest :
    (a : Attempt) (more : List Attempt) (rest : List TelemetryMessage)
    → IsHonest rest (a ∷ more)
    → IsHonest (left_by a rest) more
IsHonest-rest (accepts n over) more rest (_, h) = h
IsHonest-rest (fails over) more rest h = h
IsHonest-rest context_over more rest h = h

module _ (msgs : List TelemetryMessage) where
  paused_once : (b : ℕ) (s : Sending) → Sends msgs s → 100 ≤ b → b ≤ 5000 → Sends msgs (pause b s)
  paused_once b s v low high = record {
    order = v.order;
    counted = v.counted;
    paused = AllPauses-snoc s.pauses b v.paused low high;
    retried = omega (arith, v.retried, length-append s.pauses (b ∷ []));
  }

  ended : (s : Sending) (end : SendEnd) → Sends msgs s → Sends msgs (record s { end = end })
  ended s end v = record {
    order = v.order;
    counted = v.counted;
    paused = v.paused;
    retried = v.retried;
  }

  after_attempt-Steps :
      (emptied over : Bool) (b : ℕ) (s : Sending)
      → is_empty s.rest ≡ emptied
      → Sends msgs s
      → 100 ≤ b
      → b ≤ 5000
      → Steps msgs s.rest (after_attempt emptied over b s)
  unfolding after_attempt
  after_attempt-Steps true over b s h v low high = (ended s all_sent v, is_empty-nil s.rest h)
  after_attempt-Steps false true b s h v low high =
      (ended (pause b s) context_err (paused_once b s v low high), is_empty-some s.rest h)
  after_attempt-Steps false false b s h v low high = (paused_once b s v low high, low, high, refl)

  attempt_step-Steps :
      (a : Attempt) (more : List Attempt) (b : ℕ) (s : Sending)
      → is_empty s.rest ≡ false
      → Sends msgs s
      → IsHonest s.rest (a ∷ more)
      → 100 ≤ b
      → b ≤ 5000
      → Steps msgs (left_by a s.rest) (attempt_step a b s)
  unfolding attempt_step
  attempt_step-Steps (accepts n over) more b s some_left v (within, _) low high =
      let s' : Sending = record s {
        accepted = s.accepted ++ take n s.rest;
        rest = drop n s.rest;
        produced = s.produced + n;
      } in
      let v' : Sends msgs s' = record {
        order =
            append_assoc s.accepted (take n s.rest) (drop n s.rest)
            ∙ ap (λ zs. s.accepted ++ zs) (take-drop n s.rest)
            ∙ v.order;
        counted = omega (
          arith,
          v.counted,
          length-append s.accepted (take n s.rest),
          length-take n s.rest,
          within,
        );
        paused = v.paused;
        retried = v.retried;
      } in
      let b' = if ltb 0 n then 100 else b in
      subst
        (λ q.
          Steps msgs (drop n s.rest)
            (if q then crashes else after_attempt (is_empty (drop n s.rest)) over b' s'))
        (sym (honest n (length s.rest) within))
        (after_attempt-Steps (is_empty (drop n s.rest)) over b' s' refl v' (ground arith)
          (ground arith))
  attempt_step-Steps (fails over) more b s some_left v h low high =
      after_attempt-Steps false over b s some_left v low high
  attempt_step-Steps context_over more b s some_left v h low high =
      (ended s context_err v, is_empty-some s.rest some_left)

  -- The rest of the loop after a step.
  followed :
      (more : List Attempt) (rest : List TelemetryMessage) (next : Next)
      → ((b' : ℕ) (s' : Sending)
          → Sends msgs s'
          → IsHonest s'.rest more
          → 100 ≤ b'
          → b' ≤ 5000
          → Returns (Sent msgs) (retry_loop more b' s'))
      → IsHonest rest more
      → Steps msgs rest next
      → Returns
          (Sent msgs)
          (follow (λ used s'. retry_loop more (min (used * 2) max_backoff) s') next)
  unfolding follow
  followed more rest crashes again h sent = elim sent [ ]
  followed more rest (returns s) again h sent = (s, refl, sent)
  followed more rest (goes_on b s) again h (v, low, high, same) =
      again (min (b * 2) 5000) s v (subst (λ r. IsHonest r more) (sym same) h) (omega (arith, low))
        (omega arith)

  -- The run of the loop when the list of attempts is not empty.
  retry_loop-next :
      (a : Attempt) (more : List Attempt) (b : ℕ) (s : Sending) (done : Bool)
      → is_empty s.rest ≡ done
      → ((b' : ℕ) (s' : Sending)
          → Sends msgs s'
          → IsHonest s'.rest more
          → 100 ≤ b'
          → b' ≤ 5000
          → Returns (Sent msgs) (retry_loop more b' s'))
      → Sends msgs s
      → IsHonest s.rest (a ∷ more)
      → 100 ≤ b
      → b ≤ 5000
      → Returns (Sent msgs) (
          if done
          then ok (record s { end = all_sent })
          else follow
              (λ used s'. retry_loop more (min (used * 2) max_backoff) s')
              (attempt_step a b s))
  retry_loop-next a more b s true e again v h low high =
      (record s { end = all_sent }, refl, (ended s all_sent v, is_empty-nil s.rest e))
  retry_loop-next a more b s false e again v h low high =
      followed more (left_by a s.rest) (attempt_step a b s) again (IsHonest-rest a more s.rest h)
        (attempt_step-Steps a more b s e v h low high)

  retry_loop-Sent :
      (more : List Attempt) (b : ℕ) (s : Sending)
      → Sends msgs s
      → IsHonest s.rest more
      → 100 ≤ b
      → b ≤ 5000
      → Returns (Sent msgs) (retry_loop more b s)
  unfolding retry_loop
  retry_loop-Sent [] b s v h low high = none_left (is_empty s.rest) refl
    where
      none_left :
          (q : Bool)
          → is_empty s.rest ≡ q
          → Returns (Sent msgs) (ok (record s { end = if q then all_sent else retrying }))
      none_left true e =
          (record s { end = all_sent }, refl, (ended s all_sent v, is_empty-nil s.rest e))
      none_left false e =
          (record s { end = retrying }, refl, (ended s retrying v, is_empty-some s.rest e))
  retry_loop-Sent (a ∷ more) b s v h low high =
      retry_loop-next a more b s (is_empty s.rest) refl (retry_loop-Sent more) v h low high

-- When the broker accepts no more messages than it was sent, `produceBatchWithRetry` never panics,
-- and however its attempts go: what was accepted and what was not are the batch in its order, all
-- of it was accepted exactly if the call says so, the counters of rows and of retries are the
-- numbers of accepted messages and of pauses, and every pause is between 100 ms and 5 s.
pub produce_batch_with_retry-Sent :
    (attempts : List Attempt) (msgs : List TelemetryMessage)
    → IsHonest msgs attempts
    → Returns (Sent msgs) (produce_batch_with_retry attempts msgs)
unfolding produce_batch_with_retry start_sending
produce_batch_with_retry-Sent attempts msgs h =
    retry_loop-Sent msgs attempts 100 (start_sending msgs)
      (record { order = refl; counted = refl; paused = tt; retried = refl }) h (omega arith)
      (omega arith)
