-- ===== src/Queue/Broker/Enqueue/Waits.antt =====
-- `Enqueue` through its waits, in whatever state in order the other goroutines leave the broker.
use vantage.Prelude.{
  ℕ, ◌+◌, ◌^◌, ◌≤◌, ◌<◌, ◌≡◌, refl, ap, subst, ◌∙◌, Bool, true, false, List, [], ◌∷◌, Run, ok,
  ◌>>=◌, Returns, arith, incr64, ltb,
}
use vantage.Message.{TelemetryMessage}
use vantage.Queue.Ring.{contents}
use vantage.Queue.Policy.{OverflowPolicy, reject, drop_oldest, block}
use vantage.Queue.Broker.{Entry, Broker, used}
use vantage.Queue.Broker.Lanes.{IsValid}
use vantage.Queue.Broker.Enqueue.{
  Outcome, attempt, Wake, space_freed, timed_out, cancelled, EnqueueResult, accepted, err_full,
  err_closed, err_context, waiting, settle, enqueue,
}
use vantage.Queue.Broker.Enqueue.Attempt.{
  Stays, AtFull, Admits, numbered, refused, attempt-Attempts,
}

-- In order, with an id left to give, and `n` more.
abbrev pub IsReady : ℕ → Broker → Type 0
IsReady n b = IsValid b × (b.next_id + 1 + n < 2 ^ 64)

abbrev pub AllReady : ℕ → List Wake → Type 0
AllReady n [] = Unit
AllReady n (space_freed b ∷ ws) = IsReady n b × AllReady n ws
AllReady n (timed_out b ∷ ws) = IsReady n b × AllReady n ws
AllReady n (cancelled b ∷ ws) = IsReady n b × AllReady n ws

-- What a result says of the message and of the state.
abbrev pub Says : TelemetryMessage → EnqueueResult × Broker → Type 0
Says m (accepted m', b) = (m' ≡ record m { id = b.next_id }) × (0 < b.next_id)
Says m (err_full, b) = Unit
Says m (err_closed, b) = b.closed ≡ true
Says m (err_context, b) = Unit
Says m (waiting, b) = (b.closed ≡ false) × (b.cfg.capacity ≤ used b) × (b.cfg.policy ≡ block)

-- The state after is in order, with `n` ids left.
abbrev pub Settles : ℕ → TelemetryMessage → EnqueueResult × Broker → Type 0
Settles n m r = IsValid r.1 × Says m r × (r.1.next_id + n < 2 ^ 64)

module _ (n : ℕ) (m : TelemetryMessage) (on_parked : Broker → Run (EnqueueResult × Broker)) where
  Admits-Settles :
      (b : Broker) (xs : List Entry) (r : Outcome × Broker)
      → IsValid r.1
      → b.next_id + 1 + n < 2 ^ 64
      → Admits b m xs r
      → Returns (Settles n m) (settle on_parked r)
  unfolding settle
  Admits-Settles b xs r v left (main, e, order) = (
    (accepted (numbered b m), record b { main = main; next_id = b.next_id + 1 }),
    ap (settle on_parked) e,
    (subst (λ r. IsValid r.1) e v, (refl, omega arith), left),
  )

  refused-Settles :
      (b : Broker) (r : Outcome × Broker)
      → IsValid r.1
      → b.next_id + 1 + n < 2 ^ 64
      → r ≡ refused b
      → Returns (Settles n m) (settle on_parked r)
  unfolding settle
  refused-Settles b r v left e = (
    (err_full, record b { rejected = incr64 b.rejected }),
    ap (settle on_parked) e,
    (subst (λ r. IsValid r.1) e v, tt, omega (arith, left)),
  )

  module _ (b : Broker)
      (parks : b.cfg.policy ≡ block
        → b.closed ≡ false
        → ltb (used b) b.cfg.capacity ≡ false
        → Returns (Settles n m) (on_parked b)) where
    AtFull-Settles :
        (policy : OverflowPolicy) (xs : List Entry) (r : Outcome × Broker)
        → b.cfg.policy ≡ policy
        → b.closed ≡ false
        → ltb (used b) b.cfg.capacity ≡ false
        → IsValid r.1
        → b.next_id + 1 + n < 2 ^ 64
        → AtFull policy b m xs r
        → Returns (Settles n m) (settle on_parked r)
    unfolding settle
    AtFull-Settles reject xs r p up no_room v left e = refused-Settles b r v left e
    AtFull-Settles block xs r p up no_room v left e =
        let (s, e', good) = parks p up no_room in (s, ap (settle on_parked) e ∙ e', good)
    AtFull-Settles drop_oldest [] r p up no_room v left e = refused-Settles b r v left e
    AtFull-Settles drop_oldest (y ∷ ys) r p up no_room v left a =
        Admits-Settles (record b { dropped_overflow = incr64 b.dropped_overflow }) ys r v left a

    Stays-Settles :
        (off room : Bool) (r : Outcome × Broker)
        → b.closed ≡ off
        → ltb (used b) b.cfg.capacity ≡ room
        → IsValid r.1
        → b.next_id + 1 + n < 2 ^ 64
        → Stays off room b m (contents b.main) r
        → Returns (Settles n m) (settle on_parked r)
    unfolding settle
    Stays-Settles true room r up fits v left e = (
      (err_closed, b),
      ap (settle on_parked) e,
      (subst (λ r. IsValid r.1) e v, up, omega (arith, left)),
    )
    Stays-Settles false true r up fits v left a = Admits-Settles b (contents b.main) r v left a
    Stays-Settles false false r up fits v left a =
        AtFull-Settles b.cfg.policy (contents b.main) r refl up fits v left a

    -- A stay in the critical section, followed through its waits.
    attempt-Settles : IsReady n b → Returns (Settles n m) (attempt b m >>= settle on_parked)
    attempt-Settles (v, more) =
        let (r, e, (v', s)) = attempt-Attempts m b v (omega (arith, more)) in
        let (q, e', good) =
          Stays-Settles b.closed (ltb (used b) b.cfg.capacity) r refl refl v' more s in
        (q, ap (λ o. o >>= settle on_parked) e ∙ e', good)

-- Whatever wakes a parked producer, in whatever states in order with `n + 1` ids left, `Enqueue` never
-- panics, its loop ends within the fuel, and the state it leaves is in order with `n` ids left. An accepted message
-- carries the id that was given out last, and is otherwise the one given; the closed error is
-- given by a closed broker; and a producer that still waits found the broker open, its budget full
-- and the block policy.
pub enqueue-Settles :
    (n : ℕ) (b : Broker) (m : TelemetryMessage) (ws : List Wake)
    → IsReady n b
    → AllReady n ws
    → Returns (Settles n m) (enqueue b m ws)
unfolding enqueue
enqueue-Settles n b m [] ready all =
    attempt-Settles n m (λ b'. ok (waiting, b')) b
      (λ p up no_room.
        ((waiting, b), refl, (ready.0, (up, ground (arith, no_room), p), omega (arith, ready.1))))
      ready
enqueue-Settles n b m (space_freed b' ∷ ws) ready (ready', all) =
    attempt-Settles n m (λ _. enqueue b' m ws) b
      (λ p up no_room. enqueue-Settles n b' m ws ready' all) ready
enqueue-Settles n b m (timed_out b' ∷ ws) ready (ready', all) =
    let refusal = record b' { rejected = incr64 b'.rejected } in
    attempt-Settles n m (λ _. ok (err_full, refusal)) b
      (λ p up no_room. ((err_full, refusal), refl, (ready'.0, tt, omega (arith, ready'.1)))) ready
enqueue-Settles n b m (cancelled b' ∷ ws) ready (ready', all) =
    attempt-Settles n m (λ _. ok (err_context, b')) b
      (λ p up no_room. ((err_context, b'), refl, (ready'.0, tt, omega (arith, ready'.1)))) ready
