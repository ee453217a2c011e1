-- ===== src/Queue/Broker/Enqueue.antt =====
-- `Enqueue`. Under the block policy a producer that finds the budget full parks without the mutex;
-- the environment then wakes it, and gives the broker as the other goroutines have left it.
pub mod Attempt
pub mod Room
pub mod Waits
use vantage.Prelude.{
  ℕ, zero, suc, ◌+◌, Bool, true, false, List, [], ◌∷◌, Option, none, some, ltb, if◌then◌else◌,
  incr64, Run, ok, out_of_fuel, ◌>>=◌,
}
use vantage.Message.{TelemetryMessage}
use vantage.Queue.Ring.{Ring, push_back, pop_front}
use vantage.Queue.Policy.{OverflowPolicy, reject, drop_oldest, block}
use vantage.Queue.Broker.{Entry, Broker, used}

-- How one stay in the critical section ends.
pub data Outcome : Type 0 where
  admitted : TelemetryMessage → Outcome
  full closed parked : Outcome

pub admit : Broker → TelemetryMessage → Run (Outcome × Broker)
admit b msg = do
  let id = incr64 b.next_id
  let msg' = record msg { id = id }
  main ← push_back b.main (record { msg = msg'; attempts = 0 })
  ok (admitted msg', record b { next_id = id; main = main })

-- The main lane without its front, or the broker that has nothing to drop; `again` is the next
-- round of the loop.
drop_front :
    Broker
    → (Broker → Run (Outcome × Broker))
    → Option (Option Entry) × Ring Entry
    → Run (Outcome × Broker)
drop_front b again (some _, main) =
    again (record b { main = main; dropped_overflow = incr64 b.dropped_overflow })
drop_front b again (none, main) = ok (full, record b { main = main; rejected = incr64 b.rejected })

-- The switch on the policy at a full budget.
pub overflow : OverflowPolicy → Broker → (Broker → Run (Outcome × Broker)) → Run (Outcome × Broker)
unfolding drop_front
overflow drop_oldest b again = pop_front b.main >>= drop_front b again
overflow block b again = ok (parked, b)
overflow reject b again = ok (full, record b { rejected = incr64 b.rejected })

-- The loop, up to its return or its wait.
pub attempt_loop : ℕ → Broker → TelemetryMessage → Run (Outcome × Broker)
attempt_loop zero b msg = out_of_fuel
attempt_loop (suc fuel) b msg =
    let more = overflow b.cfg.policy b (λ b'. attempt_loop fuel b' msg) in
    if b.closed then ok (closed, b) else if ltb (used b) b.cfg.capacity then admit b msg else more

-- Each further round has one message less in the main lane.
pub attempt : Broker → TelemetryMessage → Run (Outcome × Broker)
unfolding attempt_loop
attempt b msg = attempt_loop (b.main.count + 2) b msg

-- Why a parked producer wakes, with the broker at that moment.
pub data Wake : Type 0 where
  space_freed : Broker → Wake
  timed_out : Broker → Wake
  cancelled : Broker → Wake

pub data EnqueueResult : Type 0 where
  accepted : TelemetryMessage → EnqueueResult
  err_full err_closed err_context : EnqueueResult
  waiting : EnqueueResult

-- A stay that ended in `outcome`, followed through its waits.
pub settle :
    (Broker → Run (EnqueueResult × Broker)) → Outcome × Broker → Run (EnqueueResult × Broker)
settle on_parked (admitted msg, b) = ok (accepted msg, b)
settle on_parked (full, b) = ok (err_full, b)
settle on_parked (closed, b) = ok (err_closed, b)
settle on_parked (parked, b) = on_parked b

pub enqueue : Broker → TelemetryMessage → List Wake → Run (EnqueueResult × Broker)
unfolding attempt settle
enqueue b msg [] = attempt b msg >>= settle (λ b'. ok (waiting, b'))
enqueue b msg (space_freed b' ∷ ws) =
    let retried = enqueue b' msg ws in attempt b msg >>= settle (λ _. retried)
enqueue b msg (timed_out b' ∷ ws) =
    attempt b msg >>= settle (λ _. ok (err_full, record b' { rejected = incr64 b'.rejected }))
enqueue b msg (cancelled b' ∷ ws) = attempt b msg >>= settle (λ _. ok (err_context, b'))
