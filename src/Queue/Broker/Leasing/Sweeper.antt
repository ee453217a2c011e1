-- ===== src/Queue/Broker/Leasing/Sweeper.antt =====
-- A tick of `sweeper`, and `Inspect`, of internal/queue/broker.go.
use vantage.Prelude.{ℕ, ◌+◌, ◌≤◌, ◌≡◌, refl, Bool, false, ◌&&◌, ◌||◌, List, [], ◌∷◌, leb, arith, ok}
use vantage.Queue.Broker.{Broker, RetryItem, inspect, read_clock}
use vantage.Queue.Broker.Lanes.{IsValid}
use vantage.Queue.Broker.Requeue.{Carry, Carry-trans}
use vantage.Queue.Broker.Leasing.{retry_due, sweep_expired, sweeper_tick}
use vantage.Queue.Broker.Leasing.Lease.{reading-Carry}
use vantage.Queue.Broker.Leasing.Reclaim.{sweep_expired-Reclaims}

-- Whether the first retry is visible at the clock's next reading.
abbrev pub visible : Broker → List RetryItem → Bool
visible b [] = false
visible b (it ∷ rest) = leb it.visible_at (b.cfg.clock b.reads)

retry_due-visible :
    (b : Broker) (retry : List RetryItem)
    → b.retry ≡ retry
    → (n : ℕ) × (retry_due b ≡ (visible b retry, record b { reads = n }))
unfolding retry_due read_clock
retry_due-visible b [] e = (b.reads, ground (arith, e))
retry_due-visible b (it ∷ rest) e = (b.reads + 1, ground (arith, e))

-- A tick in a state that is in order never panics and keeps it in order, with every message
-- accounted for. After a sweep that leaves `b'` the callback is called if it is registered and the
-- sweep called for it or the first retry of `b'` is visible.
pub sweeper_tick-IsValid :
    (b : Broker)
    → IsValid b
    → (n : ℕ) × (called : Bool) × (b' : Broker) × (k : ℕ) × (sweep_expired b ≡ ok (n, called, b'))
      × (sweeper_tick b ≡ ok (called || visible b' b'.retry && b'.notify, record b' { reads = k }))
      × IsValid (record b' { reads = k })
      × Carry [] b [] (record b' { reads = k })
unfolding sweeper_tick
sweeper_tick-IsValid b v =
    let ((n, called, b'), e, ((v', c, _, _), _, _, _)) = sweep_expired-Reclaims b v in
    let (k, due) = retry_due-visible b' b'.retry refl in
    (
      n,
      called,
      b',
      k,
      e,
      rw (e, due) refl,
      v',
      Carry-trans [] [] [] b b' (record b' { reads = k }) c (reading-Carry b' [] k),
    )

-- In a state that is in order the statistics respect the bounds: what waits and what is in flight
-- fit the capacity together, and the dead letters fit theirs.
pub inspect-bounds :
    (b : Broker)
    → IsValid b
    → let st = inspect b in
      (st.depth + st.retry_depth + st.in_flight ≤ st.capacity) × (st.dlq_depth ≤ b.cfg.dlq_capacity)
unfolding inspect
inspect-bounds b v = (omega (arith, v.budget), omega (arith, v.dlq_ring.counted, v.dlq_ring.fits))
