-- ===== src/Queue/Broker.antt =====
-- internal/queue/broker.go: the broker's state and its operations. Each method is one critical
-- section under the broker's mutex and becomes a function on the state; `Run` has its panics.
--
-- * `clock` in the configuration gives the readings of `now()` in turn, and `reads` counts them.
-- * `space` counts how often `spaceCh` was closed and replaced: a parked producer wakes when it
--   differs from the count at which it parked.
-- * `notify` says whether a callback is registered; a method that would call it says so.
-- * Counters are int64 and ids are uint64: their bits, counted modulo 2^64.
pub mod Lanes
pub mod Requeue
pub mod Backoff
pub mod Enqueue
pub mod Leasing
pub mod Dlq
pub mod Runs
pub mod Holding
use vantage.Prelude.{
  panic, ◌&&◌, ℕ, zero, suc, ◌+◌, ◌-◌, ◌*◌, ◌%◌, ◌^◌, ◌≡◌, Bool, true, false, List, [], ◌∷◌, Option,
  none, some, ltb, leb, ◌==◌, ◌&&◌, ◌||◌, if◌then◌else◌, length, incr32, incr64, Run, ok, panic,
  out_of_fuel, ◌>>=◌, deref,
}
use vantage.Prelude.Int.{pos, negsuc}
use vantage.Message.{TelemetryMessage}
use vantage.Queue.Ring.{Ring, new_ring, push_back, pop_front, push_evict}
use vantage.Queue.Heap
use vantage.Queue.Policy.{
  OverflowPolicy, reject, drop_oldest, block, BrokerConfig, Config, apply_defaults,
}
use vantage.Queue.Table.{Table, lookup, insert, delete, keys_where, sort}

pub record Entry : Type 0 where
  pub msg : TelemetryMessage
  pub attempts : ℕ  -- uint32

pub record LeaseRec : Type 0 where
  pub e : Entry
  pub consumer : ℕ
  pub deadline : ℕ

pub record RetryItem : Type 0 where
  pub e : Entry
  pub visible_at : ℕ

-- The text `max delivery attempts exceeded (%d)`, by its number.
pub data Reason : Type 0 where
  max_deliveries_exceeded : ℕ → Reason

pub record DlqItem : Type 0 where
  pub e : Entry
  pub reason : Reason
  pub dead_at : ℕ

pub record Broker : Type 0 where
  pub main : Ring Entry
  pub retry : List RetryItem
  pub dlq : Ring DlqItem
  pub leases : Table LeaseRec
  pub next_id : ℕ
  pub cfg : Config
  pub reads : ℕ
  pub rejected : ℕ
  pub dropped_overflow : ℕ
  pub dropped_requeue : ℕ
  pub dead_lettered : ℕ
  pub dlq_evicted : ℕ
  pub lease_expired : ℕ
  pub notify : Bool
  pub space : ℕ
  pub closed : Bool

-- `retryHeap.Less`: by visibility, then by id.
pub earlier : RetryItem → RetryItem → Bool
earlier x y =
    if x.visible_at == y.visible_at
    then ltb x.e.msg.id y.e.msg.id
    else ltb x.visible_at y.visible_at

-- `time.Time.Add` of a duration given by its 64 bits.
pub time_add : ℕ → ℕ → ℕ
time_add t d = if ltb d (2 ^ 63) then t + d else t - (2 ^ 64 - d)

-- `a >= b` on int64 given by their bits.
pub int64_ge : ℕ → ℕ → Bool
int64_ge a b = leb ((b + 2 ^ 63) % 2 ^ 64) ((a + 2 ^ 63) % 2 ^ 64)

-- The broker that `NewBroker` makes of a positive capacity.
pub fresh_broker : ℕ → BrokerConfig → Broker
unfolding apply_defaults
fresh_broker capacity cfg =
    let c = apply_defaults capacity cfg in
    record {
      main = new_ring capacity;
      retry = [];
      dlq = new_ring c.dlq_capacity;
      leases = [];
      next_id = 0;
      cfg = c;
      reads = 0;
      rejected = 0;
      dropped_overflow = 0;
      dropped_requeue = 0;
      dead_lettered = 0;
      dlq_evicted = 0;
      lease_expired = 0;
      notify = false;
      space = 0;
      closed = false;
    }

-- The two calls of `make` panic on a length that the runtime cannot allocate.
pub allocate : (ℕ → Bool) → Broker → Run Broker
allocate makes b = if makes b.cfg.capacity && makes b.cfg.dlq_capacity then ok b else panic

-- `NewBroker`, over the lengths that `make` allocates.
pub new_broker : (ℕ → Bool) → BrokerConfig → Run Broker
unfolding fresh_broker allocate
new_broker makes cfg = elim cfg.capacity [
  | pos zero ↦ panic
  | pos (suc n) ↦ allocate makes (fresh_broker (suc n) cfg)
  | negsuc n ↦ panic
]

-- `SetNotify`, with a callback or with nil.
unfoldable pub set_notify : Bool → Broker → Broker
set_notify given b = record b { notify = given }

unfoldable pub used : Broker → ℕ
used b = b.main.count + length b.retry + length b.leases

pub signal_space : Broker → Broker
signal_space b = record b { space = b.space + 1 }

-- `b.now()`
pub read_clock : Broker → ℕ × Broker
read_clock b = (b.cfg.clock b.reads, record b { reads = b.reads + 1 })

-- The loop of `backoff`, with `n` rounds to go.
pub backoff_loop : ℕ → ℕ → ℕ → ℕ
backoff_loop limit zero d = if int64_ge limit d then d else limit
backoff_loop limit (suc n) d =
    let d' = (d * 2) % 2 ^ 64 in
    let rest = backoff_loop limit n d' in if int64_ge d' limit then limit else rest

pub backoff : Broker → ℕ → ℕ
unfolding backoff_loop int64_ge
backoff b attempts = backoff_loop b.cfg.retry_backoff_max (attempts - 1) b.cfg.retry_backoff_base

-- The branch of `requeue` that gives a message up.
pub dead_letter : Broker → Entry → Run Broker
unfolding signal_space
dead_letter b e = do
  let (t, b') = read_clock b
  let reason = max_deliveries_exceeded b.cfg.max_deliveries
  (evicted, dlq) ← push_evict b'.dlq (record { e = e; reason = reason; dead_at = t })
  ok (
      signal_space (record b' {
        dlq = dlq;
        dlq_evicted = if evicted then incr64 b'.dlq_evicted else b'.dlq_evicted;
        dead_lettered = incr64 b'.dead_lettered;
      }))

-- The branch that schedules it again.
pub schedule_retry : Broker → Entry → ℕ → Run Broker
schedule_retry b e delay = do
  let (t, b') = read_clock b
  retry ← Heap.push earlier b'.retry (record { e = e; visible_at = time_add t delay })
  ok (record b' { retry = retry })

pub requeue : Broker → Entry → ℕ → Run Broker
requeue b e delay =
    if leb b.cfg.max_deliveries e.attempts then dead_letter b e else schedule_retry b e delay

pub record StoreStats : Type 0 where
  pub depth : ℕ
  pub retry_depth : ℕ
  pub dlq_depth : ℕ
  pub capacity : ℕ
  pub in_flight : ℕ
  pub rejected_total : ℕ
  pub dropped_overflow : ℕ
  pub dropped_requeue : ℕ
  pub dropped : ℕ
  pub dead_lettered_total : ℕ
  pub dlq_evicted_total : ℕ
  pub lease_expired_total : ℕ

unfoldable pub inspect : Broker → StoreStats
inspect b = record {
  depth = b.main.count;
  retry_depth = length b.retry;
  dlq_depth = b.dlq.count;
  capacity = b.cfg.capacity;
  in_flight = length b.leases;
  rejected_total = b.rejected;
  dropped_overflow = b.dropped_overflow;
  dropped_requeue = b.dropped_requeue;
  dropped = (b.dropped_overflow + b.dropped_requeue) % 2 ^ 64;
  dead_lettered_total = b.dead_lettered;
  dlq_evicted_total = b.dlq_evicted;
  lease_expired_total = b.lease_expired;
}

-- `Close`, without the sweeper's goroutine, which it stops.
pub close : Broker → Broker
unfolding signal_space
close b = if b.closed then b else signal_space (record b { closed = true })
