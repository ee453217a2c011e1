-- ===== src/Queue/Broker/Leasing.antt =====
-- `Lease`, `Ack`, `ReleaseLease`, `ReleaseConsumer`, `SweepExpired` and a tick of the sweeper.
pub mod Lease
pub mod Ack
pub mod Reclaim
pub mod Sweeper
pub mod Revoke
use vantage.Prelude.{
  ℕ, zero, suc, ◌+◌, Bool, true, false, List, [], ◌∷◌, Option, none, some, leb, ◌==◌, ltb,
  if◌then◌else◌, ◌&&◌, ◌||◌, length, incr32, incr64, Run, ok, ◌>>=◌, deref,
}
use vantage.Message.{TelemetryMessage}
use vantage.Queue.Ring.{pop_front}
use vantage.Queue.Heap
use vantage.Queue.Table.{lookup, insert, delete, keys_where, sort}
use vantage.Queue.Broker.{
  Entry, LeaseRec, RetryItem, Broker, earlier, time_add, signal_space, read_clock, backoff, requeue,
}

-- Whether the first retry is visible; the clock is read only if there is one.
pub retry_due : Broker → Bool × Broker
unfolding read_clock
retry_due b = elim b.retry [
  | [] ↦ (false, b)
  | item ∷ _ ↦ let (t, b') = read_clock b in (leb item.visible_at t, b')
]

-- The main lane's first message, if there is one.
pub next_fresh : Broker → Run (Option Entry × Broker)
next_fresh b = do
  (front, main) ← pop_front b.main
  let b' = record b { main = main }
  elim front [ none ↦ ok (none, b') | some slot ↦ deref slot >>= λ e. ok (some e, b') ]

pub next_entry : Broker → Run (Option Entry × Broker)
unfolding retry_due
next_entry b =
    let (due, b') = retry_due b in
    if due
    then (do
      (item, retry) ← Heap.pop earlier b'.retry
      ok (some item.e, record b' { retry = retry }))
    else next_fresh b'

-- An entry with one more delivery, on the wire too.
pub deliver : Entry → Entry
deliver e =
    let n = incr32 e.attempts in
    record { msg = record e.msg { delivery_attempts = n }; attempts = n }

pub grant : Broker → Entry → ℕ → Broker
unfolding read_clock
grant b e consumer =
    let (t, b') = read_clock b in
    let rec : LeaseRec = record {
      e = e;
      consumer = consumer;
      deadline = time_add t b'.cfg.lease_ttl;
    } in
    record b' { leases = insert e.msg.id rec b'.leases }

pub lease : Broker → ℕ → Run (Option TelemetryMessage × Broker)
lease b consumer = do
  (next, b') ← next_entry b
  elim next [
    | none ↦ ok (none, b')
    | some e ↦ ok (some (deliver e).msg, grant b' (deliver e) consumer)
  ]

-- The lease on `id`, if `consumer` holds it.
pub held_by : Broker → ℕ → ℕ → Option LeaseRec
held_by b id consumer = elim (lookup id b.leases) [
  | none ↦ none
  | some rec ↦ if rec.consumer == consumer then some rec else none
]

pub ack : Broker → ℕ → ℕ → Bool × Broker
unfolding signal_space
ack b id consumer = elim (held_by b id consumer) [
  | none ↦ (false, b)
  | some _ ↦ (true, signal_space (record b { leases = delete id b.leases }))
]

pub release_lease : Broker → ℕ → ℕ → Run (Bool × Broker)
release_lease b id consumer = elim (held_by b id consumer) [
  | none ↦ ok (false, b)
  | some rec ↦ requeue (record b { leases = delete id b.leases }) rec.e 0 >>= λ b'. ok (true, b')
]

-- One round of the loops of ReleaseConsumer and SweepExpired; a missing id has a nil entry.
pub reclaim : Broker → ℕ → Run Broker
reclaim b id = do
  rec ← deref (lookup id b.leases)
  let b' = record b { leases = delete id b.leases }
  requeue b' rec.e (backoff b' rec.e.attempts)

pub reclaim_all : (Broker → Broker) → Broker → List ℕ → Run Broker
reclaim_all after b [] = ok b
reclaim_all after b (id ∷ ids) = do b' ← reclaim b id; reclaim_all after (after b') ids

pub release_consumer : Broker → ℕ → Run (ℕ × Broker)
release_consumer b consumer = do
  let ids = sort (keys_where (λ rec. rec.consumer == consumer) b.leases)
  b' ← reclaim_all (λ b. b) b ids
  ok (length ids, b')

pub count_expired : Broker → Broker
count_expired b = record b { lease_expired = incr64 b.lease_expired }

-- The results are how many leases were reclaimed and whether the callback is called.
pub sweep_expired : Broker → Run (ℕ × Bool × Broker)
unfolding read_clock count_expired
sweep_expired b = do
  let (t, b') = read_clock b
  let ids = sort (keys_where (λ rec. leb rec.deadline t) b'.leases)
  b'' ← reclaim_all count_expired b' ids
  ok (length ids, ltb 0 (length ids) && b''.notify, b'')

-- A tick of the sweeper, with whether it calls the callback at all.
pub sweeper_tick : Broker → Run (Bool × Broker)
unfolding sweep_expired retry_due
sweeper_tick b = do
  (_, called, b') ← sweep_expired b
  let (visible, b'') = retry_due b'
  ok (called || visible && b''.notify, b'')
