-- ===== src/Queue/Broker/Lanes.antt =====
-- Where the broker of internal/queue/broker.go keeps its messages: the main lane, the retry lane,
-- the lease table and the dead-letter lane, with what must hold of them between two operations.
pub mod Take
pub mod Put
use vantage.Prelude.{
  ℕ, ◌+◌, ◌^◌, ◌≤◌, ◌<◌, ◌≡◌, Bool, true, false, ◌&&◌, not, List, [], ◌∷◌, ltb, leb, ◌==◌,
  indicator, length, arith, if◌then◌else◌,
}
use vantage.Prelude.Weigh.{weigh, count}
use vantage.Message.{TelemetryMessage, payload}
use vantage.Queue.Ring.{Ring, contents}
use vantage.Queue.Ring.Refine.{IsRing}
use vantage.Queue.Heap.Up.{IsOrder, IsHeap}
use vantage.Queue.Policy.{Config}
use vantage.Queue.Table.{Table}
use vantage.Queue.Broker.{Entry, LeaseRec, RetryItem, DlqItem, Broker, earlier}

pub record Lanes : Type 0 where
  pub main : Ring Entry
  pub retry : List RetryItem
  pub leases : Table LeaseRec
  pub dlq : Ring DlqItem
  pub next_id : ℕ
  pub cfg : Config

abbrev pub lanes : Broker → Lanes
lanes b = record {
  main = b.main;
  retry = b.retry;
  leases = b.leases;
  dlq = b.dlq;
  next_id = b.next_id;
  cfg = b.cfg;
}

-- The weight of an entry is that of its message, whatever its delivery count.
abbrev pub of_entry : (TelemetryMessage → ℕ) → Entry → ℕ
of_entry w e = w (payload e.msg)

abbrev pub of_retry : (TelemetryMessage → ℕ) → RetryItem → ℕ
of_retry w it = w (payload it.e.msg)

abbrev pub of_lease : (TelemetryMessage → ℕ) → ℕ × LeaseRec → ℕ
of_lease w kv = w (payload kv.1.e.msg)

abbrev pub of_dead : (TelemetryMessage → ℕ) → DlqItem → ℕ
of_dead w it = w (payload it.e.msg)

-- The weight of all messages in the broker's custody. With the indicator of one message it counts
-- how often the broker holds that message.
abbrev pub stock : (TelemetryMessage → ℕ) → Lanes → ℕ
stock w l =
    weigh (of_entry w) (contents l.main)
    + weigh (of_retry w) l.retry
    + weigh (of_lease w) l.leases
    + weigh (of_dead w) (contents l.dlq)

-- Whether a message has the id.
abbrev pub has_id : ℕ → TelemetryMessage → ℕ
has_id i m = indicator (m.id == i)

-- How many messages count against the capacity.
abbrev pub load_of : Lanes → ℕ
load_of l = l.main.count + length l.retry + length l.leases

-- Whether an entry has had all its deliveries.
abbrev pub is_spent : ℕ → Entry → Bool
is_spent limit e = leb limit e.attempts

-- Whether a lease stands under its message's id, after at least one delivery and no more than
-- the limit.
abbrev pub is_proper : ℕ → ℕ × LeaseRec → Bool
is_proper limit kv = kv.0 == kv.1.e.msg.id && (ltb 0 kv.1.e.attempts && leb kv.1.e.attempts limit)

abbrev pub nil_item : Entry → RetryItem
nil_item e = record { e = e; visible_at = 0 }

-- The ids that the broker has given out.
abbrev pub is_issued : ℕ → ℕ → Bool
is_issued next_id i = ltb 0 i && leb i next_id

-- The lanes are in order while an operation has the entries `hand` in none of them.
pub record Inv (hand : List Entry) (l : Lanes) : Type 0 where
  pub main_ring : IsRing l.cfg.capacity l.main
  pub dlq_ring : IsRing l.cfg.dlq_capacity l.dlq
  pub heap : (e : Entry) → IsHeap earlier (nil_item e) l.retry
  pub budget : load_of l + length hand ≤ l.cfg.capacity
  pub once :
      (i : ℕ)
      → stock (has_id i) l + weigh (of_entry (has_id i)) hand ≤ indicator (is_issued l.next_id i)
  pub small : l.next_id < 2 ^ 64
  pub main_unspent : count (is_spent l.cfg.max_deliveries) (contents l.main) ≡ 0
  pub retry_unspent : count (λ it. is_spent l.cfg.max_deliveries it.e) l.retry ≡ 0
  pub leases_proper : count (λ kv. not (is_proper l.cfg.max_deliveries kv)) l.leases ≡ 0
  pub limit_pos : 0 < l.cfg.max_deliveries
  pub limit_small : l.cfg.max_deliveries < 2 ^ 32

-- The state between two operations: every message in the broker's custody lies in one lane, once.
abbrev pub IsValid : Broker → Type 0
IsValid b = Inv [] (lanes b)

pub earlier-IsOrder : IsOrder earlier
unfolding earlier
earlier-IsOrder = record { asym = λ x y h. ground arith; le_trans = λ x y z h k. ground arith }
