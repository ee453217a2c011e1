-- ===== src/Queue/Broker/Runs.antt =====
-- The broker of internal/queue/broker.go under any sequence of its operations. A stay of `Enqueue`
-- in the critical section is one operation, as the parked producer lets the others in.
pub mod Kept
pub mod Safe
pub mod Books
pub mod Ledger
use vantage.Prelude.{
  ℕ, zero, suc, ◌+◌, ◌^◌, ◌≤◌, ◌<◌, ◌≡◌, refl, ap, sym, subst, incr64, ◌∙◌, ◌⊎◌, inl, inr, Bool,
  true, false, List, [], ◌∷◌, ◌==◌, none, some, length, indicator, arith, Run, ok, ◌>>=◌, Returns,
  Bool-cases, Option-cases, ltb, if◌then◌else◌, ◌≢◌,
}
use vantage.Prelude.Int.{ℤ, pos, negsuc}
use vantage.Prelude.Weigh.{weigh}
use vantage.Message.{TelemetryMessage}
use vantage.Queue.Ring.{contents}
use vantage.Queue.Ring.Refine.{new_ring-IsRing}
use vantage.Queue.Policy.{
  BrokerConfig, OverflowPolicy, reject, drop_oldest, block, apply_defaults, positive_or,
}
use vantage.Queue.Table.{lookup}
use vantage.Queue.Broker.{
  Entry, Broker, LeaseRec, DlqItem, fresh_broker, new_broker, signal_space, set_notify, close, used,
}
use vantage.Queue.Broker.Lanes.{of_entry, of_dead, has_id, is_spent, IsValid}
use vantage.Queue.Broker.Requeue.{Carry}
use vantage.Queue.Broker.Enqueue.{Outcome, attempt}
use vantage.Queue.Broker.Enqueue.Attempt.{attempt-Attempts, Stays, AtFull, Admits}
use vantage.Queue.Broker.Leasing.{lease, ack, release_lease, release_consumer, sweep_expired}
use vantage.Queue.Broker.Leasing.Lease.{lease-Leased}
use vantage.Queue.Broker.Leasing.Ack.{ack_foreign, ack_held, release_lease-Carry}
use vantage.Queue.Broker.Leasing.Reclaim.{release_consumer-Reclaims, sweep_expired-Reclaims}
use vantage.Queue.Broker.Dlq.{dlq_replay}
use vantage.Queue.Broker.Dlq.Replay.{dlq_replay-Replayed}

pub data Op : Type 0 where
  produce : TelemetryMessage → Op
  lease_to : ℕ → Op
  ack_by : ℕ → ℕ → Op
  release_by : ℕ → ℕ → Op
  disconnect : ℕ → Op
  sweep replay stop : Op
  register : Bool → Op

unfoldable pub run_op : Broker → Op → Run Broker
run_op b (produce m) = attempt b m >>= λ r. ok r.1
run_op b (lease_to c) = lease b c >>= λ r. ok r.1
run_op b (ack_by c id) = ok (ack b id c).1
run_op b (release_by c id) = release_lease b id c >>= λ r. ok r.1
run_op b (disconnect c) = release_consumer b c >>= λ r. ok r.1
run_op b sweep = sweep_expired b >>= λ r. ok r.2
run_op b replay = dlq_replay b >>= λ r. ok r.1
run_op b stop = ok (close b)
run_op b (register on) = ok (set_notify on b)

unfoldable pub run_ops : Broker → List Op → Run Broker
unfolding run_op
run_ops b [] = ok b
run_ops b (op ∷ ops) = run_op b op >>= λ b'. run_ops b' ops
