-- ===== src/Server.antt =====
-- internal/server/server.go: `Produce`, the credit window of a `Consume` stream, the replay, the
-- drain and the statistics. The store is the broker. `epoch` counts how often the notify channel
-- was closed and replaced, which wakes the parked streams; a result has its gRPC status code.
-- The loops are in the children.
pub mod Admission
pub mod Batch
pub mod Consume
pub mod Control
pub mod Drain
mod Tests
use vantage.Prelude.{
  ℕ, zero, suc, ◌+◌, ◌==◌, ltb, Bool, true, false, ◌&&◌, ◌||◌, List, Option, none, some,
  if◌then◌else◌, incr64, Run, ok, ◌>>=◌,
}
use vantage.Prelude.Int.{ℤ, pos, negsuc}
use vantage.Message.{TelemetryMessage}
use vantage.Queue.Broker.{Broker, StoreStats, set_notify, inspect}
use vantage.Queue.Broker.Enqueue.{
  Wake, EnqueueResult, accepted, err_full, err_closed, err_context, waiting, enqueue,
}
use vantage.Queue.Broker.Dlq.{dlq_replay}

pub record MqServer : Type 0 where
  pub store : Broker
  pub default_credit : ℕ
  pub epoch : ℕ
  pub consumer_seq : ℕ
  pub produced : ℕ
  pub rejected : ℕ
  pub consumed : ℕ
  pub delivered : ℕ
  pub redelivered : ℕ
  pub active_c : ℕ
  pub draining : Bool
  pub shut_down : Bool

pub data Status : Type 0 where
  accepted_true invalid_argument resource_exhausted unavailable context_error pending : Status

unfoldable pub new_mq_server : Broker → ℤ → MqServer
new_mq_server b default_credit = record {
  store = set_notify true b;
  default_credit = elim default_credit [ pos zero ↦ 20 | pos (suc n) ↦ suc n | negsuc n ↦ 20 ];
  epoch = 0;
  consumer_seq = 0;
  produced = 0;
  rejected = 0;
  consumed = 0;
  delivered = 0;
  redelivered = 0;
  active_c = 0;
  draining = false;
  shut_down = false;
}

pub notify_all : MqServer → MqServer
notify_all s = record s { epoch = s.epoch + 1 }

pub is_shutting_down : MqServer → Bool
is_shutting_down s = s.draining || s.shut_down

-- What `Produce` answers when `Enqueue` comes to a result; a producer that waits has no answer.
pub respond : MqServer → EnqueueResult × Broker → Status × MqServer
unfolding notify_all
respond s (accepted m, b) =
    (accepted_true, notify_all (record s { store = b; produced = incr64 s.produced }))
respond s (err_full, b) = (resource_exhausted, record s { store = b; rejected = incr64 s.rejected })
respond s (err_closed, b) = (unavailable, record s { store = b })
respond s (err_context, b) = (context_error, record s { store = b })
respond s (waiting, b) = (pending, record s { store = b })

pub produce_message : MqServer → TelemetryMessage → List Wake → Run (Status × MqServer)
unfolding respond is_shutting_down
produce_message s m wakes =
    if is_shutting_down s
    then ok (unavailable, s)
    else (enqueue s.store m wakes >>= λ r. ok (respond s r))

-- `Produce`; a nil message is `none`.
pub produce_rpc : MqServer → Option TelemetryMessage → List Wake → Run (Status × MqServer)
unfolding produce_message
produce_rpc s none wakes = ok (invalid_argument, s)
produce_rpc s (some m) wakes = produce_message s m wakes

pub replay_dead : MqServer → Run (ℕ × MqServer)
unfolding notify_all
replay_dead s = dlq_replay s.store >>= λ r.
    let s' = record s { store = r.1 } in ok (r.0, if ltb 0 r.0 then notify_all s' else s')

-- The constant 1000, and the ceiling of a store whose capacity is known.
abbrev pub credit_ceiling_const : ℕ
credit_ceiling_const = 1000

pub credit_ceiling : MqServer → ℕ
unfolding inspect
credit_ceiling s =
    let capacity = (inspect s.store).capacity in
    if ltb credit_ceiling_const capacity then capacity else credit_ceiling_const

-- The window of a stream whose first message asks for `credit`.
pub credit_window : MqServer → ℤ → ℕ
unfolding credit_ceiling
credit_window s credit =
    let wanted : ℕ = elim credit [
      | pos zero ↦ s.default_credit
      | pos (suc n) ↦ suc n
      | negsuc n ↦ s.default_credit
    ] in
    if ltb (credit_ceiling s) wanted then credit_ceiling s else wanted

pub begin_drain : MqServer → MqServer
begin_drain s = record s { draining = true }

pub shutdown : MqServer → MqServer
unfolding begin_drain
shutdown s = record (begin_drain s) { shut_down = true }

pub drained : MqServer → Bool
unfolding inspect
drained s = let st = inspect s.store in st.depth == 0 && (st.retry_depth == 0 && st.in_flight == 0)

pub record ServerStats : Type 0 where
  pub stats_produced : ℕ
  pub stats_rejected : ℕ
  pub stats_consumed : ℕ
  pub stats_delivered : ℕ
  pub stats_redelivered : ℕ
  pub active_consumers : ℕ
  pub store_stats : StoreStats

-- `Stats`; its other fields are those of `Inspect`.
pub stats : MqServer → ServerStats
unfolding inspect
stats s = record {
  stats_produced = s.produced;
  stats_rejected = s.rejected;
  stats_consumed = s.consumed;
  stats_delivered = s.delivered;
  stats_redelivered = s.redelivered;
  active_consumers = s.active_c;
  store_stats = inspect s.store;
}
