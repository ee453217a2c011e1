-- ===== src/Queue/Broker/Dlq.antt =====
-- The dead-letter lane: `DLQList` and `DLQReplay`.
pub mod Replay
pub mod Listing
use vantage.Prelude.{
  ℕ, zero, suc, ◌+◌, ◌%◌, Bool, true, false, List, [], ◌∷◌, Option, none, some, ltb, if◌then◌else◌,
  ◌&&◌, length, Run, ok, out_of_fuel, ◌>>=◌, deref, load, not,
}
use Prim.Native.String.{String}
use vantage.Prelude.Int.{ℤ, pos, negsuc}
use vantage.Message.{TelemetryMessage}
use vantage.Queue.Ring.{Ring, push_back, pop_front}
use vantage.Queue.Broker.{Entry, DlqItem, Reason, Broker, used}

pub record DlqEntry : Type 0 where
  pub msg : TelemetryMessage
  pub id : ℕ
  pub gpu_id : String
  pub metric_name : String
  pub timestamp : String
  pub attempts : ℕ
  pub reason : Reason
  pub dead_lettered_at : ℕ

pub entry_of : DlqItem → DlqEntry
entry_of it = record {
  msg = it.e.msg;
  id = it.e.msg.id;
  gpu_id = it.e.msg.gpu_id;
  metric_name = it.e.msg.metric_name;
  timestamp = it.e.msg.timestamp;
  attempts = it.e.attempts;
  reason = it.reason;
  dead_lettered_at = it.dead_at;
}

-- The loop of `dlqRing.list`, from index `i` with `n` rounds to go.
pub list_loop : Ring DlqItem → ℕ → ℕ → Run (List DlqEntry)
list_loop r i zero = ok []
list_loop r i (suc n) = do
  slot ← load r.buf ((r.head + i) % length r.buf)
  it ← deref slot
  rest ← list_loop r (i + 1) n
  ok (entry_of it ∷ rest)

-- How many entries a limit allows: all, if it is not positive.
pub list_size : ℕ → ℤ → ℕ
list_size n (pos zero) = n
list_size n (pos (suc k)) = if ltb (suc k) n then suc k else n
list_size n (negsuc k) = n

pub dlq_list : Broker → ℤ → Run (List DlqEntry)
unfolding list_loop list_size
dlq_list b limit = list_loop b.dlq 0 (list_size b.dlq.count limit)

-- What a round does with the front of the lane; `again` is the next round.
replay_front :
    Broker
    → ℕ
    → (Broker → ℕ → Run (ℕ × Broker))
    → Option (Option DlqItem) × Ring DlqItem
    → Run (ℕ × Broker)
replay_front b n again (none, dlq) = ok (n, record b { dlq = dlq })
replay_front b n again (some slot, dlq) = do
  it ← deref slot
  main ← push_back b.main (record it.e { attempts = 0 })
  again (record b { dlq = dlq; main = main }) (n + 1)

pub replay_loop : ℕ → Broker → ℕ → Run (ℕ × Broker)
unfolding replay_front
replay_loop zero b n = out_of_fuel
replay_loop (suc fuel) b n =
    let round = pop_front b.dlq >>= replay_front b n (replay_loop fuel) in
    if ltb (used b) b.cfg.capacity then round else ok (n, b)

-- Each round takes one entry from the lane.
pub dlq_replay : Broker → Run (ℕ × Broker)
unfolding replay_loop
dlq_replay b = replay_loop (b.dlq.count + 1) b 0
