-- ===== src/Server/Batch.antt =====
-- `ProduceBatch` of internal/server/server.go. At message `i` of the batch the loop meets `turns i`;
-- a batch whose call still waits has no answer.
pub mod Prefix
pub mod Order
mod Tests
use Prim.Native.Nat.{◌%◌, ◌^◌, ◌-◌}
use vantage.Prelude.{
  ℕ, suc, ◌+◌, List, [], ◌∷◌, Bool, true, false, ◌||◌, Option, none, some, ltb, ◌==◌, length,
  if◌then◌else◌, incr64, Run, ok, ◌>>=◌,
}
use vantage.Message.{TelemetryMessage}
use vantage.Queue.Broker.{Broker}
use vantage.Queue.Broker.Enqueue.{
  Wake, EnqueueResult, accepted, err_full, err_closed, err_context, waiting, enqueue,
}
use vantage.Server.{MqServer, notify_all, is_shutting_down}

abbrev pub max_batch_size : ℕ
max_batch_size = 1000

-- What the loop meets at a message: the state that the other goroutines have left when it comes to
-- `Enqueue`, if any of them was in the store since, and what wakes that call when it parks.
pub record Turn : Type 0 where
  pub found : Option Broker
  pub wakes : List Wake

-- How the loop over the messages ends.
pub data BatchEnd : Type 0 where
  all_in refused_full store_closed caller_gone parked_on : BatchEnd

pub data BatchReply : Type 0 where
  batch_invalid batch_unavailable batch_pending : BatchReply
  batch_response : ℕ → ℕ → BatchReply

-- The messages, if none of them is nil.
pub no_nil : List (Option TelemetryMessage) → Option (List TelemetryMessage)
no_nil [] = some []
no_nil (none ∷ reqs) = none
no_nil (some m ∷ reqs) = elim (no_nil reqs) [ none ↦ none | some ms ↦ some (m ∷ ms) ]

-- The checks before anything is enqueued.
pub valid_batch : List (Option TelemetryMessage) → Option (List TelemetryMessage)
unfolding no_nil
valid_batch reqs =
    if length reqs == 0 || ltb max_batch_size (length reqs) then none else no_nil reqs

-- After message `n` of the batch; `again` is the next round of the loop.
pub batch_step :
    (Broker → Run (ℕ × BatchEnd × Broker))
    → ℕ
    → EnqueueResult × Broker
    → Run (ℕ × BatchEnd × Broker)
batch_step again n (accepted m, b) = again b
batch_step again n (err_full, b) = ok (n, refused_full, b)
batch_step again n (err_closed, b) = ok (n, store_closed, b)
batch_step again n (err_context, b) = ok (n, caller_gone, b)
batch_step again n (waiting, b) = ok (n, parked_on, b)

pub found_or : Option Broker → Broker → Broker
found_or none b = b
found_or (some b') b = b'

-- The loop, after `n` messages were accepted.
pub enqueue_all : (ℕ → Turn) → ℕ → Broker → List TelemetryMessage → Run (ℕ × BatchEnd × Broker)
unfolding batch_step found_or
enqueue_all turns n b [] = ok (n, all_in, b)
enqueue_all turns n b (m ∷ ms) =
    enqueue (found_or (turns n).found b) m (turns n).wakes
    >>= batch_step (λ b'. enqueue_all turns (suc n) b' ms) n

-- One rejection is counted for the refusal, not for each message that was not sent.
pub count_refusal : BatchEnd → ℕ → ℕ
count_refusal refused_full n = incr64 n
count_refusal all_in n = n
count_refusal store_closed n = n
count_refusal caller_gone n = n
count_refusal parked_on n = n

-- `if accepted > 0`
pub count_accepted : Bool → MqServer → ℕ → MqServer
unfolding notify_all
count_accepted true s n = notify_all (record s { produced = (s.produced + n) % 2 ^ 64 })
count_accepted false s n = s

pub answer_batch : MqServer → ℕ → ℕ × BatchEnd × Broker → BatchReply × MqServer
unfolding count_refusal count_accepted
answer_batch s total (n, parked_on, b) = (batch_pending, record s { store = b })
answer_batch s total (n, end, b) =
    let s' = record s { store = b; rejected = count_refusal end s.rejected } in
    (batch_response (n % 2 ^ 32) ((total - n) % 2 ^ 32), count_accepted (ltb 0 n) s' n)

-- After the checks of the batch and of the drain.
pub admit_batch :
    MqServer → (ℕ → Turn) → Bool → Option (List TelemetryMessage) → Run (BatchReply × MqServer)
unfolding enqueue_all answer_batch
admit_batch s turns down none = ok (batch_invalid, s)
admit_batch s turns true (some ms) = ok (batch_unavailable, s)
admit_batch s turns false (some ms) =
    enqueue_all turns 0 s.store ms >>= λ r. ok (answer_batch s (length ms) r)

pub produce_batch :
    MqServer → List (Option TelemetryMessage) → (ℕ → Turn) → Run (BatchReply × MqServer)
unfolding valid_batch is_shutting_down admit_batch
produce_batch s reqs turns = admit_batch s turns (is_shutting_down s) (valid_batch reqs)
