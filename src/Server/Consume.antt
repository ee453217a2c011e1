-- ===== src/Server/Consume.antt =====
-- `Consume` of internal/server/server.go as a step relation: the send loop and the goroutine that
-- receives of one stream, between the operations of the other handlers. A step is a select branch
-- or a call of the store. The semaphore is the number of its tokens; a token is put back only where
-- the channel has room, so a loop that had to wait there would have no step.
pub mod Held
pub mod Window
pub mod Progress
mod Tests
use vantage.Prelude.{
  ℕ, zero, suc, ◌+◌, ◌-◌, ◌≤◌, ◌<◌, ◌^◌, ◌%◌, ◌≡◌, ◌≢◌, Bool, true, false, List, [], ◌∷◌, ◌++◌,
  Option, none, some, ltb, length, indicator, incr64, Run, ok, if◌then◌else◌,
}
use vantage.Prelude.Int.{ℤ}
use vantage.Message.{TelemetryMessage}
use vantage.Queue.Broker.{Broker}
use vantage.Queue.Broker.Leasing.{lease, ack, release_lease, release_consumer}
use vantage.Queue.Broker.Runs.{Op, run_op}
use vantage.Queue.Broker.Holding.{added}
use vantage.Server.{MqServer, notify_all, credit_window}

-- With what `Consume` returns.
pub data Verdict : Type 0 where
  closed_by_client receive_failed context_ended shutting_down send_error : Verdict

-- Where the send loop is; `e` is the epoch of the notify channel that it captured.
pub data Pc : Type 0 where
  draining_acks acquiring capturing : Pc
  leasing parked : ℕ → Pc
  sending : TelemetryMessage → Pc
  cleaning left : Verdict → Pc

-- One stream. `acks` is the buffer of the ack channel, which is closed when `receiving` ends.
pub record Stream : Type 0 where
  pub server : MqServer
  pub tokens : ℕ
  pub acks : List ℕ
  pub receiving : Bool
  pub cancelled : Bool
  pub final_err : Verdict

-- The selects that read the ack channel.
abbrev pub reads_acks : Pc → Bool
reads_acks draining_acks = true
reads_acks acquiring = true
reads_acks capturing = false
reads_acks (leasing e) = false
reads_acks (parked e) = true
reads_acks (sending m) = false
reads_acks (cleaning v) = false
reads_acks (left v) = false

-- The selects that can block.
abbrev pub is_waiting : Pc → Bool
is_waiting draining_acks = false
is_waiting acquiring = true
is_waiting capturing = false
is_waiting (leasing e) = false
is_waiting (parked e) = true
is_waiting (sending m) = false
is_waiting (cleaning v) = false
is_waiting (left v) = false

-- The server after the store's answer to an acknowledgement.
pub count_ack : MqServer → Bool × Broker → MqServer
count_ack s (true, b) = record s { store = b; consumed = incr64 s.consumed }
count_ack s (false, b) = record s { store = b }

-- The `ack` of the loop and of the clean-up.
pub apply_ack : MqServer → ℕ → ℕ → Bool × MqServer
unfolding count_ack
apply_ack s cid id = let r = ack s.store id cid in (r.0, count_ack s r)

-- After a failed `Send`, when `ReleaseLease` has answered.
pub give_back : MqServer → Bool × Broker → MqServer
unfolding notify_all
give_back s (true, b) = notify_all (record s { store = b; redelivered = incr64 s.redelivered })
give_back s (false, b) = record s { store = b }

-- The end of the clean-up, when `ReleaseConsumer` has answered.
pub close_stream : MqServer → ℕ × Broker → MqServer
unfolding notify_all
close_stream s (zero, b) = record s { store = b; active_c = (s.active_c + (2 ^ 32 - 1)) % 2 ^ 32 }
close_stream s (suc n, b) = notify_all (record s {
  store = b;
  active_c = (s.active_c + (2 ^ 32 - 1)) % 2 ^ 32;
  redelivered = (s.redelivered + suc n) % 2 ^ 64;
})

-- A stream whose first `Recv` fails.
unfoldable refuse_stream : MqServer → MqServer
refuse_stream s =
    let opened = record s {
      active_c = (s.active_c + 1) % 2 ^ 32;
      consumer_seq = incr64 s.consumer_seq;
    } in
    record opened { active_c = (opened.active_c + (2 ^ 32 - 1)) % 2 ^ 32 }

-- The stream's identity, and its state when the loop starts.
pub open_stream : MqServer → ℤ → ℕ × ℕ × Stream
unfolding credit_window
open_stream s credit =
    let cid = incr64 s.consumer_seq in
    let s' = record s { active_c = (s.active_c + 1) % 2 ^ 32; consumer_seq = cid } in
    let window = credit_window s credit in
    (
      cid,
      window,
      record {
        server = s';
        tokens = window;
        acks = [];
        receiving = true;
        cancelled = false;
        final_err = closed_by_client;
      },
    )

-- One step of the send loop of the stream of consumer `cid`, whose window is `credit`.
pub data Move (cid credit : ℕ) : Pc → Stream → Pc → Stream → Type 0 where
  take_ack :
      {pc : Pc} (st : Stream) (id : ℕ) (rest : List ℕ) (r : Bool × MqServer)
      → reads_acks pc ≡ true
      → st.acks ≡ id ∷ rest
      → apply_ack st.server cid id ≡ r
      → st.tokens + indicator r.0 ≤ credit
      → Move cid credit pc st draining_acks
          (record st { server = r.1; acks = rest; tokens = st.tokens + indicator r.0 })
  sees_close :
      {pc : Pc} (st : Stream)
      → reads_acks pc ≡ true
      → st.acks ≡ []
      → st.receiving ≡ false
      → Move cid credit pc st (cleaning st.final_err) st
  no_more_acks :
      (st : Stream)
      → st.acks ≡ []
      → st.receiving ≡ true
      → Move cid credit draining_acks st acquiring st
  take_token :
      (st : Stream) (n : ℕ)
      → st.tokens ≡ suc n
      → Move cid credit acquiring st capturing (record st { tokens = n })
  sees_cancel :
      {pc : Pc} (st : Stream)
      → is_waiting pc ≡ true
      → st.cancelled ≡ true
      → Move cid credit pc st (cleaning context_ended) st
  sees_shutdown :
      {pc : Pc} (st : Stream)
      → is_waiting pc ≡ true
      → st.server.shut_down ≡ true
      → Move cid credit pc st (cleaning shutting_down) st
  capture : (st : Stream) → Move cid credit capturing st (leasing st.server.epoch) st
  lease_nothing :
      (st : Stream) (e : ℕ) (b : Broker)
      → lease st.server.store cid ≡ ok (none, b)
      → st.tokens < credit
      → Move cid credit
          (leasing e)
          st
          (parked e)
          (record st { server = record st.server { store = b }; tokens = st.tokens + 1 })
  lease_message :
      (st : Stream) (e : ℕ) (m : TelemetryMessage) (b : Broker)
      → lease st.server.store cid ≡ ok (some m, b)
      → Move cid credit
          (leasing e)
          st
          (sending m)
          (record st { server = record st.server { store = b } })
  wake :
      (st : Stream) (e : ℕ) → e < st.server.epoch → Move cid credit (parked e) st draining_acks st
  sent :
      (st : Stream) (m : TelemetryMessage)
      → Move cid credit
          (sending m)
          st
          draining_acks
          (record st { server = record st.server { delivered = incr64 st.server.delivered } })
  send_fails :
      (st : Stream) (m : TelemetryMessage) (r : Bool × Broker)
      → release_lease st.server.store m.id cid ≡ ok r
      → Move cid credit
          (sending m)
          st
          (cleaning send_error)
          (record st { server = give_back st.server r })
  clean_ack :
      (st : Stream) (v : Verdict) (id : ℕ) (rest : List ℕ)
      → st.receiving ≡ false
      → st.acks ≡ id ∷ rest
      → Move cid credit
          (cleaning v)
          st
          (cleaning v)
          (record st { server = (apply_ack st.server cid id).1; acks = rest })
  clean_up :
      (st : Stream) (v : Verdict) (r : ℕ × Broker)
      → st.receiving ≡ false
      → st.acks ≡ []
      → release_consumer st.server.store cid ≡ ok r
      → Move cid credit (cleaning v) st (left v) (record st { server = close_stream st.server r })

-- A step of the stream or of its surroundings.
pub data Step (cid credit : ℕ) : Pc → Stream → Pc → Stream → Type 0 where
  client_acks :
      {pc : Pc} (st : Stream) (id : ℕ)
      → st.receiving ≡ true
      → id ≢ 0
      → length st.acks < credit
      → Step cid credit pc st pc (record st { acks = st.acks ++ id ∷ [] })
  client_leaves :
      {pc : Pc} (st : Stream) (v : Verdict)
      → st.receiving ≡ true
      → Step cid credit pc st pc (record st { receiving = false; final_err = v })
  context_ends : {pc : Pc} (st : Stream) → Step cid credit pc st pc (record st { cancelled = true })
  others :
      {pc : Pc} (st : Stream) (op : Op) (s' : MqServer)
      → added cid op ≡ 0
      → run_op st.server.store op ≡ ok s'.store
      → st.server.epoch ≤ s'.epoch
      → st.server.store.next_id + 1 < 2 ^ 64
      → Step cid credit pc st pc (record st { server = s' })
  loop :
      {pc pc' : Pc} {st st' : Stream}
      → Move cid credit pc st pc' st'
      → Step cid credit pc st pc' st'

-- What a stream that started in `st₀` can come to.
pub data Reach (cid credit : ℕ) (st₀ : Stream) : Pc → Stream → Type 0 where
  start : Reach cid credit st₀ draining_acks st₀
  later :
      {pc pc' : Pc} {st st' : Stream}
      → Reach cid credit st₀ pc st
      → Step cid credit pc st pc' st'
      → Reach cid credit st₀ pc' st'
