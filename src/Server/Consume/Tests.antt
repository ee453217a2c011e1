-- ===== src/Server/Consume/Tests.antt =====
-- The theorems on `Consume` of internal/server/server.go at a concrete server.
use vantage.Prelude.{◌≡◌, ◌⊎◌, refl, true, false, [], some, arith, ok, ◌>>=◌, ap}
use vantage.Prelude.Int.{pos}
use vantage.Queue.Samples.{message, busy, busy-IsValid}
use vantage.Queue.Broker.Enqueue.{enqueue, accepted}
use vantage.Queue.Broker.Enqueue.Attempt.{numbered}
use vantage.Queue.Broker.Enqueue.Room.{After, enqueue-After}
use vantage.Queue.Broker.{Broker, used, inspect}
use vantage.Server.{
  notify_all, MqServer, credit_window, credit_ceiling, produce_rpc, respond, produce_message,
  is_shutting_down,
}
use vantage.Server.Consume.{
  Verdict, Pc, draining_acks, capturing, leasing, parked, Stream, Move, start, later, loop,
  no_more_acks, take_token, open_stream,
}
use vantage.Server.Consume.Window.{stream_window}
use vantage.Server.Consume.Held.{InWindow}
use vantage.Server.Consume.Progress.{Rests, Serves, loop_progresses, parked_wakes}

abbrev server : MqServer
server = record {
  store = busy;
  default_credit = 20;
  epoch = 4;
  consumer_seq = 0;
  produced = 3;
  rejected = 0;
  consumed = 0;
  delivered = 0;
  redelivered = 0;
  active_c = 0;
  draining = false;
  shut_down = false;
}

abbrev opened : Stream
opened = record {
  server = record server { active_c = 1; consumer_seq = 1 };
  tokens = 5;
  acks = [];
  receiving = true;
  cancelled = false;
  final_err = Verdict.closed_by_client;
}

stream_window_example : InWindow 1 5 capturing (record opened { tokens = 4 })
unfolding open_stream credit_window credit_ceiling inspect
stream_window_example =
    stream_window server (pos 5) busy-IsValid refl
      (later (later start (loop (no_more_acks opened refl refl))) (loop (take_token opened 4 refl)))

fetching : InWindow 7 5 (leasing 4) (record opened { tokens = 2 })
fetching = record {
  valid = busy-IsValid;
  window = omega arith;
  queued = omega arith;
  at = omega arith;
}

loop_progresses_example :
    (((pc' : Pc) × (st' : Stream) × Move 7 5 (leasing 4) (record opened { tokens = 2 }) pc' st')
      ⊎ Rests (leasing 4) (record opened { tokens = 2 }))
    × Serves 7 5 (leasing 4) (record opened { tokens = 2 })
loop_progresses_example = loop_progresses 7 5 (leasing 4) (record opened { tokens = 2 }) fetching

-- A broker with room takes the message in.
admission :
    (b' : Broker) × (enqueue busy (message 0) [] ≡ ok (accepted (numbered busy (message 0)), b'))
    × After 0 busy (message 0) b'
unfolding used
admission = enqueue-After 0 busy (message 0) [] (busy-IsValid, refl, omega arith, omega arith)

abbrev notified : MqServer
notified = record server {
  store = admission.0;
  produced = 4;
  epoch = 5;
  active_c = 1;
  consumer_seq = 1;
}

parked_wakes_example :
    Move 7 5
      (parked 4)
      (record opened { server = notified; tokens = 3 })
      draining_acks
      (record opened { server = notified; tokens = 3 })
unfolding produce_rpc produce_message is_shutting_down respond notify_all
parked_wakes_example =
    parked_wakes 7 5 (record opened { tokens = 3 }) 4 (some (message 0)) [] notified
      (record {
        valid = busy-IsValid;
        window = omega arith;
        queued = omega arith;
        at = omega arith;
      })
      (busy-IsValid, omega arith) tt
      (ap (λ o. o >>= (λ r. ok (respond (record server { active_c = 1; consumer_seq = 1 }) r)))
        admission.1)
