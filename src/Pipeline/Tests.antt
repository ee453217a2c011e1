-- ===== src/Pipeline/Tests.antt =====
-- The theorems on the streamer at the server, at concrete calls.
use vantage.Prelude.{none, false, List, [], ◌∷◌, replicate, length-replicate, Returns, arith}
use vantage.Queue.Broker.{Broker}
use vantage.Queue.Samples.{message, busy, crowded}
use vantage.Server.{MqServer}
use vantage.Streamer.Retry.Refused.{IsStuck}
use vantage.Pipeline.{Call, publish_batch}
use vantage.Pipeline.Oversized.{publish_batch-IsStuck}

abbrev server_of : Broker → MqServer
server_of b = record {
  store = b;
  default_credit = 20;
  epoch = 4;
  consumer_seq = 0;
  produced = 3;
  rejected = 0;
  consumed = 0;
  delivered = 0;
  redelivered = 0;
  active_c = 0;
  draining = false;
  shut_down = false;
}

abbrev call_at : Broker → Call
call_at b = record {
  server = server_of b;
  turns = λ i. record { found = none; wakes = [] };
  over = false;
}

-- The first call finds no room, the second one has.
abbrev calls : List Call
calls = call_at crowded ∷ call_at busy ∷ []

publish_batch-IsStuck_example :
    let msgs = replicate 1001 (message 0) in Returns (IsStuck msgs) (publish_batch calls msgs)
publish_batch-IsStuck_example =
    publish_batch-IsStuck calls (replicate 1001 (message 0))
      (omega (arith, length-replicate 1001 (message 0)))
