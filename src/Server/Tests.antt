-- ===== src/Server/Tests.antt =====
-- The theorems on internal/server at a concrete server.
use vantage.Prelude.{ℕ, zero, suc, List, refl, ◌+◌, ◌≡◌, false, [], ◌∷◌, arith, Returns}
use vantage.Queue.Broker.Lanes.{IsValid}
use vantage.Queue.Samples.{crowded, crowded-IsValid}
use vantage.Server.Control.{inspect_handler, dlq_replay_handler, dlq_replay_handler-totals}
use vantage.Server.Drain.{DrainEvent, tick, drain_stalled, AllIdle, drain, drain-stalls}
use vantage.Queue.Broker.{inspect}
use vantage.Server.{stats, MqServer, drained}

abbrev server : MqServer
server = record {
  store = crowded;
  default_credit = 20;
  epoch = 4;
  consumer_seq = 0;
  produced = 3;
  rejected = 0;
  consumed = 0;
  delivered = 0;
  redelivered = 0;
  active_c = 0;
  draining = false;
  shut_down = false;
}

dlq_replay_handler-totals_example :
    Returns
      (λ r.
        (after : MqServer) × (r.0 + (inspect_handler after).dlq_depth
          ≡ (inspect_handler server).dlq_depth)
        × IsValid after.store
        × (r.2 ≡ after)
        × (r.1 ≡ (inspect_handler r.2).dlq_depth))
      (dlq_replay_handler server (λ s. s))
dlq_replay_handler-totals_example = dlq_replay_handler-totals server (λ s. s) crowded-IsValid

-- A server that looks the same at each tick.
abbrev idle_for : ℕ → List DrainEvent
idle_for zero = []
idle_for (suc n) = tick server ∷ idle_for n

idle_for-AllIdle : (n : ℕ) → AllIdle 0 (idle_for n)
unfolding stats drained inspect
idle_for-AllIdle zero = tt
idle_for-AllIdle (suc n) = (refl, refl, refl, idle_for-AllIdle n)

drain-stalls_example : drain (tick server ∷ idle_for 20) ≡ drain_stalled
unfolding stats
drain-stalls_example = drain-stalls server (idle_for 20) (idle_for-AllIdle 21) (omega arith)
