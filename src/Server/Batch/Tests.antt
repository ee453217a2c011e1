-- ===== src/Server/Batch/Tests.antt =====
-- The theorems on `ProduceBatch` of internal/server/server.go at a concrete server.
use Prim.Native.Nat.{◌%◌, ◌^◌}
use vantage.Prelude.{ℕ, none, ◌≡◌, ◌++◌, refl, false, [], ◌∷◌, some, arith, Returns}
use vantage.Queue.Ring.{contents}
use vantage.Queue.Broker.{used}
use vantage.Queue.Broker.Lanes.{IsValid}
use vantage.Queue.Samples.{message, busy, busy-IsValid, crowded, crowded-IsValid}
use vantage.Server.{MqServer, is_shutting_down}
use vantage.Server.Batch.{Turn, batch_response, valid_batch, no_nil, produce_batch}
use vantage.Server.Batch.Prefix.{AnswersBatch, produce_batch-Answers}
use vantage.Server.Batch.Order.{entries_from, produce_batch-order}

abbrev server : MqServer
server = record {
  store = busy;
  default_credit = 20;
  epoch = 4;
  consumer_seq = 0;
  produced = 3;
  rejected = 0;
  consumed = 0;
  delivered = 0;
  redelivered = 0;
  active_c = 0;
  draining = false;
  shut_down = false;
}

-- The batch is alone in the store.
abbrev undisturbed : ℕ → Turn
undisturbed i = record { found = none; wakes = [] }

produce_batch-Answers_example :
    let reqs = some (message 0) ∷ some (message 0) ∷ [] in
    let full = record server { store = crowded } in
    Returns
      (λ r. IsValid r.1.store × AnswersBatch full reqs r)
      (produce_batch full reqs undisturbed)
produce_batch-Answers_example =
    produce_batch-Answers (record server { store = crowded })
      (some (message 0) ∷ some (message 0) ∷ []) undisturbed crowded-IsValid (omega arith)
      (λ i. (tt, tt))

produce_batch-order_example :
    Returns
      (λ r.
        (r.0 ≡ batch_response (1 % 2 ^ 32) 0)
        × IsValid r.1.store
        × (contents r.1.store.main
            ≡ contents busy.main ++ entries_from busy.next_id (message 0 ∷ [])))
      (produce_batch server (some (message 0) ∷ []) undisturbed)
unfolding valid_batch no_nil is_shutting_down used
produce_batch-order_example =
    produce_batch-order server (some (message 0) ∷ []) (message 0 ∷ []) undisturbed refl refl
      (λ i. refl) (busy-IsValid, refl, omega arith, omega arith)
