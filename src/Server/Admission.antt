-- ===== src/Server/Admission.antt =====
-- `Produce`, the credit window, the replay and the drain of internal/server/server.go over a store
-- that is in order.
use vantage.Prelude.{
  ◌⊎◌, zero, suc, ◌+◌, ◌-◌, ◌≤◌, ◌<◌, ◌≡◌, ◌↔◌, refl, ap, sym, subst, ◌∙◌, inl, inr, Bool, true,
  false, List, Option, none, some, ltb, if◌then◌else◌, min, incr64, arith, ok, ◌>>=◌, Returns,
  Bool-cases,
}
use vantage.Prelude.Int.{ℤ, pos, negsuc}
use vantage.Message.{TelemetryMessage}
use vantage.Queue.Broker.{Broker, inspect, used}
use vantage.Queue.Broker.Lanes.{IsValid}
use vantage.Queue.Broker.Enqueue.{
  Wake, EnqueueResult, accepted, err_full, err_closed, err_context, waiting, enqueue,
}
use vantage.Queue.Broker.Enqueue.Waits.{IsReady, AllReady, Settles, enqueue-Settles}
use vantage.Queue.Broker.Dlq.Replay.{Replayed, dlq_replay-Replayed}
use vantage.Server.{
  MqServer, Status, accepted_true, invalid_argument, resource_exhausted, unavailable, context_error,
  pending, new_mq_server, notify_all, is_shutting_down, respond, produce_message, produce_rpc,
  replay_dead, credit_ceiling, credit_window, begin_drain, shutdown, drained,
}

abbrev pub IsSent : Option TelemetryMessage → Type 0
IsSent req = (m : TelemetryMessage) × (req ≡ some m)

-- What an answer says of the request and of the server's counters: exactly an acceptance counts as produced and wakes
-- the consumers, exactly a full store counts as rejected.
abbrev pub Answers : MqServer → Option TelemetryMessage → Status × MqServer → Type 0
Answers s req (accepted_true, s') =
    IsSent req
    × (s'.produced ≡ incr64 s.produced)
    × (s'.rejected ≡ s.rejected)
    × (s.epoch < s'.epoch)
    × (is_shutting_down s ≡ false)
Answers s req (resource_exhausted, s') =
    IsSent req
    × (s'.produced ≡ s.produced)
    × (s'.rejected ≡ incr64 s.rejected)
    × (s'.epoch ≡ s.epoch)
    × (is_shutting_down s ≡ false)
Answers s req (invalid_argument, s') = (s' ≡ s) × (req ≡ none)
Answers s req (unavailable, s') =
    IsSent req
    × (s'.produced ≡ s.produced)
    × (s'.rejected ≡ s.rejected)
    × (s'.epoch ≡ s.epoch)
    × ((is_shutting_down s ≡ true) ⊎ (s'.store.closed ≡ true))
Answers s req (context_error, s') =
    IsSent req × (s'.produced ≡ s.produced) × (s'.rejected ≡ s.rejected) × (s'.epoch ≡ s.epoch)
Answers s req (pending, s') =
    IsSent req
    × (s'.produced ≡ s.produced)
    × (s'.rejected ≡ s.rejected)
    × (s'.epoch ≡ s.epoch)
    × (s'.store.cfg.capacity ≤ used s'.store)

respond-Answers :
    (s : MqServer) (m : TelemetryMessage) (r : EnqueueResult × Broker)
    → is_shutting_down s ≡ false
    → Settles 0 m r
    → IsValid (respond s r).1.store × Answers s (some m) (respond s r)
unfolding respond notify_all
respond-Answers s m (accepted m', b) up (v, _, _) = (v, ((m, refl), refl, refl, omega arith, up))
respond-Answers s m (err_full, b) up (v, _, _) = (v, ((m, refl), refl, refl, refl, up))
respond-Answers s m (err_closed, b) up (v, shut, _) = (v, ((m, refl), refl, refl, refl, inr shut))
respond-Answers s m (err_context, b) up (v, _, _) = (v, ((m, refl), refl, refl, refl))
respond-Answers s m (waiting, b) up (v, (_, full, _), _) = (v, ((m, refl), refl, refl, refl, full))

pub produce_rpc-Answers :
    (s : MqServer) (req : Option TelemetryMessage) (wakes : List Wake)
    → IsReady 0 s.store
    → AllReady 0 wakes
    → Returns (λ r. IsValid r.1.store × Answers s req r) (produce_rpc s req wakes)
unfolding produce_rpc produce_message
produce_rpc-Answers s none wakes ready all = ((invalid_argument, s), refl, (ready.0, (refl, refl)))
produce_rpc-Answers s (some m) wakes ready all = elim (Bool-cases (is_shutting_down s)) [
  | inl down ↦ (
    (unavailable, s),
    ap (λ q. if q then ok (unavailable, s) else (enqueue s.store m wakes >>= λ r. ok (respond s r)))
        down,
    (ready.0, ((m, refl), refl, refl, refl, inl down)),
  )
  | inr up ↦
      let (r, e, good) = enqueue-Settles 0 s.store m wakes ready all in
      (
        respond s r,
        ap
              (λ q.
                if q
                then ok (unavailable, s)
                else (enqueue s.store m wakes >>= λ r. ok (respond s r)))
              up
            ∙ ap (λ o. o >>= (λ r. ok (respond s r))) e,
        respond-Answers s m r up good,
      )
]

-- The credit window of a stream is at least 1, if the server's default is, and at most the larger
-- of the store's capacity and 1000.
pub credit_window-bounds :
    (s : MqServer) (credit : ℤ)
    → 0 < s.default_credit
    → (0 < credit_window s credit)
      × (credit_window s credit
          ≤ (if ltb 1000 s.store.cfg.capacity then s.store.cfg.capacity else 1000))
unfolding credit_window credit_ceiling inspect
credit_window-bounds s (pos zero) p = ground arith
credit_window-bounds s (pos (suc n)) p = ground arith
credit_window-bounds s (negsuc n) p = ground arith

-- The server has drained exactly when nothing counts against the capacity.
pub drained_iff : (s : MqServer) → (drained s ≡ true) ↔ (used s.store ≡ 0)
unfolding drained inspect used
drained_iff s = ground arith

-- The server after a replay that may wake the consumers.
woken_if :
    (q : Bool) (s : MqServer)
    → ((if q then notify_all s else s).store ≡ s.store)
      × ((if q then notify_all s else s).epoch ≡ (if q then s.epoch + 1 else s.epoch))
unfolding notify_all
woken_if true s = (refl, refl)
woken_if false s = (refl, refl)

-- An operator's replay over a store that is in order wakes the parked consumers exactly if it
-- moves a message, and moves as many as the dead-letter lane holds and the budget has room for.
pub replay_dead-wakes :
    (s : MqServer)
    → IsValid s.store
    → Returns
        (λ r.
          (r.0 ≡ min s.store.dlq.count (s.store.cfg.capacity - used s.store))
          × Replayed s.store (r.0, r.1.store)
          × (r.1.epoch ≡ (if ltb 0 r.0 then s.epoch + 1 else s.epoch)))
        (replay_dead s)
unfolding replay_dead notify_all
replay_dead-wakes s v =
    let (r, e, (size, moved)) = dlq_replay-Replayed s.store v in
    let s' = record s { store = r.1 } in
    (
      (r.0, if ltb 0 r.0 then notify_all s' else s'),
      ap
          (λ o. o >>= (λ r.
            let s' = record s { store = r.1 } in ok (r.0, if ltb 0 r.0 then notify_all s' else s')))
          e,
      (
        size,
        subst (λ b. Replayed s.store (r.0, b)) (sym (woken_if (ltb 0 r.0) s').0) moved,
        (woken_if (ltb 0 r.0) s').1,
      ),
    )

-- A server that drains or shuts down refuses every message, and is left as it was.
pub drain_refuses :
    (s : MqServer) (m : TelemetryMessage) (wakes : List Wake)
    → (produce_rpc (begin_drain s) (some m) wakes ≡ ok (unavailable, begin_drain s))
      × (produce_rpc (shutdown s) (some m) wakes ≡ ok (unavailable, shutdown s))
unfolding produce_rpc produce_message is_shutting_down begin_drain shutdown
drain_refuses s m wakes = (refl, refl)

-- A new server grants at least one message by default.
pub new_mq_server_credit : (b : Broker) (credit : ℤ) → 0 < (new_mq_server b credit).default_credit
unfolding new_mq_server
new_mq_server_credit b (pos zero) = omega arith
new_mq_server_credit b (pos (suc n)) = omega arith
new_mq_server_credit b (negsuc n) = omega arith
