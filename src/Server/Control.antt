-- ===== src/Server/Control.antt =====
-- The handlers of internal/http: the statistics, the dead-letter queue and the health of the MQ
-- service. The JSON text of a response is left out.
use Prim.Native.String.{String}
use text.Mathlib.Text.{◌==◌ as str_eq}
use vantage.Prelude.{
  take, map, false, ℕ, ◌+◌, ◌≡◌, refl, ap, sym, ◌∙◌, subst, List, Option, none, some, if◌then◌else◌,
  Run, ok, ◌>>=◌, Returns, arith, length, length-append,
}
use vantage.Prelude.Int.{ℤ, pos, negsuc}
use vantage.Queue.Ring.{contents}
use vantage.Queue.Ring.Refine.{count-contents}
use vantage.Queue.Broker.{inspect}
use vantage.Queue.Broker.Lanes.{IsValid}
use vantage.Queue.Broker.Dlq.{DlqEntry, dlq_list, list_size, entry_of}
use vantage.Queue.Broker.Dlq.Listing.{dlq_list-take}
use vantage.Server.{MqServer, stats, replay_dead, is_shutting_down, begin_drain}
use vantage.Server.Admission.{replay_dead-wakes}

-- `InspectResponse`
pub record InspectResponse : Type 0 where
  pub capacity : ℕ
  pub depth : ℕ
  pub retry_depth : ℕ
  pub dlq_depth : ℕ
  pub produced_total : ℕ
  pub rejected_total : ℕ
  pub delivered_total : ℕ
  pub consumed_total : ℕ
  pub redelivered_total : ℕ
  pub dropped_total : ℕ
  pub dropped_overflow_total : ℕ
  pub dropped_requeue_total : ℕ
  pub dead_lettered_total : ℕ
  pub lease_expired_total : ℕ
  pub active_consumers : ℕ
  pub in_flight : ℕ

pub inspect_handler : MqServer → InspectResponse
unfolding stats
inspect_handler s =
    let st = stats s in
    record {
      capacity = st.store_stats.capacity;
      depth = st.store_stats.depth;
      retry_depth = st.store_stats.retry_depth;
      dlq_depth = st.store_stats.dlq_depth;
      produced_total = st.stats_produced;
      rejected_total = st.stats_rejected;
      delivered_total = st.stats_delivered;
      consumed_total = st.stats_consumed;
      redelivered_total = st.stats_redelivered;
      dropped_total = st.store_stats.dropped;
      dropped_overflow_total = st.store_stats.dropped_overflow;
      dropped_requeue_total = st.store_stats.dropped_requeue;
      dead_lettered_total = st.store_stats.dead_lettered_total;
      lease_expired_total = st.store_stats.lease_expired_total;
      active_consumers = st.active_consumers;
      in_flight = st.store_stats.in_flight;
    }

-- `DLQResponse`, or a 400.
pub data DlqReply : Type 0 where
  dlq_response : ℕ → List DlqEntry → DlqReply
  limit_refused : DlqReply

-- The limit of a request, 100 if it gives none.
dlq_limit : Option ℤ → Option ℕ
dlq_limit none = none
dlq_limit (some (pos n)) = some n
dlq_limit (some (negsuc n)) = none

dlq_reply : MqServer → Option ℕ → Run DlqReply
unfolding stats
dlq_reply s none = ok limit_refused
dlq_reply s (some limit) = dlq_list s.store (pos limit) >>= λ entries.
    ok (dlq_response (stats s).store_stats.dlq_depth entries)

pub dlq_handler : (String → Option ℤ) → MqServer → String → Run DlqReply
unfolding dlq_limit dlq_reply
dlq_handler atoi s v = dlq_reply s (if str_eq v "" then some 100 else dlq_limit (atoi v))

-- `DLQReplayResponse`: how many messages were replayed, and how many are left, when other handlers have
-- come between the two calls of the server as `meanwhile` says.
pub dlq_replay_handler : MqServer → (MqServer → MqServer) → Run (ℕ × ℕ × MqServer)
unfolding stats
dlq_replay_handler s meanwhile = do
  r ← replay_dead s
  let s' = meanwhile r.1
  ok (r.0, (stats s').store_stats.dlq_depth, s')

-- The status of `ReadyzHandler`.
pub readyz_status : MqServer → ℕ
unfolding is_shutting_down
readyz_status s = if is_shutting_down s then 503 else 200

-- Over a store that is in order the dead-letter queue is listed without a panic, unless the limit
-- is no number of 0 or more; with the limit 0 it is listed whole.
pub dlq_handler-lists :
    (atoi : String → Option ℤ) (s : MqServer) (v : String) (n : ℕ)
    → IsValid s.store
    → str_eq v "" ≡ false
    → atoi v ≡ some (pos n)
    → let dead = contents s.store.dlq in
      dlq_handler atoi s v
      ≡ ok (
          dlq_response s.store.dlq.count
            (map entry_of (take (list_size (length dead) (pos n)) dead)))
unfolding dlq_handler dlq_reply dlq_limit stats inspect
dlq_handler-lists atoi s v n valid given parsed =
    ap (λ q. dlq_reply s (if q then some 100 else dlq_limit (atoi v))) given
    ∙ ap (λ o. dlq_reply s (dlq_limit o)) parsed
    ∙ ap (λ o. o >>= λ entries. ok (dlq_response s.store.dlq.count entries))
        (dlq_list-take s.store (pos n) valid)

-- A server that drains is not ready.
pub begin_drain_readyz : (s : MqServer) → readyz_status (begin_drain s) ≡ 503
unfolding readyz_status is_shutting_down begin_drain
begin_drain_readyz s = refl

-- A replay that an operator asks for, over a store that is in order, never panics and leaves the
-- store in order. The number of replayed messages and the depth of the dead-letter queue after the
-- replay are together its depth before; the second number of the answer is the depth at the end,
-- whatever other handlers have done since the replay, and so that very depth if there was none.
pub dlq_replay_handler-totals :
    (s : MqServer) (meanwhile : MqServer → MqServer)
    → IsValid s.store
    → Returns
        (λ r.
          (after : MqServer) × (r.0 + (inspect_handler after).dlq_depth
            ≡ (inspect_handler s).dlq_depth)
          × IsValid after.store
          × (r.2 ≡ meanwhile after)
          × (r.1 ≡ (inspect_handler r.2).dlq_depth))
        (dlq_replay_handler s meanwhile)
unfolding dlq_replay_handler inspect_handler stats inspect
dlq_replay_handler-totals s meanwhile v =
    let (r, e, (_, (main, dlq, same, v', (zs, size, split, _)), _)) = replay_dead-wakes s v in
    let before = count-contents s.store.cfg.dlq_capacity s.store.dlq v.dlq_ring in
    let after = count-contents s.store.cfg.dlq_capacity dlq v'.dlq_ring in
    let cut = ap length split ∙ length-append zs (contents dlq) in
    (
      (r.0, (meanwhile r.1).store.dlq.count, meanwhile r.1),
      ap (λ o. o >>= λ r. ok (r.0, (meanwhile r.1).store.dlq.count, meanwhile r.1)) e,
      (
        r.1,
        omega (arith, before, after, cut, size, ap (λ b. b.dlq.count) same),
        subst IsValid (sym same) v',
        refl,
        refl,
      ),
    )
