-- ===== src/Server/Consume/Window.antt =====
-- The window of a stream of internal/server/server.go.
use vantage.Prelude.Int.{ℤ}
use vantage.Queue.Table.Keys.{chosen}
use vantage.Prelude.{
  incr64, ◌==◌, ℕ, ◌+◌, ◌≤◌, ◌≡◌, ap, sym, subst, ◌∙◌, [], ◌∷◌, length, length-append, indicator,
  same_result, arith,
}
use vantage.Queue.Broker.{Broker}
use vantage.Queue.Broker.Lanes.{IsValid}
use vantage.Queue.Broker.Leasing.Lease.{Leased, lease-Leased}
use vantage.Queue.Broker.Leasing.Reclaim.{release_consumer-Reclaims}
use vantage.Queue.Broker.Holding.{held, run_op-Steps, release_lease-held, Leased-held}
use vantage.Server.{MqServer, credit_window}
use vantage.Server.Consume.{
  Verdict, Pc, draining_acks, cleaning, left, Stream, give_back, close_stream, Move, Step, loop,
  open_stream, client_acks, client_leaves, context_ends, others, take_ack, sees_close, no_more_acks,
  take_token, sees_cancel, sees_shutdown, capture, lease_nothing, lease_message, wake, sent,
  send_fails, clean_ack, clean_up, Reach, start, later,
}
use vantage.Server.Consume.Held.{
  in_hand, At, InWindow, At-later, apply_ack-held, give_back-store, close_stream-store,
}

module _ (cid credit : ℕ) where
  -- Another store and token count, where the loop goes on.
  InWindow-store :
      (pc' : Pc) (st' : Stream) (b : Broker)
      → st'.server.store ≡ b
      → IsValid b
      → st'.tokens + in_hand pc' + held cid b ≤ credit
      → length st'.acks ≤ credit
      → At pc' st'.server.epoch (held cid b)
      → InWindow cid credit pc' st'
  InWindow-store pc' st' b same v fits short at = record {
    valid = subst IsValid (sym same) v;
    window = subst (λ b. st'.tokens + in_hand pc' + held cid b ≤ credit) (sym same) fits;
    queued = short;
    at = subst (λ b. At pc' st'.server.epoch (held cid b)) (sym same) at;
  }

  -- Every step of the loop keeps the window.
  Move-InWindow :
      {pc pc' : Pc} {st st' : Stream}
      → Move cid credit pc st pc' st'
      → InWindow cid credit pc st
      → InWindow cid credit pc' st'
  Move-InWindow {pc = pc} (take_ack st id rest r reads acks answer room) inv =
      let (v, given) = apply_ack-held st.server cid id inv.valid in
      let now = ap (λ r. held cid r.1.store + indicator r.0) answer in
      record {
        valid = subst (λ r. IsValid r.1.store) answer v;
        window = omega (arith, inv.window, given, now);
        queued = omega (arith, inv.queued, ap length acks);
        at = tt;
      }
  Move-InWindow {pc = pc} (sees_close st reads acks off) inv = record {
    valid = inv.valid;
    window = omega (arith, inv.window);
    queued = inv.queued;
    at = tt;
  }
  Move-InWindow (no_more_acks st acks on) inv = record {
    valid = inv.valid;
    window = inv.window;
    queued = inv.queued;
    at = tt;
  }
  Move-InWindow (take_token st n e) inv = record {
    valid = inv.valid;
    window = omega (arith, inv.window, e);
    queued = inv.queued;
    at = tt;
  }
  Move-InWindow {pc = pc} (sees_cancel st waits off) inv = record {
    valid = inv.valid;
    window = omega (arith, inv.window);
    queued = inv.queued;
    at = tt;
  }
  Move-InWindow {pc = pc} (sees_shutdown st waits off) inv = record {
    valid = inv.valid;
    window = omega (arith, inv.window);
    queued = inv.queued;
    at = tt;
  }
  Move-InWindow (capture st) inv = record {
    valid = inv.valid;
    window = inv.window;
    queued = inv.queued;
    at = omega arith;
  }
  Move-InWindow (lease_nothing st e b run room) inv =
      let (r, e', ((v, _, _), leased)) = lease-Leased st.server.store cid inv.valid in
      let same = same_result e' run in
      let nothing = subst (Leased st.server.store cid) (sym same) leased in
      record {
        valid = subst (λ r. IsValid r.1) (sym same) v;
        window =
            omega
              (arith, inv.window, ap (λ l. chosen (λ rec. rec.consumer == cid) l.leases) nothing);
        queued = inv.queued;
        at = inv.at;
      }
  Move-InWindow (lease_message st e m b run) inv =
      let (r, e', ((v, _, _), leased)) = lease-Leased st.server.store cid inv.valid in
      let same = same_result e' run in
      let fewer = Leased-held st.server.store cid cid r leased in
      record {
        valid = subst (λ r. IsValid r.1) (sym same) v;
        window = ground (arith, inv.window, fewer, ap (λ r. held cid r.1) same);
        queued = inv.queued;
        at = tt;
      }
  Move-InWindow (wake st e le) inv = record {
    valid = inv.valid;
    window = inv.window;
    queued = inv.queued;
    at = tt;
  }
  Move-InWindow (sent st m) inv = record {
    valid = inv.valid;
    window = inv.window;
    queued = inv.queued;
    at = tt;
  }
  Move-InWindow (send_fails st m r run) inv =
      let (r', e, (v, given, _)) = release_lease-held st.server.store m.id cid inv.valid in
      let same = same_result e run in
      InWindow-store (cleaning Verdict.send_error) (record st { server = give_back st.server r })
        r.1 (give_back-store st.server r) (subst (λ r. IsValid r.1) (sym same) v)
        (omega (arith, inv.window, given, ap (λ r. held cid r.1) same)) inv.queued tt
  Move-InWindow (clean_ack st v id rest off acks) inv =
      let (v', given) = apply_ack-held st.server cid id inv.valid in
      record {
        valid = v';
        window = omega (arith, inv.window, given);
        queued = omega (arith, inv.queued, ap length acks);
        at = tt;
      }
  Move-InWindow (clean_up st v r off acks run) inv =
      let (r', e, ((v', _, none_left, _), _, _)) =
        release_consumer-Reclaims st.server.store cid inv.valid in
      let same = same_result e run in
      let none_held : held cid r.1 ≡ 0 = ap (λ r. held cid r.1) same ∙ none_left in
      InWindow-store (left v) (record st { server = close_stream st.server r }) r.1
        (close_stream-store st.server r) (subst (λ r. IsValid r.1) (sym same) v')
        (omega (arith, inv.window, none_held)) inv.queued none_held

  -- Every step keeps it.
  pub Step-InWindow :
      {pc pc' : Pc} {st st' : Stream}
      → Step cid credit pc st pc' st'
      → InWindow cid credit pc st
      → InWindow cid credit pc' st'
  Step-InWindow (client_acks st id on nonzero room) inv = record {
    valid = inv.valid;
    window = inv.window;
    queued = omega (arith, length-append st.acks (id ∷ []), room);
    at = inv.at;
  }
  Step-InWindow (client_leaves st v on) inv = record {
    valid = inv.valid;
    window = inv.window;
    queued = inv.queued;
    at = inv.at;
  }
  Step-InWindow (context_ends st) inv = record {
    valid = inv.valid;
    window = inv.window;
    queued = inv.queued;
    at = inv.at;
  }
  Step-InWindow {pc = pc} (others st op s' foreign run no_earlier more) inv =
      let (b, e, (kept, fewer)) = run_op-Steps cid st.server.store op inv.valid more in
      InWindow-store pc (record st { server = s' }) b (same_result e run) kept.valid
        (omega (arith, inv.window, fewer, foreign)) inv.queued
        (At-later pc st.server.epoch s'.epoch (held cid st.server.store) (held cid b) no_earlier
          (omega (arith, fewer, foreign)) inv.at)
  Step-InWindow (loop moved) inv = Move-InWindow moved inv

  pub Reach-InWindow :
      {st₀ st : Stream} {pc : Pc}
      → Reach cid credit st₀ pc st
      → InWindow cid credit draining_acks st₀
      → InWindow cid credit pc st
  Reach-InWindow start inv = inv
  Reach-InWindow (later r step) inv = Step-InWindow step (Reach-InWindow r inv)

-- A stream opens at a server whose store is in order and holds no lease for the number that the
-- stream is given. Whatever the client, the loop and the other handlers then do, as long as ids are
-- left to give, the store stays in order, the tokens of the semaphore, the one in the loop's hand
-- and the stream's leases together are at most the window that `credit_window` grants, at most as
-- many acknowledgements wait in the channel, and a stream that has ended holds no lease.
pub stream_window :
    (s : MqServer) (credit : ℤ) {pc : Pc} {st : Stream}
    → IsValid s.store
    → held (incr64 s.consumer_seq) s.store ≡ 0
    → Reach (open_stream s credit).0 (credit_window s credit) (open_stream s credit).2 pc st
    → InWindow (open_stream s credit).0 (credit_window s credit) pc st
unfolding open_stream
stream_window s credit v unused reached =
    Reach-InWindow (incr64 s.consumer_seq) (credit_window s credit) reached
      (record { valid = v; window = omega (arith, unused); queued = omega arith; at = tt })
