-- ===== src/Queue/Broker/Runs/Kept.antt =====
-- What each operation of internal/queue/broker.go keeps.
use vantage.Prelude.{
  ℕ, ◌+◌, ◌^◌, ◌≤◌, ◌<◌, ◌≡◌, refl, ap, sym, subst, incr64, ◌∙◌, ◌⊎◌, inl, inr, Bool, true, false,
  List, [], ◌∷◌, ◌==◌, none, some, arith, Returns, Bool-cases, Option-cases, ltb, if◌then◌else◌,
  ◌≢◌,
}
use vantage.Message.{TelemetryMessage}
use vantage.Queue.Ring.{contents}
use vantage.Queue.Policy.{OverflowPolicy, reject, drop_oldest, block}
use vantage.Queue.Table.{lookup}
use vantage.Queue.Broker.{Entry, Broker, LeaseRec, signal_space, set_notify, close, used}
use vantage.Queue.Broker.Lanes.{IsValid}
use vantage.Queue.Broker.Requeue.{Carry}
use vantage.Queue.Broker.Enqueue.{Outcome}
use vantage.Queue.Broker.Enqueue.Attempt.{attempt-Attempts, Stays, AtFull, Admits}
use vantage.Queue.Broker.Leasing.{ack, release_lease}
use vantage.Queue.Broker.Leasing.Lease.{lease-Leased}
use vantage.Queue.Broker.Leasing.Ack.{ack_foreign, ack_held, release_lease-Carry}
use vantage.Queue.Broker.Leasing.Reclaim.{release_consumer-Reclaims, sweep_expired-Reclaims}
use vantage.Queue.Broker.Dlq.Replay.{dlq_replay-Replayed}
use vantage.Queue.Broker.Runs.{
  Op, produce, lease_to, ack_by, release_by, disconnect, sweep, replay, stop, register, run_op,
}

-- What every operation keeps: the state in order, the configuration, and the tripwire; it gives
-- out at most one id.
pub record Kept (n : ℕ) (b b' : Broker) : Type 0 where
  pub valid : IsValid b'
  pub ids : (b.next_id ≤ b'.next_id) × (b'.next_id ≤ b.next_id + n)
  pub cfg : b'.cfg ≡ b.cfg
  pub tripwire : b'.dropped_requeue ≡ b.dropped_requeue

pub Kept-same :
    (n : ℕ) (b b' : Broker)
    → IsValid b'
    → (b'.next_id ≡ b.next_id)
    → (b'.cfg ≡ b.cfg)
    → (b'.dropped_requeue ≡ b.dropped_requeue)
    → Kept n b b'
Kept-same n b b' v i c t = record {
  valid = v;
  ids = (omega arith, omega arith);
  cfg = c;
  tripwire = t;
}

Kept-Carry : (n : ℕ) (b b' : Broker) → IsValid b' → Carry [] b [] b' → Kept n b b'
Kept-Carry n b b' v c = Kept-same n b b' v c.frame.next_id c.frame.cfg c.frame.tripwire

-- The same after an equation for the result.
Kept-after :
    (b : Broker) (r : Outcome × Broker) {o : Outcome} {b' : Broker}
    → IsValid r.1
    → r ≡ (o, b')
    → b'.next_id ≡ b.next_id
    → b'.cfg ≡ b.cfg
    → b'.dropped_requeue ≡ b.dropped_requeue
    → Kept 1 b r.1
Kept-after b r v e i c t =
    Kept-same 1 b r.1 v (ap (λ s. s.1.next_id) e ∙ i) (ap (λ s. s.1.cfg) e ∙ c)
      (ap (λ s. s.1.dropped_requeue) e ∙ t)

-- Whether the consumer holds the lease on the id.
pub held_cases :
    (b : Broker) (id c : ℕ)
    → ((rec : LeaseRec) × (lookup id b.leases ≡ some rec) × (rec.consumer ≡ c))
      ⊎ ((rec : LeaseRec) → lookup id b.leases ≡ some rec → rec.consumer ≢ c)
held_cases b id c = elim (Option-cases (lookup id b.leases)) [
  | inl missing ↦ inr (λ rec found own. some_none (sym found ∙ missing))
  | inr (rec, found) ↦ elim (Bool-cases (rec.consumer == c)) [
    | inl own ↦ inl (rec, found, ground arith)
    | inr foreign ↦ inr (λ rec' found' own. ground (arith, found, found'))
  ]
]
  where
    some_none : {rec : LeaseRec} → some rec ≡ none → ⊥
    some_none e = ground arith

close-Kept : (b : Broker) → IsValid b → Kept 1 b (close b)
unfolding close signal_space
close-Kept b v =
    elim b.closed
      as (λ off. Kept 1 b (if off then b else record b { closed = true; space = b.space + 1 })) [
        | true ↦ Kept-same 1 b b v refl refl refl
        | false ↦ Kept-same 1 b (record b { closed = true; space = b.space + 1 }) v refl refl refl
      ]

Admits-Kept :
    (b b₀ : Broker) (m : TelemetryMessage) (xs : List Entry) (r : Outcome × Broker)
    → IsValid r.1
    → b₀.next_id ≡ b.next_id
    → b₀.cfg ≡ b.cfg
    → b₀.dropped_requeue ≡ b.dropped_requeue
    → Admits b₀ m xs r
    → Kept 1 b r.1
Admits-Kept b b₀ m xs r v i c t (main, e, order) =
    let next : r.1.next_id ≡ b₀.next_id + 1 = ap (λ s. s.1.next_id) e in
    record {
      valid = v;
      ids = (omega (arith, next, i), omega (arith, next, i));
      cfg = ap (λ s. s.1.cfg) e ∙ c;
      tripwire = ap (λ s. s.1.dropped_requeue) e ∙ t;
    }

AtFull-Kept :
    (policy : OverflowPolicy) (b : Broker) (m : TelemetryMessage) (xs : List Entry)
    (r : Outcome × Broker)
    → IsValid r.1
    → AtFull policy b m xs r
    → Kept 1 b r.1
AtFull-Kept reject b m xs r v e = Kept-after b r v e refl refl refl
AtFull-Kept block b m xs r v e = Kept-after b r v e refl refl refl
AtFull-Kept drop_oldest b m [] r v e = Kept-after b r v e refl refl refl
AtFull-Kept drop_oldest b m (y ∷ ys) r v a =
    Admits-Kept b (record b { dropped_overflow = incr64 b.dropped_overflow }) m ys r v refl refl
      refl a

Stays-Kept :
    (closed room : Bool) (b : Broker) (m : TelemetryMessage) (r : Outcome × Broker)
    → IsValid r.1
    → Stays closed room b m (contents b.main) r
    → Kept 1 b r.1
Stays-Kept true room b m r v e = Kept-after b r v e refl refl refl
Stays-Kept false true b m r v a = Admits-Kept b b m (contents b.main) r v refl refl refl a
Stays-Kept false false b m r v a = AtFull-Kept b.cfg.policy b m (contents b.main) r v a

release_lease-Kept :
    (b : Broker) (id c : ℕ) → IsValid b → Returns (λ r. Kept 1 b r.1) (release_lease b id c)
release_lease-Kept b id c v = elim (held_cases b id c) [
  | inl (rec, found, own) ↦
      let (r, e, (_, v', carried, _)) = release_lease-Carry b id c rec v found own in
      (r, e, Kept-Carry 1 b r.1 v' carried)
  | inr foreign ↦ ((false, b), (ack_foreign b id c foreign).1, Kept-same 1 b b v refl refl refl)
]

ack-Kept : (b : Broker) (id c : ℕ) → IsValid b → Kept 1 b (ack b id c).1
ack-Kept b id c v = elim (held_cases b id c) [
  | inl (rec, found, own) ↦
      let (_, v', _, _, _, _, frame, _) = ack_held b id c rec v found own in
      Kept-same 1 b (ack b id c).1 v' frame.next_id frame.cfg frame.tripwire
  | inr foreign ↦
      subst (λ r. Kept 1 b r.1) (sym (ack_foreign b id c foreign).0)
        (Kept-same 1 b b v refl refl refl)
]

set_notify-Kept : (on : Bool) (b : Broker) → IsValid b → Kept 1 b (set_notify on b)
unfolding set_notify
set_notify-Kept on b v = Kept-same 1 b (set_notify on b) v refl refl refl

-- An operation on a state in order, with ids left to give, never panics.
pub run_op-Kept :
    (b : Broker) (op : Op) → IsValid b → b.next_id + 1 < 2 ^ 64 → Returns (Kept 1 b) (run_op b op)
unfolding run_op
run_op-Kept b (produce m) v more =
    let (r, e, (v', s)) = attempt-Attempts m b v more in
    (r.1, rw e refl, Stays-Kept b.closed (ltb (used b) b.cfg.capacity) b m r v' s)
run_op-Kept b (lease_to c) v more =
    let (r, e, ((v', carried, _), _)) = lease-Leased b c v in
    (r.1, rw e refl, Kept-Carry 1 b r.1 v' carried)
run_op-Kept b (ack_by c id) v more = ((ack b id c).1, refl, ack-Kept b id c v)
run_op-Kept b (release_by c id) v more =
    let (r, e, k) = release_lease-Kept b id c v in (r.1, rw e refl, k)
run_op-Kept b (disconnect c) v more =
    let (r, e, ((v', carried, _, _), _, _)) = release_consumer-Reclaims b c v in
    (r.1, rw e refl, Kept-Carry 1 b r.1 v' carried)
run_op-Kept b sweep v more =
    let (r, e, ((v', carried, _, _), _, _, _)) = sweep_expired-Reclaims b v in
    (r.2, rw e refl, Kept-Carry 1 b r.2 v' carried)
run_op-Kept b replay v more =
    let (r, e, (_, (main, dlq, same, v', _))) = dlq_replay-Replayed b v in
    (
      r.1,
      rw e refl,
      subst (Kept 1 b) (sym same)
          (Kept-same 1 b (record b { main = main; dlq = dlq }) v' refl refl refl),
    )
run_op-Kept b stop v more = (close b, refl, close-Kept b v)
run_op-Kept b (register on) v more = (set_notify on b, refl, set_notify-Kept on b v)
