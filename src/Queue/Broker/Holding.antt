-- ===== src/Queue/Broker/Holding.antt =====
-- How many leases one consumer holds, across the operations of internal/queue/broker.go. Only
-- `Lease` on the consumer's behalf adds one.
use vantage.Prelude.{
  leb, ◌<◌, ◌^◌, ltb, subst, Returns-both, ℕ, ◌+◌, ◌≤◌, ◌≡◌, refl, ap, inl, inr, Bool, true, false,
  Option, none, some, ◌==◌, indicator, List, [], ◌∷◌, arith, Returns,
}
use vantage.Prelude.Weigh.{weigh}
use vantage.Message.{TelemetryMessage}
use vantage.Queue.Table.{Table}
use vantage.Queue.Table.Keys.{chosen}
use vantage.Queue.Broker.{
  used, Entry, OverflowPolicy, Broker, LeaseRec, close, set_notify, signal_space,
}
use vantage.Queue.Broker.Lanes.{IsValid}
use vantage.Queue.Broker.Leasing.{ack, release_lease}
use vantage.Queue.Broker.Leasing.Lease.{Leased, lease-Leased}
use vantage.Queue.Broker.Leasing.Ack.{ack_foreign, ack_held, release_lease-Carry}
use vantage.Queue.Broker.Leasing.Reclaim.{
  spared, Reclaims, release_consumer-Reclaims, sweep_expired-Reclaims,
}
use vantage.Queue.Broker.Runs.{
  Op, produce, lease_to, ack_by, release_by, disconnect, sweep, replay, stop, register, run_op,
}
use vantage.Queue.Broker.Runs.Kept.{held_cases, Kept, run_op-Kept}
use vantage.Queue.Broker.Enqueue.{Outcome}
use vantage.Queue.Broker.Enqueue.Attempt.{Stays, AtFull, attempt-Attempts}
use vantage.Queue.Ring.{contents}
use vantage.Queue.Broker.Dlq.Replay.{dlq_replay-Replayed}
use vantage.Queue.Policy.{OverflowPolicy, reject, drop_oldest, block}

-- The leases of the consumer `c`.
abbrev pub held : ℕ → Broker → ℕ
held c b = chosen (λ rec. rec.consumer == c) b.leases

-- An operation that leaves no lease that was not there.
abbrev pub Lessens : Broker → Broker → Type 0
Lessens b b' = (w : ℕ × LeaseRec → ℕ) → weigh w b'.leases ≤ weigh w b.leases

spared_le_weigh :
    (p : LeaseRec → Bool) (w : ℕ × LeaseRec → ℕ) (m : Table LeaseRec) → spared p w m ≤ weigh w m
spared_le_weigh p w [] = omega arith
spared_le_weigh p w (kv ∷ m) = ground (arith, spared_le_weigh p w m)

spared_all :
    (p : LeaseRec → Bool) (w : ℕ × LeaseRec → ℕ) (m : Table LeaseRec)
    → chosen p m ≡ 0
    → spared p w m ≡ weigh w m
spared_all p w [] h = refl
spared_all p w (kv ∷ m) h = ground (arith, spared_all p w m)

pub Reclaims-Lessens : (p : LeaseRec → Bool) (b b' : Broker) → Reclaims p b b' → Lessens b b'
Reclaims-Lessens p b b' (_, _, none_left, same) w =
    omega (arith, spared_all p w b'.leases none_left, same w, spared_le_weigh p w b.leases)

-- What an acknowledgement does to the state and to the consumer's leases.
pub ack-held :
    (b : Broker) (id c : ℕ)
    → IsValid b
    → IsValid (ack b id c).1
      × (held c (ack b id c).1 + indicator (ack b id c).0 ≡ held c b)
      × Lessens b (ack b id c).1
ack-held b id c v = elim (held_cases b id c) [
  | inl (rec, found, own) ↦
      let (done, v', _, _, _, _, _, leases) = ack_held b id c rec v found own in
      (
        v',
        ground (arith, done, own, leases (λ kv. indicator (kv.1.consumer == c))),
        λ w. omega (arith, leases w),
      )
  | inr foreign ↦ let (same, _) = ack_foreign b id c foreign in ground (arith, v, same)
]

-- What the release of one lease does to them.
pub release_lease-held :
    (b : Broker) (id c : ℕ)
    → IsValid b
    → Returns
        (λ r. IsValid r.1 × (held c r.1 + indicator r.0 ≡ held c b) × Lessens b r.1)
        (release_lease b id c)
release_lease-held b id c v = elim (held_cases b id c) [
  | inl (rec, found, own) ↦
      let (r, e, (done, v', _, leases)) = release_lease-Carry b id c rec v found own in
      (
        r,
        e,
        (
          v',
          ground (arith, done, own, leases (λ kv. indicator (kv.1.consumer == c))),
          λ w. omega (arith, leases w),
        ),
      )
  | inr foreign ↦
      let (_, same) = ack_foreign b id c foreign in
      ((false, b), same, (v, omega arith, λ w. omega arith))
]

pub Leased-held :
    (b : Broker) (c c' : ℕ) (r : Option TelemetryMessage × Broker)
    → Leased b c r
    → held c' r.1 ≤ held c' b + indicator (c == c')
Leased-held b c c' (none, b') same =
    omega (arith, ap (λ l. chosen (λ rec. rec.consumer == c') l.leases) same)
Leased-held b c c' (some m, b') (rec, _, _, own, _, _, _, leases) =
    ground (arith, own, leases (λ kv. indicator (kv.1.consumer == c')))

-- How many leases an operation may add to those of the consumer `c`.
abbrev pub added : ℕ → Op → ℕ
added c (produce m) = 0
added c (lease_to c') = indicator (c' == c)
added c (ack_by c' id) = 0
added c (release_by c' id) = 0
added c (disconnect c') = 0
added c sweep = 0
added c replay = 0
added c stop = 0
added c (register on) = 0

same-Lessens : (b b' : Broker) → b'.leases ≡ b.leases → Lessens b b'
same-Lessens b b' e w = omega (arith, ap (weigh w) e)

AtFull-leases :
    (policy : OverflowPolicy) (b : Broker) (m : TelemetryMessage) (xs : List Entry)
    (r : Outcome × Broker)
    → AtFull policy b m xs r
    → r.1.leases ≡ b.leases
AtFull-leases reject b m xs r e = ap (λ s. s.1.leases) e
AtFull-leases block b m xs r e = ap (λ s. s.1.leases) e
AtFull-leases drop_oldest b m [] r e = ap (λ s. s.1.leases) e
AtFull-leases drop_oldest b m (y ∷ ys) r (main, e, _) = ap (λ s. s.1.leases) e

close-leases : (b : Broker) → (close b).leases ≡ b.leases
unfolding close signal_space
close-leases b = ground arith

Stays-leases :
    (closed room : Bool) (policy : OverflowPolicy) (b : Broker) (m : TelemetryMessage)
    (xs : List Entry) (r : Outcome × Broker)
    → b.cfg.policy ≡ policy
    → Stays closed room b m xs r
    → r.1.leases ≡ b.leases
Stays-leases true room p b m xs r h e = ap (λ s. s.1.leases) e
Stays-leases false true p b m xs r h (main, e, _) = ap (λ s. s.1.leases) e
Stays-leases false false p b m xs r h a =
    AtFull-leases p b m xs r (subst (λ q. AtFull q b m xs r) h a)

-- Only a lease on the consumer's own behalf adds to its leases, and that at most one.
run_op-held :
    (c : ℕ) (b : Broker) (op : Op)
    → IsValid b
    → b.next_id + 1 < 2 ^ 64
    → Returns (λ b'. held c b' ≤ held c b + added c op) (run_op b op)
unfolding run_op set_notify
run_op-held c b (produce m) v more =
    let (r, e, (_, s)) = attempt-Attempts m b v more in
    (
      r.1,
      rw e refl,
      omega (
        arith,
        same-Lessens b r.1
            (Stays-leases b.closed (ltb (used b) b.cfg.capacity) b.cfg.policy b m (contents b.main)
              r refl s)
            (λ kv. indicator (kv.1.consumer == c)),
      ),
    )
run_op-held c b (lease_to c') v more =
    let (r, e, (_, leased)) = lease-Leased b c' v in (r.1, rw e refl, Leased-held b c' c r leased)
run_op-held c b (ack_by c' id) v more = (
  (ack b id c').1,
  refl,
  omega (arith, (ack-held b id c' v).2 (λ kv. indicator (kv.1.consumer == c))),
)
run_op-held c b (release_by c' id) v more =
    let (r, e, (_, _, less)) = release_lease-held b id c' v in
    (r.1, rw e refl, omega (arith, less (λ kv. indicator (kv.1.consumer == c))))
run_op-held c b (disconnect c') v more =
    let (r, e, (reclaims, _, _)) = release_consumer-Reclaims b c' v in
    (
      r.1,
      rw e refl,
      omega (
        arith,
        Reclaims-Lessens (λ rec. rec.consumer == c') b r.1 reclaims
            (λ kv. indicator (kv.1.consumer == c)),
      ),
    )
run_op-held c b sweep v more =
    let (r, e, (reclaims, _, _, _)) = sweep_expired-Reclaims b v in
    (
      r.2,
      rw e refl,
      omega (
        arith,
        Reclaims-Lessens (λ rec. leb rec.deadline (b.cfg.clock b.reads)) b r.2 reclaims
            (λ kv. indicator (kv.1.consumer == c)),
      ),
    )
run_op-held c b replay v more =
    let (r, e, (_, (main, dlq, same, _, _))) = dlq_replay-Replayed b v in
    (
      r.1,
      rw e refl,
      omega (
        arith,
        same-Lessens b r.1 (ap (λ s. s.leases) same) (λ kv. indicator (kv.1.consumer == c)),
      ),
    )
run_op-held c b stop v more = (
  close b,
  refl,
  omega (arith, same-Lessens b (close b) (close-leases b) (λ kv. indicator (kv.1.consumer == c))),
)
run_op-held c b (register on) v more = (set_notify on b, refl, omega arith)

-- An operation, with ids left to give, leaves the state in order and takes no lease for anyone but
-- the consumer it is for.
pub run_op-Steps :
    (c : ℕ) (b : Broker) (op : Op)
    → IsValid b
    → b.next_id + 1 < 2 ^ 64
    → Returns (λ b'. Kept 1 b b' × (held c b' ≤ held c b + added c op)) (run_op b op)
run_op-Steps c b op v more =
    Returns-both (run_op b op) (run_op-Kept b op v more) (run_op-held c b op v more)
