-- ===== src/Queue/Broker/Runs/Books.antt =====
-- What one operation of internal/queue/broker.go does to the books: the entries that come into the
-- broker's custody, and those that leave it.
use vantage.Prelude.{
  incr64, ℕ, ◌+◌, ◌%◌, ◌^◌, ◌<◌, ◌≡◌, ◌⊎◌, refl, ap, sym, subst, Bool, true, false, List, [], ◌∷◌,
  ◌++◌, map, ltb, length, if◌then◌else◌, Returns, arith, inl, inr,
}
use vantage.Prelude.Weigh.{weigh, weigh-append}
use vantage.Message.{TelemetryMessage}
use vantage.Queue.Ring.{Ring, contents}
use vantage.Queue.Policy.{OverflowPolicy, reject, drop_oldest, block}
use vantage.Queue.Broker.{Entry, Broker, DlqItem, signal_space, set_notify, close, used}
use vantage.Queue.Broker.Lanes.{lanes, stock, of_entry, of_dead, IsValid}
use vantage.Queue.Broker.Requeue.{Carry}
use vantage.Queue.Broker.Enqueue.{Outcome}
use vantage.Queue.Broker.Enqueue.Attempt.{attempt-Attempts, Stays, AtFull, Admits}
use vantage.Queue.Broker.Leasing.{ack, release_lease}
use vantage.Queue.Broker.Leasing.Lease.{lease-Leased}
use vantage.Queue.Broker.Leasing.Ack.{ack_foreign, ack_held, ack_evicts_none, release_lease-Carry}
use vantage.Queue.Broker.Leasing.Reclaim.{release_consumer-Reclaims, sweep_expired-Reclaims}
use vantage.Queue.Broker.Dlq.Replay.{dlq_replay-Replayed, revived, Moves}
use vantage.Queue.Broker.Runs.{
  Op, produce, lease_to, ack_by, release_by, disconnect, sweep, replay, stop, register, run_op,
}
use vantage.Queue.Broker.Runs.Kept.{held_cases}

-- The message as it is admitted after `n` ids were given out.
abbrev pub entry_at : ℕ → TelemetryMessage → Entry
entry_at n m = record { msg = record m { id = n + 1 }; attempts = 0 }

-- Only `Enqueue` takes something in: its message, under the next id, or nothing.
abbrev pub Came : Op → ℕ → List Entry → Type 0
Came (produce m) n came = (came ≡ []) ⊎ (came ≡ entry_at n m ∷ [])
Came op n came = came ≡ []

-- Only `Ack` hands something over: the message with the id, or nothing.
abbrev pub Done : Op → List Entry → Type 0
Done (ack_by c id) done = (done ≡ []) ⊎ ((e : Entry) × (done ≡ e ∷ []) × (e.msg.id ≡ id))
Done op done = done ≡ []

-- The entries that came, that were acknowledged, that an overflow has dropped, and that were evicted
-- from the dead-letter lane; the last two are counted.
pub record Books (op : Op) (b b' : Broker) : Type 0 where
  pub came : List Entry
  pub done : List Entry
  pub dropped : List Entry
  pub evicted : List Entry
  pub of_op : Came op b.next_id came × Done op done
  pub balance :
      (w : TelemetryMessage → ℕ)
      → stock w (lanes b')
          + weigh (of_entry w) done
          + weigh (of_entry w) dropped
          + weigh (of_entry w) evicted
        ≡ stock w (lanes b) + weigh (of_entry w) came
  pub numbered : b'.next_id ≡ b.next_id + length came
  pub drops : b'.dropped_overflow % 2 ^ 64 ≡ (b.dropped_overflow + length dropped) % 2 ^ 64
  pub evictions : b'.dlq_evicted % 2 ^ 64 ≡ (b.dlq_evicted + length evicted) % 2 ^ 64

-- An operation for which nothing has to be said of what came and what was acknowledged.
abbrev IsQuiet : Op → Type 0
IsQuiet op = (n : ℕ) → Came op n [] × Done op []

quiet-Books :
    (op : Op) (b b' : Broker)
    → IsQuiet op
    → ((w : TelemetryMessage → ℕ) → stock w (lanes b') ≡ stock w (lanes b))
    → b'.next_id ≡ b.next_id
    → b'.dropped_overflow ≡ b.dropped_overflow
    → b'.dlq_evicted ≡ b.dlq_evicted
    → Books op b b'
quiet-Books op b b' quiet same next drops evictions = record {
  came = [];
  done = [];
  dropped = [];
  evicted = [];
  of_op = quiet b.next_id;
  balance = λ w. omega (arith, same w);
  numbered = omega (arith, next);
  drops = ap (λ n. n % 2 ^ 64) (omega (arith, drops));
  evictions = ap (λ n. n % 2 ^ 64) (omega (arith, evictions));
}

Carry-Books : (op : Op) (b b' : Broker) → IsQuiet op → Carry [] b [] b' → Books op b b'
Carry-Books op b b' quiet c = record {
  came = [];
  done = [];
  dropped = [];
  evicted = c.lost;
  of_op = quiet b.next_id;
  balance = λ w. omega (arith, c.balance w);
  numbered = omega (arith, c.frame.next_id);
  drops = ap (λ n. n % 2 ^ 64) (omega (arith, c.frame.overflow));
  evictions = c.counted;
}

module _ (m : TelemetryMessage) where
  produce-IsQuiet : IsQuiet (produce m)
  produce-IsQuiet n = (inl refl, refl)

  -- An admission, after `dropped` was taken off the front.
  Admits-Books :
      (b : Broker) (d : ℕ) (dropped xs : List Entry) (r : Outcome × Broker)
      → contents b.main ≡ dropped ++ xs
      → d % 2 ^ 64 ≡ (b.dropped_overflow + length dropped) % 2 ^ 64
      → Admits (record b { dropped_overflow = d }) m xs r
      → Books (produce m) b r.1
  Admits-Books b d dropped xs r before drops (main, e, after) =
      subst (λ s. Books (produce m) b s.1) (sym e)
        (record {
          came = entry_at b.next_id m ∷ [];
          done = [];
          dropped = dropped;
          evicted = [];
          of_op = (inr refl, refl);
          balance = λ w. omega (
            arith,
            ap (weigh (of_entry w)) after,
            weigh-append (of_entry w) xs (entry_at b.next_id m ∷ []),
            ap (weigh (of_entry w)) before,
            weigh-append (of_entry w) dropped xs,
          );
          numbered = refl;
          drops = drops;
          evictions = ap (λ n. n % 2 ^ 64) (omega arith);
        })

  -- A stay that admits nothing leaves the lanes as they are.
  refused-Books :
      (b : Broker) (r : Outcome × Broker) {o : Outcome} {b' : Broker}
      → r ≡ (o, b')
      → lanes b' ≡ lanes b
      → b'.dropped_overflow ≡ b.dropped_overflow
      → b'.dlq_evicted ≡ b.dlq_evicted
      → Books (produce m) b r.1
  refused-Books b r {b'} e same drops evictions =
      subst (λ s. Books (produce m) b s.1) (sym e)
        (quiet-Books (produce m) b b' produce-IsQuiet (λ w. ap (stock w) same)
          (ap (λ l. l.next_id) same) drops evictions)

  AtFull-Books :
      (policy : OverflowPolicy) (b : Broker) (xs : List Entry) (r : Outcome × Broker)
      → contents b.main ≡ xs
      → AtFull policy b m xs r
      → Books (produce m) b r.1
  AtFull-Books reject b xs r before e = refused-Books b r e refl refl refl
  AtFull-Books block b xs r before e = refused-Books b r e refl refl refl
  AtFull-Books drop_oldest b [] r before e = refused-Books b r e refl refl refl
  AtFull-Books drop_oldest b (y ∷ ys) r before admits =
      Admits-Books b (incr64 b.dropped_overflow) (y ∷ []) ys r before (omega arith) admits

  Stays-Books :
      (shut room : Bool) (b : Broker) (r : Outcome × Broker)
      → Stays shut room b m (contents b.main) r
      → Books (produce m) b r.1
  Stays-Books true room b r e = refused-Books b r e refl refl refl
  Stays-Books false true b r admits =
      Admits-Books b b.dropped_overflow [] (contents b.main) r refl
        (ap (λ n. n % 2 ^ 64) (omega arith)) admits
  Stays-Books false false b r full = AtFull-Books b.cfg.policy b (contents b.main) r refl full

-- A message that is revived weighs what it did.
weigh-revived :
    (w : TelemetryMessage → ℕ) (zs : List DlqItem)
    → weigh (of_entry w) (map revived zs) ≡ weigh (of_dead w) zs
weigh-revived w [] = refl
weigh-revived w (z ∷ zs) = omega (arith, weigh-revived w zs)

replay-Books :
    (b : Broker) (n : ℕ) (main : Ring Entry) (dlq : Ring DlqItem)
    → Moves n (contents b.main) (contents b.dlq) (contents main) (contents dlq)
    → Books replay b (record b { main = main; dlq = dlq })
replay-Books b n main dlq (zs, _, before, after) =
    quiet-Books replay b (record b { main = main; dlq = dlq }) (λ k. (refl, refl))
      (λ w. omega (
        arith,
        ap (weigh (of_entry w)) after,
        weigh-append (of_entry w) (contents b.main) (map revived zs),
        weigh-revived w zs,
        ap (weigh (of_dead w)) before,
        weigh-append (of_dead w) zs (contents dlq),
      ))
      refl refl refl

ack-Books : (b : Broker) (id c : ℕ) → IsValid b → Books (ack_by c id) b (ack b id c).1
ack-Books b id c v = elim (held_cases b id c) [
  | inl (rec, found, own) ↦
      let (_, _, _, less, _, _, frame, _) = ack_held b id c rec v found own in
      let (evictions, key) = ack_evicts_none b id c rec v found own in
      record {
        came = [];
        done = rec.e ∷ [];
        dropped = [];
        evicted = [];
        of_op = (refl, inr (rec.e, refl, key));
        balance = λ w. omega (arith, less w);
        numbered = omega (arith, frame.next_id);
        drops = ap (λ n. n % 2 ^ 64) (omega (arith, frame.overflow));
        evictions = ap (λ n. n % 2 ^ 64) (omega (arith, evictions));
      }
  | inr foreign ↦
      subst (λ r. Books (ack_by c id) b r.1) (sym (ack_foreign b id c foreign).0)
        (quiet-Books (ack_by c id) b b (λ n. (refl, inl refl)) (λ w. refl) refl refl refl)
]

release_lease-Books :
    (b : Broker) (id c : ℕ)
    → IsValid b
    → Returns (λ r. Books (release_by c id) b r.1) (release_lease b id c)
release_lease-Books b id c v = elim (held_cases b id c) [
  | inl (rec, found, own) ↦
      let (r, e, (_, _, carried, _)) = release_lease-Carry b id c rec v found own in
      (r, e, Carry-Books (release_by c id) b r.1 (λ n. (refl, refl)) carried)
  | inr foreign ↦ (
    (false, b),
    (ack_foreign b id c foreign).1,
    quiet-Books (release_by c id) b b (λ n. (refl, refl)) (λ w. refl) refl refl refl,
  )
]

close-Books : (b : Broker) → Books stop b (close b)
unfolding close signal_space
close-Books b =
    elim b.closed
      as (λ off.
        Books stop b (if off then b else record b { closed = true; space = b.space + 1 })) [
          | true ↦ quiet-Books stop b b (λ n. (refl, refl)) (λ w. refl) refl refl refl
          | false ↦
              quiet-Books stop b (record b { closed = true; space = b.space + 1 })
                (λ n. (refl, refl)) (λ w. refl) refl refl refl
        ]

-- The books of every operation on a state in order, with ids left to give.
pub run_op-Books :
    (b : Broker) (op : Op) → IsValid b → b.next_id + 1 < 2 ^ 64 → Returns (Books op b) (run_op b op)
unfolding run_op set_notify
run_op-Books b (produce m) v more =
    let (r, e, (_, s)) = attempt-Attempts m b v more in
    (r.1, rw e refl, Stays-Books m b.closed (ltb (used b) b.cfg.capacity) b r s)
run_op-Books b (lease_to c) v more =
    let (r, e, ((_, carried, _), _)) = lease-Leased b c v in
    (r.1, rw e refl, Carry-Books (lease_to c) b r.1 (λ n. (refl, refl)) carried)
run_op-Books b (ack_by c id) v more = ((ack b id c).1, refl, ack-Books b id c v)
run_op-Books b (release_by c id) v more =
    let (r, e, books) = release_lease-Books b id c v in (r.1, rw e refl, books)
run_op-Books b (disconnect c) v more =
    let (r, e, ((_, carried, _, _), _, _)) = release_consumer-Reclaims b c v in
    (r.1, rw e refl, Carry-Books (disconnect c) b r.1 (λ n. (refl, refl)) carried)
run_op-Books b sweep v more =
    let (r, e, ((_, carried, _, _), _, _, _)) = sweep_expired-Reclaims b v in
    (r.2, rw e refl, Carry-Books sweep b r.2 (λ n. (refl, refl)) carried)
run_op-Books b replay v more =
    let (r, e, (_, (main, dlq, same, _, moves))) = dlq_replay-Replayed b v in
    (r.1, rw e refl, subst (Books replay b) (sym same) (replay-Books b r.0 main dlq moves))
run_op-Books b stop v more = (close b, refl, close-Books b)
run_op-Books b (register on) v more = (
  set_notify on b,
  refl,
  quiet-Books (register on) b (set_notify on b) (λ n. (refl, refl)) (λ w. refl) refl refl refl,
)
