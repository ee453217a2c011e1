-- ===== src/Queue/Broker/Runs/Ledger.antt =====
-- The books of the broker of internal/queue/broker.go over any sequence of its operations.
use vantage.Prelude.{
  Bool, true, indicator, same_result, ℕ, suc, ◌+◌, ◌%◌, ◌^◌, ◌≤◌, ◌<◌, ◌≡◌, ◌⊎◌, refl, ap, subst,
  ◌∙◌, List, [], ◌∷◌, ◌++◌, ltb, length, ◌>>=◌, Returns, arith, inl, inr, length-append,
}
use vantage.Prelude.Int.{pos}
use vantage.Prelude.Weigh.{weigh, weigh-append}
use vantage.Message.{TelemetryMessage}
use vantage.Queue.Ring.Refine.{new_ring-IsRing}
use vantage.Queue.Policy.{BrokerConfig, apply_defaults}
use vantage.Queue.Broker.{Entry, DlqItem, Broker, fresh_broker, new_broker}
use vantage.Queue.Broker.Lanes.{lanes, stock, of_entry, of_dead, has_id, IsValid}
use vantage.Queue.Broker.Runs.{
  Op, produce, lease_to, ack_by, release_by, disconnect, sweep, replay, stop, register, run_ops,
}
use vantage.Queue.Broker.Runs.Safe.{new_broker-fresh_broker, fresh_broker-IsValid, positive_or_pos}
use vantage.Queue.Broker.Runs.Kept.{run_op-Kept}
use vantage.Queue.Broker.Runs.Books.{Came, Done, Books, run_op-Books, entry_at}

-- The entries that came in, when `n` ids were given out before: each is the message of one of the
-- operations, in their order, under the next id.
abbrev pub Accepts : List Op → ℕ → List Entry → Type 0
Accepts [] n accepted = accepted ≡ []
Accepts (op ∷ ops) n accepted =
    (came : List Entry) × (later : List Entry) × Came op n came
    × (accepted ≡ came ++ later)
    × Accepts ops (n + length came) later

-- The entries that were handed over: at most one for each acknowledgement, under its id.
abbrev pub Acks : List Op → List Entry → Type 0
Acks [] acked = acked ≡ []
Acks (op ∷ ops) acked =
    (now : List Entry) × (later : List Entry) × Done op now
    × (acked ≡ now ++ later)
    × Acks ops later

-- What a run from `b` to `b'` comes to.
pub record Ledger (ops : List Op) (b b' : Broker) : Type 0 where
  pub accepted : List Entry
  pub acked : List Entry
  pub dropped : List Entry
  pub evicted : List Entry
  pub came : Accepts ops b.next_id accepted
  pub done : Acks ops acked
  pub balance :
      (w : TelemetryMessage → ℕ)
      → stock w (lanes b')
          + weigh (of_entry w) acked
          + weigh (of_entry w) dropped
          + weigh (of_entry w) evicted
        ≡ stock w (lanes b) + weigh (of_entry w) accepted
  pub numbered : b'.next_id ≡ b.next_id + length accepted
  pub drops : b'.dropped_overflow % 2 ^ 64 ≡ (b.dropped_overflow + length dropped) % 2 ^ 64
  pub evictions : b'.dlq_evicted % 2 ^ 64 ≡ (b.dlq_evicted + length evicted) % 2 ^ 64

Ledger-nil : (b : Broker) → Ledger [] b b
Ledger-nil b = record {
  accepted = [];
  acked = [];
  dropped = [];
  evicted = [];
  came = refl;
  done = refl;
  balance = λ w. omega arith;
  numbered = omega arith;
  drops = ap (λ n. n % 2 ^ 64) (omega arith);
  evictions = ap (λ n. n % 2 ^ 64) (omega arith);
}

Ledger-cons :
    (op : Op) (ops : List Op) (b b₁ b₂ : Broker)
    → Books op b b₁
    → Ledger ops b₁ b₂
    → Ledger (op ∷ ops) b b₂
Ledger-cons op ops b b₁ b₂ p q = record {
  accepted = p.came ++ q.accepted;
  acked = p.done ++ q.acked;
  dropped = p.dropped ++ q.dropped;
  evicted = p.evicted ++ q.evicted;
  came = (
    p.came,
    q.accepted,
    p.of_op.0,
    refl,
    subst (λ n. Accepts ops n q.accepted) p.numbered q.came,
  );
  done = (p.done, q.acked, p.of_op.1, refl, q.done);
  balance = λ w. omega (
    arith,
    p.balance w,
    q.balance w,
    weigh-append (of_entry w) p.came q.accepted,
    weigh-append (of_entry w) p.done q.acked,
    weigh-append (of_entry w) p.dropped q.dropped,
    weigh-append (of_entry w) p.evicted q.evicted,
  );
  numbered = omega (arith, p.numbered, q.numbered, length-append p.came q.accepted);
  drops = omega (arith, p.drops, q.drops, length-append p.dropped q.dropped);
  evictions = omega (arith, p.evictions, q.evictions, length-append p.evicted q.evicted);
}

run_ops-from_books :
    (b : Broker) (ops : List Op)
    → IsValid b
    → b.next_id + length ops < 2 ^ 64
    → Returns (Ledger ops b) (run_ops b ops)
unfolding run_ops
run_ops-from_books b [] v more = (b, refl, Ledger-nil b)
run_ops-from_books b (op ∷ ops) v more =
    let (b', e', k) = run_op-Kept b op v (omega arith) in
    let (b₁, e₁, books) = run_op-Books b op v (omega arith) in
    let same : b' ≡ b₁ = same_result e₁ e' in
    let (b₂, e₂, ledger) =
      run_ops-from_books b₁ ops (subst IsValid same k.valid)
        (omega (arith, more, k.ids.1, ap (λ (s : Broker). s.next_id) same)) in
    (b₂, ap (λ o. o >>= λ s. run_ops s ops) e₁ ∙ e₂, Ledger-cons op ops b b₁ b₂ books ledger)

-- The ids are all different.
Accepts-once :
    (ops : List Op) (n : ℕ) (accepted : List Entry) (i : ℕ)
    → Accepts ops n accepted
    → weigh (of_entry (has_id i)) accepted ≤ indicator (ltb n i)
Accepts-once [] n accepted i e = ground (arith, ap (weigh (of_entry (has_id i))) e)
Accepts-once (op ∷ ops) n accepted i (came, later, of_op, e, rest) =
    let sum = ap (weigh (of_entry (has_id i))) e in
    let split = weigh-append (of_entry (has_id i)) came later in
    let after = Accepts-once ops (n + length came) later i rest in
    elim (came_cases op came of_op) [
      | inl none_came ↦ ground (
        arith,
        sum,
        split,
        after,
        ap (weigh (of_entry (has_id i))) none_came,
        ap length none_came,
      )
      | inr (m, one_came) ↦
          ground (
            arith,
            sum,
            split,
            after,
            ap (weigh (of_entry (has_id i))) one_came,
            ap length one_came,
          )
    ]
  where
    came_cases :
        (op : Op) (came : List Entry)
        → Came op n came
        → (came ≡ []) ⊎ ((m : TelemetryMessage) × (came ≡ entry_at n m ∷ []))
    came_cases (produce m) came (inl e) = inl e
    came_cases (produce m) came (inr e) = inr (m, e)
    came_cases (lease_to c) came e = inl e
    came_cases (ack_by c id) came e = inl e
    came_cases (release_by c id) came e = inl e
    came_cases (disconnect c) came e = inl e
    came_cases sweep came e = inl e
    came_cases replay came e = inl e
    came_cases stop came e = inl e
    came_cases (register on) came e = inl e

-- A new broker holds nothing.
fresh_broker-stock :
    (capacity : ℕ) (cfg : BrokerConfig) (w : TelemetryMessage → ℕ)
    → 0 < capacity
    → stock w (lanes (fresh_broker capacity cfg)) ≡ 0
unfolding fresh_broker apply_defaults
fresh_broker-stock capacity cfg w p =
    let dead = (fresh_broker capacity cfg).cfg.dlq_capacity in
    let (_, none_main) = new_ring-IsRing {A = Entry} capacity p in
    let (_, none_dead) =
      new_ring-IsRing {A = DlqItem} dead (positive_or_pos 1000 cfg.dlq_capacity (omega arith)) in
    omega (arith, ap (weigh (of_entry w)) none_main, ap (weigh (of_dead w)) none_dead)

-- What a run of a new broker comes to.
abbrev pub Accounts : List Op → Broker → Type 0
Accounts ops b =
    (accepted : List Entry) × (acked : List Entry) × (dropped : List Entry) × (evicted : List Entry)
    × Accepts ops 0 accepted
    × Acks ops acked
    × ((w : TelemetryMessage → ℕ)
        → stock w (lanes b)
            + weigh (of_entry w) acked
            + weigh (of_entry w) dropped
            + weigh (of_entry w) evicted
          ≡ weigh (of_entry w) accepted)
    × ((i : ℕ) → weigh (of_entry (has_id i)) accepted ≤ 1)
    × (b.dropped_overflow % 2 ^ 64 ≡ length dropped % 2 ^ 64)
    × (b.dlq_evicted % 2 ^ 64 ≡ length evicted % 2 ^ 64)

-- From a new broker with a positive capacity and a delivery limit of 32 bits, whose two buffers the
-- runtime can allocate, under any sequence of operations that is too short to use up the 64-bit ids, the books balance: the messages that were
-- accepted are those of some of the `Enqueue` calls, in their order, no two of them under one id; and
-- they are, each exactly once, the messages in the broker's custody, those that an acknowledgement of
-- their id has taken out, at most one for each acknowledgement, those that drop-oldest has dropped,
-- and those that were evicted from the dead-letter lane. The counters of drops and of evictions are
-- the numbers of the last two.
pub run_ops-Accounts :
    (makes : ℕ → Bool) (n : ℕ) (cfg : BrokerConfig) (ops : List Op)
    → cfg.capacity ≡ pos (suc n)
    → makes (suc n) ≡ true
    → makes (apply_defaults (suc n) cfg).dlq_capacity ≡ true
    → cfg.max_deliveries < 2 ^ 32
    → length ops < 2 ^ 64
    → Returns (Accounts ops) (new_broker makes cfg >>= λ b. run_ops b ops)
unfolding fresh_broker
run_ops-Accounts makes n cfg ops p main dlq q short =
    let b₀ = fresh_broker (suc n) cfg in
    let (b, e, l) =
      run_ops-from_books b₀ ops (fresh_broker-IsValid (suc n) cfg (omega arith) q)
        (omega (arith, short)) in
    (
      b,
      ap (λ o. o >>= λ b. run_ops b ops) (new_broker-fresh_broker makes n cfg p main dlq) ∙ e,
      (
        l.accepted,
        l.acked,
        l.dropped,
        l.evicted,
        l.came,
        l.done,
        λ w. omega (arith, l.balance w, fresh_broker-stock (suc n) cfg w (omega arith)),
        λ i. ground (arith, Accepts-once ops 0 l.accepted i l.came),
        omega (arith, l.drops),
        omega (arith, l.evictions),
      ),
    )
