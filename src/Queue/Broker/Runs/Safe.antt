-- ===== src/Queue/Broker/Runs/Safe.antt =====
-- The broker of internal/queue/broker.go from its start, under any sequence of operations.
use vantage.Prelude.{
  Bool, true, ok, panic, ◌&&◌, if◌then◌else◌, ℕ, zero, suc, ◌+◌, ◌^◌, ◌≤◌, ◌<◌, ◌≡◌, refl, ap, ◌∙◌,
  List, [], ◌∷◌, length, indicator, arith, ◌>>=◌, Returns,
}
use vantage.Prelude.Int.{ℤ, pos, negsuc}
use vantage.Prelude.Weigh.{weigh}
use vantage.Queue.Ring.Refine.{new_ring-IsRing}
use vantage.Queue.Policy.{BrokerConfig, apply_defaults, positive_or}
use vantage.Queue.Broker.{allocate, Entry, Broker, DlqItem, fresh_broker, new_broker}
use vantage.Queue.Broker.Lanes.{of_entry, of_dead, has_id, is_spent, IsValid}
use vantage.Queue.Broker.Runs.{Op, run_ops}
use vantage.Queue.Broker.Runs.Kept.{Kept, Kept-same, run_op-Kept}

run_ops-from :
    (b : Broker) (ops : List Op)
    → IsValid b
    → b.next_id + length ops < 2 ^ 64
    → Returns (Kept (length ops) b) (run_ops b ops)
unfolding run_ops
run_ops-from b [] v more = (b, refl, Kept-same 0 b b v refl refl refl)
run_ops-from b (op ∷ ops) v more =
    let (b₁, e₁, k₁) = run_op-Kept b op v (omega arith) in
    let (b₂, e₂, k₂) = run_ops-from b₁ ops k₁.valid (omega (arith, more, k₁.ids.1)) in
    (
      b₂,
      rw (e₁, e₂) refl,
      record {
        valid = k₂.valid;
        ids = (omega (arith, k₁.ids.0, k₂.ids.0), omega (arith, k₁.ids.1, k₂.ids.1));
        cfg = k₂.cfg ∙ k₁.cfg;
        tripwire = k₂.tripwire ∙ k₁.tripwire;
      },
    )

pub positive_or_pos : (d : ℕ) (z : ℤ) → 0 < d → 0 < positive_or d z
positive_or_pos d (pos zero) p = p
positive_or_pos d (pos (suc n)) p = omega arith
positive_or_pos d (negsuc n) p = p

-- A new broker, for a capacity that `NewBroker` accepts, is in order.
pub fresh_broker-IsValid :
    (capacity : ℕ) (cfg : BrokerConfig)
    → 0 < capacity
    → cfg.max_deliveries < 2 ^ 32
    → IsValid (fresh_broker capacity cfg)
unfolding fresh_broker apply_defaults
fresh_broker-IsValid capacity cfg p q =
    let dead = (fresh_broker capacity cfg).cfg.dlq_capacity in
    let (main, none_main) = new_ring-IsRing {A = Entry} capacity p in
    let (dlq, none_dead) =
      new_ring-IsRing {A = DlqItem} dead (positive_or_pos 1000 cfg.dlq_capacity (omega arith)) in
    record {
      main_ring = main;
      dlq_ring = dlq;
      heap = λ e c pos short. absurd (omega arith);
      budget = omega arith;
      once = λ i. ground (
        arith,
        ap (weigh (of_entry (has_id i))) none_main,
        ap (weigh (of_dead (has_id i))) none_dead,
      );
      small = omega arith;
      main_unspent =
          ap (weigh (λ e. indicator (is_spent (fresh_broker capacity cfg).cfg.max_deliveries e)))
            none_main;
      retry_unspent = refl;
      leases_proper = refl;
      limit_pos = ground arith;
      limit_small = ground arith;
    }

-- `NewBroker` of a positive capacity, when the runtime can allocate both buffers.
pub new_broker-fresh_broker :
    (makes : ℕ → Bool) (n : ℕ) (cfg : BrokerConfig)
    → cfg.capacity ≡ pos (suc n)
    → makes (suc n) ≡ true
    → makes (apply_defaults (suc n) cfg).dlq_capacity ≡ true
    → new_broker makes cfg ≡ ok (fresh_broker (suc n) cfg)
unfolding new_broker allocate fresh_broker apply_defaults
new_broker-fresh_broker makes n cfg p main dlq =
    let b = fresh_broker (suc n) cfg in
    ap
      (λ z. elim z [
        | pos zero ↦ panic
        | pos (suc k) ↦ allocate makes (fresh_broker (suc k) cfg)
        | negsuc k ↦ panic
      ])
      p
    ∙ ap (λ q. if q && makes b.cfg.dlq_capacity then ok b else panic) main
    ∙ ap (λ q. if true && q then ok b else panic) dlq

-- From a new broker with a positive capacity and a delivery limit of 32 bits, whose two buffers the
-- runtime can allocate, under any sequence of operations that is too short to use up the 64-bit ids,
-- no operation panics, and the state stays in order: the main lane, the retry heap and the
-- dead-letter ring are well formed, at most the capacity is used, every message in custody lies in
-- exactly one lane under an id that was given out, no message that waits has had all its deliveries,
-- and every lease stands under its message's id. The configuration stays as it was given, and the
-- counter of dropped requeues stays at 0.
pub run_ops-IsValid :
    (makes : ℕ → Bool) (n : ℕ) (cfg : BrokerConfig) (ops : List Op)
    → cfg.capacity ≡ pos (suc n)
    → makes (suc n) ≡ true
    → makes (apply_defaults (suc n) cfg).dlq_capacity ≡ true
    → cfg.max_deliveries < 2 ^ 32
    → length ops < 2 ^ 64
    → Returns
        (λ b.
          IsValid b
          × (b.next_id ≤ length ops)
          × (b.cfg ≡ apply_defaults (suc n) cfg)
          × (b.dropped_requeue ≡ 0))
        (new_broker makes cfg >>= λ b. run_ops b ops)
unfolding fresh_broker
run_ops-IsValid makes n cfg ops p main dlq q short =
    let (b, e, k) =
      run_ops-from (fresh_broker (suc n) cfg) ops (fresh_broker-IsValid (suc n) cfg (omega arith) q)
        (omega (arith, short)) in
    (
      b,
      ap (λ o. o >>= λ b. run_ops b ops) (new_broker-fresh_broker makes n cfg p main dlq) ∙ e,
      (k.valid, omega (arith, k.ids.1), k.cfg, k.tripwire),
    )
