-- ===== src/Queue/Broker/Leasing/Ack.antt =====
-- `Ack` and `ReleaseLease` of internal/queue/broker.go.
use vantage.Prelude.{
  ap, ℕ, ◌+◌, ◌<◌, ◌≡◌, ◌≢◌, refl, inl, inr, true, false, [], ◌∷◌, none, some, arith, ok, Returns,
  Option-cases,
}
use vantage.Prelude.Weigh.{weigh, weigh-one}
use vantage.Message.{TelemetryMessage}
use vantage.Queue.Table.{lookup, delete}
use vantage.Queue.Table.Laws.{weigh-delete}
use vantage.Queue.Broker.{LeaseRec, Broker, used, signal_space}
use vantage.Queue.Broker.Lanes.{lanes, stock, of_entry, IsValid}
use vantage.Queue.Broker.Lanes.Put.{unleased, let_go}
use vantage.Queue.Broker.Lanes.Take.{take_lease}
use vantage.Queue.Broker.Requeue.{Carry, Frame, carry, untouched, Carry-trans, requeue-Stored}
use vantage.Queue.Broker.Leasing.{held_by, ack, release_lease}

module _ (b : Broker) (id consumer : ℕ) where
  held_by-own :
      (rec : LeaseRec)
      → lookup id b.leases ≡ some rec
      → rec.consumer ≡ consumer
      → held_by b id consumer ≡ some rec
  unfolding held_by
  held_by-own rec found own = ground (arith, found, own)

  held_by-foreign :
      ((rec : LeaseRec) → lookup id b.leases ≡ some rec → rec.consumer ≢ consumer)
      → held_by b id consumer ≡ none
  unfolding held_by
  held_by-foreign h = elim (Option-cases (lookup id b.leases)) [
    | inl missing ↦ ground (arith, missing)
    | inr (rec, found) ↦ ground (arith, found, h rec found)
  ]

  -- An acknowledgement or a release by a consumer that does not hold the lease on the id, because
  -- nobody does, or another consumer, changes nothing.
  pub ack_foreign :
      ((rec : LeaseRec) → lookup id b.leases ≡ some rec → rec.consumer ≢ consumer)
      → (ack b id consumer ≡ (false, b)) × (release_lease b id consumer ≡ ok (false, b))
  unfolding ack release_lease
  ack_foreign h = (rw (held_by-foreign h, ack), rw (held_by-foreign h, release_lease))

  module _ (rec : LeaseRec) (v : IsValid b) (found : lookup id b.leases ≡ some rec)
      (own : rec.consumer ≡ consumer) where
    -- The consumer that holds the lease takes exactly that message out of the broker, ends the
    -- lease, so that a second acknowledgement finds nothing, leaves the other leases, and wakes the
    -- waiting producers.
    pub ack_held :
        let (done, b') = ack b id consumer in
        (done ≡ true)
        × IsValid b'
        × (lookup id b'.leases ≡ none)
        × ((w : TelemetryMessage → ℕ) → stock w (lanes b') + of_entry w rec.e ≡ stock w (lanes b))
        × (used b' + 1 ≡ used b)
        × (b.space < b'.space)
        × Frame b b'
        × ((w : ℕ × LeaseRec → ℕ) → w (id, rec) + weigh w b'.leases ≡ weigh w b.leases)
    unfolding ack signal_space used
    ack_held =
        let (inv, proper, less) = take_lease [] (lanes b) v id rec found in
        let fewer = weigh-delete (λ _. 1) id b.leases rec found in
        let key : rec.e.msg.id ≡ id = ground (arith, proper) in
        rw (held_by-own rec found own, ack)
          (
            refl,
            let_go rec.e [] _ inv,
            rw key at (unleased rec.e [] _ inv),
            less,
            omega (arith, fewer, weigh-one (delete id b.leases), weigh-one b.leases),
            omega arith,
            untouched b,
            λ w. weigh-delete w id b.leases rec found,
          )

    -- It evicts nothing, and the message has the id.
    pub ack_evicts_none : ((ack b id consumer).1.dlq_evicted ≡ b.dlq_evicted) × (rec.e.msg.id ≡ id)
    unfolding ack signal_space
    ack_evicts_none =
        let (inv, proper, less) = take_lease [] (lanes b) v id rec found in
        rw (held_by-own rec found own, ack) (refl, ground (arith, proper))

    -- A release never panics, ends the lease and no other, and puts the message back into the
    -- retry or the dead-letter lane.
    pub release_lease-Carry :
        Returns
          (λ r.
            (r.0 ≡ true)
            × IsValid r.1
            × Carry [] b [] r.1
            × ((w : ℕ × LeaseRec → ℕ) → w (id, rec) + weigh w r.1.leases ≡ weigh w b.leases))
          (release_lease b id consumer)
    unfolding release_lease used
    release_lease-Carry =
        let (inv, proper, less) = take_lease [] (lanes b) v id rec found in
        let b₁ = record b { leases = delete id b.leases } in
        let (b', e, (inv', c, same, _, _)) = requeue-Stored b₁ rec.e [] inv 0 in
        let fewer = weigh-delete (λ _. 1) id b.leases rec found in
        let taken =
          carry [] b (rec.e ∷ []) b₁ (λ w. omega (arith, less w)) refl (untouched b) (omega arith)
            (omega (arith, fewer, weigh-one b₁.leases, weigh-one b.leases)) in
        (
          (true, b'),
          rw (held_by-own rec found own, release_lease, e),
          (
            refl,
            inv',
            Carry-trans [] (rec.e ∷ []) [] b b₁ b' taken c,
            λ w. omega (arith, ap (weigh w) same, weigh-delete w id b.leases rec found),
          ),
        )
