-- ===== src/Queue/Broker/Leasing/Reclaim.antt =====
-- `ReleaseConsumer` and `SweepExpired` of internal/queue/broker.go.
use vantage.Prelude.{
  ℕ, ◌+◌, ◌%◌, ◌^◌, ◌≤◌, ◌≡◌, refl, ap, ◌∙◌, Bool, ◌&&◌, List, [], ◌∷◌, ltb, leb, ◌==◌,
  if◌then◌else◌, length, arith, Returns, incr64,
}
use vantage.Prelude.Weigh.{weigh, weigh-one}
use vantage.Queue.Table.{Table, delete, keys_where, sort}
use vantage.Queue.Table.Laws.{weigh-delete, entries_at}
use vantage.Queue.Table.Keys.{
  Chosen, Chosen-cons, Chosen-nil, chosen, sort-Chosen, length-sort_keys,
}
use vantage.Queue.Broker.{LeaseRec, Broker, read_clock, backoff, used}
use vantage.Queue.Broker.Lanes.{lanes, IsValid}
use vantage.Queue.Broker.Lanes.Put.{entries_at-proper}
use vantage.Queue.Broker.Lanes.Take.{take_lease}
use vantage.Queue.Broker.Requeue.{Carry, carry, untouched, Carry-refl, Carry-trans, requeue-Stored}
use vantage.Queue.Broker.Leasing.{
  reclaim, reclaim_all, release_consumer, count_expired, sweep_expired,
}

-- The weight of the leases that fail a test.
abbrev pub spared : (LeaseRec → Bool) → (ℕ × LeaseRec → ℕ) → Table LeaseRec → ℕ
spared p w = weigh (λ kv. if p kv.1 then 0 else w kv)

-- In a state that is in order a message id has at most one lease.
pub one_lease : (b : Broker) → IsValid b → (k : ℕ) → entries_at k b.leases ≤ 1
one_lease b v k =
    ground (arith, v.once k, entries_at-proper b.cfg.max_deliveries k b.leases v.leases_proper)

module _ (p : LeaseRec → Bool) where
  -- One round takes the lease on `k` away and puts its message into the retry or the dead-letter
  -- lane.
  reclaim-Carry :
      (b : Broker) (k : ℕ) (ks : List ℕ)
      → IsValid b
      → Chosen p (k ∷ ks) b.leases
      → Returns
          (λ b'.
            IsValid b'
            × Carry [] b [] b'
            × Chosen p ks b'.leases
            × ((w : ℕ × LeaseRec → ℕ) → spared p w b'.leases ≡ spared p w b.leases)
            × (b'.lease_expired ≡ b.lease_expired)
            × (b'.notify ≡ b.notify))
          (reclaim b k)
  unfolding reclaim used
  reclaim-Carry b k ks v c =
      let (rec, found, passed, rest) = Chosen-cons p k ks b.leases c in
      let b₁ = record b { leases = delete k b.leases } in
      let (inv, proper, less) = take_lease [] (lanes b) v k rec found in
      let (b', e, (inv', c', same, expired, notify)) =
        requeue-Stored b₁ rec.e [] inv (backoff b₁ rec.e.attempts) in
      let fewer = weigh-delete (λ _. 1) k b.leases rec found in
      let taken =
        carry [] b (rec.e ∷ []) b₁ (λ w. omega (arith, less w)) refl (untouched b) (omega arith)
          (omega (arith, fewer, weigh-one b₁.leases, weigh-one b.leases)) in
      (
        b',
        rw (found, e) refl,
        (
          inv',
          Carry-trans [] (rec.e ∷ []) [] b b₁ b' taken c',
          rw same rest,
          λ w. ground (
            arith,
            ap (spared p w) same,
            weigh-delete (λ kv. if p kv.1 then 0 else w kv) k b.leases rec found,
          ),
          expired,
          notify,
        ),
      )

  module _ (f : Broker → ℕ) (inc : ℕ)
      (adds : (b : Broker) → f b % 2 ^ 64 ≡ (b.lease_expired + inc) % 2 ^ 64) where
    abbrev bumped : Broker → Broker
    bumped b = record b { lease_expired = f b }

    bumped-Carry : (b : Broker) → Carry [] b [] (bumped b)
    unfolding used
    bumped-Carry b =
        carry [] b [] (bumped b) (λ w. refl) refl (untouched b) (omega arith) (omega arith)

    -- All rounds: no lease that passes the test is left, and the others are as they were.
    reclaim_all-Carry :
        (b : Broker) (ks : List ℕ)
        → IsValid b
        → Chosen p ks b.leases
        → Returns
            (λ b'.
              IsValid b'
              × Carry [] b [] b'
              × (chosen p b'.leases ≡ 0)
              × ((w : ℕ × LeaseRec → ℕ) → spared p w b'.leases ≡ spared p w b.leases)
              × (b'.lease_expired % 2 ^ 64 ≡ (b.lease_expired + weigh (λ _. inc) ks) % 2 ^ 64)
              × (b'.notify ≡ b.notify))
            (reclaim_all bumped b ks)
    unfolding reclaim_all
    reclaim_all-Carry b [] v c = (
      b,
      refl,
      (
        v,
        Carry-refl [] b,
        Chosen-nil p b.leases (λ k. omega (arith, (c k).0)),
        λ w. refl,
        ap (λ n. n % 2 ^ 64) (omega arith),
        refl,
      ),
    )
    reclaim_all-Carry b (k ∷ ks) v c =
        let (b₁, e₁, (v₁, c₁, rest, spare₁, x₁, n₁)) = reclaim-Carry b k ks v c in
        let (b₂, e₂, (v₂, c₂, zero₂, spare₂, x₂, n₂)) = reclaim_all-Carry (bumped b₁) ks v₁ rest in
        (
          b₂,
          rw (e₁, e₂) refl,
          (
            v₂,
            Carry-trans [] [] [] b b₁ b₂ c₁
                (Carry-trans [] [] [] b₁ (bumped b₁) b₂ (bumped-Carry b₁) c₂),
            zero₂,
            λ w. spare₂ w ∙ spare₁ w,
            omega (arith, x₂, x₁, adds b₁),
            n₂ ∙ n₁,
          ),
        )

-- What taking the leases that pass a test back does to the broker.
abbrev pub Reclaims : (LeaseRec → Bool) → Broker → Broker → Type 0
Reclaims p b b' =
    IsValid b'
    × Carry [] b [] b'
    × (chosen p b'.leases ≡ 0)
    × ((w : ℕ × LeaseRec → ℕ) → spared p w b'.leases ≡ spared p w b.leases)

-- In a state that is in order `ReleaseConsumer` never panics and keeps it in order: the consumer
-- holds no lease afterwards, the other consumers hold the leases that they held, the result is
-- the number of leases that it held, and every message is in a lane or has been evicted from the
-- dead-letter lane.
pub release_consumer-Reclaims :
    (b : Broker) (consumer : ℕ)
    → IsValid b
    → Returns
        (λ r.
          Reclaims (λ rec. rec.consumer == consumer) b r.1
          × (r.0 ≡ chosen (λ rec. rec.consumer == consumer) b.leases)
          × (r.1.lease_expired % 2 ^ 64 ≡ b.lease_expired % 2 ^ 64))
        (release_consumer b consumer)
unfolding release_consumer
release_consumer-Reclaims b consumer v =
    let p : LeaseRec → Bool = λ rec. rec.consumer == consumer in
    let ids = sort (keys_where p b.leases) in
    let (b', e, (v', c, zero', spare, x, n)) =
      reclaim_all-Carry p (λ b. b.lease_expired) 0 (λ b. ap (λ n. n % 2 ^ 64) (omega arith)) b ids v
        (sort-Chosen p b.leases (one_lease b v)) in
    (
      (length ids, b'),
      rw e refl,
      ((v', c, zero', spare), length-sort_keys p b.leases, omega (arith, x, no_weight ids)),
    )
  where
    no_weight : (ids : List ℕ) → weigh (λ _. 0) ids ≡ 0
    no_weight [] = refl
    no_weight (x ∷ xs) = omega (arith, no_weight xs)

-- In a state that is in order `SweepExpired` never panics and keeps it in order: no lease whose
-- deadline has come at the sweep's reading of the clock is left, the others are as they were, the
-- result and the growth of the counter are the number of leases taken back, and the callback is
-- called exactly if there was one to take back and a callback is registered.
pub sweep_expired-Reclaims :
    (b : Broker)
    → IsValid b
    → let p : LeaseRec → Bool = λ rec. leb rec.deadline (b.cfg.clock b.reads) in
      Returns
        (λ r.
          Reclaims p b r.2
          × (r.0 ≡ chosen p b.leases)
          × (r.1 ≡ (ltb 0 (chosen p b.leases) && b.notify))
          × (r.2.lease_expired % 2 ^ 64 ≡ (b.lease_expired + chosen p b.leases) % 2 ^ 64))
        (sweep_expired b)
unfolding sweep_expired read_clock count_expired used
sweep_expired-Reclaims b v =
    let p : LeaseRec → Bool = λ rec. leb rec.deadline (b.cfg.clock b.reads) in
    let ids = sort (keys_where p b.leases) in
    let b₀ = record b { reads = b.reads + 1 } in
    let (b', e, (v', c, zero', spare, x, n)) =
      reclaim_all-Carry p (λ b. incr64 b.lease_expired) 1 (λ b. omega arith) b₀ ids v
        (sort-Chosen p b.leases (one_lease b v)) in
    let read = carry [] b [] b₀ (λ w. refl) refl (untouched b) (omega arith) (omega arith) in
    let all = length-sort_keys p b.leases in
    (
      (length ids, ltb 0 (length ids) && b'.notify, b'),
      rw e refl,
      (
        (v', Carry-trans [] [] [] b b₀ b' read c, zero', spare),
        all,
        rw (all, n) refl,
        omega (arith, x, all, weigh-one ids),
      ),
    )
