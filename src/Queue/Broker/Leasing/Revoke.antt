-- ===== src/Queue/Broker/Leasing/Revoke.antt =====
-- What a consumer can still do with a lease that `SweepExpired` or `ReleaseConsumer` of
-- internal/queue/broker.go has taken back.
use vantage.Prelude.{
  ℕ, ◌+◌, ◌≤◌, ◌≡◌, Bool, true, false, [], ◌∷◌, none, some, leb, ◌==◌, if◌then◌else◌, indicator,
  arith, ok, Returns,
}
use vantage.Queue.Table.{Table, delete, lookup}
use vantage.Queue.Table.Laws.{entries_at, lookup_of_entries_zero, weigh-delete}
use vantage.Queue.Table.Keys.{chosen}
use vantage.Queue.Broker.{Broker, LeaseRec}
use vantage.Queue.Broker.Lanes.{IsValid}
use vantage.Queue.Broker.Leasing.{ack, release_lease, release_consumer, sweep_expired}
use vantage.Queue.Broker.Leasing.Ack.{ack_foreign}
use vantage.Queue.Broker.Leasing.Reclaim.{
  spared, Reclaims, one_lease, release_consumer-Reclaims, sweep_expired-Reclaims,
}

module _ (p : LeaseRec → Bool) (id : ℕ) where
  abbrev at_id : ℕ × LeaseRec → ℕ
  at_id kv = indicator (kv.0 == id)

  entries_at_le : (m : Table LeaseRec) → entries_at id m ≤ spared p at_id m + chosen p m
  entries_at_le [] = omega arith
  entries_at_le (kv ∷ m) = ground (arith, entries_at_le m)

  spared_le : (m : Table LeaseRec) → spared p at_id m ≤ entries_at id m
  spared_le [] = omega arith
  spared_le (kv ∷ m) = ground (arith, spared_le m)

  -- A single lease that passes is not spared.
  spared_none :
      (m : Table LeaseRec) (rec : LeaseRec)
      → lookup id m ≡ some rec
      → p rec ≡ true
      → entries_at id m ≤ 1
      → spared p at_id m ≡ 0
  spared_none m rec found passed one =
      let weights = weigh-delete (λ kv. if p kv.1 then 0 else at_id kv) id m rec found in
      let entries = weigh-delete at_id id m rec found in
      ground (arith, passed, weights, entries, spared_le (delete id m), one)

  -- A lease that passes is gone after the reclaim.
  Reclaims-gone :
      (b b' : Broker) (rec : LeaseRec)
      → IsValid b
      → Reclaims p b b'
      → lookup id b.leases ≡ some rec
      → p rec ≡ true
      → lookup id b'.leases ≡ none
  Reclaims-gone b b' rec v (_, _, none_left, same) found passed =
      lookup_of_entries_zero id b'.leases (
        omega (
          arith,
          entries_at_le b'.leases,
          none_left,
          same at_id,
          spared_none b.leases rec found passed (one_lease b v id),
        ))

-- After a sweep at or past the deadline of a lease, an acknowledgement or a release of its message
-- by any consumer is refused and changes nothing, until the message is leased again.
pub sweep_expired-revokes :
    (b : Broker) (id : ℕ) (rec : LeaseRec)
    → IsValid b
    → lookup id b.leases ≡ some rec
    → rec.deadline ≤ b.cfg.clock b.reads
    → Returns
        (λ r. (c : ℕ) → (ack r.2 id c ≡ (false, r.2)) × (release_lease r.2 id c ≡ ok (false, r.2)))
        (sweep_expired b)
sweep_expired-revokes b id rec v found due =
    let p : LeaseRec → Bool = λ rec. leb rec.deadline (b.cfg.clock b.reads) in
    let (r, e, (reclaims, _, _, _)) = sweep_expired-Reclaims b v in
    let gone = Reclaims-gone p id b r.2 rec v reclaims found (ground arith) in
    (r, e, λ c. ack_foreign r.2 id c (λ rec' found' own. absurd (ground (arith, gone, found'))))

-- After `ReleaseConsumer` every acknowledgement and release of a message that the consumer held is
-- refused and changes nothing, until the message is leased again.
pub release_consumer-revokes :
    (b : Broker) (id : ℕ) (rec : LeaseRec)
    → IsValid b
    → lookup id b.leases ≡ some rec
    → Returns
        (λ r. (c : ℕ) → (ack r.1 id c ≡ (false, r.1)) × (release_lease r.1 id c ≡ ok (false, r.1)))
        (release_consumer b rec.consumer)
release_consumer-revokes b id rec v found =
    let p : LeaseRec → Bool = λ r. r.consumer == rec.consumer in
    let (r, e, (reclaims, _, _)) = release_consumer-Reclaims b rec.consumer v in
    let gone = Reclaims-gone p id b r.1 rec v reclaims found (ground arith) in
    (r, e, λ c. ack_foreign r.1 id c (λ rec' found' own. absurd (ground (arith, gone, found'))))
