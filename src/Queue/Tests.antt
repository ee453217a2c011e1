-- ===== src/Queue/Tests.antt =====
-- The theorems on internal/queue at concrete inputs.
use vantage.Prelude.{
  leb, Bool, ℕ, ◌+◌, ◌-◌, ◌*◌, ◌%◌, ◌&&◌, ◌^◌, ◌≤◌, ◌<◌, ◌≡◌, refl, Bool, true, false, [], ◌∷◌,
  none, arith, ok, ◌>>=◌, Returns, ltb, leb, ◌==◌, min,
}
use vantage.Message.{TelemetryMessage}
use vantage.Queue.Policy.{apply_defaults}
use vantage.Prelude.Weigh.{weigh}
use vantage.Queue.Table.{lookup}
use vantage.Queue.Broker.{LeaseRec, new_broker, backoff, used}
use vantage.Queue.Broker.Lanes.{lanes, stock, of_entry, IsValid}
use vantage.Queue.Broker.Requeue.{Frame}
use vantage.Queue.Broker.Backoff.{backoff-min}
use vantage.Queue.Broker.Enqueue.{attempt}
use vantage.Queue.Broker.Enqueue.Attempt.{Attempts, attempt-Attempts}
use vantage.Queue.Broker.Leasing.{lease, ack, release_lease, release_consumer, sweep_expired}
use vantage.Queue.Broker.Leasing.Lease.{LeaseKeeps, Leased, lease-Leased}
use vantage.Queue.Broker.Leasing.Ack.{ack_held}
use vantage.Queue.Broker.Leasing.Reclaim.{
  Reclaims, release_consumer-Reclaims, sweep_expired-Reclaims,
}
use vantage.Queue.Table.Keys.{chosen}
use vantage.Queue.Broker.Dlq.{dlq_replay}
use vantage.Queue.Broker.Enqueue.{space_freed, enqueue}
use vantage.Queue.Broker.Enqueue.Waits.{Settles, enqueue-Settles}
use vantage.Queue.Broker.Leasing.Revoke.{release_consumer-revokes, sweep_expired-revokes}
use vantage.Queue.Broker.Dlq.Replay.{Replayed, dlq_replay-Replayed}
use vantage.Queue.Broker.Runs.Ledger.{Accounts, run_ops-Accounts}
use vantage.Queue.Broker.Runs.{run_ops}
use vantage.Queue.Broker.Runs.Safe.{run_ops-IsValid}
use vantage.Queue.Samples.{
  message, leased_to_7, busy, busy-IsValid, crowded, crowded-IsValid, given, day,
}

lease-Leased_example : Returns (λ r. LeaseKeeps busy r × Leased busy 8 r) (lease busy 8)
lease-Leased_example = lease-Leased busy 8 busy-IsValid

attempt-Attempts_example :
    Returns (λ r. IsValid r.1 × Attempts busy (message 0) r) (attempt busy (message 0))
attempt-Attempts_example = attempt-Attempts (message 0) busy busy-IsValid (omega arith)

sweep_expired-Reclaims_example :
    let p : LeaseRec → Bool = λ rec. leb rec.deadline 50 in
    Returns
      (λ r.
        Reclaims p busy r.2
        × (r.0 ≡ chosen p busy.leases)
        × (r.1 ≡ (ltb 0 (chosen p busy.leases) && true))
        × (r.2.lease_expired % 2 ^ 64 ≡ (0 + chosen p busy.leases) % 2 ^ 64))
      (sweep_expired busy)
sweep_expired-Reclaims_example = sweep_expired-Reclaims busy busy-IsValid

release_consumer-Reclaims_example :
    Returns
      (λ r.
        Reclaims (λ rec. rec.consumer == 7) busy r.1
        × (r.0 ≡ chosen (λ rec. rec.consumer == 7) busy.leases)
        × (r.1.lease_expired % 2 ^ 64 ≡ 0 % 2 ^ 64))
      (release_consumer busy 7)
release_consumer-Reclaims_example = release_consumer-Reclaims busy 7 busy-IsValid

ack_held_example :
    let (done, b') = ack busy 2 7 in
    (done ≡ true)
    × IsValid b'
    × (lookup 2 b'.leases ≡ none)
    × ((w : TelemetryMessage → ℕ)
        → stock w (lanes b') + of_entry w leased_to_7.e ≡ stock w (lanes busy))
    × (used b' + 1 ≡ used busy)
    × (0 < b'.space)
    × Frame busy b'
    × ((w : ℕ × LeaseRec → ℕ) → w (2, leased_to_7) + weigh w b'.leases ≡ weigh w busy.leases)
unfolding lookup
ack_held_example = ack_held busy 2 7 leased_to_7 busy-IsValid refl refl

dlq_replay-Replayed_example :
    Returns (λ r. (r.0 ≡ min 1 (3 - used busy)) × Replayed busy r) (dlq_replay busy)
dlq_replay-Replayed_example = dlq_replay-Replayed busy busy-IsValid

backoff-min_example : backoff busy 3 ≡ min (500 * 2 ^ 2) 3000
backoff-min_example = backoff-min busy 2 (omega arith) (omega arith)

-- A runtime that allocates up to 2000 elements.
abbrev allocates : ℕ → Bool
allocates n = leb n 2000

run_ops-IsValid_example :
    Returns
      (λ b.
        IsValid b × (b.next_id ≤ 12) × (b.cfg ≡ apply_defaults 2 given) × (b.dropped_requeue ≡ 0))
      (new_broker allocates given >>= λ b. run_ops b day)
unfolding apply_defaults
run_ops-IsValid_example =
    run_ops-IsValid allocates 1 given day refl refl refl (omega arith) (omega arith)

run_ops-Accounts_example :
    Returns (Accounts day) (new_broker allocates given >>= λ b. run_ops b day)
unfolding apply_defaults
run_ops-Accounts_example =
    run_ops-Accounts allocates 1 given day refl refl refl (omega arith) (omega arith)

enqueue-Settles_example :
    Returns
      (Settles 0 (message 0))
      (enqueue crowded (message 0) (space_freed crowded ∷ space_freed busy ∷ []))
enqueue-Settles_example =
    enqueue-Settles 0 crowded (message 0) (space_freed crowded ∷ space_freed busy ∷ [])
      (crowded-IsValid, omega arith)
      ((crowded-IsValid, omega arith), ((busy-IsValid, omega arith), tt))

sweep_expired-revokes_example :
    Returns
      (λ r. (c : ℕ) → (ack r.2 2 c ≡ (false, r.2)) × (release_lease r.2 2 c ≡ ok (false, r.2)))
      (sweep_expired busy)
unfolding lookup
sweep_expired-revokes_example =
    sweep_expired-revokes busy 2 leased_to_7 busy-IsValid refl (omega arith)

release_consumer-revokes_example :
    Returns
      (λ r. (c : ℕ) → (ack r.1 2 c ≡ (false, r.1)) × (release_lease r.1 2 c ≡ ok (false, r.1)))
      (release_consumer busy 7)
unfolding lookup
release_consumer-revokes_example = release_consumer-revokes busy 2 leased_to_7 busy-IsValid refl
