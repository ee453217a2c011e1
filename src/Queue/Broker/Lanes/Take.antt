-- ===== src/Queue/Broker/Lanes/Take.antt =====
-- An entry that an operation takes out of a lane, into its hand.
use vantage.Prelude.{ℕ, ◌+◌, ◌<◌, ◌≡◌, ap, true, not, List, ◌∷◌, some, indicator, length, arith}
use vantage.Prelude.Weigh.{weigh, weigh-one}
use vantage.Message.{TelemetryMessage}
use vantage.Queue.Ring.{Ring, contents}
use vantage.Queue.Ring.Refine.{IsRing, count-contents}
use vantage.Queue.Heap.Up.{IsHeap}
use vantage.Queue.Table.{lookup, delete}
use vantage.Queue.Table.Laws.{weigh-delete}
use vantage.Queue.Broker.{Entry, LeaseRec, RetryItem, DlqItem, earlier}
use vantage.Queue.Broker.Lanes.{
  Lanes, of_entry, of_retry, of_lease, of_dead, stock, has_id, load_of, is_spent, is_proper,
  nil_item, Inv,
}

module _ (hand : List Entry) (l : Lanes) (v : Inv hand l) where
  -- The first entry of the main lane is taken.
  pub take_main :
      (e : Entry) (xs : List Entry) (main : Ring Entry)
      → contents l.main ≡ e ∷ xs
      → IsRing l.cfg.capacity main
      → contents main ≡ xs
      → Inv (e ∷ hand) (record l { main = main })
        × (e.attempts < l.cfg.max_deliveries)
        × ((w : TelemetryMessage → ℕ)
            → stock w (record l { main = main }) + of_entry w e ≡ stock w l)
  take_main e xs main before ring after = (
    record {
      main_ring = ring;
      dlq_ring = v.dlq_ring;
      heap = v.heap;
      budget = omega (arith, v.budget, sizes);
      once = λ i. omega (arith, v.once i, lighter (of_entry (has_id i)));
      small = v.small;
      main_unspent =
          omega (arith, v.main_unspent, lighter (λ x. indicator (is_spent l.cfg.max_deliveries x)));
      retry_unspent = v.retry_unspent;
      leases_proper = v.leases_proper;
      limit_pos = v.limit_pos;
      limit_small = v.limit_small;
    },
    ground (arith, v.main_unspent, lighter (λ x. indicator (is_spent l.cfg.max_deliveries x))),
    λ w. omega (arith, lighter (of_entry w)),
  )
    where
      lighter : (w : Entry → ℕ) → weigh w (contents main) + w e ≡ weigh w (contents l.main)
      lighter w = omega (arith, ap (weigh w) before, ap (weigh w) after)

      sizes : main.count + 1 ≡ l.main.count
      sizes = omega (
        arith,
        count-contents l.cfg.capacity main ring,
        count-contents l.cfg.capacity l.main v.main_ring,
        ap length before,
        ap length after,
      )

  -- The first entry of the retry lane is taken.
  pub take_retry :
      (it : RetryItem) (retry : List RetryItem)
      → ((e : Entry) → IsHeap earlier (nil_item e) retry)
      → ((w : RetryItem → ℕ) → w it + weigh w retry ≡ weigh w l.retry)
      → Inv (it.e ∷ hand) (record l { retry = retry })
        × (it.e.attempts < l.cfg.max_deliveries)
        × ((w : TelemetryMessage → ℕ)
            → stock w (record l { retry = retry }) + of_retry w it ≡ stock w l)
  take_retry it retry heap lighter = (
    record {
      main_ring = v.main_ring;
      dlq_ring = v.dlq_ring;
      heap = heap;
      budget = omega (arith, v.budget, lighter (λ _. 1), weigh-one retry, weigh-one l.retry);
      once = λ i. omega (arith, v.once i, lighter (of_retry (has_id i)));
      small = v.small;
      main_unspent = v.main_unspent;
      retry_unspent = omega (arith, v.retry_unspent, lighter spent);
      leases_proper = v.leases_proper;
      limit_pos = v.limit_pos;
      limit_small = v.limit_small;
    },
    ground (arith, v.retry_unspent, lighter spent),
    λ w. omega (arith, lighter (of_retry w)),
  )
    where
      spent : RetryItem → ℕ
      spent x = indicator (is_spent l.cfg.max_deliveries x.e)

  -- The first entry of the dead-letter lane is taken, when the budget has room for it.
  pub take_dead :
      (it : DlqItem) (xs : List DlqItem) (dlq : Ring DlqItem)
      → contents l.dlq ≡ it ∷ xs
      → IsRing l.cfg.dlq_capacity dlq
      → contents dlq ≡ xs
      → load_of l + length hand < l.cfg.capacity
      → Inv (it.e ∷ hand) (record l { dlq = dlq })
  take_dead it xs dlq before ring after room = record {
    main_ring = v.main_ring;
    dlq_ring = ring;
    heap = v.heap;
    budget = omega (arith, room);
    once = λ i. omega (
      arith,
      v.once i,
      ap (weigh (of_dead (has_id i))) before,
      ap (weigh (of_dead (has_id i))) after,
    );
    small = v.small;
    main_unspent = v.main_unspent;
    retry_unspent = v.retry_unspent;
    leases_proper = v.leases_proper;
    limit_pos = v.limit_pos;
    limit_small = v.limit_small;
  }

  -- A lease is deleted.
  pub take_lease :
      (id : ℕ) (rec : LeaseRec)
      → lookup id l.leases ≡ some rec
      → Inv (rec.e ∷ hand) (record l { leases = delete id l.leases })
        × (is_proper l.cfg.max_deliveries (id, rec) ≡ true)
        × ((w : TelemetryMessage → ℕ)
            → stock w (record l { leases = delete id l.leases }) + of_entry w rec.e ≡ stock w l)
  take_lease id rec found = (
    record {
      main_ring = v.main_ring;
      dlq_ring = v.dlq_ring;
      heap = v.heap;
      budget =
          omega
            (arith, v.budget, lighter (λ _. 1), weigh-one (delete id l.leases), weigh-one l.leases);
      once = λ i. omega (arith, v.once i, lighter (of_lease (has_id i)));
      small = v.small;
      main_unspent = v.main_unspent;
      retry_unspent = v.retry_unspent;
      leases_proper = omega (arith, v.leases_proper, lighter improper);
      limit_pos = v.limit_pos;
      limit_small = v.limit_small;
    },
    ground (arith, v.leases_proper, lighter improper),
    λ w. omega (arith, lighter (of_lease w)),
  )
    where
      lighter :
          (w : ℕ × LeaseRec → ℕ) → w (id, rec) + weigh w (delete id l.leases) ≡ weigh w l.leases
      lighter w = weigh-delete w id l.leases rec found

      improper : ℕ × LeaseRec → ℕ
      improper kv = indicator (not (is_proper l.cfg.max_deliveries kv))
