-- ===== src/Queue/Broker/Lanes/Put.antt =====
-- An entry that an operation puts from its hand into a lane.
use vantage.Prelude.{
  ℕ, ◌+◌, ◌≤◌, ◌<◌, ◌≡◌, refl, ap, not, List, [], ◌∷◌, ◌++◌, none, indicator, length, arith,
  length-append,
}
use vantage.Prelude.Weigh.{weigh, count, weigh-append, weigh-one, SameItems}
use vantage.Message.{TelemetryMessage, payload}
use vantage.Queue.Ring.{Ring, contents}
use vantage.Queue.Ring.Refine.{IsRing, count-contents}
use vantage.Queue.Heap.Up.{IsHeap}
use vantage.Queue.Table.{Table, lookup, insert}
use vantage.Queue.Table.Laws.{weigh-insert, entries_at, lookup_of_entries_zero}
use vantage.Queue.Broker.{Entry, LeaseRec, RetryItem, DlqItem, earlier}
use vantage.Queue.Broker.Lanes.{
  Lanes, of_entry, of_retry, of_lease, of_dead, stock, has_id, is_spent, is_proper, nil_item, Inv,
}

-- Proper leases stand under their messages' ids.
pub entries_at-proper :
    (limit i : ℕ) (m : Table LeaseRec)
    → count (λ kv. not (is_proper limit kv)) m ≡ 0
    → entries_at i m ≡ weigh (of_lease (has_id i)) m
entries_at-proper limit i [] h = refl
entries_at-proper limit i ((k, rec) ∷ m) h = ground (arith, entries_at-proper limit i m)

module _ (e : Entry) (hand : List Entry) (l : Lanes) (v : Inv (e ∷ hand) l) where
  -- An entry that is not spent goes to the end of the main lane.
  pub put_main :
      (main : Ring Entry)
      → e.attempts < l.cfg.max_deliveries
      → IsRing l.cfg.capacity main
      → contents main ≡ contents l.main ++ e ∷ []
      → Inv hand (record l { main = main })
        × ((w : TelemetryMessage → ℕ)
            → stock w (record l { main = main }) ≡ stock w l + of_entry w e)
  put_main main unspent ring after = (
    record {
      main_ring = ring;
      dlq_ring = v.dlq_ring;
      heap = v.heap;
      budget = omega (arith, v.budget, sizes);
      once = λ i. omega (arith, v.once i, heavier (of_entry (has_id i)));
      small = v.small;
      main_unspent =
          ground
            (arith, v.main_unspent, heavier (λ x. indicator (is_spent l.cfg.max_deliveries x)));
      retry_unspent = v.retry_unspent;
      leases_proper = v.leases_proper;
      limit_pos = v.limit_pos;
      limit_small = v.limit_small;
    },
    λ w. omega (arith, heavier (of_entry w)),
  )
    where
      heavier : (w : Entry → ℕ) → weigh w (contents main) ≡ weigh w (contents l.main) + w e
      heavier w = omega (arith, ap (weigh w) after, weigh-append w (contents l.main) (e ∷ []))

      sizes : main.count ≡ l.main.count + 1
      sizes = omega (
        arith,
        count-contents l.cfg.capacity main ring,
        count-contents l.cfg.capacity l.main v.main_ring,
        ap length after,
        length-append (contents l.main) (e ∷ []),
      )

  -- An entry that is not spent joins the retry lane.
  pub put_retry :
      (at : ℕ) (retry : List RetryItem)
      → e.attempts < l.cfg.max_deliveries
      → ((e : Entry) → IsHeap earlier (nil_item e) retry)
      → SameItems retry (record { e = e; visible_at = at } ∷ l.retry)
      → Inv hand (record l { retry = retry })
        × ((w : TelemetryMessage → ℕ)
            → stock w (record l { retry = retry }) ≡ stock w l + of_entry w e)
  put_retry at retry unspent heap heavier = (
    record {
      main_ring = v.main_ring;
      dlq_ring = v.dlq_ring;
      heap = heap;
      budget = omega (arith, v.budget, heavier (λ _. 1), weigh-one retry, weigh-one l.retry);
      once = λ i. omega (arith, v.once i, heavier (of_retry (has_id i)));
      small = v.small;
      main_unspent = v.main_unspent;
      retry_unspent =
          ground
            (arith, v.retry_unspent, heavier (λ x. indicator (is_spent l.cfg.max_deliveries x.e)));
      leases_proper = v.leases_proper;
      limit_pos = v.limit_pos;
      limit_small = v.limit_small;
    },
    λ w. omega (arith, heavier (of_retry w)),
  )

  -- No lease stands under the id of an entry in the hand.
  pub unleased : lookup e.msg.id l.leases ≡ none
  unleased = lookup_of_entries_zero e.msg.id l.leases (
      ground (
        arith,
        v.once e.msg.id,
        entries_at-proper l.cfg.max_deliveries e.msg.id l.leases v.leases_proper,
      ))

  -- An entry in the hand is leased, under its id.
  pub put_lease :
      (rec : LeaseRec)
      → rec.e ≡ e
      → 0 < e.attempts
      → e.attempts ≤ l.cfg.max_deliveries
      → Inv hand (record l { leases = insert e.msg.id rec l.leases })
        × ((w : TelemetryMessage → ℕ)
            → stock w (record l { leases = insert e.msg.id rec l.leases })
              ≡ stock w l + of_entry w e)
  put_lease rec same pos within = (
    record {
      main_ring = v.main_ring;
      dlq_ring = v.dlq_ring;
      heap = v.heap;
      budget = omega (
        arith,
        v.budget,
        heavier (λ _. 1),
        weigh-one (insert e.msg.id rec l.leases),
        weigh-one l.leases,
      );
      once = λ i.
          omega (arith, v.once i, heavier (of_lease (has_id i)), ap (of_entry (has_id i)) same);
      small = v.small;
      main_unspent = v.main_unspent;
      retry_unspent = v.retry_unspent;
      leases_proper = ground (
        arith,
        v.leases_proper,
        same,
        heavier (λ kv. indicator (not (is_proper l.cfg.max_deliveries kv))),
      );
      limit_pos = v.limit_pos;
      limit_small = v.limit_small;
    },
    λ w. omega (arith, heavier (of_lease w), ap (of_entry w) same),
  )
    where
      heavier :
          (w : ℕ × LeaseRec → ℕ)
          → weigh w (insert e.msg.id rec l.leases) ≡ w (e.msg.id, rec) + weigh w l.leases
      heavier w = weigh-insert w e.msg.id rec l.leases unleased

  -- An entry joins the dead-letter lane, which may be full.
  pub put_dead :
      (it : DlqItem) (dlq : Ring DlqItem)
      → it.e ≡ e
      → IsRing l.cfg.dlq_capacity dlq
      → ((w : DlqItem → ℕ) → weigh w (contents dlq) ≤ weigh w (contents l.dlq) + w it)
      → Inv hand (record l { dlq = dlq })
  put_dead it dlq same ring heavier = record {
    main_ring = v.main_ring;
    dlq_ring = ring;
    heap = v.heap;
    budget = omega (arith, v.budget);
    once =
        λ i. omega (arith, v.once i, heavier (of_dead (has_id i)), ap (of_entry (has_id i)) same);
    small = v.small;
    main_unspent = v.main_unspent;
    retry_unspent = v.retry_unspent;
    leases_proper = v.leases_proper;
    limit_pos = v.limit_pos;
    limit_small = v.limit_small;
  }

  -- The hand lets an entry go.
  pub let_go : Inv hand l
  let_go = record {
    main_ring = v.main_ring;
    dlq_ring = v.dlq_ring;
    heap = v.heap;
    budget = omega (arith, v.budget);
    once = λ i. omega (arith, v.once i);
    small = v.small;
    main_unspent = v.main_unspent;
    retry_unspent = v.retry_unspent;
    leases_proper = v.leases_proper;
    limit_pos = v.limit_pos;
    limit_small = v.limit_small;
  }

  -- The delivery count of an entry in the hand may change.
  pub relabel : (e' : Entry) → payload e'.msg ≡ payload e.msg → Inv (e' ∷ hand) l
  relabel e' same = record {
    main_ring = v.main_ring;
    dlq_ring = v.dlq_ring;
    heap = v.heap;
    budget = v.budget;
    once = λ i. omega (arith, v.once i, ap (has_id i) same);
    small = v.small;
    main_unspent = v.main_unspent;
    retry_unspent = v.retry_unspent;
    leases_proper = v.leases_proper;
    limit_pos = v.limit_pos;
    limit_small = v.limit_small;
  }
