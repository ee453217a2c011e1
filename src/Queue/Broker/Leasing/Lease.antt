-- ===== src/Queue/Broker/Leasing/Lease.antt =====
-- `Lease` of internal/queue/broker.go.
use vantage.Prelude.{
  ℕ, ◌+◌, ◌≤◌, ◌<◌, ◌≡◌, refl, ap, ◌∙◌, inl, inr, true, false, List, [], ◌∷◌, Option, none, some,
  leb, length, arith, ok, Returns, Bool-cases,
}
use vantage.Prelude.Weigh.{weigh, weigh-one}
use vantage.Message.{TelemetryMessage}
use vantage.Queue.Ring.{contents}
use vantage.Queue.Ring.Refine.{Pops, pop_front-Pops}
use vantage.Queue.Heap
use vantage.Queue.Heap.Array.{get_or}
use vantage.Queue.Heap.Down.{pop-IsHeap}
use vantage.Queue.Heap.Laws.{IsHeap-default}
use vantage.Queue.Table.{lookup, insert}
use vantage.Queue.Table.Laws.{weigh-insert, lookup-insert}
use vantage.Queue.Broker.{Entry, LeaseRec, RetryItem, Broker, earlier, time_add, used, read_clock}
use vantage.Queue.Broker.Lanes.{lanes, stock, of_entry, nil_item, Inv, IsValid, earlier-IsOrder}
use vantage.Queue.Broker.Lanes.Put.{put_lease, relabel, unleased}
use vantage.Queue.Broker.Lanes.Take.{take_main, take_retry}
use vantage.Queue.Broker.Requeue.{Carry, carry, untouched, Carry-refl, Carry-trans}
use vantage.Queue.Broker.Leasing.{retry_due, next_fresh, next_entry, deliver, grant, lease}

-- What taking the next entry comes to: nothing is there, or an entry with deliveries left is in
-- the hand. No message is lost, and only lanes and the count of clock readings move.
abbrev Taken : Broker → Option Entry × Broker → Type 0
Taken b (none, b') = IsValid b' × Carry [] b [] b' × (lanes b' ≡ lanes b)
Taken b (some e, b') =
    Inv (e ∷ []) (lanes b')
    × Carry [] b (e ∷ []) b'
    × (e.attempts < b.cfg.max_deliveries)
    × (b'.leases ≡ b.leases)
    × ((w : TelemetryMessage → ℕ) → stock w (lanes b') + of_entry w e ≡ stock w (lanes b))

next_fresh_from :
    (b : Broker) (xs : List Entry)
    → IsValid b
    → contents b.main ≡ xs
    → Pops b.cfg.capacity b.main xs
    → Returns (Taken b) (next_fresh b)
unfolding next_fresh used
next_fresh_from b [] v e pops = ((none, b), rw pops, (v, Carry-refl [] b, refl))
next_fresh_from b (e ∷ xs) v before (main, popped, ring, after) =
    let (inv, unspent, lighter) = take_main [] (lanes b) v e xs main before ring after in
    (
      (some e, record b { main = main }),
      rw popped,
      (
        inv,
        carry [] b (e ∷ []) (record b { main = main }) (λ w. omega (arith, lighter w)) refl
            (untouched b) (omega arith)
            (omega (arith, ring.counted, v.main_ring.counted, ap length before, ap length after)),
        unspent,
        refl,
        lighter,
      ),
    )

next_fresh-Taken : (b : Broker) → IsValid b → Returns (Taken b) (next_fresh b)
next_fresh-Taken b v =
    next_fresh_from b (contents b.main) v refl (pop_front-Pops b.cfg.capacity b.main v.main_ring)

-- A reading of the clock moves no message.
pub reading-Carry :
    (b : Broker) (hand : List Entry) (n : ℕ) → Carry hand b hand (record b { reads = n })
unfolding used
reading-Carry b hand n =
    carry hand b hand (record b { reads = n }) (λ w. refl) refl (untouched b) (omega arith)
      (omega arith)

Taken-reads :
    (b : Broker) (n : ℕ) (r : Option Entry × Broker) → Taken (record b { reads = n }) r → Taken b r
Taken-reads b n (none, b') (v, c, same) =
    (v, Carry-trans [] [] [] b (record b { reads = n }) b' (reading-Carry b [] n) c, same)
Taken-reads b n (some e, b') (v, c, unspent, kept, lighter) = (
  v,
  Carry-trans [] [] (e ∷ []) b (record b { reads = n }) b' (reading-Carry b [] n) c,
  unspent,
  kept,
  lighter,
)

pub retry_due-cons :
    (b : Broker) (it : RetryItem) (rest : List RetryItem)
    → b.retry ≡ it ∷ rest
    → retry_due b ≡ (leb it.visible_at (b.cfg.clock b.reads), record b { reads = b.reads + 1 })
unfolding retry_due read_clock
retry_due-cons b it rest e = ground (arith, e)

-- With an empty retry lane the clock is not read.
next_entry_idle : (b : Broker) → b.retry ≡ [] → next_entry b ≡ next_fresh b
unfolding next_entry
next_entry_idle b e = rw (e, next_entry)

-- A retry that is not yet visible waits.
next_entry_waits :
    (b : Broker) (it : RetryItem) (rest : List RetryItem)
    → b.retry ≡ it ∷ rest
    → leb it.visible_at (b.cfg.clock b.reads) ≡ false
    → next_entry b ≡ next_fresh (record b { reads = b.reads + 1 })
unfolding next_entry
next_entry_waits b it rest e h = rw (retry_due-cons b it rest e, h)

-- A visible retry goes first.
next_entry_due :
    (b : Broker) (it it' : RetryItem) (rest retry : List RetryItem)
    → b.retry ≡ it ∷ rest
    → leb it.visible_at (b.cfg.clock b.reads) ≡ true
    → Heap.pop earlier b.retry ≡ ok (it', retry)
    → next_entry b ≡ ok (some it'.e, record b { reads = b.reads + 1; retry = retry })
unfolding next_entry
next_entry_due b it it' rest retry e h pop = rw (retry_due-cons b it rest e, h, pop)

next_entry_pop :
    (b : Broker) (it : RetryItem) (rest : List RetryItem)
    → IsValid b
    → b.retry ≡ it ∷ rest
    → leb it.visible_at (b.cfg.clock b.reads) ≡ true
    → Returns (Taken b) (next_entry b)
unfolding used
next_entry_pop b it rest v e h =
    let d = nil_item it.e in
    let (retry, popped, heap, lighter) =
      pop-IsHeap earlier d earlier-IsOrder b.retry (omega (arith, ap length e)) (v.heap it.e) in
    let first = get_or b.retry 0 d in
    let (inv, unspent, less) =
      take_retry [] (lanes b) v first retry
        (λ d'. IsHeap-default earlier d (nil_item d') retry heap) lighter in
    let b' = record b { reads = b.reads + 1; retry = retry } in
    (
      (some first.e, b'),
      next_entry_due b it first rest retry e h popped,
      (
        inv,
        carry [] b (first.e ∷ []) b' (λ w. omega (arith, less w)) refl (untouched b) (omega arith)
            (omega (arith, lighter (λ _. 1), weigh-one retry, weigh-one b.retry)),
        unspent,
        refl,
        less,
      ),
    )

next_entry_from :
    (b : Broker) (retry : List RetryItem)
    → IsValid b
    → b.retry ≡ retry
    → Returns (Taken b) (next_entry b)
next_entry_from b [] v e = rw (next_entry_idle b e) (next_fresh-Taken b v)
next_entry_from b (it ∷ rest) v e = elim (Bool-cases (leb it.visible_at (b.cfg.clock b.reads))) [
  | inl due ↦ next_entry_pop b it rest v e due
  | inr early ↦
      let (r, eq, t) = next_fresh-Taken (record b { reads = b.reads + 1 }) v in
      (r, next_entry_waits b it rest e early ∙ eq, Taken-reads b (b.reads + 1) r t)
]

next_entry-Taken : (b : Broker) → IsValid b → Returns (Taken b) (next_entry b)
next_entry-Taken b v = next_entry_from b b.retry v refl

-- What `Lease` gives a consumer: nothing, or a message that the table then holds for it under its
-- id, with its delivery count, which is between one and the limit.
abbrev pub Leased : Broker → ℕ → Option TelemetryMessage × Broker → Type 0
Leased b consumer (none, b') = lanes b' ≡ lanes b
Leased b consumer (some m, b') =
    (rec : LeaseRec) × (lookup m.id b'.leases ≡ some rec)
    × (lookup m.id b.leases ≡ none)
    × (rec.consumer ≡ consumer)
    × (rec.e ≡ record { msg = m; attempts = m.delivery_attempts })
    × (0 < m.delivery_attempts)
    × (m.delivery_attempts ≤ b.cfg.max_deliveries)
    × ((w : ℕ × LeaseRec → ℕ) → weigh w b'.leases ≡ w (m.id, rec) + weigh w b.leases)

-- The state after `Lease` is in order, and no message was lost or made up.
abbrev pub LeaseKeeps : Broker → Option TelemetryMessage × Broker → Type 0
LeaseKeeps b r =
    IsValid r.1
    × Carry [] b [] r.1
    × ((w : TelemetryMessage → ℕ) → stock w (lanes r.1) ≡ stock w (lanes b))

lease_of_Taken :
    (b : Broker) (consumer : ℕ) (r : Option Entry × Broker)
    → next_entry b ≡ ok r
    → Taken b r
    → Returns (λ s. LeaseKeeps b s × Leased b consumer s) (lease b consumer)
unfolding lease deliver grant read_clock used
lease_of_Taken b consumer (none, b') e (v, c, same) =
    ((none, b'), rw e, ((v, c, λ w. ap (stock w) same), same))
lease_of_Taken b consumer (some x, b') e (v, c, unspent, kept, lighter) =
    let y = deliver x in
    let v' = relabel x [] (lanes b') v y refl in
    let limit : b'.cfg.max_deliveries ≡ b.cfg.max_deliveries =
      ap (λ k. k.max_deliveries) c.frame.cfg in
    let rec : LeaseRec = record {
      e = y;
      consumer = consumer;
      deadline = time_add (b'.cfg.clock b'.reads) b'.cfg.lease_ttl;
    } in
    let free = unleased y [] (lanes b') v' in
    let (inv, heavier) =
      put_lease y [] (lanes b') v' rec refl (omega (arith, v.limit_small, limit))
        (omega (arith, v.limit_small, limit)) in
    let b'' = record b' { reads = b'.reads + 1; leases = insert y.msg.id rec b'.leases } in
    let longer = weigh-insert (λ _. 1) y.msg.id rec b'.leases free in
    let stored =
      carry (x ∷ []) b' [] b'' (λ w. omega (arith, heavier w)) refl (untouched b') (omega arith)
        (omega (arith, longer, weigh-one b''.leases, weigh-one b'.leases)) in
    (
      (some y.msg, b''),
      rw e,
      (
        (
          inv,
          Carry-trans [] (x ∷ []) [] b b' b'' c stored,
          λ w. omega (arith, heavier w, lighter w),
        ),
        (
          rec,
          ground (arith, lookup-insert y.msg.id y.msg.id rec b'.leases),
          rw (← kept) free,
          refl,
          refl,
          omega (arith, v.limit_small, limit),
          omega (arith, v.limit_small, limit),
          λ w.
              weigh-insert w y.msg.id rec b'.leases free
              ∙ ap (λ l. w (y.msg.id, rec) + weigh w l) kept,
        ),
      ),
    )

-- `Lease` in a state that is in order never panics and keeps it in order. It loses no message and
-- makes none up; and what it returns is leased to the consumer, under the message's id, with the
-- delivery count that goes out on the wire, at least one and at most the limit. The other leases
-- stay.
pub lease-Leased :
    (b : Broker) (consumer : ℕ)
    → IsValid b
    → Returns (λ r. LeaseKeeps b r × Leased b consumer r) (lease b consumer)
lease-Leased b consumer v = let (r, e, t) = next_entry-Taken b v in lease_of_Taken b consumer r e t
