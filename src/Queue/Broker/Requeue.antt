-- ===== src/Queue/Broker/Requeue.antt =====
-- `requeue` and `backoff`, and the account that every operation gives of the messages it moves.
use vantage.Prelude.{
  ℕ, suc, ◌+◌, ◌%◌, ◌^◌, ◌≤◌, ◌<◌, ◌≡◌, refl, ap, ◌∙◌, Bool, true, false, List, [], ◌∷◌, ◌++◌, leb,
  if◌then◌else◌, length, arith, Returns, Bool-cases, inl, inr, incr64, length-append,
}
use vantage.Prelude.Weigh.{weigh, weigh-append, SameItems-length}
use vantage.Message.{TelemetryMessage}
use vantage.Queue.Ring.{Ring, contents}
use vantage.Queue.Ring.Refine.{Evicts, push_evict-Evicts}
use vantage.Queue.Heap.Up.{push-IsHeap}
use vantage.Queue.Heap.Laws.{IsHeap-default}
use vantage.Queue.Broker.{
  Entry, RetryItem, DlqItem, Broker, max_deliveries_exceeded, earlier, time_add, used, signal_space,
  read_clock, dead_letter, schedule_retry, requeue,
}
use vantage.Queue.Broker.Lanes.{lanes, stock, of_entry, of_dead, nil_item, Inv, earlier-IsOrder}
use vantage.Queue.Broker.Lanes.Put.{put_retry, put_dead}

-- The fields that only `Enqueue`, `Close` and the configuration decide.
abbrev pub Frame : Broker → Broker → Type 0
Frame b b' = record {
  cfg : b'.cfg ≡ b.cfg;
  next_id : b'.next_id ≡ b.next_id;
  closed : b'.closed ≡ b.closed;
  rejected : b'.rejected ≡ b.rejected;
  overflow : b'.dropped_overflow ≡ b.dropped_overflow;
  tripwire : b'.dropped_requeue ≡ b.dropped_requeue;
}

pub untouched : (b : Broker) → Frame b b
untouched b = record {
  cfg = refl;
  next_id = refl;
  closed = refl;
  rejected = refl;
  overflow = refl;
  tripwire = refl;
}

-- What a step that takes the entries `before` out of the operation's hand, and leaves it `after`,
-- does with the messages: those it loses are evicted from the dead-letter lane, and counted; the
-- frame stays; and producers that wait for space are woken when some is freed.
pub record Carry (before : List Entry) (b : Broker) (after : List Entry) (b' : Broker)
    : Type 0 where
  pub lost : List Entry
  pub balance :
      (w : TelemetryMessage → ℕ)
      → stock w (lanes b') + weigh (of_entry w) after + weigh (of_entry w) lost
        ≡ stock w (lanes b) + weigh (of_entry w) before
  pub counted : b'.dlq_evicted % 2 ^ 64 ≡ (b.dlq_evicted + length lost) % 2 ^ 64
  pub frame : Frame b b'
  pub space_grows : b.space ≤ b'.space
  pub woken : used b' + length after < used b + length before → b.space < b'.space

-- A step that loses nothing and frees nothing.
pub carry :
    (before : List Entry) (b : Broker) (after : List Entry) (b' : Broker)
    → ((w : TelemetryMessage → ℕ)
        → stock w (lanes b') + weigh (of_entry w) after
          ≡ stock w (lanes b) + weigh (of_entry w) before)
    → b'.dlq_evicted ≡ b.dlq_evicted
    → Frame b b'
    → b.space ≤ b'.space
    → used b + length before ≤ used b' + length after
    → Carry before b after b'
carry before b after b' balance same frame grows room = record {
  lost = [];
  balance = λ w. omega (arith, balance w);
  counted = ap (λ n. n % 2 ^ 64) (omega arith);
  frame = frame;
  space_grows = grows;
  woken = λ h. absurd (omega arith);
}

pub Carry-refl : (hand : List Entry) (b : Broker) → Carry hand b hand b
Carry-refl hand b = carry hand b hand b (λ w. refl) refl (untouched b) (omega arith) (omega arith)

pub Carry-trans :
    (h₁ h₂ h₃ : List Entry) (b₁ b₂ b₃ : Broker)
    → Carry h₁ b₁ h₂ b₂
    → Carry h₂ b₂ h₃ b₃
    → Carry h₁ b₁ h₃ b₃
Carry-trans h₁ h₂ h₃ b₁ b₂ b₃ p q = record {
  lost = p.lost ++ q.lost;
  balance = λ w. omega (arith, p.balance w, q.balance w, weigh-append (of_entry w) p.lost q.lost);
  counted = omega (arith, p.counted, q.counted, length-append p.lost q.lost);
  frame = record {
    cfg = q.frame.cfg ∙ p.frame.cfg;
    next_id = q.frame.next_id ∙ p.frame.next_id;
    closed = q.frame.closed ∙ p.frame.closed;
    rejected = q.frame.rejected ∙ p.frame.rejected;
    overflow = q.frame.overflow ∙ p.frame.overflow;
    tripwire = q.frame.tripwire ∙ p.frame.tripwire;
  };
  space_grows = omega (arith, p.space_grows, q.space_grows);
  woken = λ h. grind (arith, p.woken, q.woken, p.space_grows, q.space_grows);
}

-- An eviction adds at most the new item.
Evicts-le :
    (n : ℕ) (r : Ring DlqItem) (it : DlqItem) (xs : List DlqItem) (evicted : Bool)
    (r' : Ring DlqItem)
    → Evicts n r it xs evicted r'
    → (w : DlqItem → ℕ) → weigh w (contents r') ≤ weigh w xs + w it
Evicts-le n r it xs true r' (y, ys, before, full, after) w =
    omega (arith, ap (weigh w) before, ap (weigh w) after, weigh-append w ys (it ∷ []))
Evicts-le n r it xs false r' (room, after) w =
    omega (arith, ap (weigh w) after, weigh-append w xs (it ∷ []))

module _ (b : Broker) (e : Entry) (hand : List Entry) (v : Inv (e ∷ hand) (lanes b)) where
  -- A step from `e ∷ hand` to `hand` that keeps the lanes in order, and leaves the leases alone.
  abbrev pub Stored : Broker → Type 0
  Stored b' =
      Inv hand (lanes b')
      × Carry (e ∷ hand) b hand b'
      × (b'.leases ≡ b.leases)
      × (b'.lease_expired ≡ b.lease_expired)
      × (b'.notify ≡ b.notify)

  schedule_retry-Stored :
      (delay : ℕ) → e.attempts < b.cfg.max_deliveries → Returns Stored (schedule_retry b e delay)
  unfolding schedule_retry read_clock used
  schedule_retry-Stored delay unspent =
      let at = time_add (b.cfg.clock b.reads) delay in
      let it : RetryItem = record { e = e; visible_at = at } in
      let (retry, pushed, (heap, same)) =
        push-IsHeap earlier (nil_item e) earlier-IsOrder b.retry it (v.heap e) in
      let (inv, heavier) =
        put_retry e hand (lanes b) v at retry unspent
          (λ d. IsHeap-default earlier (nil_item e) (nil_item d) retry heap) same in
      let longer : length retry ≡ suc (length b.retry) =
        SameItems-length retry (it ∷ b.retry) same in
      (
        record b { reads = b.reads + 1; retry = retry },
        rw pushed,
        (
          inv,
          carry (e ∷ hand) b hand (record b { reads = b.reads + 1; retry = retry })
              (λ w. omega (arith, heavier w)) refl (untouched b) (omega arith)
              (omega (arith, longer)),
          refl,
          refl,
          refl,
        ),
      )

  -- The account of a message that joins the dead-letter lane.
  dead-Carry :
      (it : DlqItem) (evicted : Bool) (dlq : Ring DlqItem)
      → it.e ≡ e
      → Evicts b.cfg.dlq_capacity b.dlq it (contents b.dlq) evicted dlq
      → Carry (e ∷ hand) b hand (record b {
        reads = b.reads + 1;
        dlq = dlq;
        dlq_evicted = if evicted then incr64 b.dlq_evicted else b.dlq_evicted;
        dead_lettered = incr64 b.dead_lettered;
        space = b.space + 1;
      })
  unfolding used
  dead-Carry it true dlq same (y, ys, before, full, after) = record {
    lost = y.e ∷ [];
    balance = λ w. omega (
      arith,
      ap (of_entry w) same,
      ap (weigh (of_dead w)) before,
      ap (weigh (of_dead w)) after,
      weigh-append (of_dead w) ys (it ∷ []),
    );
    counted = omega arith;
    frame = untouched b;
    space_grows = omega arith;
    woken = λ h. omega arith;
  }
  dead-Carry it false dlq same (room, after) = record {
    lost = [];
    balance = λ w. omega (
      arith,
      ap (of_entry w) same,
      ap (weigh (of_dead w)) after,
      weigh-append (of_dead w) (contents b.dlq) (it ∷ []),
    );
    counted = ap (λ n. n % 2 ^ 64) (omega arith);
    frame = untouched b;
    space_grows = omega arith;
    woken = λ h. omega arith;
  }

  dead_letter-Stored : Returns Stored (dead_letter b e)
  unfolding dead_letter read_clock signal_space
  dead_letter-Stored =
      let it : DlqItem = record {
        e = e;
        reason = max_deliveries_exceeded b.cfg.max_deliveries;
        dead_at = b.cfg.clock b.reads;
      } in
      let (evicted, dlq, pushed, ring, how) =
        push_evict-Evicts b.cfg.dlq_capacity b.dlq it v.dlq_ring in
      (
        record b {
          reads = b.reads + 1;
          dlq = dlq;
          dlq_evicted = if evicted then incr64 b.dlq_evicted else b.dlq_evicted;
          dead_lettered = incr64 b.dead_lettered;
          space = b.space + 1;
        },
        rw pushed,
        (
          put_dead e hand (lanes b) v it dlq refl ring
              (Evicts-le b.cfg.dlq_capacity b.dlq it (contents b.dlq) evicted dlq how),
          dead-Carry it evicted dlq refl how,
          refl,
          refl,
          refl,
        ),
      )

  -- `requeue` never panics, and keeps the lanes in order: a message that has had all its deliveries
  -- goes to the dead-letter lane, any other to the retry lane.
  pub requeue-Stored : (delay : ℕ) → Returns Stored (requeue b e delay)
  unfolding requeue
  requeue-Stored delay = elim (Bool-cases (leb b.cfg.max_deliveries e.attempts)) [
    | inl spent ↦ rw spent dead_letter-Stored
    | inr unspent ↦ rw unspent (schedule_retry-Stored delay (ground arith))
  ]
