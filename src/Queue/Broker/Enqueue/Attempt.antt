-- ===== src/Queue/Broker/Enqueue/Attempt.antt =====
-- One stay of `Enqueue` in the critical section.
use vantage.Prelude.{
  ℕ, suc, ◌+◌, ◌^◌, ◌<◌, ◌≡◌, refl, ap, ◌∙◌, inl, inr, Bool, true, false, List, [], ◌∷◌, ◌++◌, ltb,
  arith, Run, ok, ◌>>=◌, Returns, subst, sym, incr64, Bool-cases,
}
use vantage.Message.{TelemetryMessage}
use vantage.Queue.Ring.{Ring, contents}
use vantage.Queue.Ring.Refine.{Pops, pop_front-Pops, push_back-append}
use vantage.Queue.Policy.{OverflowPolicy, reject, drop_oldest, block}
use vantage.Queue.Broker.{Entry, Broker, used}
use vantage.Queue.Broker.Lanes.{Lanes, lanes, load_of, Inv, IsValid}
use vantage.Queue.Broker.Lanes.Put.{put_main, let_go}
use vantage.Queue.Broker.Lanes.Take.{take_main}
use vantage.Queue.Broker.Enqueue.{
  Outcome, admitted, full, closed, parked, admit, drop_front, overflow, attempt_loop, attempt,
}

-- Giving out the next id: a new entry under it is in the hand.
take_fresh :
    (l : Lanes) (e : Entry)
    → Inv [] l
    → load_of l < l.cfg.capacity
    → l.next_id + 1 < 2 ^ 64
    → e.msg.id ≡ l.next_id + 1
    → Inv (e ∷ []) (record l { next_id = l.next_id + 1 })
take_fresh l e v room more fresh = record {
  main_ring = v.main_ring;
  dlq_ring = v.dlq_ring;
  heap = v.heap;
  budget = omega (arith, room);
  once = λ i. ground (arith, v.once i, fresh);
  small = more;
  main_unspent = v.main_unspent;
  retry_unspent = v.retry_unspent;
  leases_proper = v.leases_proper;
  limit_pos = v.limit_pos;
  limit_small = v.limit_small;
}

-- The message as the broker admits it.
abbrev pub numbered : Broker → TelemetryMessage → TelemetryMessage
numbered b m = record m { id = b.next_id + 1 }

abbrev pub fresh : Broker → TelemetryMessage → Entry
fresh b m = record { msg = numbered b m; attempts = 0 }

-- An admission into `b` when its main lane is to hold `xs` before the new entry.
abbrev pub Admits : Broker → TelemetryMessage → List Entry → Outcome × Broker → Type 0
Admits b m xs r =
    (main : Ring Entry) × (r
      ≡ (admitted (numbered b m), record b { main = main; next_id = b.next_id + 1 }))
    × (contents main ≡ xs ++ fresh b m ∷ [])

admit-Admits :
    (b : Broker) (m : TelemetryMessage)
    → IsValid b
    → load_of (lanes b) < b.cfg.capacity
    → b.next_id + 1 < 2 ^ 64
    → Returns (λ r. IsValid r.1 × Admits b m (contents b.main) r) (admit b m)
unfolding admit
admit-Admits b m v room more =
    let e = fresh b m in
    let taken = take_fresh (lanes b) e v room more refl in
    let (main, pushed, ring, order) =
      push_back-append b.cfg.capacity b.main e v.main_ring (omega (arith, room)) in
    let (inv, _) =
      put_main e [] (record (lanes b) { next_id = b.next_id + 1 }) taken main v.limit_pos ring
        order in
    let number : incr64 b.next_id ≡ b.next_id + 1 = omega arith in
    (
      (admitted (numbered b m), record b { main = main; next_id = b.next_id + 1 }),
      rw (number, pushed) refl,
      (inv, (main, refl, order)),
    )

-- A refusal changes one counter.
abbrev pub refused : Broker → Outcome × Broker
refused b = (full, record b { rejected = incr64 b.rejected })

-- What the policy does at a full budget, when the main lane holds `xs`.
abbrev pub AtFull :
    OverflowPolicy → Broker → TelemetryMessage → List Entry → Outcome × Broker → Type 0
AtFull reject b m xs r = r ≡ refused b
AtFull block b m xs r = r ≡ (parked, b)
AtFull drop_oldest b m [] r = r ≡ refused b
AtFull drop_oldest b m (y ∷ ys) r =
    Admits (record b { dropped_overflow = incr64 b.dropped_overflow }) m ys r

-- What a stay in the critical section comes to, when the main lane holds `xs`: by whether the
-- broker is closed, and whether the budget has room.
abbrev pub Stays : Bool → Bool → Broker → TelemetryMessage → List Entry → Outcome × Broker → Type 0
Stays true room b m xs r = r ≡ (closed, b)
Stays false true b m xs r = Admits b m xs r
Stays false false b m xs r = AtFull b.cfg.policy b m xs r

abbrev pub Attempts : Broker → TelemetryMessage → Outcome × Broker → Type 0
Attempts b m r = Stays b.closed (ltb (used b) b.cfg.capacity) b m (contents b.main) r

module _ (m : TelemetryMessage) where
  Stays-from :
      (b : Broker) (r : Outcome × Broker) (shut room : Bool)
      → b.closed ≡ shut
      → ltb (used b) b.cfg.capacity ≡ room
      → Stays shut room b m (contents b.main) r
      → Attempts b m r
  Stays-from b r shut room p q s =
      subst (λ k. Stays k (ltb (used b) b.cfg.capacity) b m (contents b.main) r) (sym p)
        (subst (λ k. Stays shut k b m (contents b.main) r) (sym q) s)

  attempt_loop_closed :
      (fuel : ℕ) (b : Broker) → b.closed ≡ true → attempt_loop (suc fuel) b m ≡ ok (closed, b)
  unfolding attempt_loop
  attempt_loop_closed fuel b h = simp h refl

  attempt_loop_room :
      (fuel : ℕ) (b : Broker)
      → b.closed ≡ false
      → ltb (used b) b.cfg.capacity ≡ true
      → attempt_loop (suc fuel) b m ≡ admit b m
  unfolding attempt_loop
  attempt_loop_room fuel b h room = simp (h, room) refl

  attempt_loop_full :
      (fuel : ℕ) (b : Broker)
      → b.closed ≡ false
      → ltb (used b) b.cfg.capacity ≡ false
      → attempt_loop (suc fuel) b m ≡ overflow b.cfg.policy b (λ b'. attempt_loop fuel b' m)
  unfolding attempt_loop
  attempt_loop_full fuel b h room = simp (h, room) refl

  -- Dropping the oldest makes room for the message.
  drop_then_admit :
      (fuel : ℕ) (b : Broker) (y : Entry) (ys : List Entry)
      → IsValid b
      → b.next_id + 1 < 2 ^ 64
      → b.closed ≡ false
      → contents b.main ≡ y ∷ ys
      → Pops b.cfg.capacity b.main (y ∷ ys)
      → Returns
          (λ r.
            IsValid r.1 × Admits (record b { dropped_overflow = incr64 b.dropped_overflow }) m ys r)
          (overflow drop_oldest b (λ b'. attempt_loop (suc fuel) b' m))
  unfolding used overflow drop_front
  drop_then_admit fuel b y ys v more up before (main, popped, ring, after) =
      let (inv, _, _) = take_main [] (lanes b) v y ys main before ring after in
      let b₁ = record b { main = main; dropped_overflow = incr64 b.dropped_overflow } in
      let v₁ = let_go y [] (lanes b₁) inv in
      let (r, e, (v₂, (main₂, eq, order))) =
        admit-Admits b₁ m v₁ (omega (arith, inv.budget)) more in
      let room : ltb (used b₁) b₁.cfg.capacity ≡ true = ground (arith, inv.budget) in
      (
        r,
        ap (λ o. o >>= drop_front b (λ b'. attempt_loop (suc fuel) b' m)) popped
            ∙ attempt_loop_room fuel b₁ up room
            ∙ e,
        (v₂, (main₂, eq, subst (λ zs. contents main₂ ≡ zs ++ fresh b₁ m ∷ []) after order)),
      )

  overflow-AtFull :
      (fuel : ℕ) (b : Broker) (policy : OverflowPolicy) (xs : List Entry)
      → IsValid b
      → b.next_id + 1 < 2 ^ 64
      → b.closed ≡ false
      → contents b.main ≡ xs
      → Pops b.cfg.capacity b.main xs
      → Returns
          (λ r. IsValid r.1 × AtFull policy b m xs r)
          (overflow policy b (λ b'. attempt_loop (suc fuel) b' m))
  unfolding overflow drop_front
  overflow-AtFull fuel b reject xs v more up before pops = (refused b, refl, (v, refl))
  overflow-AtFull fuel b block xs v more up before pops = ((parked, b), refl, (v, refl))
  overflow-AtFull fuel b drop_oldest [] v more up before pops =
      (refused b, ap (λ o. o >>= drop_front b (λ b'. attempt_loop (suc fuel) b' m)) pops, (v, refl))
  overflow-AtFull fuel b drop_oldest (y ∷ ys) v more up before pops =
      drop_then_admit fuel b y ys v more up before pops

  -- A stay of `Enqueue` in the critical section, with ids left to give, never panics, ends within
  -- the fuel and keeps the state in order. A closed broker is left as it is. With room the message
  -- joins the end of the main lane under the next id. At a full budget the policy decides: reject
  -- counts a refusal, block parks and changes nothing, drop-oldest takes the oldest message out of
  -- the main lane, counts it, and admits the new one, or refuses if the main lane is empty.
  pub attempt-Attempts :
      (b : Broker)
      → IsValid b
      → b.next_id + 1 < 2 ^ 64
      → Returns (λ r. IsValid r.1 × Attempts b m r) (attempt b m)
  unfolding attempt used
  attempt-Attempts b v more = elim (Bool-cases b.closed) [
    | inl shut ↦ (
      (closed, b),
      fuel (attempt_loop_closed (suc b.main.count) b shut),
      (v, Stays-from b _ true (ltb (used b) b.cfg.capacity) shut refl refl),
    )
    | inr up ↦ elim (Bool-cases (ltb (used b) b.cfg.capacity)) [
      | inl room ↦
          let (r, e, (v', a)) = admit-Admits b m v (ground arith) more in
          (
            r,
            fuel (attempt_loop_room (suc b.main.count) b up room) ∙ e,
            (v', Stays-from b r false true up room a),
          )
      | inr no_room ↦
          let (r, e, (v', a)) =
            overflow-AtFull b.main.count b b.cfg.policy (contents b.main) v more up refl
              (pop_front-Pops b.cfg.capacity b.main v.main_ring) in
          (
            r,
            fuel (attempt_loop_full (suc b.main.count) b up no_room) ∙ e,
            (v', Stays-from b r false false up no_room a),
          )
    ]
  ]
    where
      fuel :
          {r : Run (Outcome × Broker)}
          → attempt_loop (suc (suc b.main.count)) b m ≡ r
          → attempt_loop (b.main.count + 2) b m ≡ r
      fuel e =
          let two : b.main.count + 2 ≡ suc (suc b.main.count) = omega arith in
          ap (λ n. attempt_loop n b m) two ∙ e
