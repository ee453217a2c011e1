-- ===== src/Queue/Broker/Dlq/Replay.antt =====
-- `DLQReplay` of internal/queue/broker.go.
use vantage.Prelude.{
  ℕ, zero, suc, ◌+◌, ◌-◌, ◌<◌, ◌≡◌, refl, ap, sym, subst, ◌∙◌, inl, inr, true, false, List, [], ◌∷◌,
  ◌++◌, ltb, length, arith, Run, ok, ◌>>=◌, Returns, Bool-cases, map, append_assoc, append-nil,
  length-append, min,
}
use vantage.Queue.Ring.{Ring, contents, push_back, pop_front}
use vantage.Queue.Ring.Refine.{IsRing, Pops, pop_front-Pops, push_back-append}
use vantage.Queue.Broker.{Entry, DlqItem, Broker, used}
use vantage.Queue.Broker.Lanes.{lanes, IsValid}
use vantage.Queue.Broker.Lanes.Put.{put_main, relabel}
use vantage.Queue.Broker.Lanes.Take.{take_dead}
use vantage.Queue.Broker.Dlq.{replay_front, replay_loop, dlq_replay}

-- A dead message as it goes back to the main lane.
abbrev pub revived : DlqItem → Entry
revived it = record it.e { attempts = 0 }

-- The number `n` of dead messages is taken off `xs` and put behind `ms`.
abbrev pub Moves : ℕ → List Entry → List DlqItem → List Entry → List DlqItem → Type 0
Moves n ms xs ms' xs' =
    (zs : List DlqItem) × (length zs ≡ n) × (xs ≡ zs ++ xs') × (ms' ≡ ms ++ map revived zs)

-- The state that `n` rounds leave.
abbrev pub Replayed : Broker → ℕ × Broker → Type 0
Replayed b r =
    (main : Ring Entry) × (dlq : Ring DlqItem) × (r.1 ≡ record b { main = main; dlq = dlq })
    × IsValid (record b { main = main; dlq = dlq })
    × Moves r.0 (contents b.main) (contents b.dlq) (contents main) (contents dlq)

-- One round moves the front of the lane.
replay_step :
    (b : Broker) (it : DlqItem) (xs : List DlqItem) (dlq : Ring DlqItem)
    → IsValid b
    → used b < b.cfg.capacity
    → contents b.dlq ≡ it ∷ xs
    → IsRing b.cfg.dlq_capacity dlq
    → contents dlq ≡ xs
    → (main : Ring Entry) × (push_back b.main (revived it) ≡ ok main)
      × IsValid (record b { dlq = dlq; main = main })
      × (contents main ≡ contents b.main ++ revived it ∷ [])
unfolding used
replay_step b it xs dlq v room before ring after =
    let inv = take_dead [] (lanes b) v it xs dlq before ring after (omega (arith, room)) in
    let inv' = relabel it.e [] (record (lanes b) { dlq = dlq }) inv (revived it) refl in
    let (main, pushed, ring', order) =
      push_back-append b.cfg.capacity b.main (revived it) v.main_ring (omega (arith, room)) in
    let (done, _) =
      put_main (revived it) [] (record (lanes b) { dlq = dlq }) inv' main v.limit_pos ring' order in
    (main, pushed, done, order)

-- `n` entries moved before, and `k` in the rounds that follow.
Replayed-from :
    (b : Broker) (it : DlqItem) (xs : List DlqItem) (main : Ring Entry) (dlq : Ring DlqItem) (n : ℕ)
    → contents b.dlq ≡ it ∷ xs
    → contents dlq ≡ xs
    → contents main ≡ contents b.main ++ revived it ∷ []
    → (k : ℕ) (b' : Broker) → Replayed (record b { dlq = dlq; main = main }) (k, b')
    → Replayed b (suc k, b')
Replayed-from b it xs main dlq n before after order k b'
      (main', dlq', e, v, (zs, size, split, moved)) =
    (
      main',
      dlq',
      e,
      v,
      (
        it ∷ zs,
        omega (arith, size),
        before ∙ ap (λ ys. it ∷ ys) (sym after ∙ split),
        moved
            ∙ ap (λ ys. ys ++ map revived zs) order
            ∙ append_assoc (contents b.main) (revived it ∷ []) (map revived zs),
      ),
    )

-- The rounds left, with the count `n` so far: they end when the lane is empty or the budget full.
abbrev ReplaysOn : Broker → ℕ → ℕ × Broker → Type 0
ReplaysOn b n r =
    (k : ℕ) × (k ≡ min b.dlq.count (b.cfg.capacity - used b)) × (r.0 ≡ n + k) × Replayed b (k, r.1)

replay_none : (b : Broker) → IsValid b → Replayed b (0, b)
replay_none b v = (b.main, b.dlq, refl, v, ([], refl, refl, sym (append-nil (contents b.main))))

-- Of a budget that is not full.
replay_loop_room :
    (fuel : ℕ) (b : Broker) (n : ℕ)
    → ltb (used b) b.cfg.capacity ≡ true
    → replay_loop (suc fuel) b n ≡ (pop_front b.dlq >>= replay_front b n (replay_loop fuel))
unfolding replay_loop
replay_loop_room fuel b n room = simp room refl

replay_loop_full :
    (fuel : ℕ) (b : Broker) (n : ℕ)
    → ltb (used b) b.cfg.capacity ≡ false
    → replay_loop (suc fuel) b n ≡ ok (n, b)
unfolding replay_loop
replay_loop_full fuel b n full = simp full refl

-- The rounds that the lane and the budget allow, one less after a round.
next_size :
    (b : Broker) (it : DlqItem) (xs : List DlqItem) (main : Ring Entry) (dlq : Ring DlqItem) (k : ℕ)
    → IsValid b
    → IsValid (record b { dlq = dlq; main = main })
    → used b < b.cfg.capacity
    → contents b.dlq ≡ it ∷ xs
    → contents dlq ≡ xs
    → contents main ≡ contents b.main ++ revived it ∷ []
    → k ≡ min dlq.count (b.cfg.capacity - used (record b { dlq = dlq; main = main }))
    → suc k ≡ min b.dlq.count (b.cfg.capacity - used b)
unfolding used
next_size b it xs main dlq k v v₁ room before after order size = ground (
  arith,
  v.dlq_ring.counted,
  v₁.dlq_ring.counted,
  v.main_ring.counted,
  v₁.main_ring.counted,
  ap length before,
  ap length after,
  ap length order,
  length-append (contents b.main) (revived it ∷ []),
)

-- A round that has room, when the rounds after it are known.
replay_round :
    (again : Broker → ℕ → Run (ℕ × Broker)) (b : Broker) (n : ℕ) (xs : List DlqItem)
    → ((b' : Broker) (m : ℕ)
        → IsValid b'
        → suc (length (contents b'.dlq)) ≡ length xs
        → Returns (ReplaysOn b' m) (again b' m))
    → IsValid b
    → used b < b.cfg.capacity
    → contents b.dlq ≡ xs
    → Pops b.cfg.dlq_capacity b.dlq xs
    → Returns (ReplaysOn b n) (pop_front b.dlq >>= replay_front b n again)
unfolding replay_front
replay_round again b n [] ih v room before pops = (
  (n, b),
  ap (λ o. o >>= replay_front b n again) pops,
  (0, ground (arith, v.dlq_ring.counted, ap length before), omega arith, replay_none b v),
)
replay_round again b n (it ∷ xs) ih v room before (dlq, popped, ring, after) =
    let (main, pushed, v₁, order) = replay_step b it xs dlq v room before ring after in
    let b₁ = record b { dlq = dlq; main = main } in
    let (r, e, (k, size, sum, replayed)) = ih b₁ (n + 1) v₁ (omega (arith, ap length after)) in
    (
      r,
      ap (λ o. o >>= replay_front b n again) popped
          ∙ ap (λ o. o >>= (λ main. again (record b { dlq = dlq; main = main }) (n + 1))) pushed
          ∙ e,
      (
        suc k,
        next_size b it xs main dlq k v v₁ room before after order size,
        omega (arith, sum),
        Replayed-from b it xs main dlq n before after order k r.1 replayed,
      ),
    )

replay_loop-ReplaysOn :
    (fuel : ℕ) (b : Broker) (n : ℕ)
    → IsValid b
    → length (contents b.dlq) < fuel
    → Returns (ReplaysOn b n) (replay_loop fuel b n)
replay_loop-ReplaysOn zero b n v h = absurd (omega arith)
replay_loop-ReplaysOn (suc fuel) b n v h = elim (Bool-cases (ltb (used b) b.cfg.capacity)) [
  | inl room ↦
      let (r, e, t) =
        replay_round (replay_loop fuel) b n (contents b.dlq)
          (λ b' m v' shorter. replay_loop-ReplaysOn fuel b' m v' (omega (arith, h, shorter))) v
          (ground arith) refl (pop_front-Pops b.cfg.dlq_capacity b.dlq v.dlq_ring) in
      (r, replay_loop_room fuel b n room ∙ e, t)
  | inr no_room ↦
      ((n, b), replay_loop_full fuel b n no_room, (0, ground arith, omega arith, replay_none b v))
]

-- In a state that is in order `DLQReplay` never panics, ends within its fuel and keeps it in
-- order. It moves as many of the oldest dead messages as the lane holds and the budget has room
-- for, and reports that number; they stand at the end of the main lane, in the order in which they
-- died, with no delivery counted; nothing else changes.
pub dlq_replay-Replayed :
    (b : Broker)
    → IsValid b
    → Returns (λ r. (r.0 ≡ min b.dlq.count (b.cfg.capacity - used b)) × Replayed b r) (dlq_replay b)
unfolding dlq_replay
dlq_replay-Replayed b v =
    let (r, e, (k, size, sum, replayed)) =
      replay_loop-ReplaysOn (b.dlq.count + 1) b 0 v (omega (arith, v.dlq_ring.counted)) in
    let same : k ≡ r.0 = omega (arith, sum) in
    (r, e, (omega (arith, size, sum), subst (λ j. Replayed b (j, r.1)) same replayed))
