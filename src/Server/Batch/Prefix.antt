-- ===== src/Server/Batch/Prefix.antt =====
-- The prefix of a batch that `ProduceBatch` of internal/server/server.go accepts.
use Prim.Native.Nat.{◌%◌, ◌^◌, ◌-◌}
use vantage.Prelude.{
  All, ◌≢◌, lt→ltb, ◌⊎◌, ℕ, suc, ◌+◌, ◌≤◌, ◌<◌, ◌≡◌, refl, ap, ◌∙◌, sym, subst, List, [], ◌∷◌, Bool,
  true, false, ◌||◌, Option, none, some, ltb, ◌==◌, length, if◌then◌else◌, incr64, Run, ok, ◌>>=◌,
  Returns, arith, Option-cases, inl, inr,
}
use vantage.Message.{TelemetryMessage}
use vantage.Queue.Broker.{Broker}
use vantage.Queue.Broker.Lanes.{IsValid}
use vantage.Queue.Broker.Enqueue.{
  Wake, space_freed, timed_out, cancelled, EnqueueResult, accepted, err_full, err_closed,
  err_context, waiting,
}
use vantage.Queue.Broker.Enqueue.Waits.{IsReady, AllReady, Settles, enqueue-Settles}
use vantage.Server.{MqServer, notify_all, is_shutting_down}
use vantage.Server.Batch.{
  Turn, found_or, admit_batch, count_accepted, BatchEnd, all_in, refused_full, store_closed,
  caller_gone, parked_on, BatchReply, batch_invalid, batch_unavailable, batch_pending,
  batch_response, no_nil, valid_batch, batch_step, enqueue_all, count_refusal, answer_batch,
  produce_batch,
}

-- What the loop comes to after `n` of `n + k` messages: the state is in order, at most all are
-- accepted, and all of them if the loop ends by itself.
abbrev pub Ended : ℕ → ℕ × BatchEnd × Broker → Type 0
Ended total (n, all_in, b) = IsValid b × (n ≡ total)
Ended total (n, refused_full, b) = IsValid b × (n < total)
Ended total (n, store_closed, b) = IsValid b × (n < total)
Ended total (n, caller_gone, b) = IsValid b × (n < total)
Ended total (n, parked_on, b) = IsValid b × (n < total)

-- What the loop meets is in order, with an id left for each of `n` messages.
abbrev pub IsFound : ℕ → Option Broker → Type 0
IsFound n none = Unit
IsFound n (some b) = IsValid b × (b.next_id + n < 2 ^ 64)

abbrev pub IsTurn : ℕ → Turn → Type 0
IsTurn n turn = IsFound n turn.found × AllReady n turn.wakes

AllReady-mono : {j k : ℕ} (ws : List Wake) → j ≤ k → AllReady k ws → AllReady j ws
AllReady-mono [] le all = tt
AllReady-mono (space_freed b ∷ ws) le ((v, more), all) =
    ((v, omega (arith, le, more)), AllReady-mono ws le all)
AllReady-mono (timed_out b ∷ ws) le ((v, more), all) =
    ((v, omega (arith, le, more)), AllReady-mono ws le all)
AllReady-mono (cancelled b ∷ ws) le ((v, more), all) =
    ((v, omega (arith, le, more)), AllReady-mono ws le all)

IsFound-mono : {j k : ℕ} (o : Option Broker) → j ≤ k → IsFound k o → IsFound j o
IsFound-mono none le h = tt
IsFound-mono (some b) le (v, more) = (v, omega (arith, le, more))

found_or-IsReady :
    (k : ℕ) (o : Option Broker) (b : Broker)
    → IsFound (suc k) o
    → IsReady k b
    → IsReady k (found_or o b)
unfolding found_or
found_or-IsReady k none b found ready = ready
found_or-IsReady k (some b') b (v, more) ready = (v, omega (arith, more))

module _ (turns : ℕ → Turn) (total : ℕ) where
  batch_step-Ended :
      (again : Broker → Run (ℕ × BatchEnd × Broker)) (n k : ℕ) (m : TelemetryMessage)
      (r : EnqueueResult × Broker)
      → n + suc k ≡ total
      → ((b : Broker) → IsValid b → b.next_id + k < 2 ^ 64 → Returns (Ended total) (again b))
      → Settles k m r
      → Returns (Ended total) (batch_step again n r)
  unfolding batch_step
  batch_step-Ended again n k m (accepted m', b) h next (v, _, left) = next b v left
  batch_step-Ended again n k m (err_full, b) h next (v, _, _) =
      ((n, refused_full, b), refl, (v, omega arith))
  batch_step-Ended again n k m (err_closed, b) h next (v, _, _) =
      ((n, store_closed, b), refl, (v, omega arith))
  batch_step-Ended again n k m (err_context, b) h next (v, _, _) =
      ((n, caller_gone, b), refl, (v, omega arith))
  batch_step-Ended again n k m (waiting, b) h next (v, _, _) =
      ((n, parked_on, b), refl, (v, omega arith))

  enqueue_all-Ended :
      ((i : ℕ) → IsTurn total (turns i))
      → (n : ℕ) (b : Broker) (ms : List TelemetryMessage) → n + length ms ≡ total
      → IsValid b
      → b.next_id + length ms < 2 ^ 64
      → Returns (Ended total) (enqueue_all turns n b ms)
  unfolding enqueue_all
  enqueue_all-Ended all n b [] h v more = ((n, all_in, b), refl, (v, omega (arith, h)))
  enqueue_all-Ended all n b (m ∷ ms) h v more =
      let (r, e, settled) =
        enqueue-Settles (length ms) (found_or (turns n).found b) m (turns n).wakes
          (found_or-IsReady (length ms) (turns n).found b
            (IsFound-mono (turns n).found (omega (arith, h)) (all n).0) (v, omega (arith, more)))
          (AllReady-mono (turns n).wakes (omega (arith, h)) (all n).1) in
      let (q, e', good) =
        batch_step-Ended (λ b'. enqueue_all turns (suc n) b' ms) n (length ms) m r h
          (λ b' v' left. enqueue_all-Ended all (suc n) b' ms (omega (arith, h)) v' left) settled in
      (q, ap (λ o. o >>= batch_step (λ b'. enqueue_all turns (suc n) b' ms) n) e ∙ e', good)

-- A batch that `ProduceBatch` may enqueue.
abbrev pub IsGood : List (Option TelemetryMessage) → Type 0
IsGood reqs = (0 < length reqs) × (length reqs ≤ 1000) × All (λ req. req ≢ none) reqs

-- What a reply to a batch says of the server.
abbrev pub AnswersBatch : MqServer → List (Option TelemetryMessage) → BatchReply × MqServer → Type 0
AnswersBatch s reqs (batch_invalid, s') = (s' ≡ s) × (IsGood reqs → ⊥)
AnswersBatch s reqs (batch_unavailable, s') = (s' ≡ s) × (is_shutting_down s ≡ true) × IsGood reqs
AnswersBatch s reqs (batch_pending, s') =
    (s'.produced ≡ s.produced)
    × (s'.rejected ≡ s.rejected)
    × (s'.epoch ≡ s.epoch)
    × (is_shutting_down s ≡ false)
    × IsGood reqs
AnswersBatch s reqs (batch_response taken left, s') =
    (taken + left ≡ length reqs)
    × (s'.produced % 2 ^ 64 ≡ (s.produced + taken) % 2 ^ 64)
    × ((s'.rejected ≡ s.rejected) ⊎ ((s'.rejected ≡ incr64 s.rejected) × (0 < left)))
    × (s'.epoch ≡ (if ltb 0 taken then s.epoch + 1 else s.epoch))
    × (is_shutting_down s ≡ false)
    × IsGood reqs

no_nil-length :
    (reqs : List (Option TelemetryMessage)) (ms : List TelemetryMessage)
    → no_nil reqs ≡ some ms
    → length ms ≡ length reqs
unfolding no_nil
no_nil-length [] ms e = ground (arith, e)
no_nil-length (none ∷ reqs) ms e = absurd (ground (arith, e))
no_nil-length (some m ∷ reqs) ms e = elim (Option-cases (no_nil reqs)) [
  | inl missing ↦ ground (arith, e, missing)
  | inr (ms', found) ↦ ground (arith, e, found, no_nil-length reqs ms' found)
]

-- A batch that passes has at most 1000 messages.
valid_batch-size :
    (reqs : List (Option TelemetryMessage)) (ms : List TelemetryMessage)
    → valid_batch reqs ≡ some ms
    → (length ms ≡ length reqs) × (length ms ≤ 1000)
unfolding valid_batch
valid_batch-size reqs ms e =
    let (good, found) = passed (length reqs == 0 || ltb 1000 (length reqs)) e in
    let same = no_nil-length reqs ms found in (same, ground (arith, good, same))
  where
    passed :
        (q : Bool)
        → (if q then none else no_nil reqs) ≡ some ms
        → (q ≡ false) × (no_nil reqs ≡ some ms)
    passed true e = absurd (ground (arith, e))
    passed false e = (refl, e)

no_nil-All :
    (reqs : List (Option TelemetryMessage)) (ms : List TelemetryMessage)
    → no_nil reqs ≡ some ms
    → All (λ req. req ≢ none) reqs
unfolding no_nil
no_nil-All [] ms e = tt
no_nil-All (none ∷ reqs) ms e = absurd (ground (arith, e))
no_nil-All (some m ∷ reqs) ms e = elim (Option-cases (no_nil reqs)) [
  | inl missing ↦ absurd (ground (arith, e, missing))
  | inr (ms', found) ↦ ((λ h. ground (arith, h)), no_nil-All reqs ms' found)
]

no_nil-none :
    (reqs : List (Option TelemetryMessage)) → no_nil reqs ≡ none → All (λ req. req ≢ none) reqs → ⊥
unfolding no_nil
no_nil-none [] e all = ground (arith, e)
no_nil-none (none ∷ reqs) e (given, all) = given refl
no_nil-none (some m ∷ reqs) e (given, all) = elim (Option-cases (no_nil reqs)) [
  | inl missing ↦ no_nil-none reqs missing all
  | inr (ms', found) ↦ ground (arith, e, found)
]

valid_batch-IsGood :
    (reqs : List (Option TelemetryMessage)) (ms : List TelemetryMessage)
    → valid_batch reqs ≡ some ms
    → IsGood reqs
unfolding valid_batch
valid_batch-IsGood reqs ms e = go (length reqs == 0 || ltb 1000 (length reqs)) refl e
  where
    go :
        (q : Bool)
        → (length reqs == 0 || ltb 1000 (length reqs)) ≡ q
        → (if q then none else no_nil reqs) ≡ some ms
        → IsGood reqs
    go true h e = absurd (ground (arith, e))
    go false h e = (ground (arith, h), ground (arith, h), no_nil-All reqs ms e)

valid_batch-none :
    (reqs : List (Option TelemetryMessage)) → valid_batch reqs ≡ none → IsGood reqs → ⊥
unfolding valid_batch
valid_batch-none reqs e (some_reqs, few, all) =
    go (length reqs == 0 || ltb 1000 (length reqs)) refl e
  where
    go :
        (q : Bool)
        → (length reqs == 0 || ltb 1000 (length reqs)) ≡ q
        → (if q then none else no_nil reqs) ≡ none
        → ⊥
    go true h e = ground (arith, h, some_reqs, few)
    go false h e = no_nil-none reqs e all

module _ (s : MqServer) (reqs : List (Option TelemetryMessage)) (up : is_shutting_down s ≡ false)
    (good : IsGood reqs) where
  -- The state after a reply, with the counter of rejections as it is then.
  Replied : ℕ → ℕ → MqServer → Type 0
  Replied taken left s' = IsValid s'.store × AnswersBatch s reqs (batch_response taken left, s')

  counted :
      (q : Bool) (n rejections : ℕ) (b : Broker)
      → ltb 0 n ≡ q
      → n ≤ length reqs
      → ((rejections ≡ s.rejected) ⊎ ((rejections ≡ incr64 s.rejected) × (0 < length reqs - n)))
      → IsValid b
      → Replied n
          (length reqs - n)
          (count_accepted q (record s { store = b; rejected = rejections }) n)
  unfolding count_accepted notify_all Replied
  counted true n rejections b some_taken le counts v = (
    v,
    (
      omega (arith, le),
      omega arith,
      counts,
      ap (λ q. if q then s.epoch + 1 else s.epoch) (sym some_taken),
      up,
      good,
    ),
  )
  counted false n rejections b none_taken le counts v = (
    v,
    (
      omega (arith, le),
      ground (arith, none_taken),
      counts,
      ap (λ q. if q then s.epoch + 1 else s.epoch) (sym none_taken),
      up,
      good,
    ),
  )

  replied :
      (total n rejections : ℕ) (b : Broker)
      → total ≡ length reqs
      → total ≤ 1000
      → n ≤ total
      → ((rejections ≡ s.rejected) ⊎ ((rejections ≡ incr64 s.rejected) × (0 < total - n)))
      → IsValid b
      → Replied
          (n % 2 ^ 32)
          ((total - n) % 2 ^ 32)
          (count_accepted (ltb 0 n) (record s { store = b; rejected = rejections }) n)
  replied total n rejections b same small le counts v =
      let s' = count_accepted (ltb 0 n) (record s { store = b; rejected = rejections }) n in
      let low : n ≡ n % 2 ^ 32 = omega (arith, le, small) in
      let high : length reqs - n ≡ (total - n) % 2 ^ 32 = omega (arith, same, small) in
      subst (λ k. Replied k ((total - n) % 2 ^ 32) s') low
        (subst (λ k. Replied n k s') high
          (counted (ltb 0 n) n rejections b refl (omega (arith, le, same))
            (subst
              (λ k. (rejections ≡ s.rejected) ⊎ ((rejections ≡ incr64 s.rejected) × (0 < k - n)))
              same counts)
            v))

  answer_batch-Answers :
      (total : ℕ) (r : ℕ × BatchEnd × Broker)
      → total ≡ length reqs
      → total ≤ 1000
      → Ended total r
      → IsValid (answer_batch s total r).1.store × AnswersBatch s reqs (answer_batch s total r)
  unfolding answer_batch count_refusal Replied
  answer_batch-Answers total (n, all_in, b) h small (v, e) =
      replied total n s.rejected b h small (omega (arith, e)) (inl refl) v
  answer_batch-Answers total (n, refused_full, b) h small (v, e) =
      replied total n (incr64 s.rejected) b h small (omega (arith, e))
        (inr (refl, omega (arith, e))) v
  answer_batch-Answers total (n, store_closed, b) h small (v, e) =
      replied total n s.rejected b h small (omega (arith, e)) (inl refl) v
  answer_batch-Answers total (n, caller_gone, b) h small (v, e) =
      replied total n s.rejected b h small (omega (arith, e)) (inl refl) v
  answer_batch-Answers total (n, parked_on, b) h small (v, e) = (v, (refl, refl, refl, up, good))

admit_batch-Answers :
    (s : MqServer) (reqs : List (Option TelemetryMessage)) (turns : ℕ → Turn) (down : Bool)
    (checked : Option (List TelemetryMessage))
    → is_shutting_down s ≡ down
    → valid_batch reqs ≡ checked
    → IsValid s.store
    → s.store.next_id + length reqs < 2 ^ 64
    → ((i : ℕ) → IsTurn (length reqs) (turns i))
    → Returns (λ r. IsValid r.1.store × AnswersBatch s reqs r) (admit_batch s turns down checked)
unfolding admit_batch
admit_batch-Answers s reqs turns down none h bad v more all =
    ((batch_invalid, s), refl, (v, (refl, valid_batch-none reqs bad)))
admit_batch-Answers s reqs turns true (some ms) h good v more all =
    ((batch_unavailable, s), refl, (v, (refl, h, valid_batch-IsGood reqs ms good)))
admit_batch-Answers s reqs turns false (some ms) h good v more all =
    let (size, small) = valid_batch-size reqs ms good in
    let (r, e, ended) =
      enqueue_all-Ended turns (length ms) (λ i. subst (λ k. IsTurn k (turns i)) (sym size) (all i))
        0 s.store ms (omega arith) v (omega (arith, size, more)) in
    (
      answer_batch s (length ms) r,
      ap (λ o. o >>= (λ r. ok (answer_batch s (length ms) r))) e,
      answer_batch-Answers s reqs h (valid_batch-IsGood reqs ms good) (length ms) r size small
          ended,
    )

-- Over a store that is in order, with an id left for each message, in whatever state in order the
-- other goroutines leave it between two messages and while a call is parked, `ProduceBatch` never
-- panics and leaves the store in order. A batch is answered as invalid exactly if it is empty, has
-- more than 1000 messages or a nil one, and then changes nothing; neither does a batch at a server
-- that drains or shuts down. In a response the accepted and the rejected messages are all of the
-- batch, the accepted ones count as produced, at most one rejection is counted, and that only if a
-- message was rejected, and the parked consumers are woken exactly if a message was accepted. A call
-- that stays parked has counted and woken nothing.
pub produce_batch-Answers :
    (s : MqServer) (reqs : List (Option TelemetryMessage)) (turns : ℕ → Turn)
    → IsValid s.store
    → s.store.next_id + length reqs < 2 ^ 64
    → ((i : ℕ) → IsTurn (length reqs) (turns i))
    → Returns (λ r. IsValid r.1.store × AnswersBatch s reqs r) (produce_batch s reqs turns)
unfolding produce_batch
produce_batch-Answers s reqs turns v more all =
    admit_batch-Answers s reqs turns (is_shutting_down s) (valid_batch reqs) refl refl v more all

-- A batch that is too long.
pub produce_batch-long :
    (s : MqServer) (reqs : List (Option TelemetryMessage)) (turns : ℕ → Turn)
    → 1000 < length reqs
    → produce_batch s reqs turns ≡ ok (batch_invalid, s)
unfolding produce_batch admit_batch valid_batch
produce_batch-long s reqs turns long =
    ap (admit_batch s turns (is_shutting_down s))
      (checked (length reqs == 0) (lt→ltb 1000 (length reqs) long))
  where
    checked : (q : Bool) {q' : Bool} → q' ≡ true → (if q || q' then none else no_nil reqs) ≡ none
    checked true e = refl
    checked false e = ap (λ t. if t then none else no_nil reqs) e
