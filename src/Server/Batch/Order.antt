-- ===== src/Server/Batch/Order.antt =====
-- A batch that the budget of the store has room for, in `ProduceBatch` of
-- internal/server/server.go.
use vantage.Prelude.{
  none, ℕ, suc, ◌+◌, ◌^◌, ◌≡◌, refl, ap, ◌∙◌, sym, subst, List, [], ◌∷◌, ◌++◌, append-nil,
  append_assoc, Bool, true, false, Option, some, ltb, length, ok, ◌>>=◌, Returns, arith,
}
use Prim.Native.Nat.{◌%◌}
use vantage.Queue.Broker.Enqueue.Room.{HasRoom, enqueue-After}
use vantage.Message.{TelemetryMessage}
use vantage.Queue.Ring.{contents}
use vantage.Queue.Broker.{Broker, Entry}
use vantage.Queue.Broker.Lanes.{IsValid}
use vantage.Queue.Broker.Enqueue.Attempt.{fresh}
use vantage.Server.{notify_all, MqServer, is_shutting_down}
use vantage.Queue.Broker.Enqueue.{enqueue}
use vantage.Server.Batch.{
  Turn, found_or, BatchEnd, all_in, batch_response, valid_batch, batch_step, enqueue_all,
  answer_batch, admit_batch, produce_batch, count_accepted, count_refusal,
}

-- The entries of a batch when `n` ids have been given out.
abbrev pub entries_from : ℕ → List TelemetryMessage → List Entry
entries_from n [] = []
entries_from n (m ∷ ms) =
    record { msg = record m { id = n + 1 }; attempts = 0 } ∷ entries_from (n + 1) ms

-- No other handler is in the store between two messages of the batch.
abbrev pub AllAlone : (ℕ → Turn) → Type 0
AllAlone turns = (i : ℕ) → (turns i).found ≡ none

-- The loop takes all messages in, in their order.
enqueue_all-order :
    (turns : ℕ → Turn) (n : ℕ) (b : Broker) (ms : List TelemetryMessage)
    → AllAlone turns
    → HasRoom (length ms) b
    → Returns
        (λ r.
          (r.0 ≡ n + length ms)
          × (r.1 ≡ all_in)
          × IsValid r.2
          × (contents r.2.main ≡ contents b.main ++ entries_from b.next_id ms))
        (enqueue_all turns n b ms)
unfolding enqueue_all batch_step found_or
enqueue_all-order turns n b [] alone (v, _, _, _) =
    ((n, all_in, b), refl, (omega arith, refl, v, sym (append-nil (contents b.main))))
enqueue_all-order turns n b (m ∷ ms) alone room =
    let (b', e, (room', next, order)) = enqueue-After (length ms) b m (turns n).wakes room in
    let (r, e', (size, end, v, rest)) = enqueue_all-order turns (suc n) b' ms alone room' in
    (
      r,
      ap
            (λ o.
              enqueue (found_or o b) m (turns n).wakes
              >>= batch_step (λ b'. enqueue_all turns (suc n) b' ms) n)
            (alone n)
          ∙ ap (λ o. o >>= batch_step (λ b'. enqueue_all turns (suc n) b' ms) n) e
          ∙ e',
      (
        omega (arith, size),
        end,
        v,
        rest
            ∙ ap (λ xs. xs ++ entries_from b'.next_id ms) order
            ∙ append_assoc (contents b.main) (fresh b m ∷ []) (entries_from b'.next_id ms)
            ∙ ap (λ k. contents b.main ++ fresh b m ∷ entries_from k ms) next,
      ),
    )

answer_all :
    (s : MqServer) (n : ℕ) (b : Broker)
    → (answer_batch s n (n, all_in, b)).0 ≡ batch_response (n % 2 ^ 32) 0
unfolding answer_batch
answer_all s n b = ap (λ k. batch_response (n % 2 ^ 32) k) (omega arith)

answer_store : (s : MqServer) (q : Bool) (n : ℕ) → (count_accepted q s n).store ≡ s.store
unfolding count_accepted notify_all
answer_store s true n = refl
answer_store s false n = refl

-- The reply when the loop took all in.
answer_batch-all :
    (s : MqServer) (total : ℕ) (r : ℕ × BatchEnd × Broker)
    → r.0 ≡ total
    → r.1 ≡ all_in
    → ((answer_batch s total r).0 ≡ batch_response (total % 2 ^ 32) 0)
      × ((answer_batch s total r).1.store ≡ r.2)
unfolding answer_batch count_refusal
answer_batch-all s total (n, end, b) size ended =
    subst
      (λ q.
        ((answer_batch s total (n, q, b)).0 ≡ batch_response (total % 2 ^ 32) 0)
        × ((answer_batch s total (n, q, b)).1.store ≡ b))
      (sym ended)
      (
        ap (λ k. (answer_batch s total (k, all_in, b)).0) size ∙ answer_all s total b,
        answer_store (record s { store = b }) (ltb 0 n) n,
      )

-- A batch that the checks pass, at a server that is up and a store that is open, in order and has
-- room for the whole batch, is accepted as a whole, if no other handler is in the store between two
-- of its messages, and whatever would wake a parked call: the store's main lane
-- then ends with the messages of the batch in their order, under consecutive ids.
pub produce_batch-order :
    (s : MqServer) (reqs : List (Option TelemetryMessage)) (ms : List TelemetryMessage)
    (turns : ℕ → Turn)
    → valid_batch reqs ≡ some ms
    → is_shutting_down s ≡ false
    → AllAlone turns
    → HasRoom (length ms) s.store
    → Returns
        (λ r.
          (r.0 ≡ batch_response (length ms % 2 ^ 32) 0)
          × IsValid r.1.store
          × (contents r.1.store.main ≡ contents s.store.main ++ entries_from s.store.next_id ms))
        (produce_batch s reqs turns)
unfolding produce_batch admit_batch answer_batch
produce_batch-order s reqs ms turns good up alone room =
    let (r₀, e, (size, ended, v, order)) = enqueue_all-order turns 0 s.store ms alone room in
    let (reply, store) = answer_batch-all s (length ms) r₀ (omega (arith, size)) ended in
    (
      answer_batch s (length ms) r₀,
      ap (admit_batch s turns (is_shutting_down s)) good
          ∙ ap (λ q. admit_batch s turns q (some ms)) up
          ∙ ap (λ o. o >>= (λ r. ok (answer_batch s (length ms) r))) e,
      (reply, subst IsValid (sym store) v, ap (λ b. contents b.main) store ∙ order),
    )
