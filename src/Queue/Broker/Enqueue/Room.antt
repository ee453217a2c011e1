-- ===== src/Queue/Broker/Enqueue/Room.antt =====
-- `Enqueue` at a broker whose budget has room.
use vantage.Prelude.{
  ℕ, suc, ◌+◌, ◌^◌, ◌≤◌, ◌<◌, ◌≡◌, refl, ap, ◌∙◌, subst, List, [], ◌∷◌, ◌++◌, false, ltb, lt→ltb,
  length, length-append, ok, ◌>>=◌, arith, incr64,
}
use vantage.Message.{TelemetryMessage}
use vantage.Queue.Ring.{Ring, contents}
use vantage.Queue.Ring.Refine.{count-contents}
use vantage.Queue.Broker.{Broker, Entry, used}
use vantage.Queue.Broker.Lanes.{IsValid}
use vantage.Queue.Broker.Enqueue.{
  Wake, space_freed, timed_out, cancelled, err_full, err_context, waiting, admitted, attempt,
  accepted, enqueue, settle,
}
use vantage.Queue.Broker.Enqueue.Attempt.{attempt-Attempts, Stays, Admits, numbered, fresh}

-- The broker is open, in order, and has room and ids for `k` more messages.
abbrev pub HasRoom : ℕ → Broker → Type 0
HasRoom k b =
    IsValid b × (b.closed ≡ false) × (used b + k ≤ b.cfg.capacity) × (b.next_id + k < 2 ^ 64)

-- What follows the acceptance of `m`.
abbrev pub After : ℕ → Broker → TelemetryMessage → Broker → Type 0
After k b m b' =
    HasRoom k b'
    × (b'.next_id ≡ b.next_id + 1)
    × (contents b'.main ≡ contents b.main ++ fresh b m ∷ [])

HasRoom-rest :
    (k : ℕ) (b : Broker) (m : TelemetryMessage) (main : Ring Entry)
    → HasRoom (suc k) b
    → let b' = record b { main = main; next_id = b.next_id + 1 } in
      IsValid b' → contents main ≡ contents b.main ++ fresh b m ∷ [] → HasRoom k b'
unfolding used
HasRoom-rest k b m main (v, up, fits, more) v' order =
    let before = count-contents b.cfg.capacity b.main v.main_ring in
    let after = count-contents b.cfg.capacity main v'.main_ring in
    let longer = ap length order ∙ length-append (contents b.main) (fresh b m ∷ []) in
    (v', up, omega (arith, before, after, longer, fits), omega (arith, more))

-- The attempt takes the message in.
attempt-After :
    (k : ℕ) (b : Broker) (m : TelemetryMessage)
    → HasRoom (suc k) b
    → (b' : Broker) × (attempt b m ≡ ok (admitted (numbered b m), b')) × After k b m b'
attempt-After k b m (v, up, fits, more) =
    let (r, e, (v', stays)) = attempt-Attempts m b v (omega (arith, more)) in
    let (main, same, order) : Admits b m (contents b.main) r =
      subst (λ q. Stays false q b m (contents b.main) r)
        (lt→ltb (used b) b.cfg.capacity (omega (arith, fits)))
        (subst (λ q. Stays q (ltb (used b) b.cfg.capacity) b m (contents b.main) r) up stays) in
    let b' = record b { main = main; next_id = b.next_id + 1 } in
    (
      b',
      e ∙ ap (λ r. ok r) same,
      (
        HasRoom-rest k b m main (v, up, fits, more) (subst (λ r. IsValid r.1) same v') order,
        refl,
        order,
      ),
    )

-- A message that there is room for is accepted, whatever could wake the call.
pub enqueue-After :
    (k : ℕ) (b : Broker) (m : TelemetryMessage) (ws : List Wake)
    → HasRoom (suc k) b
    → (b' : Broker) × (enqueue b m ws ≡ ok (accepted (numbered b m), b')) × After k b m b'
unfolding enqueue settle
enqueue-After k b m [] room =
    let (b', e, after) = attempt-After k b m room in
    (b', ap (λ o. o >>= settle (λ b'. ok (waiting, b'))) e, after)
enqueue-After k b m (space_freed b₁ ∷ ws) room =
    let (b', e, after) = attempt-After k b m room in
    (b', ap (λ o. o >>= settle (λ _. enqueue b₁ m ws)) e, after)
enqueue-After k b m (timed_out b₁ ∷ ws) room =
    let (b', e, after) = attempt-After k b m room in
    (
      b',
      ap (λ o. o >>= settle (λ _. ok (err_full, record b₁ { rejected = incr64 b₁.rejected }))) e,
      after,
    )
enqueue-After k b m (cancelled b₁ ∷ ws) room =
    let (b', e, after) = attempt-After k b m room in
    (b', ap (λ o. o >>= settle (λ _. ok (err_context, b₁))) e, after)
