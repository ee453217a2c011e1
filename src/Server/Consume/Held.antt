-- ===== src/Server/Consume/Held.antt =====
-- What the send loop of a stream of internal/server/server.go holds of its window.
use vantage.Prelude.{
  ℕ, zero, suc, ◌+◌, ◌≤◌, ◌≡◌, refl, sym, subst, Bool, true, false, length, indicator, arith,
}
use vantage.Queue.Broker.{Broker}
use vantage.Queue.Broker.Lanes.{IsValid}
use vantage.Queue.Broker.Leasing.{ack}
use vantage.Queue.Broker.Holding.{held, ack-held}
use vantage.Server.{MqServer, notify_all}
use vantage.Server.Consume.{
  Pc, draining_acks, acquiring, capturing, leasing, parked, sending, cleaning, left, Stream,
  reads_acks, is_waiting, count_ack, apply_ack, give_back, close_stream,
}

-- The tokens in the loop's hand.
abbrev pub in_hand : Pc → ℕ
in_hand draining_acks = 0
in_hand acquiring = 0
in_hand capturing = 1
in_hand (leasing e) = 1
in_hand (parked e) = 0
in_hand (sending m) = 0
in_hand (cleaning v) = 0
in_hand (left v) = 0

-- What else holds where the loop is: the epoch that it captured has come, and a stream that has
-- ended holds no lease.
abbrev pub At : Pc → ℕ → ℕ → Type 0
At draining_acks epoch leases = Unit
At acquiring epoch leases = Unit
At capturing epoch leases = Unit
At (leasing e) epoch leases = e ≤ epoch
At (parked e) epoch leases = e ≤ epoch
At (sending m) epoch leases = Unit
At (cleaning v) epoch leases = Unit
At (left v) epoch leases = leases ≡ 0

pub record InWindow (cid credit : ℕ) (pc : Pc) (st : Stream) : Type 0 where
  pub valid : IsValid st.server.store
  pub window : st.tokens + in_hand pc + held cid st.server.store ≤ credit
  pub queued : length st.acks ≤ credit
  pub at : At pc st.server.epoch (held cid st.server.store)

pub At-later : (pc : Pc) (e e' n n' : ℕ) → e ≤ e' → n' ≤ n → At pc e n → At pc e' n'
At-later draining_acks e e' n n' le fewer h = tt
At-later acquiring e e' n n' le fewer h = tt
At-later capturing e e' n n' le fewer h = tt
At-later (leasing k) e e' n n' le fewer h = omega (arith, le, h)
At-later (parked k) e e' n n' le fewer h = omega (arith, le, h)
At-later (sending m) e e' n n' le fewer h = tt
At-later (cleaning v) e e' n n' le fewer h = tt
At-later (left v) e e' n n' le fewer h = omega (arith, fewer, h)

pub reads_acks-hand : (pc : Pc) → reads_acks pc ≡ true → in_hand pc ≡ 0
reads_acks-hand draining_acks h = refl
reads_acks-hand acquiring h = refl
reads_acks-hand capturing h = absurd (ground arith)
reads_acks-hand (leasing e) h = absurd (ground arith)
reads_acks-hand (parked e) h = refl
reads_acks-hand (sending m) h = absurd (ground arith)
reads_acks-hand (cleaning v) h = absurd (ground arith)
reads_acks-hand (left v) h = absurd (ground arith)

pub is_waiting-hand : (pc : Pc) → is_waiting pc ≡ true → in_hand pc ≡ 0
is_waiting-hand draining_acks h = refl
is_waiting-hand acquiring h = refl
is_waiting-hand capturing h = absurd (ground arith)
is_waiting-hand (leasing e) h = absurd (ground arith)
is_waiting-hand (parked e) h = refl
is_waiting-hand (sending m) h = refl
is_waiting-hand (cleaning v) h = refl
is_waiting-hand (left v) h = refl

pub count_ack-store : (s : MqServer) (r : Bool × Broker) → (count_ack s r).store ≡ r.1
unfolding count_ack
count_ack-store s (true, b) = refl
count_ack-store s (false, b) = refl

-- An acknowledgement gives back as many tokens as the stream loses leases.
pub apply_ack-held :
    (s : MqServer) (cid id : ℕ)
    → IsValid s.store
    → let r = apply_ack s cid id in
      IsValid r.1.store × (held cid r.1.store + indicator r.0 ≡ held cid s.store)
unfolding apply_ack
apply_ack-held s cid id v =
    let r = ack s.store id cid in
    subst (λ b. IsValid b × (held cid b + indicator r.0 ≡ held cid s.store))
      (sym (count_ack-store s r)) (let (v', same, _) = ack-held s.store id cid v in (v', same))

pub give_back-store : (s : MqServer) (r : Bool × Broker) → (give_back s r).store ≡ r.1
unfolding give_back notify_all
give_back-store s (true, b) = refl
give_back-store s (false, b) = refl

pub close_stream-store : (s : MqServer) (r : ℕ × Broker) → (close_stream s r).store ≡ r.1
unfolding close_stream notify_all
close_stream-store s (zero, b) = refl
close_stream-store s (suc n, b) = refl
