-- ===== src/Server/Consume/Progress.antt =====
-- When the send loop of a stream of internal/server/server.go can go on, and what it waits for.
use vantage.Prelude.{
  ltb, ℕ, zero, suc, ◌≤◌, ◌≡◌, ◌⊎◌, inl, inr, refl, sym, subst, Bool, true, false, List, [], ◌∷◌,
  Option, none, some, ok, same_result, arith, Bool-cases,
}
use vantage.Message.{TelemetryMessage}
use vantage.Queue.Broker.{Broker}
use vantage.Queue.Broker.Leasing.{lease}
use vantage.Queue.Broker.Leasing.Lease.{lease-Leased}
use vantage.Queue.Broker.Leasing.Reclaim.{release_consumer-Reclaims}
use vantage.Queue.Broker.Enqueue.{Wake}
use vantage.Server.{MqServer, accepted_true, produce_rpc}
use vantage.Server.Admission.{Answers, produce_rpc-Answers}
use vantage.Queue.Broker.Enqueue.Waits.{IsReady, AllReady}
use vantage.Queue.Broker.Holding.{release_lease-held}
use vantage.Server.Consume.{
  give_back, send_fails, is_waiting, reads_acks, Verdict, Pc, draining_acks, acquiring, capturing,
  leasing, parked, sending, cleaning, left, Stream, apply_ack, Move, take_ack, sees_close,
  no_more_acks, take_token, sees_cancel, sees_shutdown, capture, lease_nothing, lease_message, wake,
  sent, clean_ack, clean_up,
}
use vantage.Server.Consume.Held.{InWindow, apply_ack-held}

-- Nothing that a blocking select of the loop waits for has come.
abbrev pub IsQuiet : Stream → Type 0
IsQuiet st =
    (st.acks ≡ []) × (st.receiving ≡ true) × (st.cancelled ≡ false) × (st.server.shut_down ≡ false)

-- Where the loop may rest: with no token left, parked with no wakeup since, in the clean-up while
-- the goroutine that receives still runs, or at its end.
abbrev pub Rests : Pc → Stream → Type 0
Rests draining_acks st = ⊥
Rests acquiring st = (st.tokens ≡ 0) × IsQuiet st
Rests capturing st = ⊥
Rests (leasing e) st = ⊥
Rests (parked e) st = (st.server.epoch ≤ e) × IsQuiet st
Rests (sending m) st = ⊥
Rests (cleaning v) st = st.receiving ≡ true
Rests (left v) st = Unit

module _ (cid credit : ℕ) where
  abbrev CanMove : Pc → Stream → Type 0
  CanMove pc st = (pc' : Pc) × (st' : Stream) × Move cid credit pc st pc' st'

  -- A select that reads the channel, when there is an acknowledgement, the channel is closed, or
  -- neither.
  ack_cases :
      (pc : Pc) (st : Stream) (acks : List ℕ) (on : Bool)
      → (reads_acks pc ≡ true)
      → st.acks ≡ acks
      → st.receiving ≡ on
      → InWindow cid credit pc st
      → CanMove pc st ⊎ ((st.acks ≡ []) × (st.receiving ≡ true))
  ack_cases pc st (id ∷ rest) on reads full h inv =
      let (v, given) = apply_ack-held st.server cid id inv.valid in
      inl (
        draining_acks,
        _,
        take_ack st id rest (apply_ack st.server cid id) reads full refl
            (omega (arith, given, inv.window)),
      )
  ack_cases pc st [] false reads empty off inv =
      inl (cleaning st.final_err, st, sees_close st reads empty off)
  ack_cases pc st [] true reads empty on inv = inr (empty, on)

  -- The branches of a blocking select that every one of them has.
  select_cases :
      (pc : Pc) (st : Stream) (cancelled down : Bool)
      → reads_acks pc ≡ true
      → is_waiting pc ≡ true
      → st.cancelled ≡ cancelled
      → st.server.shut_down ≡ down
      → InWindow cid credit pc st
      → CanMove pc st ⊎ IsQuiet st
  select_cases pc st true down reads waits c d inv =
      inl (cleaning Verdict.context_ended, st, sees_cancel st waits c)
  select_cases pc st false true reads waits c d inv =
      inl (cleaning Verdict.shutting_down, st, sees_shutdown st waits d)
  select_cases pc st false false reads waits c d inv =
      elim (ack_cases pc st st.acks st.receiving reads refl refl inv) [
        | inl moves ↦ inl moves
        | inr (empty, on) ↦ inr (empty, on, c, d)
      ]

  acquires :
      (st : Stream) (n : ℕ)
      → st.tokens ≡ n
      → InWindow cid credit acquiring st
      → CanMove acquiring st ⊎ Rests acquiring st
  acquires st (suc n) e inv = inl (capturing, _, take_token st n e)
  acquires st zero e inv =
      elim (select_cases acquiring st st.cancelled st.server.shut_down refl refl refl refl inv) [
        | inl moves ↦ inl moves
        | inr quiet ↦ inr (e, quiet)
      ]

  leases :
      (st : Stream) (e : ℕ) (r : Option TelemetryMessage × Broker)
      → lease st.server.store cid ≡ ok r
      → InWindow cid credit (leasing e) st
      → CanMove (leasing e) st
  leases st e (none, b) run inv =
      (parked e, _, lease_nothing st e b run (omega (arith, inv.window)))
  leases st e (some m, b) run inv = (sending m, _, lease_message st e m b run)

  cleans :
      (st : Stream) (v : Verdict) (acks : List ℕ) (on : Bool)
      → st.acks ≡ acks
      → st.receiving ≡ on
      → InWindow cid credit (cleaning v) st
      → CanMove (cleaning v) st ⊎ Rests (cleaning v) st
  cleans st v acks true full on inv = inr on
  cleans st v (id ∷ rest) false full off inv = inl (cleaning v, _, clean_ack st v id rest off full)
  cleans st v [] false empty off inv =
      let (r, e, _) = release_consumer-Reclaims st.server.store cid inv.valid in
      inl (left v, _, clean_up st v r off empty e)

  progresses : (pc : Pc) (st : Stream) → InWindow cid credit pc st → CanMove pc st ⊎ Rests pc st
  progresses draining_acks st inv =
      elim (ack_cases draining_acks st st.acks st.receiving refl refl refl inv) [
        | inl moves ↦ inl moves
        | inr (empty, on) ↦ inl (acquiring, st, no_more_acks st empty on)
      ]
  progresses acquiring st inv = acquires st st.tokens refl inv
  progresses capturing st inv = inl (leasing st.server.epoch, st, capture st)
  progresses (leasing e) st inv =
      let (r, run, _) = lease-Leased st.server.store cid inv.valid in inl (leases st e r run inv)
  progresses (parked e) st inv = elim (Bool-cases (ltb e st.server.epoch)) [
    | inl woken ↦ inl (draining_acks, st, wake st e (ground (arith, woken)))
    | inr no_wake ↦
        elim (select_cases (parked e) st st.cancelled st.server.shut_down refl refl refl refl inv) [
          | inl moves ↦ inl moves
          | inr quiet ↦ inr (ground (arith, no_wake), quiet)
        ]
  ]
  progresses (sending m) st inv = inl (draining_acks, _, sent st m)
  progresses (cleaning v) st inv = cleans st v st.acks st.receiving refl refl inv
  progresses (left v) st inv = inr tt

  -- Every acknowledgement that a select may read is processed, its token going back at once, and a
  -- `Send` may fail.
  abbrev pub Serves : Pc → Stream → Type 0
  Serves pc st =
      ((id : ℕ) (rest : List ℕ)
        → reads_acks pc ≡ true
        → st.acks ≡ id ∷ rest
        → (st' : Stream) × Move cid credit pc st draining_acks st')
      × ((m : TelemetryMessage)
          → pc ≡ sending m
          → (st' : Stream) × Move cid credit pc st (cleaning Verdict.send_error) st')

  serves : (pc : Pc) (st : Stream) → InWindow cid credit pc st → Serves pc st
  serves pc st inv = (
    λ id rest reads full.
        let (v, given) = apply_ack-held st.server cid id inv.valid in
        (
          _,
          take_ack st id rest (apply_ack st.server cid id) reads full refl
              (omega (arith, given, inv.window)),
        ),
    λ m at.
        let (r, run, _) = release_lease-held st.server.store m.id cid inv.valid in
        (
          record st { server = give_back st.server r },
          subst
              (λ pc.
                Move cid credit pc st (cleaning Verdict.send_error)
                  (record st { server = give_back st.server r }))
              (sym at) (send_fails st m r run),
        ),
  )

  -- A stream within its window can always make a move, save where it rests: with no token left or
  -- parked, and then only while nothing has come that its select waits for; in the clean-up while
  -- the receiving goroutine runs; and at its end. Whatever acknowledgement a select finds, it can
  -- process it, and so never has to wait to put a token back; and a `Send` that fails leads on to
  -- the clean-up, as the release of its lease does not panic.
  pub loop_progresses :
      (pc : Pc) (st : Stream)
      → InWindow cid credit pc st
      → (((pc' : Pc) × (st' : Stream) × Move cid credit pc st pc' st') ⊎ Rests pc st) × Serves pc st
  loop_progresses pc st inv = (progresses pc st inv, serves pc st inv)

  -- Of a stream within its window, over a store that is in order and has ids left, as every state
  -- has in which a parked call wakes: a loop that is parked has a wakeup after every `Produce` that
  -- is accepted.
  pub parked_wakes :
      (st : Stream) (e : ℕ) (req : Option TelemetryMessage) (wakes : List Wake) (s' : MqServer)
      → InWindow cid credit (parked e) st
      → IsReady 0 st.server.store
      → AllReady 0 wakes
      → produce_rpc st.server req wakes ≡ ok (accepted_true, s')
      → Move cid credit
          (parked e)
          (record st { server = s' })
          draining_acks
          (record st { server = s' })
  parked_wakes st e req wakes s' inv ready all run =
      let (r, e', (_, answers)) = produce_rpc-Answers st.server req wakes ready all in
      let (_, _, _, later, _) = subst (Answers st.server req) (sym (same_result e' run)) answers in
      wake (record st { server = s' }) e (omega (arith, inv.at, later))
