-- ===== src/Server/Drain.antt =====
-- The drain of cmd/mq/main.go: every 100 ms it looks at the server, until the backlog has cleared,
-- nothing has moved for 2 s without a consumer, or the deadline has come.
use vantage.Prelude.{
  ◌<◌, ℕ, ◌+◌, ◌≤◌, ◌≡◌, refl, ap, ◌∙◌, Bool, true, false, ◌&&◌, List, [], ◌∷◌, Option, none, some,
  ◌==◌, leb, length, arith,
}
use vantage.Server.{MqServer, ServerStats, stats, drained}

-- What the select of the loop sees: a tick, with the server at that time, or the deadline.
pub data DrainEvent : Type 0 where
  tick : MqServer → DrainEvent
  drain_deadline : DrainEvent

pub data DrainEnd : Type 0 where
  drain_complete drain_stalled drain_timeout still_draining : DrainEnd

abbrev pub stall_ticks : ℕ
stall_ticks = 20

-- The counter of acknowledgements was the same at the tick before; there was none before the first.
same_consumed : Option ℕ → ℕ → Bool
same_consumed none n = false
same_consumed (some last) n = n == last

-- No consumer is connected, and no acknowledgement has come since the tick before.
is_quiet : Option ℕ → ServerStats → Bool
unfolding same_consumed
is_quiet last st = st.active_consumers == 0 && same_consumed last st.stats_consumed

-- A tick: whether the backlog has cleared, the server is quiet, and it has been for long enough.
-- `waits` and `moves` are the rest of the loop with one more idle tick, and with none.
on_tick : Bool → Bool → Bool → DrainEnd → DrainEnd → DrainEnd
on_tick true quiet stalls waits moves = drain_complete
on_tick false true true waits moves = drain_stalled
on_tick false true false waits moves = waits
on_tick false false stalls waits moves = moves

-- The loop, after `idle` idle ticks in a row.
pub drain_loop : List DrainEvent → ℕ → Option ℕ → DrainEnd
unfolding on_tick is_quiet stats drained
drain_loop [] idle last = still_draining
drain_loop (drain_deadline ∷ events) idle last = drain_timeout
drain_loop (tick s ∷ events) idle last =
    let st = stats s in
    let waits = drain_loop events (idle + 1) (some st.stats_consumed) in
    let moves = drain_loop events 0 (some st.stats_consumed) in
    on_tick (drained s) (is_quiet last st) (leb stall_ticks (idle + 1)) waits moves

pub drain : List DrainEvent → DrainEnd
unfolding drain_loop
drain events = drain_loop events 0 none

-- Every tick sees a backlog, no consumer and `n` acknowledgements.
abbrev pub AllIdle : ℕ → List DrainEvent → Type 0
AllIdle n [] = Unit
AllIdle n (tick s ∷ events) =
    (drained s ≡ false)
    × ((stats s).active_consumers ≡ 0)
    × ((stats s).stats_consumed ≡ n)
    × AllIdle n events
AllIdle n (drain_deadline ∷ events) = ⊥

quiet_tick :
    (st : ServerStats) (n : ℕ)
    → st.active_consumers ≡ 0
    → st.stats_consumed ≡ n
    → is_quiet (some n) st ≡ true
unfolding is_quiet same_consumed
quiet_tick st n alone acks = ground (arith, alone, acks)

never_quiet : (st : ServerStats) → is_quiet none st ≡ false
unfolding is_quiet same_consumed
never_quiet st = neither (st.active_consumers == 0)
  where
    neither : (q : Bool) → (q && false) ≡ false
    neither true = refl
    neither false = refl

first_tick :
    (s : MqServer) (events : List DrainEvent)
    → drained s ≡ false
    → drain (tick s ∷ events) ≡ drain_loop events 0 (some (stats s).stats_consumed)
unfolding drain drain_loop is_quiet same_consumed on_tick
first_tick s events backlog =
    let st = stats s in
    let waits = drain_loop events 1 (some st.stats_consumed) in
    let moves = drain_loop events 0 (some st.stats_consumed) in
    ap (λ q. on_tick q (is_quiet none st) false waits moves) backlog
    ∙ ap (λ q. on_tick false q false waits moves) (never_quiet st)

idle_tick :
    (stalls : Bool) (waits moves : DrainEnd)
    → (stalls ≡ false → waits ≡ drain_stalled)
    → on_tick false true stalls waits moves ≡ drain_stalled
unfolding on_tick
idle_tick true waits moves rest = refl
idle_tick false waits moves rest = rest refl

drain_loop-idle :
    (events : List DrainEvent) (n idle : ℕ)
    → AllIdle n events
    → idle < 20
    → 20 ≤ idle + length events
    → drain_loop events idle (some n) ≡ drain_stalled
unfolding drain_loop
drain_loop-idle [] n idle all low enough = absurd (omega arith)
drain_loop-idle (drain_deadline ∷ events) n idle all low enough = absurd all
drain_loop-idle (tick s ∷ events) n idle (backlog, alone, acks, all) low enough =
    let st = stats s in
    let waits = drain_loop events (idle + 1) (some st.stats_consumed) in
    let moves = drain_loop events 0 (some st.stats_consumed) in
    ap (λ q. on_tick q (is_quiet (some n) st) (leb 20 (idle + 1)) waits moves) backlog
    ∙ ap (λ q. on_tick false q (leb 20 (idle + 1)) waits moves) (quiet_tick st n alone acks)
    ∙ idle_tick (leb 20 (idle + 1)) waits moves (λ short.
      ap (λ m. drain_loop events (idle + 1) (some m)) acks
      ∙ drain_loop-idle events n (idle + 1) all (ground (arith, short)) (omega (arith, enough)))

-- When the first tick and all that come after it, 20 or more and no deadline, see a backlog, no
-- consumer and the same number of acknowledgements, the drain gives up as stalled.
pub drain-stalls :
    (s : MqServer) (events : List DrainEvent)
    → AllIdle (stats s).stats_consumed (tick s ∷ events)
    → 20 ≤ length events
    → drain (tick s ∷ events) ≡ drain_stalled
drain-stalls s events (backlog, alone, acks, all) enough =
    first_tick s events backlog
    ∙ drain_loop-idle events (stats s).stats_consumed 0 all (omega arith) (omega (arith, enough))
