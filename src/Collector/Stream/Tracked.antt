-- ===== src/Collector/Stream/Tracked.antt =====
-- What becomes of the messages that come over a stream of internal/collector/collector.go.
use vantage.Prelude.{
  ℕ, ◌+◌, ◌≤◌, ◌<◌, ◌≡◌, refl, ap, sym, subst, ◌∙◌, Bool, true, false, List, [], ◌∷◌, ◌++◌,
  append_assoc, Option, none, some, leb, length, if◌then◌else◌, ok, ◌>>=◌, Returns, arith,
  length-append,
}
use vantage.Message.{TelemetryMessage}
use vantage.Collector.{Env, FlushError, ids_of}
use vantage.Collector.Stream.{
  StreamEvent, message_arrives, flush_tick, stream_closes, context_done, LoopEnd, still_running,
  recv_ended, context_ended, flush_failed, Batching, flush_stream, after_flush, consume_loop,
}
use vantage.Collector.Stream.Flushed.{arrivals, Resent, Keeps, Acked, Flushed, flush_stream-Flushed}

module _ {Time S : Type 0} (env : Env Time S) (Good : S → List TelemetryMessage → Type 0)
    (keeps : Keeps env Good) (size : ℕ) (sends : ℕ → Bool) where
  -- After the events that brought `came`: what was acknowledged, then the rest of the batch, then
  -- what was not taken, are the messages that came.
  abbrev pub Tracks : List TelemetryMessage → LoopEnd × Batching S → Type 0
  Tracks came (end, c) =
      (done : List TelemetryMessage) × (again : List TelemetryMessage) × (pending : List
        TelemetryMessage)
      × (left : List TelemetryMessage) × (c.acked ≡ ids_of env done)
      × Good c.db done
      × (c.batch ≡ again ++ pending)
      × Resent end again
      × (done ++ (pending ++ left) ≡ came)
      × (length c.batch ≤ size)

  -- The rest of the loop, whatever was acknowledged before.
  abbrev pub Goes : List StreamEvent → Type 0
  Goes events =
      (done : List TelemetryMessage) (c : Batching S)
      → Acked env Good keeps size sends done c
      → length c.batch < size
      → Returns (Tracks (done ++ (c.batch ++ arrivals events)))
          (consume_loop env size sends events c)

  ended-Tracks :
      (done : List TelemetryMessage) (c c' : Batching S) (e : FlushError) (end : LoopEnd)
      (left : List TelemetryMessage)
      → ((again : List TelemetryMessage) → Resent end again)
      → Flushed env Good keeps size sends done c (some e, c')
      → length c.batch ≤ size
      → Tracks (done ++ (c.batch ++ left)) (end, c')
  unfolding Flushed
  ended-Tracks done c c' e end left any (sent, rest, (acked, good), split, kept) short = (
    done ++ sent,
    sent,
    rest,
    left,
    acked,
    good,
    kept ∙ split,
    any sent,
    append_assoc done sent (rest ++ left)
        ∙ ap (λ b. done ++ b) (sym (append_assoc sent rest left) ∙ ap (λ b. b ++ left) (sym split)),
    omega (arith, short, ap length kept),
  )

  after_flush-Tracks :
      (events : List StreamEvent) (done : List TelemetryMessage) (c : Batching S)
      (r : Option FlushError × Batching S)
      → Goes events
      → Flushed env Good keeps size sends done c r
      → length c.batch ≤ size
      → 0 < size
      → Returns
          (Tracks (done ++ (c.batch ++ arrivals events)))
          (after_flush env size sends (consume_loop env size sends events) r)
  unfolding after_flush Flushed
  after_flush-Tracks events done c (none, c') rest (acked, empty) short room =
      subst (λ came. Returns (Tracks came) (consume_loop env size sends events c'))
        (ap (λ b. (done ++ c.batch) ++ (b ++ arrivals events)) empty
          ∙ append_assoc done c.batch (arrivals events))
        (rest (done ++ c.batch) c' acked (omega (arith, ap length empty, room)))
  after_flush-Tracks events done c (some e, c') rest flushed short room = (
    (flush_failed e, c'),
    refl,
    ended-Tracks done c c' e (flush_failed e) (arrivals events) (λ again. tt) flushed short,
  )

  flush-Tracks :
      (events : List StreamEvent) (done : List TelemetryMessage) (c : Batching S)
      → Goes events
      → Acked env Good keeps size sends done c
      → length c.batch ≤ size
      → 0 < size
      → Returns (Tracks (done ++ (c.batch ++ arrivals events))) (
          flush_stream env size sends c
          >>= after_flush env size sends (consume_loop env size sends events))
  flush-Tracks events done c rest known short room =
      let (r, e, flushed) = flush_stream-Flushed env Good keeps size sends done c known in
      let (q, e', tracks) = after_flush-Tracks events done c r rest flushed short room in
      (
        q,
        ap (λ o. o >>= after_flush env size sends (consume_loop env size sends events)) e ∙ e',
        tracks,
      )

  -- With one message more: a full batch is flushed.
  arrives :
      (filled : Bool) (events : List StreamEvent) (done : List TelemetryMessage) (c : Batching S)
      → leb size (length c.batch) ≡ filled
      → Goes events
      → Acked env Good keeps size sends done c
      → length c.batch ≤ size
      → 0 < size
      → Returns (Tracks (done ++ (c.batch ++ arrivals events))) (
          if filled
          then flush_stream env size sends c
            >>= after_flush env size sends (consume_loop env size sends events)
          else consume_loop env size sends events c)
  arrives true events done c e rest known short room =
      flush-Tracks events done c rest known short room
  arrives false events done c e rest known short room = rest done c known (ground (arith, e))

  -- The end of the stream: the last flush, whose error is not looked at.
  closes :
      (events : List StreamEvent) (done : List TelemetryMessage) (c : Batching S)
      (r : Option FlushError × Batching S)
      → Flushed env Good keeps size sends done c r
      → length c.batch ≤ size
      → Tracks (done ++ (c.batch ++ arrivals events)) (recv_ended, r.1)
  unfolding Flushed
  closes events done c (none, c') ((acked, good), empty) short = (
    done ++ c.batch,
    [],
    [],
    arrivals events,
    acked,
    good,
    empty,
    tt,
    append_assoc done c.batch (arrivals events),
    omega (arith, ap length empty),
  )
  closes events done c (some e, c') flushed short =
      ended-Tracks done c c' e recv_ended (arrivals events) (λ again. tt) flushed short

  stops :
      (end : LoopEnd) (done : List TelemetryMessage) (c : Batching S) (left : List TelemetryMessage)
      → Resent end []
      → Acked env Good keeps size sends done c
      → length c.batch < size
      → Tracks (done ++ (c.batch ++ left)) (end, c)
  stops end done c left none_again (acked, good) short =
      (done, [], c.batch, left, acked, good, refl, none_again, refl, omega (arith, short))

  pub consume_loop-Tracks : (events : List StreamEvent) → Goes events
  unfolding consume_loop
  consume_loop-Tracks [] done c known short =
      ((still_running, c), refl, stops still_running done c [] refl known short)
  consume_loop-Tracks (message_arrives m ∷ events) done c known short =
      let c' = record c { batch = c.batch ++ m ∷ [] } in
      let grown : length c'.batch ≡ length c.batch + 1 = length-append c.batch (m ∷ []) in
      subst
        (λ b.
          Returns (Tracks (done ++ b)) (consume_loop env size sends (message_arrives m ∷ events) c))
        (append_assoc c.batch (m ∷ []) (arrivals events))
        (arrives (leb size (length c'.batch)) events done c' refl (consume_loop-Tracks events) known
          (omega (arith, grown, short)) (omega (arith, short)))
  consume_loop-Tracks (flush_tick ∷ events) done c known short =
      flush-Tracks events done c (consume_loop-Tracks events) known (omega (arith, short))
        (omega (arith, short))
  consume_loop-Tracks (stream_closes ∷ events) done c known short =
      let (r, e, flushed) = flush_stream-Flushed env Good keeps size sends done c known in
      (
        (recv_ended, r.1),
        ap (λ o. o >>= λ r. ok (recv_ended, r.1)) e,
        closes events done c r flushed (omega (arith, short)),
      )
  consume_loop-Tracks (context_done ∷ events) done c known short =
      ((context_ended, c), refl, stops context_ended done c (arrivals events) refl known short)
