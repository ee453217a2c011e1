-- ===== src/Collector/Stream.antt =====
-- `consumeStream` of internal/collector/collector.go. The select of its loop gives an event at a
-- time; `sends k` says whether call `k` of `Send` on the stream succeeds, the handshake being the
-- first. Only the batch goroutine sends, so that the calls are one after another.
pub mod Flushed
pub mod Tracked
pub mod Acks
pub mod Durable
use vantage.Prelude.{
  ℕ, zero, suc, ◌+◌, Bool, true, false, List, [], ◌∷◌, ◌++◌, Option, none, some, leb, length,
  if◌then◌else◌, Run, ok, ◌>>=◌,
}
use vantage.Message.{TelemetryMessage}
use vantage.Collector.{Env, FlushError, flush}

pub data StreamEvent : Type 0 where
  message_arrives : TelemetryMessage → StreamEvent
  flush_tick stream_closes context_done : StreamEvent

-- How the loop ends: with the error of the goroutine that receives, of the context, or of a flush.
pub data LoopEnd : Type 0 where
  still_running recv_ended context_ended : LoopEnd
  flush_failed : FlushError → LoopEnd

-- The acknowledgements that were sent, the batch, and the database.
pub record Batching (S : Type 0) : Type 0 where
  pub acked : List ℕ
  pub batch : List TelemetryMessage
  pub db : S

pub data StreamEnd : Type 0 where
  open_failed handshake_failed : StreamEnd
  loop_ended : LoopEnd → StreamEnd

-- The calls of `markReady`: when the stream is open, and, deferred, at the return.
unfoldable pub marks : StreamEnd → List Bool
marks open_failed = []
marks handshake_failed = true ∷ false ∷ []
marks (loop_ended e) = true ∷ false ∷ []

module _ {Time S : Type 0} (env : Env Time S) (batch_size : ℕ) (sends : ℕ → Bool) where
  flushed_as :
      Batching S
      → List ℕ × List TelemetryMessage × Option FlushError × S
      → Option FlushError × Batching S
  flushed_as c (acks, left, err, db) =
      (err, record { acked = c.acked ++ acks; batch = left; db = db })

  -- The handshake and the acknowledgements so far are the calls of `Send` that were made.
  pub flush_stream : Batching S → Run (Option FlushError × Batching S)
  unfolding flushed_as
  flush_stream c = flush env sends (suc (length c.acked)) c.db c.batch >>= λ r. ok (flushed_as c r)

  -- The loop goes on after a flush without an error.
  after_flush :
      (Batching S → Run (LoopEnd × Batching S))
      → Option FlushError × Batching S
      → Run (LoopEnd × Batching S)
  after_flush again (none, c) = again c
  after_flush again (some e, c) = ok (flush_failed e, c)

  pub consume_loop : List StreamEvent → Batching S → Run (LoopEnd × Batching S)
  unfolding flush_stream after_flush
  consume_loop [] c = ok (still_running, c)
  consume_loop (message_arrives m ∷ events) c =
      let c' = record c { batch = c.batch ++ m ∷ [] } in
      let filled = flush_stream c' >>= after_flush (consume_loop events) in
      let more = consume_loop events c' in if leb batch_size (length c'.batch) then filled else more
  consume_loop (flush_tick ∷ events) c = flush_stream c >>= after_flush (consume_loop events)
  consume_loop (stream_closes ∷ events) c = flush_stream c >>= λ r. ok (recv_ended, r.1)
  consume_loop (context_done ∷ events) c = ok (context_ended, c)

  abbrev pub new_batching : S → Batching S
  new_batching s = record { acked = []; batch = []; db = s }

  -- After the stream was opened: the handshake, and the loop.
  handshake : Bool → List StreamEvent → S → Run (StreamEnd × Batching S)
  unfolding consume_loop
  handshake false events s = ok (handshake_failed, new_batching s)
  handshake true events s = consume_loop events (new_batching s) >>= λ r. ok (loop_ended r.0, r.1)

  -- `consumeStream`, by whether `Consume` opens the stream.
  pub consume_stream : Bool → List StreamEvent → S → Run (StreamEnd × Batching S)
  unfolding handshake
  consume_stream false events s = ok (open_failed, new_batching s)
  consume_stream true events s = handshake (sends 0) events s
