-- ===== src/Streamer/Rows.antt =====
-- `recordToProto` and one pass of `StreamBatched` over the CSV file in
-- internal/streamer/streamer.go.
pub mod Sized
pub mod Prefix
pub mod Columns
use Prim.Native.String.{String}
use vantage.Prelude.{
  take, ℕ, zero, suc, ◌+◌, Bool, true, false, ◌&&◌, List, [], ◌∷◌, ◌++◌, Option, none, some, ltb,
  leb, length, if◌then◌else◌, Run, ok, ◌>>=◌, load,
}
use vantage.Message.{TelemetryMessage}

-- A row as it is read: the text of the clock at that time, the record, if the reader gives one, and
-- whether the context ends during the sleep after the row.
pub record Row : Type 0 where
  pub stamp : String
  pub fields : Option (List String)
  pub cut : Bool

-- Where a pass is. `calls` counts the calls that publish; the last list has what the broker has
-- accepted of each.
pub record Pass : Type 0 where
  pub batch : List TelemetryMessage
  pub skipped : ℕ
  pub calls : ℕ
  pub published : List (List TelemetryMessage)

-- A pass that goes on, or that has returned with the error of the context.
pub data PassEnd : Type 0 where
  going : Pass → PassEnd
  interrupted : Pass → PassEnd

module _ (parse_float : String → Option ℕ) where
  -- The twelve columns; the first one, the file's own timestamp, is left out.
  record_to_proto : String → List String → Run (Option TelemetryMessage)
  record_to_proto stamp record_ = do
    value_text ← load record_ 10
    metric_name ← load record_ 1
    gpu_id ← load record_ 2
    device ← load record_ 3
    uuid ← load record_ 4
    model_name ← load record_ 5
    hostname ← load record_ 6
    container ← load record_ 7
    pod ← load record_ 8
    namespace ← load record_ 9
    labels_raw ← load record_ 11
    ok (elim (parse_float value_text) [
      | none ↦ none
      | some value ↦ some (record {
        timestamp = stamp;
        metric_name = metric_name;
        gpu_id = gpu_id;
        device = device;
        uuid = uuid;
        model_name = model_name;
        hostname = hostname;
        container = container;
        pod = pod;
        namespace = namespace;
        value = value;
        labels_raw = labels_raw;
        id = 0;
        delivery_attempts = 0;
      })
    ])

  -- The message of a row, or nothing if the row is skipped.
  pub row_message : Row → Run (Option TelemetryMessage)
  unfolding record_to_proto
  row_message row = elim row.fields [
    | none ↦ ok none
    | some fields ↦ record_to_proto row.stamp fields
  ]

  -- Call `n` of `produceBatchWithRetry` or `produceWithRetry` returns without an error, or with the
  -- context's when the broker has taken the first `m` messages of it: `breaks n` is `none`, `some m`.
  module _ (breaks : ℕ → Option ℕ) (loop_delay_ms batch_size : ℕ) where
    -- The messages of a call that the broker has taken, if any.
    pub keep : List TelemetryMessage → List (List TelemetryMessage) → List (List TelemetryMessage)
    keep [] published = published
    keep (m ∷ ms) published = published ++ (m ∷ ms) ∷ []

    publish : List TelemetryMessage → Pass → PassEnd
    unfolding keep
    publish msgs p = elim (breaks p.calls) [
      | none ↦ going (record p { calls = p.calls + 1; published = p.published ++ msgs ∷ [] })
      | some n ↦
          interrupted (record p { calls = p.calls + 1; published = keep (take n msgs) p.published })
    ]

    clear_batch : PassEnd → PassEnd
    clear_batch (going p) = going (record p { batch = [] })
    clear_batch (interrupted p) = interrupted p

    flush_of : List TelemetryMessage → Pass → PassEnd
    unfolding publish clear_batch
    flush_of [] p = going p
    flush_of (m ∷ ms) p = clear_batch (publish (m ∷ ms) p)

    -- `flush`
    pub flush_batch : Pass → PassEnd
    unfolding flush_of
    flush_batch p = flush_of p.batch p

    -- The sleep after a message, by whether it ends with an error.
    sleep : Bool → PassEnd → PassEnd
    sleep false e = e
    sleep true (going p) = interrupted p
    sleep true (interrupted p) = interrupted p

    -- A message that was read goes out alone, or into the batch.
    send_message : TelemetryMessage → Pass → PassEnd
    unfolding publish flush_batch
    send_message m p =
        let p' = record p { batch = p.batch ++ m ∷ [] } in
        if leb batch_size 1
        then publish (m ∷ []) p
        else if leb batch_size (length p'.batch)
        then flush_batch p'
        else going p'

    pub send_row : Bool → Option TelemetryMessage → Pass → PassEnd
    unfolding sleep send_message
    send_row cut none p = going (record p { skipped = p.skipped + 1 })
    send_row cut (some m) p = sleep (ltb 0 loop_delay_ms && cut) (send_message m p)

    -- The rest of a pass, and the flush at its end.
    pub read_rows : List Row → PassEnd → Run PassEnd
    unfolding send_row row_message
    read_rows rows (interrupted p) = ok (interrupted p)
    read_rows [] (going p) = ok (flush_batch p)
    read_rows (row ∷ rows) (going p) =
        row_message row >>= λ m. read_rows rows (send_row row.cut m p)

    -- One pass of `StreamBatched`, after the header.
    pub stream_pass : List Row → Run PassEnd
    unfolding read_rows
    stream_pass rows =
        read_rows rows (going (record { batch = []; skipped = 0; calls = 0; published = [] }))
