-- ===== src/Streamer/Passes/Prefix.antt =====
-- What the passes of internal/streamer/streamer.go over the CSV file publish, however they end.
use Prim.Native.String.{String}
use vantage.Prelude.{ℕ, ◌≡◌, Bool, true, false, List, [], ◌∷◌, ◌++◌, Option, Returns}
use vantage.Message.{TelemetryMessage}
use vantage.Streamer.Rows.{Pass}
use vantage.Streamer.Rows.Sized.{messages, concat, AllSized, call_size}
use vantage.Streamer.Rows.Prefix.{AllParsed}
use vantage.Streamer.Passes.{
  PassStart, context_over, seek_fails, header_fails, has_rows, StreamerEnd, path_missing,
  dial_failed, csv_not_opened, context_ended, seek_failed, header_failed, once_done,
  still_streaming, stream_passes,
}

-- What the rows of each pass come to, until one that has none.
abbrev pub AllPasses :
    (String → Option ℕ) → List PassStart → List (List (Option TelemetryMessage)) → Type 0
AllPasses parse_float [] read = read ≡ []
AllPasses parse_float (context_over ∷ passes) read = read ≡ []
AllPasses parse_float (seek_fails ∷ passes) read = read ≡ []
AllPasses parse_float (header_fails ∷ passes) read = read ≡ []
AllPasses parse_float (has_rows rows ∷ passes) [] = ⊥
AllPasses parse_float (has_rows rows ∷ passes) (ms ∷ read) =
    AllParsed parse_float rows ms × AllPasses parse_float passes read

abbrev pub all_messages : List (List (Option TelemetryMessage)) → List TelemetryMessage
all_messages [] = []
all_messages (ms ∷ read) = messages ms ++ all_messages read

-- What an end says of the messages that are left: none of those that were read, or, when a single
-- pass was asked for, those of the later ones. An interruption may leave any.
abbrev pub Leaves :
    Bool → StreamerEnd → List (List (Option TelemetryMessage)) → List TelemetryMessage → Type 0
Leaves once path_missing read left = Unit
Leaves once dial_failed read left = Unit
Leaves once csv_not_opened read left = Unit
Leaves once context_ended read left = Unit
Leaves once seek_failed read left = left ≡ []
Leaves once header_failed read left = left ≡ []
Leaves once still_streaming read left = left ≡ []
Leaves false once_done read left = ⊥
Leaves true once_done read left =
    (ms : List (Option TelemetryMessage)) × (more : List (List (Option TelemetryMessage))) × (read
      ≡ ms ∷ more)
    × (left ≡ all_messages more)

-- The messages published are the first of those that were read.
abbrev pub Publishes :
    Bool
    → ℕ
    → List TelemetryMessage
    → List (List (Option TelemetryMessage))
    → StreamerEnd × Pass
    → Type 0
Publishes once size before read r =
    (left : List TelemetryMessage) × (concat r.1.published ++ left ≡ before ++ all_messages read)
    × Leaves once r.0 read left
    × AllSized (call_size size) r.1.published

module _ (parse_float : String → Option ℕ) (breaks : ℕ → Option ℕ) (delay size : ℕ) where
  -- Between two passes the batch is empty.
  Between : List TelemetryMessage → Pass → Type 0
  Between before p =
      (concat p.published ≡ before) × (p.batch ≡ []) × AllSized (call_size size) p.published

  abbrev Continues : Bool → List PassStart → Type 0
  Continues once passes =
      (p : Pass) (before : List TelemetryMessage) (read : List (List (Option TelemetryMessage)))
      → AllPasses parse_float passes read
      → Between before p
      → Returns (Publishes once size before read)
          (stream_passes parse_float breaks delay size once passes p)
