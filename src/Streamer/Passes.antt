-- ===== src/Streamer/Passes.antt =====
-- `StreamBatched` and `Runner.Run` of internal/streamer/streamer.go: pass after pass over the file.
-- The file system, encoding/csv and the dial are not of this repository, so that a pass says what
-- they come to.
pub mod Prefix
use Prim.Native.String.{String}
use text.Mathlib.Text.{◌==◌ as str_eq}
use vantage.Prelude.{ℕ, Bool, true, false, List, [], ◌∷◌, Option, if◌then◌else◌, Run, ok, ◌>>=◌}
use vantage.Streamer.Rows.{Row, Pass, PassEnd, going, interrupted, read_rows}

-- A round of the outer loop: the context has ended, the file cannot be rewound, it has no header,
-- or it has these rows.
pub data PassStart : Type 0 where
  context_over seek_fails header_fails : PassStart
  has_rows : List Row → PassStart

pub data StreamerEnd : Type 0 where
  path_missing dial_failed csv_not_opened context_ended : StreamerEnd
  seek_failed header_failed once_done still_streaming : StreamerEnd

abbrev pub first_pass : Pass
first_pass = record { batch = []; skipped = 0; calls = 0; published = [] }

module _ (parse_float : String → Option ℕ) (breaks : ℕ → Option ℕ)
    (loop_delay_ms batch_size : ℕ) where
  -- The end of a pass.
  after_pass : Bool → (Pass → Run (StreamerEnd × Pass)) → PassEnd → Run (StreamerEnd × Pass)
  after_pass once again (interrupted p) = ok (context_ended, p)
  after_pass true again (going p) = ok (once_done, p)
  after_pass false again (going p) = again p

  stream_passes : Bool → List PassStart → Pass → Run (StreamerEnd × Pass)
  unfolding after_pass
  stream_passes once [] p = ok (still_streaming, p)
  stream_passes once (context_over ∷ passes) p = ok (context_ended, p)
  stream_passes once (seek_fails ∷ passes) p = ok (seek_failed, p)
  stream_passes once (header_fails ∷ passes) p = ok (header_failed, p)
  stream_passes once (has_rows rows ∷ passes) p =
      read_rows parse_float breaks loop_delay_ms batch_size rows (going p)
      >>= after_pass once (stream_passes once passes)

  -- `StreamBatched`, by whether the file opens.
  pub stream_batched : Bool → Bool → List PassStart → Run (StreamerEnd × Pass)
  unfolding stream_passes
  stream_batched false once passes = ok (csv_not_opened, first_pass)
  stream_batched true once passes = stream_passes once passes first_pass

  -- `Runner.Run`, by the path and whether the dial succeeds.
  pub run_streamer : String → Bool → Bool → List PassStart → Run (StreamerEnd × Pass)
  unfolding stream_batched
  run_streamer csv_path dials opens passes =
      if str_eq csv_path ""
      then ok (path_missing, first_pass)
      else if dials
      then stream_batched opens false passes
      else ok (dial_failed, first_pass)
