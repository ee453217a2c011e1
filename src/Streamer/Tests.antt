-- ===== src/Streamer/Tests.antt =====
-- The theorems on internal/streamer at concrete rows and attempts.
use Prim.Native.String.{String}
use text.Mathlib.Text.{◌==◌ as str_eq}
use vantage.Prelude.{
  ℕ, ◌≡◌, refl, false, List, [], ◌∷◌, Option, none, some, if◌then◌else◌, Returns, arith,
}
use vantage.Message.{TelemetryMessage}
use vantage.Queue.Samples.{message}
use vantage.Streamer.Unary.{produce_with_retry}
use vantage.Streamer.Unary.Schedule.{delays, failures, outcome, produce_with_retry-delays}
use vantage.Streamer.{Attempt, accepts, fails, context_over, all_sent, produce_batch_with_retry}
use vantage.Streamer.Retry.{Sent, produce_batch_with_retry-Sent}
use vantage.Streamer.Retry.Done.{produce_batch_with_retry-all}
use vantage.Streamer.Rows.{Row}

abbrev two : List TelemetryMessage
two = message 0 ∷ message 0 ∷ []

produce_batch_with_retry-Sent_example :
    Returns
      (Sent two)
      (produce_batch_with_retry (fails false ∷ accepts 1 false ∷ context_over ∷ []) two)
produce_batch_with_retry-Sent_example =
    produce_batch_with_retry-Sent (fails false ∷ accepts 1 false ∷ context_over ∷ []) two
      (omega arith, tt)

produce_batch_with_retry-all_example :
    Returns
      (λ s. (s.end ≡ all_sent) × (s.accepted ≡ two))
      (produce_batch_with_retry (accepts 1 false ∷ fails false ∷ accepts 1 false ∷ []) two)
produce_batch_with_retry-all_example =
    produce_batch_with_retry-all (accepts 1 false ∷ fails false ∷ accepts 1 false ∷ []) two
      (omega arith, (omega arith, tt)) (refl, (refl, (refl, tt))) (omega arith)

abbrev parse_float : String → Option ℕ
parse_float s = if str_eq s "1.5" then some 15 else none

-- A row with the columns in their places.
abbrev good_row : Row
good_row = record {
  stamp = "now";
  fields = some (
      "then" ∷ "temp" ∷ "0" ∷ "nvidia0" ∷ "GPU-1" ∷ "H100" ∷ "host" ∷ "" ∷ "" ∷ "" ∷ "1.5" ∷ "{}"
      ∷ []);
  cut = false;
}

abbrev bad_row : Row
bad_row = record { stamp = "now"; fields = none; cut = false }

abbrev published : TelemetryMessage
published = record {
  timestamp = "now";
  metric_name = "temp";
  gpu_id = "0";
  device = "nvidia0";
  uuid = "GPU-1";
  model_name = "H100";
  hostname = "host";
  container = "";
  pod = "";
  namespace = "";
  value = 15;
  labels_raw = "{}";
  id = 0;
  delivery_attempts = 0;
}

-- Two failures, and an acceptance.
abbrev two_failures : List Attempt
two_failures = fails false ∷ fails false ∷ accepts 1 false ∷ []

produce_with_retry-delays_example :
    produce_with_retry two_failures ≡ (outcome two_failures, delays 0 (failures two_failures))
produce_with_retry-delays_example = produce_with_retry-delays two_failures
