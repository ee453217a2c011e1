-- ===== src/Message.antt =====
-- The messages of api/proto/mq.proto as pkg/pb declares them.
-- Strings are only moved and compared. A float64 is only moved, so it stands as its 64 bits.
use Prim.Native.String.{String}
use vantage.Prelude.{ℕ}

pub record TelemetryMessage : Type 0 where
  pub timestamp : String
  pub metric_name : String
  pub gpu_id : String
  pub device : String
  pub uuid : String
  pub model_name : String
  pub hostname : String
  pub container : String
  pub pod : String
  pub namespace : String
  pub value : ℕ
  pub labels_raw : String
  pub id : ℕ
  pub delivery_attempts : ℕ

-- A message without the field that each delivery rewrites.
abbrev pub payload : TelemetryMessage → TelemetryMessage
payload m = record m { delivery_attempts = 0 }
