-- ===== src/Gateway.antt =====
-- internal/gateway/handler.go and internal/gateway/cursor.go over the statements of pkg/db/read.go.
-- `Env` has the calls of the Go library that a request makes; a missing query parameter is the
-- empty string, a nil pool is `none`, and the time limits of the database calls are among their
-- failures. The JSON text of a response is left out.
pub mod Handlers
mod Tests
pub mod Page
pub mod Cursor
use Prim.Native.String.{String}
use text.Mathlib.Text.{◌==◌ as str_eq}
use vantage.Prelude.{
  ◌||◌, ℕ, zero, suc, ◌+◌, ◌-◌, ◌^◌, Bool, true, false, ◌&&◌, not, List, [], ◌∷◌, Option, none,
  some, length, take, ltb, leb, if◌then◌else◌, map,
}
use vantage.Prelude.Int.{ℤ, pos, negsuc}
use vantage.Collector.{GpuMetric}
use vantage.Database.{
  Pool, Dialect, ping, gpu_exists, telemetry_count, telemetry, telemetry_after, distinct_gpu_ids,
}

-- `telemetryCursor`
pub record TelemetryCursor (Time : Type 0) : Type 0 where
  pub ts : Time
  pub metric : String

-- `Bytes` is the type of byte slices.
pub record Env (Time Bytes : Type 0) : Type 0 where
  pub parse_rfc3339 : String → Option Time
  pub atoi : String → Option ℤ
  pub is_zero : Time → Bool
  pub marshal : TelemetryCursor Time → Bytes
  pub unmarshal : Bytes → Option (TelemetryCursor Time)
  pub encode_base64 : Bytes → String
  pub decode_base64 : String → Option Bytes

-- `TelemetryPage` with its `PaginationMeta`. `GpuMetricResponse` has the fields of `GpuMetric`.
pub record TelemetryPage (Time : Type 0) : Type 0 where
  pub data_rows : List (GpuMetric Time)
  pub limit : ℕ
  pub offset : ℕ
  pub total : Option ℕ
  pub has_next : Bool
  pub next_cursor : String

pub data Response (Time : Type 0) : Type 0 where
  error_response : ℕ → String → Response Time
  page_response : TelemetryPage Time → Response Time
  ids_response : List String → Response Time
  status_ok : Response Time

-- The query parameters of a request.
pub record Request : Type 0 where
  pub start_time : String
  pub end_time : String
  pub limit : String
  pub offset : String
  pub cursor : String

-- A value, or the response that ends the handler.
pub data Checked (Time A : Type 0) : Type 0 where
  good : A → Checked Time A
  refuse : Response Time → Checked Time A

infixl 5 ◌>>=◌
abbrev pub ◌>>=◌ : {Time A B : Type 0} → Checked Time A → (A → Checked Time B) → Checked Time B
good a >>= f = f a
refuse r >>= f = refuse r

abbrev pub answer : {Time : Type 0} → Checked Time (Response Time) → Response Time
answer (good r) = r
answer (refuse r) = r

-- The parameters of a request that passes the checks.
pub record Query (Time : Type 0) : Type 0 where
  pub start : Option Time
  pub end : Option Time
  pub limit : ℕ
  pub offset : ℕ
  pub cursor : Option (TelemetryCursor Time)

-- `limit+1`, in an integer of 64 bits.
pub sentinel_limit : ℕ → ℤ
sentinel_limit n = if ltb (n + 1) (2 ^ 63) then pos (n + 1) else negsuc (2 ^ 63 - 1)

abbrev pub bad_start : String
bad_start = "invalid start_time: expected RFC3339 (e.g. 2006-01-02T15:04:05Z)"

abbrev pub bad_end : String
bad_end = "invalid end_time: expected RFC3339 (e.g. 2006-01-02T15:04:05Z)"

module _ {Time Bytes : Type 0} (env : Env Time Bytes) where
  pub encode_cursor : TelemetryCursor Time → String
  encode_cursor c = env.encode_base64 (env.marshal c)

  complete_cursor : TelemetryCursor Time → Option (TelemetryCursor Time)
  complete_cursor c = if env.is_zero c.ts || str_eq c.metric "" then none else some c

  read_cursor : Option (TelemetryCursor Time) → Option (TelemetryCursor Time)
  unfolding complete_cursor
  read_cursor none = none
  read_cursor (some c) = complete_cursor c

  read_payload : Option Bytes → Option (TelemetryCursor Time)
  unfolding read_cursor
  read_payload none = none
  read_payload (some raw) = read_cursor (env.unmarshal raw)

  pub decode_cursor : String → Option (TelemetryCursor Time)
  unfolding read_payload
  decode_cursor s = read_payload (env.decode_base64 s)

  bad_request : {A : Type 0} → String → Checked Time A
  bad_request msg = refuse (error_response 400 msg)

  time_or : String → Option Time → Checked Time (Option Time)
  unfolding bad_request
  time_or msg none = bad_request msg
  time_or msg (some t) = good (some t)

  pub parse_bound : String → String → Checked Time (Option Time)
  unfolding time_or
  parse_bound msg v = if str_eq v "" then good none else time_or msg (env.parse_rfc3339 v)

  limit_of : ℕ → Option ℤ → Checked Time ℕ
  unfolding bad_request
  limit_of max_rows (some (pos (suc n))) = good (if ltb max_rows (suc n) then max_rows else suc n)
  limit_of max_rows (some (pos zero)) = bad_request "limit must be a positive integer"
  limit_of max_rows (some (negsuc n)) = bad_request "limit must be a positive integer"
  limit_of max_rows none = bad_request "limit must be a positive integer"

  pub parse_limit : ℕ → String → Checked Time ℕ
  unfolding limit_of
  parse_limit max_rows v = if str_eq v "" then good max_rows else limit_of max_rows (env.atoi v)

  offset_of : Option ℤ → Checked Time ℕ
  unfolding bad_request
  offset_of (some (pos n)) = good n
  offset_of (some (negsuc n)) = bad_request "offset must be a non-negative integer"
  offset_of none = bad_request "offset must be a non-negative integer"

  pub parse_offset : String → Checked Time ℕ
  unfolding offset_of
  parse_offset v = if str_eq v "" then good 0 else offset_of (env.atoi v)

  cursor_of : Option (TelemetryCursor Time) → Checked Time (Option (TelemetryCursor Time))
  unfolding bad_request
  cursor_of none = bad_request "invalid cursor: pass pagination.next_cursor verbatim"
  cursor_of (some c) = good (some c)

  -- Of the texts of the cursor and the offset.
  pub parse_cursor : String → String → Checked Time (Option (TelemetryCursor Time))
  unfolding cursor_of decode_cursor
  parse_cursor v offset =
      if str_eq v ""
      then good none
      else if str_eq offset ""
      then cursor_of (decode_cursor v)
      else bad_request "cursor and offset are mutually exclusive"

  pub parse_query : ℕ → Request → Checked Time (Query Time)
  unfolding parse_bound parse_limit parse_offset parse_cursor
  parse_query max_rows req = do
    start ← parse_bound bad_start req.start_time
    end ← parse_bound bad_end req.end_time
    limit ← parse_limit max_rows req.limit
    offset ← parse_offset req.offset
    cursor ← parse_cursor req.cursor req.offset
    good (record { start = start; end = end; limit = limit; offset = offset; cursor = cursor })
