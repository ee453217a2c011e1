-- ===== src/Gateway/Handlers.antt =====
-- The handlers of internal/gateway/handler.go.
pub mod Offset
pub mod Named
pub mod Walk
pub mod Listing
use Prim.Native.String.{String}
use vantage.Prelude.{
  ℕ, zero, suc, ◌+◌, Bool, true, false, List, [], ◌∷◌, Option, none, some, length, take, ltb,
  if◌then◌else◌,
}
use vantage.Prelude.Int.{ℤ}
use vantage.Collector.{GpuMetric}
use vantage.Database.{
  Pool, Dialect, ping, gpu_exists, telemetry_count, telemetry, telemetry_after, distinct_gpu_ids,
}
use vantage.Gateway.{
  TelemetryCursor, Env, TelemetryPage, Response, error_response, page_response, ids_response,
  status_ok, Request, Checked, good, refuse, ◌>>=◌, answer, Query, sentinel_limit, encode_cursor,
  parse_query,
}

-- A failure of the database, or what it answers.
pub or_500 : {Time A : Type 0} → String → Option A → Checked Time A
or_500 msg none = refuse (error_response 500 msg)
or_500 msg (some a) = good a

module _ {Time Bytes : Type 0} (sql : Dialect Time) (env : Env Time Bytes) where
  pub check_known : Bool → Checked Time Bool
  check_known true = good true
  check_known false = refuse (error_response 404 "GPU not found")

  -- The total is counted in the offset mode only.
  total_in :
      Pool Time → String → Query Time → Option (TelemetryCursor Time) → Checked Time (Option ℕ)
  unfolding or_500
  total_in pool id q (some c) = good none
  total_in pool id q none =
      or_500 "failed to count telemetry" (telemetry_count sql pool id q.start q.end) >>= λ n.
      good (some n)

  pub count_total : Pool Time → String → Query Time → Checked Time (Option ℕ)
  unfolding total_in
  count_total pool id q = total_in pool id q q.cursor

  fetch_from :
      Pool Time
      → String
      → Query Time
      → Option (TelemetryCursor Time)
      → Option (List (GpuMetric Time))
  unfolding sentinel_limit
  fetch_from pool id q (some c) =
      telemetry_after sql pool id q.start q.end c.ts c.metric (sentinel_limit q.limit)
  fetch_from pool id q none = telemetry sql pool id q.start q.end (sentinel_limit q.limit) q.offset

  -- The rows of the page and one more.
  pub fetch : Pool Time → String → Query Time → Option (List (GpuMetric Time))
  unfolding fetch_from
  fetch pool id q = fetch_from pool id q q.cursor

  -- The cursor of the last row.
  pub last_cursor : List (GpuMetric Time) → String
  unfolding encode_cursor
  last_cursor [] = ""
  last_cursor (row ∷ []) =
      encode_cursor env (record { ts = row.timestamp; metric = row.metric_name })
  last_cursor (row ∷ next ∷ rows) = last_cursor (next ∷ rows)

  -- The page of the rows that were fetched, by whether there are more of them than it shows.
  page_with : Query Time → Option ℕ → Bool → List (GpuMetric Time) → TelemetryPage Time
  unfolding last_cursor
  page_with q total has_next rows =
      let shown = if has_next then take q.limit rows else rows in
      record {
        data_rows = shown;
        limit = q.limit;
        offset = q.offset;
        total = total;
        has_next = has_next;
        next_cursor = if has_next then last_cursor shown else "";
      }

  -- The row beyond the limit says that there are more.
  pub page_of : Query Time → Option ℕ → List (GpuMetric Time) → TelemetryPage Time
  unfolding page_with
  page_of q total rows = page_with q total (ltb q.limit (length rows)) rows

  pub serve_query : Pool Time → String → Query Time → Checked Time (Response Time)
  unfolding or_500 check_known count_total fetch page_of
  serve_query pool id q = do
    known ← or_500 "failed to check GPU" (gpu_exists sql pool id)
    _ ← check_known known
    total ← count_total pool id q
    rows ← or_500 "failed to fetch telemetry" (fetch pool id q)
    good (page_response (page_of q total rows))

  -- `GetTelemetry` on a request for one GPU.
  pub get_telemetry : Option (Pool Time) → ℕ → String → Request → Response Time
  unfolding or_500 serve_query
  get_telemetry pool max_rows id req = answer (
      parse_query env max_rows req >>= λ q.
      or_500 "database not available" pool >>= λ p. serve_query p id q)

  pub list_gpus : Option (Pool Time) → Response Time
  unfolding or_500
  list_gpus pool = answer (
      or_500 "database not available" pool >>= λ p.
      or_500 "failed to query GPU IDs" (distinct_gpu_ids sql p) >>= λ ids. good (ids_response ids))

  unfoldable healthz : Response Time
  healthz = status_ok

  ping_of : {A : Type 0} → Option A → Response Time
  ping_of none = error_response 503 "not ready"
  ping_of (some a) = status_ok

  -- `ReadyzHandler`
  unfoldable readyz : Option (Pool Time) → Response Time
  unfolding ping_of
  readyz none = error_response 503 "not ready"
  readyz (some pool) = ping_of (pool.table ping)
