-- ===== src/Database.antt =====
-- pkg/db/read.go: what its SQL statements ask of the table `gpu_metrics`. The database is not of
-- this repository: `Pool` has what the table holds when a call comes to it, or nothing when the
-- call fails, and `Dialect` the comparisons of the columns' types. A statement is its WHERE clause
-- as a test, its ORDER BY as the order of its columns, and its LIMIT and OFFSET; a negative LIMIT
-- or OFFSET is an error of the database.
pub mod Keyset
pub mod Window
pub mod Distinct
use Prim.Native.String.{String}
use text.Mathlib.Text.{◌==◌ as str_eq}
use vantage.Prelude.{
  ℕ, ◌+◌, if◌then◌else◌, Bool, true, false, ◌&&◌, ◌||◌, not, List, [], ◌∷◌, Option, none, some,
  length, take, drop,
}
use vantage.Prelude.Int.{ℤ, pos, negsuc}
use vantage.Prelude.Order.{filter, order}
use vantage.Collector.{GpuMetric}

-- The calls that a request makes.
pub data Call : Type 0 where
  ping distinct_call exists_call count_call page_call : Call

pub record Pool (Time : Type 0) : Type 0 where
  pub table : Call → Option (List (GpuMetric Time))

-- `<` on `timestamptz` and on `text`.
pub record Dialect (Time : Type 0) : Type 0 where
  pub earlier : Time → Time → Bool
  pub collates : String → String → Bool

module _ {Time : Type 0} (sql : Dialect Time) where
  -- `(timestamp, metric_name) < ($ts, $mn)`
  abbrev pub key_below : Time → String → Time → String → Bool
  key_below t n ts mn = sql.earlier t ts || (not (sql.earlier ts t) && sql.collates n mn)

  -- `ORDER BY timestamp DESC, metric_name DESC`
  abbrev pub newer : GpuMetric Time → GpuMetric Time → Bool
  newer a b = key_below b.timestamp b.metric_name a.timestamp a.metric_name

  abbrev pub from_start : Option Time → Time → Bool
  from_start none t = true
  from_start (some start) t = not (sql.earlier t start)

  abbrev pub to_end : Option Time → Time → Bool
  to_end none t = true
  to_end (some end) t = not (sql.earlier end t)

  -- `gpu_id = $1 AND ($2 IS NULL OR timestamp >= $2) AND ($3 IS NULL OR timestamp <= $3)`
  abbrev pub in_window : String → Option Time → Option Time → GpuMetric Time → Bool
  in_window id start end row =
      str_eq row.gpu_id id && (from_start start row.timestamp && to_end end row.timestamp)

  -- `LIMIT $n OFFSET $m`
  pub limited : ℤ → ℕ → List (GpuMetric Time) → Option (List (GpuMetric Time))
  limited (pos limit) offset rows = some (take limit (drop offset rows))
  limited (negsuc n) offset rows = none

  -- The rows that a statement finds.
  pub select_rows : (GpuMetric Time → Bool) → List (GpuMetric Time) → List (GpuMetric Time)
  select_rows test rows = order newer (filter test rows)

  -- The call's rows through a statement.
  on_table :
      {B : Type 0} → (List (GpuMetric Time) → Option B) → Option (List (GpuMetric Time)) → Option B
  on_table statement none = none
  on_table statement (some rows) = statement rows

  pub query : {B : Type 0} → Pool Time → Call → (List (GpuMetric Time) → Option B) → Option B
  unfolding on_table
  query pool call statement = on_table statement (pool.table call)

  abbrev pub any_row : String → List (GpuMetric Time) → Bool
  any_row id [] = false
  any_row id (row ∷ rows) = let rest = any_row id rows in str_eq row.gpu_id id || rest

  pub gpu_exists : Pool Time → String → Option Bool
  unfolding query
  gpu_exists pool id = query pool exists_call (λ rows. some (any_row id rows))

  -- Without bounds the statement has no test of the timestamp.
  pub telemetry_count : Pool Time → String → Option Time → Option Time → Option ℕ
  unfolding query
  telemetry_count pool id none none =
      query pool count_call (λ rows. some (length (filter (λ row. str_eq row.gpu_id id) rows)))
  telemetry_count pool id start end =
      query pool count_call (λ rows. some (length (filter (in_window id start end) rows)))

  pub telemetry :
      Pool Time → String → Option Time → Option Time → ℤ → ℕ → Option (List (GpuMetric Time))
  unfolding query limited select_rows
  telemetry pool id none none limit offset =
      query pool page_call
        (λ rows. limited limit offset (select_rows (λ row. str_eq row.gpu_id id) rows))
  telemetry pool id start end limit offset =
      query pool page_call
        (λ rows. limited limit offset (select_rows (in_window id start end) rows))

  pub telemetry_after :
      Pool Time
      → String
      → Option Time
      → Option Time
      → Time
      → String
      → ℤ
      → Option (List (GpuMetric Time))
  unfolding query limited select_rows
  telemetry_after pool id start end cursor_ts cursor_metric limit = query pool page_call (λ rows.
      limited limit 0 (
        select_rows
          (λ row.
            in_window id start end row
            && key_below row.timestamp row.metric_name cursor_ts cursor_metric)
          rows))

  -- `SELECT DISTINCT gpu_id … ORDER BY gpu_id`
  pub add_id : String → List String → List String
  add_id id [] = id ∷ []
  add_id id (x ∷ xs) =
      let later = add_id id xs in
      if sql.collates x id then x ∷ later else if sql.collates id x then id ∷ x ∷ xs else x ∷ xs

  pub distinct_ids : List (GpuMetric Time) → List String
  unfolding add_id
  distinct_ids [] = []
  distinct_ids (row ∷ rows) = add_id row.gpu_id (distinct_ids rows)

  pub distinct_gpu_ids : Pool Time → Option (List String)
  unfolding query distinct_ids
  distinct_gpu_ids pool = query pool distinct_call (λ rows. some (distinct_ids rows))
