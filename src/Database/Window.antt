-- ===== src/Database/Window.antt =====
-- The two statements of `Telemetry` and of `TelemetryCount` in pkg/db/read.go.
use Prim.Native.String.{String}
use text.Mathlib.Text.{◌==◌ as str_eq}
use vantage.Prelude.{
  ℕ, ◌≡◌, refl, ap, ◌∙◌, Bool, true, false, ◌&&◌, List, [], ◌∷◌, Option, none, some, length, take,
  drop, if◌then◌else◌,
}
use vantage.Prelude.Int.{pos}
use vantage.Prelude.Order.{filter, order}
use vantage.Collector.{GpuMetric}
use vantage.Database.{
  distinct_ids, distinct_call, distinct_gpu_ids, any_row, exists_call, gpu_exists, Pool, Dialect,
  page_call, count_call, newer, in_window, limited, select_rows, telemetry, telemetry_count,
}
use vantage.Database.Keyset.{query-held}

filter_ext :
    {A : Type 0} (p q : A → Bool) (xs : List A) → ((x : A) → p x ≡ q x) → filter p xs ≡ filter q xs
filter_ext p q [] same = refl
filter_ext p q (x ∷ xs) same =
    ap (λ b. if b then x ∷ filter p xs else filter p xs) (same x)
    ∙ ap (λ zs. if q x then x ∷ zs else zs) (filter_ext p q xs same)

module _ {Time : Type 0} (sql : Dialect Time) where
  -- Without bounds the window holds every row of the GPU.
  unbounded :
      (id : String) (rows : List (GpuMetric Time))
      → filter (λ row. str_eq row.gpu_id id) rows ≡ filter (in_window sql id none none) rows
  unbounded id rows =
      filter_ext (λ row. str_eq row.gpu_id id) (in_window sql id none none) rows
        (λ row. and_true (str_eq row.gpu_id id))
    where
      and_true : (b : Bool) → b ≡ (b && (true && true))
      and_true true = refl
      and_true false = refl

  pub telemetry-window :
      (pool : Pool Time) (id : String) (start end : Option Time) (limit offset : ℕ)
      (rows : List (GpuMetric Time))
      → pool.table page_call ≡ some rows
      → telemetry sql pool id start end (pos limit) offset
        ≡ some (
            take limit (drop offset (order (newer sql) (filter (in_window sql id start end) rows))))
  unfolding telemetry limited select_rows
  telemetry-window pool id none none limit offset rows held =
      query-held sql pool page_call
        (λ rows.
          limited sql (pos limit) offset (select_rows sql (λ row. str_eq row.gpu_id id) rows))
        rows held
      ∙ ap (λ found. some (take limit (drop offset (order (newer sql) found)))) (unbounded id rows)
  telemetry-window pool id none (some end) limit offset rows held =
      query-held sql pool page_call
        (λ rows.
          limited sql (pos limit) offset (select_rows sql (in_window sql id none (some end)) rows))
        rows held
  telemetry-window pool id (some start) end limit offset rows held =
      query-held sql pool page_call
        (λ rows.
          limited sql (pos limit) offset (select_rows sql (in_window sql id (some start) end) rows))
        rows held

  -- `TelemetryCount` on a table that holds `rows` counts the rows of the GPU in the window, by
  -- either of its statements.
  pub telemetry_count-window :
      (pool : Pool Time) (id : String) (start end : Option Time) (rows : List (GpuMetric Time))
      → pool.table count_call ≡ some rows
      → telemetry_count sql pool id start end
        ≡ some (length (filter (in_window sql id start end) rows))
  unfolding telemetry_count
  telemetry_count-window pool id none none rows held =
      query-held sql pool count_call
        (λ rows. some (length (filter (λ row. str_eq row.gpu_id id) rows))) rows held
      ∙ ap (λ found. some (length found)) (unbounded id rows)
  telemetry_count-window pool id none (some end) rows held =
      query-held sql pool count_call
        (λ rows. some (length (filter (in_window sql id none (some end)) rows))) rows held
  telemetry_count-window pool id (some start) end rows held =
      query-held sql pool count_call
        (λ rows. some (length (filter (in_window sql id (some start) end) rows))) rows held

  -- Whether a table that holds `rows` knows the GPU.
  pub gpu_exists-held :
      (pool : Pool Time) (id : String) (rows : List (GpuMetric Time))
      → pool.table exists_call ≡ some rows
      → gpu_exists sql pool id ≡ some (any_row sql id rows)
  unfolding gpu_exists
  gpu_exists-held pool id rows held =
      query-held sql pool exists_call (λ rows. some (any_row sql id rows)) rows held

  pub distinct_gpu_ids-held :
      (pool : Pool Time) (rows : List (GpuMetric Time))
      → pool.table distinct_call ≡ some rows
      → distinct_gpu_ids sql pool ≡ some (distinct_ids sql rows)
  unfolding distinct_gpu_ids
  distinct_gpu_ids-held pool rows held =
      query-held sql pool distinct_call (λ rows. some (distinct_ids sql rows)) rows held
