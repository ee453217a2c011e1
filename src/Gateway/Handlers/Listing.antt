-- ===== src/Gateway/Handlers/Listing.antt =====
-- `ListGPUs` of internal/gateway/handler.go against `GetTelemetry`.
use Prim.Native.String.{String}
use vantage.Prelude.{ℕ, ◌≡◌, ap, sym, ◌∙◌, false, List, some}
use vantage.Prelude.Order.{IsStrict}
use vantage.Collector.{GpuMetric}
use vantage.Database.{Pool, Dialect, distinct_call, exists_call, distinct_ids, gpu_exists}
use vantage.Database.Window.{gpu_exists-held, distinct_gpu_ids-held}
use vantage.Database.Distinct.{
  lists, IsAscending, AllApart, lists-distinct_ids, distinct_ids-IsAscending,
}
use vantage.Gateway.{
  Env, error_response, page_response, ids_response, Request, good, ◌>>=◌, answer, Query,
  parse_query,
}
use vantage.Gateway.Handlers.{
  get_telemetry, serve_query, list_gpus, or_500, check_known, count_total, fetch, page_of,
}

module _ {Time Bytes : Type 0} (sql : Dialect Time) (env : Env Time Bytes) (pool : Pool Time)
    (rows : List (GpuMetric Time)) where
  -- `GetTelemetry` on a request that passes the checks, for a GPU that is not in the table.
  unknown_gpu :
      (max_rows : ℕ) (id : String) (req : Request) (q : Query Time)
      → parse_query env max_rows req ≡ good q
      → gpu_exists sql pool id ≡ some false
      → get_telemetry sql env (some pool) max_rows id req ≡ error_response 404 "GPU not found"
  unfolding get_telemetry serve_query or_500 check_known
  unknown_gpu max_rows id req q parsed unknown =
      ap (λ c. answer (c >>= λ q. serve_query sql env pool id q)) parsed
      ∙ ap
          (λ o. answer (
            or_500 "failed to check GPU" o >>= λ known. check_known sql env known >>= λ _.
            count_total sql env pool id q >>= λ total.
            or_500 "failed to fetch telemetry" (fetch sql env pool id q) >>= λ rows.
            good (page_response (page_of sql env q total rows))))
          unknown

  -- What the list of GPUs says of the ids and of the requests for one.
  abbrev pub Tells : List String → Type 0
  Tells ids =
      IsAscending sql ids
      × ((id : String) → gpu_exists sql pool id ≡ some (lists ids id))
      × ((max_rows : ℕ) (id : String) (req : Request) (q : Query Time)
          → parse_query env max_rows req ≡ good q
          → lists ids id ≡ false
          → get_telemetry sql env (some pool) max_rows id req ≡ error_response 404 "GPU not found")

  -- At a database whose calls find the table with `rows`, whose collation is a strict order and
  -- tells the ids of the rows apart, `ListGPUs` answers with a list of ids in ascending order, and
  -- so each once, that holds an id exactly if `GPUExists` finds it; a request for the telemetry of
  -- an id that is not on the list, if it passes the checks, is answered with 404.
  pub list_gpus-Tells :
      IsStrict sql.collates
      → AllApart sql rows
      → pool.table distinct_call ≡ some rows
      → pool.table exists_call ≡ some rows
      → (ids : List String) × (list_gpus sql env (some pool) ≡ ids_response ids) × Tells ids
  unfolding list_gpus or_500
  list_gpus-Tells strict apart listed asked =
      let ids = distinct_ids sql rows in
      let known : (id : String) → gpu_exists sql pool id ≡ some (lists ids id) = λ id.
        gpu_exists-held sql pool id rows asked
        ∙ ap some (sym (lists-distinct_ids sql rows id apart)) in
      (
        ids,
        ap (λ o. answer (or_500 "failed to query GPU IDs" o >>= λ ids. good (ids_response ids)))
            (distinct_gpu_ids-held sql pool rows listed),
        (
          distinct_ids-IsAscending sql strict rows,
          known,
          λ max_rows id req q parsed missing.
              unknown_gpu max_rows id req q parsed (known id ∙ ap some missing),
        ),
      )
