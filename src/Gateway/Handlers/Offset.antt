-- ===== src/Gateway/Handlers/Offset.antt =====
-- The offset mode of `GetTelemetry` in internal/gateway/handler.go.
use Prim.Native.String.{String}
use vantage.Prelude.{
  ℕ, zero, suc, ◌+◌, ◌-◌, ◌^◌, ◌≤◌, ◌<◌, ◌≡◌, refl, ap, sym, ◌∙◌, Bool, true, false, List, [], ◌∷◌,
  Option, none, some, length, take, drop, ltb, if◌then◌else◌, arith, length-take, lt→ltb,
}
use vantage.Prelude.Int.{pos}
use vantage.Prelude.Order.{filter, order}
use vantage.Collector.{GpuMetric}
use vantage.Database.{Pool, Dialect, page_call, count_call, newer, in_window, telemetry, gpu_exists}
use vantage.Database.Window.{telemetry-window, telemetry_count-window}
use vantage.Gateway.{
  negsuc, Env, TelemetryPage, page_response, Request, good, ◌>>=◌, answer, Query, sentinel_limit,
  parse_query,
}
use vantage.Gateway.Handlers.{
  total_in, fetch_from, page_with, get_telemetry, or_500, check_known, count_total, fetch, page_of,
  serve_query, last_cursor,
}

take_all : {A : Type 0} (n : ℕ) (xs : List A) → length xs ≤ n → take n xs ≡ xs
take_all zero [] h = refl
take_all zero (x ∷ xs) h = absurd (omega arith)
take_all (suc n) [] h = refl
take_all (suc n) (x ∷ xs) h = ap (λ ys. x ∷ ys) (take_all n xs (omega arith))

take_fewer : {A : Type 0} (n : ℕ) (xs : List A) → take n (take (suc n) xs) ≡ take n xs
take_fewer zero xs = refl
take_fewer (suc n) [] = refl
take_fewer (suc n) (x ∷ xs) = ap (λ ys. x ∷ ys) (take_fewer n xs)

-- Whether the page and one row more hold more than the page.
sentinel_row :
    {A : Type 0} (n : ℕ) (xs : List A) → ltb n (length (take (suc n) xs)) ≡ ltb n (length xs)
sentinel_row n xs = ground (arith, length-take (suc n) xs)

module _ {Time Bytes : Type 0} (sql : Dialect Time) (env : Env Time Bytes) where
  pub sentinel : (n : ℕ) → n + 1 < 2 ^ 63 → sentinel_limit n ≡ pos (suc n)
  unfolding sentinel_limit
  sentinel n h =
      ap (λ q. if q then pos (n + 1) else negsuc (2 ^ 63 - 1)) (lt→ltb (n + 1) (2 ^ 63) h)
      ∙ ap pos (omega arith)

  -- A page that shows `rows`.
  abbrev pub shown_with : Query Time → Option ℕ → Bool → List (GpuMetric Time) → TelemetryPage Time
  shown_with q total has_next rows = record {
    data_rows = rows;
    limit = q.limit;
    offset = q.offset;
    total = total;
    has_next = has_next;
    next_cursor = if has_next then last_cursor sql env rows else "";
  }

  -- The first rows of `xs`.
  abbrev pub shown_page : Query Time → Option ℕ → Bool → List (GpuMetric Time) → TelemetryPage Time
  shown_page q total has_next xs = shown_with q total has_next (take q.limit xs)

  page_with-shown :
      (q : Query Time) (total : Option ℕ) (xs : List (GpuMetric Time)) (h : Bool)
      → ltb q.limit (length xs) ≡ h
      → page_with sql env q total h (take (suc q.limit) xs) ≡ shown_page q total h xs
  unfolding page_with
  page_with-shown q total xs true more =
      ap (λ rows. shown_with q total true rows) (take_fewer q.limit xs)
  page_with-shown q total xs false no_more =
      ap (λ rows. shown_with q total false rows)
        (take_all (suc q.limit) xs (ground (arith, no_more))
          ∙ sym (take_all q.limit xs (ground (arith, no_more))))

  pub page_of-take :
      (q : Query Time) (total : Option ℕ) (xs : List (GpuMetric Time))
      → page_of sql env q total (take (suc q.limit) xs)
        ≡ shown_page q total (ltb q.limit (length xs)) xs
  unfolding page_of
  page_of-take q total xs =
      ap (λ h. page_with sql env q total h (take (suc q.limit) xs)) (sentinel_row q.limit xs)
      ∙ page_with-shown q total xs (ltb q.limit (length xs)) refl

  -- The answer to a request that passes the checks, when the database knows the GPU and answers.
  pub get_telemetry-serves :
      (pool : Pool Time) (max_rows : ℕ) (id : String) (req : Request) (q : Query Time)
      (total : Option ℕ) (rows : List (GpuMetric Time))
      → parse_query env max_rows req ≡ good q
      → gpu_exists sql pool id ≡ some true
      → count_total sql env pool id q ≡ good total
      → fetch sql env pool id q ≡ some rows
      → get_telemetry sql env (some pool) max_rows id req
        ≡ page_response (page_of sql env q total rows)
  unfolding get_telemetry serve_query or_500 check_known
  get_telemetry-serves pool max_rows id req q total rows parsed known counted fetched =
      ap (λ c. answer (c >>= λ q. serve_query sql env pool id q)) parsed
      ∙ ap
          (λ o. answer (
            or_500 "failed to check GPU" o >>= λ known. check_known sql env known >>= λ _.
            count_total sql env pool id q >>= λ total.
            or_500 "failed to fetch telemetry" (fetch sql env pool id q) >>= λ rows.
            good (page_response (page_of sql env q total rows))))
          known
      ∙ ap
          (λ c. answer (
            c >>= λ total. or_500 "failed to fetch telemetry" (fetch sql env pool id q) >>= λ rows.
            good (page_response (page_of sql env q total rows))))
          counted
      ∙ ap
          (λ o. answer (
            or_500 "failed to fetch telemetry" o >>= λ rows.
            good (page_response (page_of sql env q total rows))))
          fetched

  -- A request that passes the checks without a cursor, at a database that knows the GPU, whose
  -- calls find the table with `rows`, and a limit whose successor is an integer of 64 bits: the
  -- page shows the rows of the GPU in the window, newest first, from the offset on, up to the
  -- limit; it says that there are more exactly if there are; and its total is that of the window.
  pub get_telemetry-page :
      (pool : Pool Time) (max_rows : ℕ) (id : String) (req : Request) (q : Query Time)
      (rows : List (GpuMetric Time))
      → parse_query env max_rows req ≡ good q
      → q.cursor ≡ none
      → q.limit + 1 < 2 ^ 63
      → gpu_exists sql pool id ≡ some true
      → pool.table count_call ≡ some rows
      → pool.table page_call ≡ some rows
      → let found = filter (in_window sql id q.start q.end) rows in
        let ordered = drop q.offset (order (newer sql) found) in
        get_telemetry sql env (some pool) max_rows id req
        ≡ page_response (shown_page q (some (length found)) (ltb q.limit (length ordered)) ordered)
  unfolding count_total total_in fetch fetch_from or_500
  get_telemetry-page pool max_rows id req q rows parsed no_cursor small known counts holds =
      let found = filter (in_window sql id q.start q.end) rows in
      let ordered = drop q.offset (order (newer sql) found) in
      get_telemetry-serves pool max_rows id req q (some (length found)) (take (suc q.limit) ordered)
        parsed known
        (ap (total_in sql env pool id q) no_cursor
          ∙ ap (λ o. or_500 "failed to count telemetry" o >>= λ n. good (some n))
              (telemetry_count-window sql pool id q.start q.end rows counts))
        (ap (fetch_from sql env pool id q) no_cursor
          ∙ ap (λ n. telemetry sql pool id q.start q.end n q.offset) (sentinel q.limit small)
          ∙ telemetry-window sql pool id q.start q.end (suc q.limit) q.offset rows holds)
      ∙ ap page_response (page_of-take q (some (length found)) ordered)
