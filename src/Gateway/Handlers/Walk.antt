-- ===== src/Gateway/Handlers/Walk.antt =====
-- A client of internal/gateway/handler.go that follows `next_cursor` from page to page.
use Prim.Native.String.{String}
use vantage.Prelude.{
  ℕ, zero, suc, ◌+◌, ◌^◌, ◌≤◌, ◌<◌, ◌≡◌, refl, ap, sym, subst, ◌∙◌, Bool, true, false, List, [],
  ◌∷◌, ◌++◌, append-nil, append_assoc, Option, none, some, length, take, drop, ltb, if◌then◌else◌,
  arith, length-drop, take-drop,
}
use vantage.Prelude.Order.{filter, order, IsKeyed}
use vantage.Collector.{GpuMetric}
use vantage.Database.{
  count_call, Pool, Dialect, Call, page_call, newer, in_window, gpu_exists, telemetry_after,
}
use vantage.Database.Keyset.{IsDialect, telemetry_after-rest}
use vantage.Gateway.{
  TelemetryCursor, Env, Response, error_response, page_response, ids_response, status_ok, Request,
  good, Query, bad_start, bad_end, parse_query, parse_bound, parse_limit, parse_offset,
  parse_cursor, cursor_of, encode_cursor, decode_cursor,
}
use vantage.Gateway.Cursor.{decode_cursor-encode_cursor}
use vantage.Gateway.Handlers.{get_telemetry, fetch, fetch_from, count_total, total_in, last_cursor}
use vantage.Gateway.Handlers.Offset.{
  sentinel, shown_page, page_of-take, get_telemetry-serves, get_telemetry-page,
}
use vantage.Gateway.Handlers.Named.{
  IsCodec, written, positive, empty_page, key_of, IsNamed, AllNamed, AllNamed-at, LastAt, last_at,
  take_short,
}

module _ {Time Bytes : Type 0} (sql : Dialect Time) (env : Env Time Bytes) (pool : Pool Time)
    (max_rows : ℕ) (id : String) where
  -- What the client keeps of a response; `again` asks for the next page.
  abbrev pub collect : (String → List (GpuMetric Time)) → Response Time → List (GpuMetric Time)
  collect again (page_response page) =
      page.data_rows ++ (if page.has_next then again page.next_cursor else [])
  collect again (error_response status msg) = []
  collect again (ids_response ids) = []
  collect again status_ok = []

  collect-shown :
      (again : String → List (GpuMetric Time)) (q : Query Time) (total : Option ℕ) (h : Bool)
      (xs : List (GpuMetric Time))
      → collect again (page_response (shown_page sql env q total h xs))
        ≡ take q.limit xs ++ (if h then again (last_cursor sql env (take q.limit xs)) else [])
  collect-shown again q total true xs = refl
  collect-shown again q total false xs = refl

  abbrev pub with_cursor : Request → String → Request
  with_cursor req v = record req { offset = ""; cursor = v }

  -- The rows of at most `fuel` pages.
  unfoldable pub walk : ℕ → Request → List (GpuMetric Time)
  walk zero req = []
  walk (suc fuel) req =
      collect (λ v. walk fuel (with_cursor req v))
        (get_telemetry sql env (some pool) max_rows id req)

  last_cursor-last :
      (pre : List (GpuMetric Time)) (row : GpuMetric Time)
      → last_cursor sql env (pre ++ row ∷ [])
        ≡ encode_cursor env (record { ts = row.timestamp; metric = row.metric_name })
  unfolding last_cursor
  last_cursor-last [] row = refl
  last_cursor-last (x ∷ []) row = refl
  last_cursor-last (x ∷ y ∷ pre) row = last_cursor-last (y ∷ pre) row

  module _ (req : Request) (start end : Option Time) (limit : ℕ) where
    abbrev paged : Option (TelemetryCursor Time) → Query Time
    paged c = record { start = start; end = end; limit = limit; offset = 0; cursor = c }

    module _ (starts : parse_bound env bad_start req.start_time ≡ good start)
        (ends : parse_bound env bad_end req.end_time ≡ good end)
        (limits : parse_limit env max_rows req.limit ≡ good limit) where
      parse_query-with :
          (v : String) (c : Option (TelemetryCursor Time))
          → parse_cursor env v "" ≡ good c
          → parse_query env max_rows (with_cursor req v) ≡ good (paged c)
      unfolding parse_query parse_offset
      parse_query-with v c cursor = simp (starts, ends, limits, cursor) refl

      module _ (laws : IsDialect sql) (codec : IsCodec env) (rows : List (GpuMetric Time))
          (held : (call : Call) → pool.table call ≡ some rows)
          (known : gpu_exists sql pool id ≡ some true) (small : limit + 1 < 2 ^ 63)
          (some_rows : 0 < limit) where
        abbrev window : List (GpuMetric Time)
        window = filter (in_window sql id start end) rows

        abbrev ordered : List (GpuMetric Time)
        ordered = order (newer sql) window

        parse_cursor-encoded :
            (row : GpuMetric Time)
            → IsNamed env row
            → parse_cursor env (encode_cursor env (key_of row)) "" ≡ good (some (key_of row))
        unfolding parse_cursor cursor_of
        parse_cursor-encoded row (dated, titled) =
            let v = encode_cursor env (key_of row) in
            ap (λ q. if q then good none else cursor_of env (decode_cursor env v))
              (written codec (key_of row) titled)
            ∙ ap (cursor_of env) (
                decode_cursor-encode_cursor env (key_of row)
                  (codec.base64 (env.marshal (key_of row))) (codec.json (key_of row)) dated titled)

        -- What the client makes of a page of `after`.
        abbrev shows :
            (String → List (GpuMetric Time)) → List (GpuMetric Time) → List (GpuMetric Time)
        shows again after =
            take limit after
            ++ (if ltb limit (length after)
                then again (last_cursor sql env (take limit after))
                else [])

        -- The page after a row.
        page_after :
            (before after : List (GpuMetric Time)) (last : GpuMetric Time)
            (again : String → List (GpuMetric Time))
            → ordered ≡ before ++ last ∷ after
            → IsKeyed (newer sql) window
            → IsNamed env last
            → collect again (
                get_telemetry sql env
                  (some pool)
                  max_rows
                  id
                  (with_cursor req (encode_cursor env (key_of last))))
              ≡ shows again after
        unfolding fetch fetch_from count_total total_in
        page_after before after last again split keyed named =
            let q = paged (some (key_of last)) in
            let parsed =
              parse_query-with (encode_cursor env (key_of last)) (some (key_of last))
                (parse_cursor-encoded last named) in
            ap (collect again) (
              get_telemetry-serves sql env pool max_rows id
                (with_cursor req (encode_cursor env (key_of last))) q none (take (suc limit) after)
                parsed known refl
                (ap (telemetry_after sql pool id start end last.timestamp last.metric_name)
                    (sentinel sql env limit small)
                  ∙ telemetry_after-rest sql laws pool id start end (suc limit) rows before after
                      last (held page_call) keyed split)
              ∙ ap page_response (page_of-take sql env q none after))
            ∙ collect-shown again q none (ltb limit (length after)) after

        -- One page more, when the walk from its last row comes to the rest.
        walk_step :
            (fuel : ℕ) (before after : List (GpuMetric Time)) (h : Bool)
            → ltb limit (length after) ≡ h
            → ((before' after' : List (GpuMetric Time))
                → length after' ≤ fuel
                → ordered ≡ before' ++ after'
                → shows (λ v. walk fuel (with_cursor req v)) after' ≡ after')
            → length after ≤ suc fuel
            → ordered ≡ before ++ after
            → IsKeyed (newer sql) window
            → AllNamed env ordered
            → take limit after
                ++ (if h
                    then walk (suc fuel) (with_cursor req (last_cursor sql env (take limit after)))
                    else [])
              ≡ after
        unfolding walk
        walk_step fuel before after false no_more rest short split keyed named =
            append-nil (take limit after) ∙ take_short limit after no_more
        walk_step fuel before after true more rest short split keyed named =
            let (k, pred) = positive limit some_rows in
            let (pre, x, shown, parts) : LastAt limit after =
              subst (λ n. LastAt n after) (sym pred)
                (last_at k after (ground (arith, more, pred))) in
            let after' = drop limit after in
            let split' : ordered ≡ (before ++ pre) ++ x ∷ after' =
              split ∙ ap (λ zs. before ++ zs) parts ∙ sym (append_assoc before pre (x ∷ after')) in
            let next : last_cursor sql env (take limit after) ≡ encode_cursor env (key_of x) =
              ap (last_cursor sql env) shown ∙ last_cursor-last pre x in
            ap (λ zs. take limit after ++ zs)
              (ap (λ v. walk (suc fuel) (with_cursor req v)) next
                ∙ page_after (before ++ pre) after' x (λ v. walk fuel (with_cursor req v)) split'
                    keyed
                    (AllNamed-at env (before ++ pre) x after' (subst (AllNamed env) split' named))
                ∙ rest ((before ++ pre) ++ x ∷ []) after'
                    (omega (arith, length-drop limit after, short, some_rows))
                    (split' ∙ sym (append_assoc (before ++ pre) (x ∷ []) after')))
            ∙ take-drop limit after

        walk_rest :
            (fuel : ℕ) (before after : List (GpuMetric Time))
            → length after ≤ fuel
            → ordered ≡ before ++ after
            → IsKeyed (newer sql) window
            → AllNamed env ordered
            → shows (λ v. walk fuel (with_cursor req v)) after ≡ after
        unfolding walk
        walk_rest zero before [] short split keyed named = empty_page limit (ltb limit zero)
        walk_rest zero before (x ∷ after) short split keyed named = absurd (omega arith)
        walk_rest (suc fuel) before after short split keyed named =
            walk_step fuel before after (ltb limit (length after)) refl
              (λ before' after' short' split'.
                walk_rest fuel before' after' short' split' keyed named)
              short split keyed named

        -- A client asks for a page without an offset and follows `next_cursor`. When the bounds and
        -- the limit of its request pass the checks, the successor of the limit is an integer of 64
        -- bits, the table stays the same and knows the GPU, no two rows of the window have one
        -- timestamp and metric, every row has both, and the cursors' encodings can be read back,
        -- then one page more than there are rows is enough for the client to have exactly the rows of
        -- the GPU in the window, newest first.
        pub walk-all :
            IsKeyed (newer sql) window
            → AllNamed env ordered
            → walk (suc (length ordered)) (with_cursor req "") ≡ ordered
        unfolding walk parse_cursor
        walk-all keyed named =
            ap (collect (λ v. walk (length ordered) (with_cursor req v))) (
              get_telemetry-page sql env pool max_rows id (with_cursor req "") (paged none) rows
                (parse_query-with "" none refl) refl small known (held count_call) (held page_call))
            ∙ collect-shown (λ v. walk (length ordered) (with_cursor req v)) (paged none)
                (some (length window)) (ltb limit (length ordered)) ordered
            ∙ walk_rest (length ordered) [] ordered (omega arith) refl keyed named
