-- ===== src/Gateway/Tests.antt =====
-- The theorems on internal/gateway and pkg/db at a table of three rows, which were all taken at
-- one time. The text of a cursor is the name of its metric.
use Prim.Native.String.{String}
use text.Mathlib.Text.{◌==◌ as str_eq}
use vantage.Prelude.{
  ℕ, ◌≡◌, refl, true, false, List, [], ◌∷◌, none, some, ltb, length, drop, if◌then◌else◌, arith,
  inl, inr,
}
use vantage.Prelude.Int.{pos}
use vantage.Prelude.Order.{filter, order}
use vantage.Collector.{GpuMetric}
use vantage.Database.{Pool, Dialect, newer, in_window}
use vantage.Database.Keyset.{IsDialect}
use vantage.Database.Window.{gpu_exists-held}
use vantage.Gateway.{
  suc, limit_of, ids_response, Env, page_response, Request, Query, parse_query, parse_bound,
  parse_limit, parse_offset, parse_cursor,
}
use vantage.Gateway.Page.{IsChecked, Passes, parse_query-IsChecked}
use vantage.Gateway.Handlers.{get_telemetry, list_gpus}
use vantage.Gateway.Handlers.Listing.{Tells, list_gpus-Tells}
use vantage.Gateway.Handlers.Offset.{shown_page, get_telemetry-page}
use vantage.Gateway.Handlers.Walk.{walk, walk-all}
use vantage.Gateway.Handlers.Named.{IsCodec}

abbrev Instant : Type 0
Instant = Unit

-- The place of a metric in the order of the names.
abbrev rank : String → ℕ
rank s =
    if str_eq s "fan" then 1 else if str_eq s "power" then 2 else if str_eq s "temp" then 3 else 0

abbrev sql : Dialect Instant
sql = record { earlier = λ a b. false; collates = λ a b. ltb (rank a) (rank b) }

sql-IsDialect : IsDialect sql
sql-IsDialect = record {
  earlier = record { asym = λ x y h. refl; not_trans = λ x y z h k. refl };
  collates = record {
    asym = λ x y h. below_asym (rank x) (rank y) h;
    not_trans = λ x y z h k. below_trans (rank x) (rank y) (rank z) h k;
  };
}
  where
    below_asym : (a b : ℕ) → ltb a b ≡ true → ltb b a ≡ false
    below_asym a b h = ground arith

    below_trans : (a b c : ℕ) → ltb b a ≡ false → ltb c b ≡ false → ltb c a ≡ false
    below_trans a b c h k = ground arith

abbrev env : Env Instant String
env = record {
  parse_rfc3339 = λ _. none;
  atoi = λ s. if str_eq s "2" then some (pos 2) else none;
  is_zero = λ t. false;
  marshal = λ c. c.metric;
  unmarshal = λ s. some (record { ts = tt; metric = s });
  encode_base64 = λ s. s;
  decode_base64 = λ s. some s;
}

env-IsCodec : IsCodec env
env-IsCodec = record { base64 = λ b. refl; json = λ c. refl; filled = λ c h. h }

abbrev row : String → GpuMetric Instant
row name = record {
  gpu_id = "gpu";
  timestamp = tt;
  metric_name = name;
  value = 7;
  device = "";
  model_name = "";
  hostname = "";
  container = "";
  pod = "";
  namespace = "";
  labels_raw = "";
}

abbrev rows : List (GpuMetric Instant)
rows = row "power" ∷ row "temp" ∷ row "fan" ∷ []

abbrev pool : Pool Instant
pool = record { table = λ call. some rows }

-- The first page of two rows.
abbrev asked : Request
asked = record { start_time = ""; end_time = ""; limit = "2"; offset = ""; cursor = "" }

abbrev query : Query Instant
query = record { start = none; end = none; limit = 2; offset = 0; cursor = none }

parse_query-IsChecked_example : Passes (IsChecked 10) (parse_query env 10 asked)
parse_query-IsChecked_example = parse_query-IsChecked env 10 asked (omega arith)

get_telemetry-page_example :
    let found = filter (in_window sql "gpu" none none) rows in
    let ordered = drop 0 (order (newer sql) found) in
    get_telemetry sql env (some pool) 10 "gpu" asked
    ≡ page_response
        (shown_page sql env query (some (length found)) (ltb 2 (length ordered)) ordered)
unfolding parse_query parse_bound parse_limit limit_of parse_offset parse_cursor
get_telemetry-page_example =
    get_telemetry-page sql env pool 10 "gpu" asked query rows refl refl (omega arith)
      (gpu_exists-held sql pool "gpu" rows refl) refl refl

walk-all_example :
    let ordered = order (newer sql) (filter (in_window sql "gpu" none none) rows) in
    walk sql env pool 10 "gpu" (suc (length ordered)) asked ≡ ordered
unfolding parse_bound parse_limit limit_of
walk-all_example =
    walk-all sql env pool 10 "gpu" asked none none 2 refl refl refl sql-IsDialect env-IsCodec rows
      (λ call. refl) (gpu_exists-held sql pool "gpu" rows refl) (omega arith) (omega arith)
      ((inr refl, (inl refl, tt)), ((inl refl, tt), (tt, tt)))
      ((refl, refl), ((refl, refl), ((refl, refl), tt)))

-- Rows of two GPUs, whose ids collate as the names do.
abbrev of_gpu : String → GpuMetric Instant
of_gpu id = record (row "power") { gpu_id = id }

abbrev two_gpus : List (GpuMetric Instant)
two_gpus = of_gpu "temp" ∷ of_gpu "fan" ∷ of_gpu "temp" ∷ []

abbrev two_gpus_pool : Pool Instant
two_gpus_pool = record { table = λ call. some two_gpus }

list_gpus-Tells_example :
    (ids : List String) × (list_gpus sql env (some two_gpus_pool) ≡ ids_response ids)
    × Tells sql env two_gpus_pool two_gpus ids
list_gpus-Tells_example =
    list_gpus-Tells sql env two_gpus_pool two_gpus sql-IsDialect.collates
      (
        ((λ h k. absurd (ground (arith, h))), ((λ h k. refl), tt)),
        (((λ h k. absurd (ground (arith, h, k))), tt), (tt, tt)),
      )
      refl refl
