-- ===== src/Config/Others.antt =====
-- `FromEnv` of internal/gateway/config.go, internal/streamer/config.go and pkg/db/config.go.
use Prim.Native.String.{String}
use text.Mathlib.Text.{◌==◌ as str_eq}
use vantage.Prelude.{
  ℕ, zero, suc, ◌<◌, ◌≡◌, ap, Bool, true, false, Option, none, some, if◌then◌else◌, arith,
}
use vantage.Prelude.Int.{ℤ, pos, negsuc}
use vantage.Config.{string_env, int_env}

pub record GatewayConfig : Type 0 where
  pub addr : String
  pub max_rows : ℕ

pub record StreamerConfig : Type 0 where
  pub mq_addr : String
  pub csv_path : String
  pub loop_delay_ms : ℕ
  pub health_addr : String
  pub batch_size : ℕ

-- `Config` of pkg/db.
pub record DbConfig : Type 0 where
  pub dsn : String
  pub max_conns : ℤ

module _ (getenv : String → String) (atoi : String → Option ℤ) where
  -- A positive number, or an error.
  positive_or_error : Option ℤ → Option ℕ
  positive_or_error none = none
  positive_or_error (some (pos zero)) = none
  positive_or_error (some (pos (suc n))) = some (suc n)
  positive_or_error (some (negsuc n)) = none

  with_max_rows : Option ℕ → Option GatewayConfig
  unfolding string_env
  with_max_rows none = none
  with_max_rows (some n) =
      some (record { addr = string_env getenv atoi "GATEWAY_ADDR" ":8080"; max_rows = n })

  -- No configuration is an error.
  pub gateway_from_env : Option GatewayConfig
  unfolding positive_or_error with_max_rows
  gateway_from_env =
      let s = getenv "VANTAGE_GATEWAY_MAX_ROWS" in
      with_max_rows (if str_eq s "" then some 1000 else positive_or_error (atoi s))

  -- A number that is not negative, or the default.
  delay_or : ℕ → Option ℤ → ℕ
  delay_or d none = d
  delay_or d (some (pos n)) = n
  delay_or d (some (negsuc n)) = d

  unfoldable streamer_from_env : StreamerConfig
  unfolding string_env int_env delay_or
  streamer_from_env =
      let delay = getenv "STREAMER_LOOP_DELAY_MS" in
      record {
        mq_addr = string_env getenv atoi "STREAMER_MQ_ADDR" ":50051";
        csv_path = getenv "STREAMER_CSV_PATH";
        loop_delay_ms = if str_eq delay "" then 1 else delay_or 1 (atoi delay);
        health_addr = string_env getenv atoi "STREAMER_HEALTH_ADDR" ":9000";
        batch_size = int_env getenv atoi "STREAMER_BATCH_SIZE" 100;
      }

  conns_of : String → Option ℤ → Option DbConfig
  conns_of dsn none = none
  conns_of dsn (some n) = some (record { dsn = dsn; max_conns = n })

  -- `parse_int32` is `strconv.ParseInt` in base 10 and 32 bits.
  unfoldable db_from_env : (String → Option ℤ) → Option DbConfig
  unfolding conns_of
  db_from_env parse_int32 =
      let dsn = getenv "VANTAGE_DB_DSN" in
      let s = getenv "VANTAGE_DB_MAX_CONNS" in
      if str_eq dsn ""
      then none
      else conns_of dsn (if str_eq s "" then some (pos 0) else parse_int32 s)

  positive_or_error-pos : (o : Option ℤ) (n : ℕ) → positive_or_error o ≡ some n → 0 < n
  unfolding positive_or_error
  positive_or_error-pos none n e = absurd (ground (arith, e))
  positive_or_error-pos (some (pos zero)) n e = absurd (ground (arith, e))
  positive_or_error-pos (some (pos (suc k))) n e = ground (arith, e)
  positive_or_error-pos (some (negsuc k)) n e = absurd (ground (arith, e))

  with_max_rows-some :
      (o : Option ℕ) (c : GatewayConfig) → with_max_rows o ≡ some c → o ≡ some c.max_rows
  unfolding with_max_rows
  with_max_rows-some none c e = absurd (ground (arith, e))
  with_max_rows-some (some n) c e = ap (λ o. max_of o n) e
    where
      max_of : Option GatewayConfig → ℕ → Option ℕ
      max_of none d = some d
      max_of (some c) d = some c.max_rows

  -- A gateway that starts has a positive ceiling of rows, whatever the environment.
  pub gateway_from_env-positive : (c : GatewayConfig) → gateway_from_env ≡ some c → 0 < c.max_rows
  unfolding gateway_from_env
  gateway_from_env-positive c e =
      let s = getenv "VANTAGE_GATEWAY_MAX_ROWS" in
      split (str_eq s "")
        (with_max_rows-some (if str_eq s "" then some 1000 else positive_or_error (atoi s)) c e)
    where
      split :
          (q : Bool)
          → (if q then some 1000 else positive_or_error (atoi (getenv "VANTAGE_GATEWAY_MAX_ROWS")))
            ≡ some c.max_rows
          → 0 < c.max_rows
      split true e = ground (arith, e)
      split false e = positive_or_error-pos (atoi (getenv "VANTAGE_GATEWAY_MAX_ROWS")) c.max_rows e
