-- ===== src/Config.antt =====
-- `FromEnv` of internal/config/config.go and of internal/collector/config.go. `os.Getenv` and
-- `strconv.Atoi` are parameters; an unset variable is the empty string.
pub mod FromEnv
pub mod Others
use Prim.Native.String.{String}
use text.Mathlib.Text.{◌==◌ as str_eq}
use vantage.Prelude.{ℕ, zero, suc, Option, none, some, if◌then◌else◌}
use vantage.Prelude.Int.{ℤ, pos, negsuc}
use vantage.Queue.Policy.{parse_overflow_policy, policy_drop_oldest}

-- `Config` of the MQ service.
pub record MqConfig : Type 0 where
  pub grpc_addr : String
  pub http_addr : String
  pub buffer_size : ℕ
  pub consume_credit : ℕ
  pub overflow_policy : String
  pub block_timeout_ms : ℕ
  pub max_deliveries : ℕ
  pub dlq_capacity : ℕ
  pub retry_backoff_base_ms : ℕ
  pub retry_backoff_max_ms : ℕ
  pub lease_ttl_ms : ℕ
  pub drain_timeout_ms : ℕ

-- `Config` of the collector.
pub record CollectorConfig : Type 0 where
  pub mq_addr : String
  pub batch_size : ℕ
  pub flush_ms : ℕ
  pub credit : ℕ
  pub health_addr : String

module _ (getenv : String → String) (atoi : String → Option ℤ) where
  -- A positive number, or the default.
  positive_number : ℕ → Option ℤ → ℕ
  positive_number d (some (pos (suc n))) = suc n
  positive_number d (some (pos zero)) = d
  positive_number d (some (negsuc n)) = d
  positive_number d none = d

  -- `intEnv`
  pub int_env : String → ℕ → ℕ
  unfolding positive_number
  int_env name d = let v = getenv name in if str_eq v "" then d else positive_number d (atoi v)

  pub string_env : String → String → String
  string_env name d = let v = getenv name in if str_eq v "" then d else v

  policy_or : String → Option String → String
  policy_or d (some p) = p
  policy_or d none = d

  pub policy_env : String → String → String
  unfolding policy_or
  policy_env name d =
      let v = getenv name in if str_eq v "" then d else policy_or d (parse_overflow_policy v)

  pub mq_from_env : MqConfig
  unfolding int_env string_env policy_env
  mq_from_env = record {
    grpc_addr = string_env "MQ_GRPC_ADDR" ":50051";
    http_addr = string_env "MQ_HTTP_ADDR" ":8080";
    buffer_size = int_env "MQ_BUFFER_SIZE" 10000;
    consume_credit = int_env "MQ_CONSUME_CREDIT" 20;
    overflow_policy = policy_env "MQ_OVERFLOW_POLICY" policy_drop_oldest;
    block_timeout_ms = int_env "MQ_BLOCK_TIMEOUT_MS" 1000;
    max_deliveries = int_env "MQ_MAX_DELIVERIES" 5;
    dlq_capacity = int_env "MQ_DLQ_CAPACITY" 1000;
    retry_backoff_base_ms = int_env "MQ_RETRY_BACKOFF_BASE_MS" 500;
    retry_backoff_max_ms = int_env "MQ_RETRY_BACKOFF_MAX_MS" 30000;
    lease_ttl_ms = int_env "MQ_LEASE_TTL_MS" 30000;
    drain_timeout_ms = int_env "MQ_DRAIN_TIMEOUT_MS" 20000;
  }

  pub collector_from_env : CollectorConfig
  unfolding int_env string_env
  collector_from_env = record {
    mq_addr = string_env "COLLECTOR_MQ_ADDR" ":50051";
    batch_size = int_env "COLLECTOR_BATCH_SIZE" 50;
    flush_ms = int_env "COLLECTOR_FLUSH_MS" 500;
    credit = int_env "COLLECTOR_CREDIT" 100;
    health_addr = string_env "COLLECTOR_HEALTH_ADDR" ":9001";
  }
