-- ===== src/Queue/Policy.antt =====
-- The overflow policies and the configuration of internal/queue/broker.go.
-- A duration is a number of nanoseconds. `BrokerConfig` as the caller gives it has signed fields;
-- `Config` is what `applyDefaults` makes of it, where every number is positive.
use Prim.Native.String.{String}
use text.Mathlib.Text.{◌==◌ as str_eq}
use vantage.Prelude.{ℕ, zero, suc, ◌*◌, ◌||◌, Option, none, some, ◌==◌, if◌then◌else◌}
use vantage.Prelude.Int.{ℤ, pos, negsuc}

pub data OverflowPolicy : Type 0 where
  reject drop_oldest block : OverflowPolicy

abbrev pub policy_reject : String
policy_reject = "reject"

abbrev pub policy_drop_oldest : String
policy_drop_oldest = "drop-oldest"

abbrev pub policy_block : String
policy_block = "block"

-- `ParseOverflowPolicy`; `none` is its error.
unfoldable pub parse_overflow_policy : String → Option String
parse_overflow_policy s =
    if str_eq s policy_reject || str_eq s policy_drop_oldest || str_eq s policy_block
    then some s
    else none

-- The `switch` of `Enqueue` on the policy; `default` rejects.
unfoldable pub policy_of : String → OverflowPolicy
policy_of s =
    if str_eq s policy_drop_oldest
    then drop_oldest
    else if str_eq s policy_block
    then block
    else reject

-- `Clock` gives the time of each reading in turn.
pub record BrokerConfig : Type 0 where
  pub capacity : ℤ
  pub policy : String
  pub block_timeout : ℤ
  pub retry_backoff_base : ℤ
  pub retry_backoff_max : ℤ
  pub max_deliveries : ℕ  -- uint32
  pub dlq_capacity : ℤ
  pub lease_ttl : ℤ
  pub sweep_interval : ℤ
  pub clock : ℕ → ℕ

pub record Config : Type 0 where
  pub capacity : ℕ
  pub policy : OverflowPolicy
  pub block_timeout : ℕ
  pub retry_backoff_base : ℕ
  pub retry_backoff_max : ℕ
  pub max_deliveries : ℕ
  pub dlq_capacity : ℕ
  pub lease_ttl : ℕ
  pub sweep_interval : ℕ
  pub clock : ℕ → ℕ

abbrev pub millisecond : ℕ
millisecond = 1000000

abbrev pub second : ℕ
second = 1000000000

-- The value if it is positive, and the default otherwise.
abbrev pub positive_or : ℕ → ℤ → ℕ
positive_or d (pos zero) = d
positive_or d (pos (suc n)) = suc n
positive_or d (negsuc n) = d

-- `applyDefaults`, for a capacity that `NewBroker` has checked.
unfoldable pub apply_defaults : ℕ → BrokerConfig → Config
unfolding policy_of
apply_defaults capacity cfg = record {
  capacity = capacity;
  policy = policy_of (if str_eq cfg.policy "" then policy_drop_oldest else cfg.policy);
  block_timeout = positive_or second cfg.block_timeout;
  retry_backoff_base = positive_or (500 * millisecond) cfg.retry_backoff_base;
  retry_backoff_max = positive_or (30 * second) cfg.retry_backoff_max;
  max_deliveries = if cfg.max_deliveries == 0 then 5 else cfg.max_deliveries;
  dlq_capacity = positive_or 1000 cfg.dlq_capacity;
  lease_ttl = positive_or (30 * second) cfg.lease_ttl;
  sweep_interval = positive_or (100 * millisecond) cfg.sweep_interval;
  clock = cfg.clock;
}
