-- ===== src/Commands/Mq.antt =====
-- cmd/mq/main.go: the broker and the server that `main` makes of the environment. A product of an
-- int64 and a millisecond wraps, and so does the conversion of the delivery limit to a uint32.
pub mod Start
use Prim.Native.String.{String}
use text.Mathlib.Text.{◌==◌ as str_eq}
use vantage.Prelude.{
  Bool, ℕ, zero, suc, ◌+◌, ◌-◌, ◌*◌, ◌%◌, ◌^◌, ◌≤◌, ◌<◌, ◌≡◌, refl, ap, sym, ◌∙◌, List, [], ◌∷◌,
  Option, none, some, ltb, ◌==◌, length, if◌then◌else◌, Run, ok, ◌>>=◌, Returns, arith,
}
use vantage.Prelude.Int.{ℤ, pos, negsuc}
use vantage.Config.{MqConfig, mq_from_env}
use vantage.Queue.Policy.{BrokerConfig, Config, apply_defaults, millisecond}
use vantage.Queue.Broker.{Broker, new_broker}
use vantage.Server.{MqServer, new_mq_server}

-- An int64 by its bits.
int64_of : ℕ → ℤ
int64_of n = let w = n % 2 ^ 64 in if ltb w (2 ^ 63) then pos w else negsuc (2 ^ 64 - w - 1)

-- `time.Duration(n) * time.Millisecond`
millis : ℕ → ℤ
unfolding int64_of
millis n = int64_of (n * millisecond)

-- The argument of `queue.NewBroker`; it gives no sweep interval.
pub broker_config : MqConfig → (ℕ → ℕ) → BrokerConfig
unfolding millis
broker_config c clock = record {
  capacity = pos c.buffer_size;
  policy = c.overflow_policy;
  block_timeout = millis c.block_timeout_ms;
  retry_backoff_base = millis c.retry_backoff_base_ms;
  retry_backoff_max = millis c.retry_backoff_max_ms;
  max_deliveries = c.max_deliveries % 2 ^ 32;
  dlq_capacity = pos c.dlq_capacity;
  lease_ttl = millis c.lease_ttl_ms;
  sweep_interval = pos 0;
  clock = clock;
}

-- The server at the start of `main`, over the lengths that `make` allocates.
pub start_mq : (ℕ → Bool) → MqConfig → (ℕ → ℕ) → Run MqServer
unfolding broker_config
start_mq makes c clock =
    new_broker makes (broker_config c clock) >>= λ b. ok (new_mq_server b (pos c.consume_credit))
