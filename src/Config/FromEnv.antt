-- ===== src/Config/FromEnv.antt =====
-- What the configurations of internal/config/config.go and internal/collector/config.go can hold.
use Prim.Native.String.{String}
use text.Mathlib.Text.{◌==◌ as str_eq}
use vantage.Prelude.{
  ℕ, zero, suc, ◌<◌, ◌≡◌, ◌||◌, refl, ap, sym, ◌∙◌, Bool, true, false, Option, none, some,
  if◌then◌else◌, arith,
}
use vantage.Prelude.Int.{ℤ, pos, negsuc}
use vantage.Queue.Policy.{parse_overflow_policy, policy_reject, policy_drop_oldest, policy_block}
use vantage.Config.{
  positive_number, int_env, policy_or, policy_env, mq_from_env, collector_from_env,
}

-- A text that `ParseOverflowPolicy` takes.
abbrev pub IsPolicy : String → Type 0
IsPolicy s = parse_overflow_policy s ≡ some s

kept_of_some : (q : Bool) (s p : String) → (if q then some s else none) ≡ some p → s ≡ p
kept_of_some true s p e = ground (arith, e)
kept_of_some false s p e = absurd (ground (arith, e))

parsed-IsPolicy : (s p : String) → parse_overflow_policy s ≡ some p → IsPolicy p
unfolding parse_overflow_policy
parsed-IsPolicy s p e =
    let same =
      kept_of_some (str_eq s policy_reject || str_eq s policy_drop_oldest || str_eq s policy_block)
        s p e in
    ap parse_overflow_policy (sym same) ∙ e

module _ (getenv : String → String) (atoi : String → Option ℤ) where
  positive_number_pos : (d : ℕ) (n : Option ℤ) → 0 < d → 0 < positive_number getenv atoi d n
  unfolding positive_number
  positive_number_pos d (some (pos (suc n))) p = omega arith
  positive_number_pos d (some (pos zero)) p = p
  positive_number_pos d (some (negsuc n)) p = p
  positive_number_pos d none p = p

  int_env_pos : (name : String) (d : ℕ) → 0 < d → 0 < int_env getenv atoi name d
  unfolding int_env
  int_env_pos name d p =
      elim (str_eq (getenv name) "")
        as (λ q. 0 < (if q then d else positive_number getenv atoi d (atoi (getenv name)))) [
          | true ↦ p
          | false ↦ positive_number_pos d (atoi (getenv name)) p
        ]

  policy_or-IsPolicy :
      (s d : String) (o : Option String)
      → parse_overflow_policy s ≡ o
      → IsPolicy d
      → IsPolicy (policy_or getenv atoi d o)
  unfolding policy_or
  policy_or-IsPolicy s d (some p) e known = parsed-IsPolicy s p e
  policy_or-IsPolicy s d none e known = known

  policy_env-IsPolicy : (name d : String) → IsPolicy d → IsPolicy (policy_env getenv atoi name d)
  unfolding policy_env
  policy_env-IsPolicy name d known =
      let v = getenv name in
      elim (str_eq v "")
        as (λ q. IsPolicy (if q then d else policy_or getenv atoi d (parse_overflow_policy v))) [
          | true ↦ known
          | false ↦ policy_or-IsPolicy v d (parse_overflow_policy v) refl known
        ]

  -- Whatever the environment and whatever `strconv.Atoi` makes of it, every number of the MQ
  -- service's configuration is positive, and its overflow policy is one that is known.
  pub mq_from_env-positive :
      let c = mq_from_env getenv atoi in
      (0 < c.buffer_size)
      × (0 < c.consume_credit)
      × (0 < c.block_timeout_ms)
      × (0 < c.max_deliveries)
      × (0 < c.dlq_capacity)
      × (0 < c.retry_backoff_base_ms)
      × (0 < c.retry_backoff_max_ms)
      × (0 < c.lease_ttl_ms)
      × (0 < c.drain_timeout_ms)
      × IsPolicy c.overflow_policy
  unfolding mq_from_env parse_overflow_policy
  mq_from_env-positive = (
    int_env_pos "MQ_BUFFER_SIZE" 10000 (omega arith),
    int_env_pos "MQ_CONSUME_CREDIT" 20 (omega arith),
    int_env_pos "MQ_BLOCK_TIMEOUT_MS" 1000 (omega arith),
    int_env_pos "MQ_MAX_DELIVERIES" 5 (omega arith),
    int_env_pos "MQ_DLQ_CAPACITY" 1000 (omega arith),
    int_env_pos "MQ_RETRY_BACKOFF_BASE_MS" 500 (omega arith),
    int_env_pos "MQ_RETRY_BACKOFF_MAX_MS" 30000 (omega arith),
    int_env_pos "MQ_LEASE_TTL_MS" 30000 (omega arith),
    int_env_pos "MQ_DRAIN_TIMEOUT_MS" 20000 (omega arith),
    policy_env-IsPolicy "MQ_OVERFLOW_POLICY" policy_drop_oldest refl,
  )

  -- Whatever the environment, the collector's batch size, flush interval and credit are positive.
  pub collector_from_env-positive :
      let c = collector_from_env getenv atoi in
      (0 < c.batch_size) × (0 < c.flush_ms) × (0 < c.credit)
  unfolding collector_from_env
  collector_from_env-positive = (
    int_env_pos "COLLECTOR_BATCH_SIZE" 50 (omega arith),
    int_env_pos "COLLECTOR_FLUSH_MS" 500 (omega arith),
    int_env_pos "COLLECTOR_CREDIT" 100 (omega arith),
  )
