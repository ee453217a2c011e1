-- ===== src/Commands/Tests.antt =====
-- The theorem on the start of cmd/mq at a concrete environment.
use Prim.Native.String.{String}
use text.Mathlib.Text.{◌==◌ as str_eq}
use vantage.Prelude.{
  refl, true, ℕ, Bool, ◌<◌, ◌≡◌, [], ◌∷◌, Option, none, some, if◌then◌else◌, ◌>>=◌, Returns, arith,
}
use vantage.Prelude.Int.{ℤ, pos}
use vantage.Config.{mq_from_env}
use vantage.Queue.Policy.{apply_defaults, policy_of}
use vantage.Queue.Samples.{message}
use vantage.Queue.Broker.Runs.{produce, lease_to, ack_by, sweep, run_ops}
use vantage.Queue.Broker.Lanes.{IsValid}
use vantage.Commands.Mq.{broker_config, start_mq}
use vantage.Commands.Mq.Start.{start_mq-IsValid}

abbrev getenv : String → String
getenv name =
    if str_eq name "MQ_OVERFLOW_POLICY"
    then "block"
    else if str_eq name "MQ_BUFFER_SIZE"
    then "3"
    else ""

abbrev atoi : String → Option ℤ
atoi s = if str_eq s "3" then some (pos 3) else none

-- A runtime that allocates every length.
abbrev allocates : ℕ → Bool
allocates n = true

-- A message is produced, leased and acknowledged, and a sweep finds nothing.
start_mq-IsValid_example :
    let c = mq_from_env getenv atoi in
    Returns
      (λ b.
        IsValid b
        × (b.cfg ≡ apply_defaults c.buffer_size (broker_config c (λ n. n)))
        × (0 < b.cfg.capacity)
        × (b.cfg.policy ≡ policy_of c.overflow_policy)
        × (b.dropped_requeue ≡ 0))
      (start_mq allocates c (λ n. n) >>= λ s.
        run_ops s.store (produce (message 0) ∷ lease_to 1 ∷ ack_by 1 1 ∷ sweep ∷ []))
start_mq-IsValid_example =
    start_mq-IsValid getenv atoi allocates (λ n. n)
      (produce (message 0) ∷ lease_to 1 ∷ ack_by 1 1 ∷ sweep ∷ []) refl refl (omega arith)
