-- ===== src/Commands/Mq/Start.antt =====
-- The broker that cmd/mq/main.go starts, over any environment.
use Prim.Native.String.{String}
use text.Mathlib.TextEquality.{eq_iff}
use text.Mathlib.Text.{◌==◌ as str_eq}
use vantage.Prelude.{
  Bool, true, Bool-cases, ℕ, suc, ◌+◌, ◌-◌, ◌^◌, ◌<◌, ◌≡◌, refl, ap, sym, ◌∙◌, List, ◌∷◌, Option,
  length, if◌then◌else◌, ok, ◌>>=◌, Returns, arith, false, inl, inr, subst, panic, out_of_fuel,
  Bool-cases,
}
use vantage.Prelude.Int.{ℤ, pos}
use vantage.Config.{MqConfig, mq_from_env}
use vantage.Config.FromEnv.{IsPolicy, mq_from_env-positive}
use vantage.Queue.Policy.{
  Config, apply_defaults, policy_of, parse_overflow_policy, policy_drop_oldest,
}
use vantage.Queue.Broker.{new_broker}
use vantage.Queue.Broker.Runs.{Op, register, run_op, run_ops}
use vantage.Queue.Broker.Runs.Safe.{run_ops-IsValid}
use vantage.Queue.Broker.Lanes.{IsValid}
use vantage.Server.{new_mq_server}
use vantage.Commands.Mq.{broker_config, start_mq}

positive_is_suc : (n : ℕ) → 0 < n → n ≡ suc (n - 1)
positive_is_suc n p = omega arith

-- An operation on the new server's store is one on the new broker.
started :
    (makes : ℕ → Bool) (c : MqConfig) (clock : ℕ → ℕ) (ops : List Op)
    → (start_mq makes c clock >>= λ s. run_ops s.store ops)
      ≡ (new_broker makes (broker_config c clock) >>= λ b. run_ops b (register true ∷ ops))
unfolding start_mq new_mq_server run_ops run_op
started makes c clock ops =
    elim (new_broker makes (broker_config c clock))
      as (λ o.
        ((o >>= λ b. ok (new_mq_server b (pos c.consume_credit))) >>= λ s. run_ops s.store ops)
        ≡ (o >>= λ b. run_ops b (register true ∷ ops))) [
          | ok b ↦ refl
          | panic ↦ refl
          | out_of_fuel ↦ refl
        ]

-- A known policy is not the empty text, which stands for the default.
known_is_named : (s : String) → IsPolicy s → str_eq s "" ≡ false
unfolding parse_overflow_policy
known_is_named s known = elim (Bool-cases (str_eq s "")) [
  | inl empty ↦ absurd (unknown (subst IsPolicy ((eq_iff s "").0 empty) known))
  | inr named ↦ named
]
  where
    unknown : IsPolicy "" → ⊥
    unknown h = ground (arith, h)

module _ (getenv : String → String) (atoi : String → Option ℤ) where
  -- Whatever the environment, what `strconv.Atoi` makes of it and the clock, if the runtime can
  -- allocate the two buffers of the configured sizes, `main` starts a broker without a panic, and after any sequence of operations that is too short to use up the 64-bit
  -- ids the broker is in order: its budget is the configured buffer size, which is positive, its
  -- policy the configured one, the rest of its configuration what `applyDefaults` makes of the
  -- numbers that `main` converts, and no requeue has found its lane full.
  pub start_mq-IsValid :
      (makes : ℕ → Bool) (clock : ℕ → ℕ) (ops : List Op)
      → makes (mq_from_env getenv atoi).buffer_size ≡ true
      → makes
          (apply_defaults
            (mq_from_env getenv atoi).buffer_size
            (broker_config (mq_from_env getenv atoi) clock)).dlq_capacity
        ≡ true
      → length ops + 1 < 2 ^ 64
      → let c = mq_from_env getenv atoi in
        Returns
          (λ b.
            IsValid b
            × (b.cfg ≡ apply_defaults c.buffer_size (broker_config c clock))
            × (0 < b.cfg.capacity)
            × (b.cfg.policy ≡ policy_of c.overflow_policy)
            × (b.dropped_requeue ≡ 0))
          (start_mq makes c clock >>= λ s. run_ops s.store ops)
  unfolding broker_config apply_defaults
  start_mq-IsValid makes clock ops main dlq short =
      let c = mq_from_env getenv atoi in
      let good = mq_from_env-positive getenv atoi in
      let size = positive_is_suc c.buffer_size good.0 in
      let named = known_is_named c.overflow_policy good.9 in
      let (b, e, (v, ids, cfg, tripwire)) =
        run_ops-IsValid makes (c.buffer_size - 1) (broker_config c clock) (register true ∷ ops)
          (ap pos size) (subst (λ k. makes k ≡ true) size main)
          (subst (λ k. makes (apply_defaults k (broker_config c clock)).dlq_capacity ≡ true) size
            dlq)
          (omega arith) (omega (arith, short)) in
      let cfg' = cfg ∙ ap (λ n. apply_defaults n (broker_config c clock)) (sym size) in
      (
        b,
        started makes c clock ops ∙ e,
        (
          v,
          cfg',
          subst (λ (k : Config). 0 < k.capacity) (sym cfg') good.0,
          ap (λ (k : Config). k.policy) cfg'
              ∙ ap (λ q. policy_of (if q then policy_drop_oldest else c.overflow_policy)) named,
          tripwire,
        ),
      )
