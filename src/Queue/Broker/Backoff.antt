-- ===== src/Queue/Broker/Backoff.antt =====
-- `backoff` of internal/queue/broker.go against its closed form.
use native.Mathlib.Nat.{pow-suc}
use vantage.Prelude.{
  ℕ, zero, suc, ◌*◌, ◌%◌, ◌^◌, ◌≤◌, ◌<◌, ◌≡◌, ap, ◌∙◌, Bool-cases, inl, inr, min, arith, leb,
}
use vantage.Queue.Broker.{Broker, int64_ge, backoff_loop, backoff}

-- On non-negative int64 values `>=` is that of the numbers.
int64_ge-leb : (a b : ℕ) → a < 2 ^ 63 → b < 2 ^ 63 → int64_ge a b ≡ leb b a
unfolding int64_ge
int64_ge-leb a b p q = ground arith

double_pow : (d n : ℕ) → d * 2 * 2 ^ n ≡ d * 2 ^ suc n
double_pow d n = rw (pow-suc) (grind arith)

pow_pos : (n : ℕ) → 1 ≤ 2 ^ n
pow_pos zero = omega arith
pow_pos (suc n) = omega (arith, double_pow 1 n, pow_pos n)

le_mul_pow : (a n : ℕ) → a ≤ a * 2 ^ n
le_mul_pow a n = let p = pow_pos n in grind arith

backoff_loop-min :
    (limit n d : ℕ) → limit ≤ 2 ^ 62 → d < 2 ^ 62 → backoff_loop limit n d ≡ min (d * 2 ^ n) limit
unfolding backoff_loop
backoff_loop-min limit zero d p q =
    rw (int64_ge-leb limit d (omega arith) (omega arith)) (ground arith)
backoff_loop-min limit (suc n) d p q =
    let fits : d * 2 % 2 ^ 64 ≡ d * 2 = omega arith in
    rw (fits, int64_ge-leb (d * 2) limit (omega arith) (omega arith))
      (elim (Bool-cases (leb limit (d * 2))) [
        | inl past ↦ rw past (ground (arith, double_pow d n, le_mul_pow (d * 2) n))
        | inr below ↦ rw below (
            backoff_loop-min limit n (d * 2) p (ground arith)
            ∙ ap (λ k. min k limit) (double_pow d n))
      ])

-- With a base below 2^62 ns and a cap of up to 2^62 ns the delay before the redelivery of a message that has
-- been delivered `n + 1` times is the base doubled `n` times, and no more than the cap.
pub backoff-min :
    (b : Broker) (n : ℕ)
    → b.cfg.retry_backoff_max ≤ 2 ^ 62
    → b.cfg.retry_backoff_base < 2 ^ 62
    → backoff b (suc n) ≡ min (b.cfg.retry_backoff_base * 2 ^ n) b.cfg.retry_backoff_max
unfolding backoff
backoff-min b n p q =
    ap (λ k. backoff_loop b.cfg.retry_backoff_max k b.cfg.retry_backoff_base) (omega arith)
    ∙ backoff_loop-min b.cfg.retry_backoff_max n b.cfg.retry_backoff_base p q
