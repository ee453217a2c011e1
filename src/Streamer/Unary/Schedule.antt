-- ===== src/Streamer/Unary/Schedule.antt =====
-- The pauses of `produceWithRetry` in internal/streamer/streamer.go.
use native.Mathlib.Numerals.{unary_clauses}
use vantage.Prelude.{
  ℕ, zero, suc, ◌*◌, ◌^◌, ◌≡◌, refl, ap, sym, ◌∙◌, min, true, false, List, [], ◌∷◌, ◌++◌,
  append-nil, append_assoc, arith,
}
use vantage.Streamer.{
  Attempt, accepts, fails, context_over, SendEnd, all_sent, context_err, retrying,
}
use vantage.Streamer.Unary.{unary_loop, produce_with_retry}

-- `n` pauses, of which the first is 100 ms doubled `i` times; none is longer than 5 s.
abbrev pub delays : ℕ → ℕ → List ℕ
delays i zero = []
delays i (suc n) = min (100 * 2 ^ i) 5000 ∷ delays (suc i) n

next_delay : (i : ℕ) → min (min (100 * 2 ^ i) 5000 * 2) 5000 ≡ min (100 * 2 ^ suc i) 5000
next_delay i = simp unary_clauses (omega arith)

-- How many calls fail before one that does not, or before the context ends in a pause.
abbrev pub failures : List Attempt → ℕ
failures [] = 0
failures (accepts n over ∷ attempts) = 0
failures (context_over ∷ attempts) = 0
failures (fails true ∷ attempts) = 1
failures (fails false ∷ attempts) = suc (failures attempts)

-- How the first call that does not fail ends, or the pause in which the context does.
abbrev pub outcome : List Attempt → SendEnd
outcome [] = retrying
outcome (accepts n over ∷ attempts) = all_sent
outcome (context_over ∷ attempts) = context_err
outcome (fails true ∷ attempts) = context_err
outcome (fails false ∷ attempts) = outcome attempts

unary_loop-delays :
    (attempts : List Attempt) (i : ℕ) (pauses : List ℕ)
    → unary_loop attempts (min (100 * 2 ^ i) 5000) pauses
      ≡ (outcome attempts, pauses ++ delays i (failures attempts))
unfolding unary_loop
unary_loop-delays [] i pauses = ap (λ ps. (retrying, ps)) (sym (append-nil pauses))
unary_loop-delays (accepts n over ∷ attempts) i pauses =
    ap (λ ps. (all_sent, ps)) (sym (append-nil pauses))
unary_loop-delays (context_over ∷ attempts) i pauses =
    ap (λ ps. (context_err, ps)) (sym (append-nil pauses))
unary_loop-delays (fails true ∷ attempts) i pauses = refl
unary_loop-delays (fails false ∷ attempts) i pauses =
    let d = min (100 * 2 ^ i) 5000 in
    ap (λ b. unary_loop attempts b (pauses ++ d ∷ [])) (next_delay i)
    ∙ unary_loop-delays attempts (suc i) (pauses ++ d ∷ [])
    ∙ ap (λ ps. (outcome attempts, ps))
        (append_assoc pauses (d ∷ []) (delays (suc i) (failures attempts)))

-- However its calls go, `produceWithRetry` returns without an error exactly if the first call that
-- does not fail is accepted and the context ends in no pause before it. It pauses after every failed
-- call until then: 100 ms after the first, and each time twice as long, but no longer than 5 s.
pub produce_with_retry-delays :
    (attempts : List Attempt)
    → produce_with_retry attempts ≡ (outcome attempts, delays 0 (failures attempts))
unfolding produce_with_retry
produce_with_retry-delays attempts = unary_loop-delays attempts 0 []
