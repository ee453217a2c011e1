-- ===== src/Smoke/Tests.antt =====
-- Runs of the probe of scripts/smoke/mqprobe/main.go.
use vantage.Prelude.{ℕ, ◌+◌, ◌≡◌, refl, true, false, [], ◌∷◌, none, some, ltb, if◌then◌else◌}
use vantage.Message.{TelemetryMessage}
use vantage.Smoke.{
  received, is_refusal, run_mode, resource_exhausted, other_code, unexpected_code, not_refused,
  ack_failed, unknown_mode, dial_failed, World, sample_message, expect_reject, recv_and_ack,
  run_both, run_probe, open_consume,
}
use vantage.Smoke.Both.{Acked, run_both-Acked}
use vantage.Smoke.Accepted.{AllAccepted}

abbrev sample : ℕ → TelemetryMessage
sample i = record (sample_message "2026-01-02T03:04:05Z" (λ j. "GPU-smoke") (λ j. j) i) {
  id = i + 7;
}

-- A broker that answers everything.
abbrev fine_world : World
fine_world = record {
  dials = true;
  produces = λ i. none;
  opens = true;
  takes_credit = true;
  receives = λ i. some (sample i);
  sends = λ i. true;
  batch_reply = some (3, 0);
  holds = true;
  in_time = true;
}

-- A broker that is full after two messages.
abbrev full_world : World
full_world = record fine_world { produces = λ i. if ltb i 2 then none else some resource_exhausted }

-- One whose third message has no name, and which takes one acknowledgement.
abbrev faulty_world : World
faulty_world = record fine_world {
  produces = λ i. some other_code;
  sends = λ i. ltb i 1;
  dials = false;
}

both_passes : run_probe fine_world "both" 2 ≡ none
unfolding run_probe run_mode run_both received
both_passes = refl

acks_in_order : recv_and_ack fine_world 3 0 ≡ (3, none, 7 ∷ 8 ∷ 9 ∷ [])
unfolding recv_and_ack
acks_in_order = refl

acks_until : recv_and_ack faulty_world 3 0 ≡ (1, some (ack_failed 8), 7 ∷ [])
unfolding recv_and_ack
acks_until = refl

refused_third : expect_reject full_world 5 0 ≡ (2, none)
unfolding expect_reject is_refusal
refused_third = refl

refused_other : expect_reject faulty_world 5 0 ≡ (0, some (unexpected_code 0 other_code))
unfolding expect_reject is_refusal
refused_other = refl

accepted_all : expect_reject fine_world 4 0 ≡ (4, some not_refused)
unfolding expect_reject
accepted_all = refl

undialled : run_probe faulty_world "both" 2 ≡ some dial_failed
unfolding run_probe
undialled = refl

unknown : run_probe fine_world "neither" 2 ≡ some unknown_mode
unfolding run_probe run_mode
unknown = refl

-- Two messages, both ways.
run_both-Acked_example :
    (open_consume fine_world ≡ none)
    × AllAccepted fine_world 0 2
    × Acked fine_world 0 (run_both fine_world 2).1 2
unfolding run_both received
run_both-Acked_example = run_both-Acked fine_world 2 refl
