-- ===== src/Smoke.antt =====
-- scripts/smoke/mqprobe/main.go: the client that probes a running broker. What the server and gRPC
-- do is a `World`; the texts and numbers of the sample messages come from `time` and `fmt`.
pub mod Accepted
pub mod Refused
pub mod Both
mod Tests
use Prim.Native.String.{String}
use text.Mathlib.Text.{◌==◌ as str_eq}
use vantage.Prelude.{
  ℕ, zero, suc, ◌+◌, ◌-◌, ◌*◌, ◌%◌, ◌^◌, ◌≤◌, ◌<◌, ◌≡◌, ◌≢◌, ◌⊎◌, refl, ap, sym, subst, ◌∙◌, min,
  Bool, true, false, ◌&&◌, ◌||◌, not, List, [], ◌∷◌, ◌++◌, map, append-nil, append_assoc, Option,
  none, some, ltb, leb, ◌==◌, length, take, drop, get_elem?, if◌then◌else◌, Run, ok, panic,
  out_of_fuel, ◌>>=◌, Returns, Returns-both, arith, inl, inr, Bool-cases, Option-cases,
  length-append, length-take, length-drop, take-drop, load, load-ok,
}
use vantage.Message.{TelemetryMessage}

-- The codes of a failed call that the probe tells apart.
pub data Code : Type 0 where
  resource_exhausted unavailable other_code : Code

pub data ProbeError : Type 0 where
  produce_failed unexpected_code : ℕ → Code → ProbeError
  dial_failed not_refused open_failed credit_failed : ProbeError
  recv_failed empty_metric_name : ℕ → ProbeError
  ack_failed : ℕ → ProbeError
  hold_timed_out both_timed_out batch_failed unknown_mode : ProbeError

-- The calls as they come out: whether `NewClient` succeeds, the error of `Produce` number `i`, whether
-- the stream opens and takes the handshake, what `Recv` number `i` gives, whether the `Send` after it succeeds, the reply to a
-- batch, and whether the context lasts through the hold, and until all has come back.
pub record World : Type 0 where
  pub dials : Bool
  pub produces : ℕ → Option Code
  pub opens : Bool
  pub takes_credit : Bool
  pub receives : ℕ → Option TelemetryMessage
  pub sends : ℕ → Bool
  pub batch_reply : Option (ℕ × ℕ)
  pub holds : Bool
  pub in_time : Bool

-- The sample message `i`.
abbrev sample_message : String → (ℕ → String) → (ℕ → ℕ) → ℕ → TelemetryMessage
sample_message stamp uuid float i = record {
  timestamp = stamp;
  metric_name = "DCGM_FI_DEV_GPU_UTIL";
  gpu_id = "0";
  device = "";
  uuid = uuid i;
  model_name = "";
  hostname = "";
  container = "";
  pod = "";
  namespace = "";
  value = float i;
  labels_raw = "";
  id = 0;
  delivery_attempts = 0;
}

-- `batchMsgs`, from message `i` on; `stamp i` is the time at which it is made.
pub batch_msgs : (ℕ → String) → (ℕ → String) → (ℕ → ℕ) → ℕ → ℕ → List TelemetryMessage
batch_msgs stamp uuid float zero i = []
batch_msgs stamp uuid float (suc n) i =
    sample_message (stamp i) uuid float i ∷ batch_msgs stamp uuid float n (suc i)

module _ (w : World) where
  -- The loop of `produce`, with `n` calls to go: the error of the first that fails.
  produce_loop : ℕ → ℕ → Option ProbeError
  produce_loop zero i = none
  produce_loop (suc n) i = elim (w.produces i) [
    | some code ↦ some (produce_failed i code)
    | none ↦ produce_loop n (suc i)
  ]

  pub is_refusal : Code → Bool
  is_refusal resource_exhausted = true
  is_refusal unavailable = true
  is_refusal other_code = false

  -- `produceExpectReject`: how many were accepted, and the error.
  pub expect_reject : ℕ → ℕ → ℕ × Option ProbeError
  unfolding is_refusal
  expect_reject zero i = (i, some not_refused)
  expect_reject (suc n) i = elim (w.produces i) [
    | none ↦ expect_reject n (suc i)
    | some code ↦ (i, if is_refusal code then none else some (unexpected_code i code))
  ]

  -- `openConsume`
  pub open_consume : Option ProbeError
  open_consume =
      if w.opens then (if w.takes_credit then none else some credit_failed) else some open_failed

  -- `recvAndAck`, with `n` messages to go after `got`: how many have come, the error, and the ids
  -- that were acknowledged.
  pub recv_and_ack : ℕ → ℕ → ℕ × Option ProbeError × List ℕ
  recv_and_ack zero got = (got, none, [])
  recv_and_ack (suc n) got = elim (w.receives got) [
    | none ↦ (got, some (recv_failed got), [])
    | some m ↦
        let rest = recv_and_ack n (suc got) in
        if str_eq m.metric_name ""
        then (got, some (empty_metric_name got), [])
        else if w.sends got
        then (rest.0, rest.1, m.id ∷ rest.2)
        else (got, some (ack_failed m.id), [])
  ]

  -- The loop of `consumeNoAck`.
  lease_loop : ℕ → ℕ → ℕ × Option ProbeError
  lease_loop zero got = (got, none)
  lease_loop (suc n) got = elim (w.receives got) [
    | none ↦ (got, some (recv_failed got))
    | some m ↦
        let rest = lease_loop n (suc got) in
        if str_eq m.metric_name "" then (got, some (empty_metric_name got)) else rest
  ]

  hold : ℕ × Option ProbeError → ℕ × Option ProbeError
  hold (got, some e) = (got, some e)
  hold (got, none) = (got, if w.holds then none else some hold_timed_out)

  -- `consumeNoAck`
  pub consume_no_ack : ℕ → ℕ × Option ProbeError
  unfolding open_consume lease_loop hold
  consume_no_ack n = elim open_consume [ some e ↦ (0, some e) | none ↦ hold (lease_loop n 0) ]

  -- `consume`
  pub consume : ℕ → ℕ × Option ProbeError × List ℕ
  unfolding open_consume recv_and_ack
  consume n = elim open_consume [ some e ↦ (0, some e, []) | none ↦ recv_and_ack n 0 ]

  -- The last part of `runBoth`, once all was produced: the error, and the ids that were acknowledged.
  received : ℕ → Option ProbeError × List ℕ
  unfolding recv_and_ack
  received n = let r = recv_and_ack n 0 in (if w.in_time then r.1 else some both_timed_out, r.2)

  -- `runBoth`. When it stops early, what the goroutine that receives has acknowledged by then depends
  -- on its scheduling and is left out.
  pub run_both : ℕ → Option ProbeError × List ℕ
  unfolding open_consume produce_loop received
  run_both n = elim open_consume [
    | some e ↦ (some e, [])
    | none ↦ elim (produce_loop n 0) [ some e ↦ (some e, []) | none ↦ received n ]
  ]

  -- The `switch` of `run`.
  run_mode : String → ℕ → Option ProbeError
  unfolding produce_loop expect_reject consume_no_ack consume run_both
  run_mode mode n =
      if str_eq mode "both"
      then (run_both n).0
      else if str_eq mode "produce"
      then produce_loop n 0
      else if str_eq mode "consume"
      then (consume n).1
      else if str_eq mode "produce-batch"
      then elim w.batch_reply [ none ↦ some batch_failed | some r ↦ none ]
      else if str_eq mode "produce-expect-reject"
      then (expect_reject n 0).1
      else if str_eq mode "consume-noack"
      then (consume_no_ack n).1
      else some unknown_mode

  -- `run`
  pub run_probe : String → ℕ → Option ProbeError
  unfolding run_mode
  run_probe mode n = if w.dials then run_mode mode n else some dial_failed
