-- ===== src/Queue/Samples.antt =====
-- States and configurations of internal/queue for the tests.
use vantage.Prelude.{ℕ, ◌+◌, ◌*◌, refl, true, false, List, [], ◌∷◌, none, some, arith}
use vantage.Prelude.Int.{pos}
use vantage.Message.{TelemetryMessage}
use vantage.Queue.Ring.{contents, gather}
use vantage.Queue.Policy.{BrokerConfig, Config, drop_oldest, block}
use vantage.Queue.Broker.{Entry, LeaseRec, max_deliveries_exceeded, Broker}
use vantage.Queue.Broker.Lanes.{lanes, IsValid, Inv}
use vantage.Queue.Broker.Runs.{
  Op, produce, lease_to, ack_by, release_by, disconnect, sweep, replay, stop,
}

abbrev pub message : ℕ → TelemetryMessage
message i = record {
  timestamp = "2025-07-18T20:42:34Z";
  metric_name = "DCGM_FI_DEV_GPU_UTIL";
  gpu_id = "0";
  device = "nvidia0";
  uuid = "GPU-5fd4f087";
  model_name = "H100";
  hostname = "host-1";
  container = "";
  pod = "";
  namespace = "";
  value = 0;
  labels_raw = "";
  id = i;
  delivery_attempts = 0;
}

abbrev pub config : Config
config = record {
  capacity = 3;
  policy = drop_oldest;
  block_timeout = 1000;
  retry_backoff_base = 500;
  retry_backoff_max = 3000;
  max_deliveries = 5;
  dlq_capacity = 1;
  lease_ttl = 30;
  sweep_interval = 100;
  clock = λ n. 50 + n;
}

abbrev pub delivered : ℕ → ℕ → Entry
delivered i n = record { msg = record (message i) { delivery_attempts = n }; attempts = n }

abbrev pub leased_to_7 : LeaseRec
leased_to_7 = record { e = delivered 2 5; consumer = 7; deadline = 40 }

-- Message 1 waits, 2 is leased to consumer 7 past its deadline, for the last time, and 3 is dead.
abbrev pub busy : Broker
busy = record {
  main = record { buf = none ∷ some (delivered 1 0) ∷ none ∷ []; head = 1; count = 1 };
  retry = [];
  dlq = record {
    buf =
        some (record { e = delivered 3 5; reason = max_deliveries_exceeded 5; dead_at = 20 }) ∷ [];
    head = 0;
    count = 1;
  };
  leases = (2, leased_to_7) ∷ [];
  next_id = 3;
  cfg = config;
  reads = 0;
  rejected = 0;
  dropped_overflow = 0;
  dropped_requeue = 0;
  dead_lettered = 1;
  dlq_evicted = 0;
  lease_expired = 0;
  notify = true;
  space = 0;
  closed = false;
}

pub busy-IsValid : IsValid busy
unfolding contents gather
busy-IsValid = record {
  main_ring = record {
    size = refl;
    head_in = omega arith;
    counted = refl;
    fits = omega arith;
    window = (refl, tt);
  };
  dlq_ring = record {
    size = refl;
    head_in = omega arith;
    counted = refl;
    fits = omega arith;
    window = (refl, tt);
  };
  heap = λ e c p q. absurd (omega arith);
  budget = omega arith;
  once = λ i. ground arith;
  small = omega arith;
  main_unspent = refl;
  retry_unspent = refl;
  leases_proper = refl;
  limit_pos = omega arith;
  limit_small = omega arith;
}

abbrev pub given : BrokerConfig
given = record {
  capacity = pos 2;
  policy = "drop-oldest";
  block_timeout = pos 0;
  retry_backoff_base = pos 0;
  retry_backoff_max = pos 0;
  max_deliveries = 1;
  dlq_capacity = pos 1;
  lease_ttl = pos 1;
  sweep_interval = pos 0;
  clock = λ n. 10000000000 * n;
}

abbrev pub day : List Op
day =
    produce (message 0)
    ∷ produce (message 0)
    ∷ produce (message 0)
    ∷ lease_to 7
    ∷ sweep
    ∷ lease_to 8
    ∷ disconnect 8
    ∷ replay
    ∷ lease_to 9
    ∷ ack_by 9 2
    ∷ release_by 9 3
    ∷ stop
    ∷ []

-- The state while an operation has the entry of the lease in its hand.
abbrev pub revoked : Broker
revoked = record busy { leases = [] }

pub revoked-Inv : Inv (delivered 2 5 ∷ []) (lanes revoked)
unfolding contents gather
revoked-Inv = record {
  main_ring = busy-IsValid.main_ring;
  dlq_ring = busy-IsValid.dlq_ring;
  heap = λ e c p q. absurd (omega arith);
  budget = omega arith;
  once = λ i. ground arith;
  small = omega arith;
  main_unspent = refl;
  retry_unspent = refl;
  leases_proper = refl;
  limit_pos = omega arith;
  limit_small = omega arith;
}

-- The broker at its capacity, under the block policy.
abbrev pub crowded : Broker
crowded = record busy {
  cfg = record config { capacity = 2; policy = block };
  main = record { buf = some (delivered 1 0) ∷ none ∷ []; head = 0; count = 1 };
}

pub crowded-IsValid : IsValid crowded
unfolding contents gather
crowded-IsValid = record {
  main_ring = record {
    size = refl;
    head_in = omega arith;
    counted = refl;
    fits = omega arith;
    window = (refl, tt);
  };
  dlq_ring = busy-IsValid.dlq_ring;
  heap = λ e c p q. absurd (omega arith);
  budget = omega arith;
  once = λ i. ground arith;
  small = omega arith;
  main_unspent = refl;
  retry_unspent = refl;
  leases_proper = refl;
  limit_pos = omega arith;
  limit_small = omega arith;
}
