-- ===== src/Engine/Tests.antt =====
-- src/main.cpp, process: the theorems at a transaction of 6000 dollars from a new country, for a user
-- that Redis does not know, while the ML server is down.
use ml_distributed_fraud_eng.Common.{
  ℕ, ◌+◌, ◌/◌, ◌≡◌, refl, true, false, List, [], ◌∷◌, ◌++◌, reverse, map, none, some, arith, pos,
}
use ml_distributed_fraud_eng.Messages.{Transaction}
use ml_distributed_fraud_eng.Float.{f0_85}
use ml_distributed_fraud_eng.Text.{codes}
use ml_distributed_fraud_eng.Breaker.{init}
use ml_distributed_fraud_eng.FeatureStore.{Redis}
use ml_distributed_fraud_eng.Engine.{Outside, Moment, Engine, process_all}
use ml_distributed_fraud_eng.Engine.Routing.{
  process_all-routes, below, above, scored, clean_of, dead_of, bytes_of,
}
use ml_distributed_fraud_eng.Engine.Outage.{process_all-calls, min}
use ml_distributed_fraud_eng.Engine.Outage

abbrev big_tx : Transaction
big_tx = record {
  tx_id = codes "t1";
  user_id = codes "zoe";
  merchant_id = [];
  amount = 0x40B7_7000_0000_0000;
  currency = codes "USD";
  country = codes "FR";
  timestamp_ms = 1_700_000_000_000;
  card_bin = [];
  device_id = [];
  ip_address = [];
  method = 1;
  unknown_fields = [];
}

-- An empty Redis, and a codec that knows the one transaction.
abbrev empty_redis : Redis
empty_redis = record {
  command = λ ctx k. some (record { is_array = true; element = [] });
  get_reply = λ ctx ks i. none;
  float_from_chars = λ bytes old. old;
}

abbrev outside : Outside
outside = record {
  fpu = record { divide = λ a b. a; widen = λ x. x };
  serialize = λ tx. tx.tx_id;
  parse = λ bytes. some big_tx;
  merge = λ bytes. big_tx;
}

abbrev down_at : ℕ → Moment
down_at t = record {
  redis = empty_redis;
  asked_at = t;
  failed_at = t + 1;
  called_at = t;
  call = λ d r. record { ok = false; fraud_probability = 0; ended_at = d };
}

abbrev fresh : Engine
fresh = record {
  store = record { pool = 1 ∷ []; discarded = [] };
  breaker = init 3 (pos 30_000);
  sent = [];
  calls = 0;
}

abbrev three : List (Moment × Transaction)
three = (down_at 10, big_tx) ∷ (down_at 20, big_tx) ∷ (down_at 30, big_tx) ∷ []

process_all-routes_example :
    (clean_of (process_all outside f0_85 three fresh).1.sent
      ≡ reverse (below outside f0_85 three (process_all outside f0_85 three fresh).0) ++ [])
    × (dead_of (process_all outside f0_85 three fresh).1.sent
        ≡ reverse (above outside f0_85 three (process_all outside f0_85 three fresh).0) ++ [])
    × (map bytes_of (process_all outside f0_85 three fresh).1.sent
        ≡ reverse (scored outside three (process_all outside f0_85 three fresh).0) ++ [])
process_all-routes_example = process_all-routes outside f0_85 three fresh

process_all-calls_example :
    (process_all outside f0_85 three fresh).1.calls
    ≡ 0 + min (Outage.scored (process_all outside f0_85 three fresh).0) (3 / 2 + 1)
process_all-calls_example =
    process_all-calls outside 3 5 (pos 30_000) f0_85 three fresh (omega arith) refl (
      (λ d r. refl, refl, omega arith),
      ((λ d r. refl, refl, omega arith), ((λ d r. refl, refl, omega arith), tt)),
    )
