-- ===== src/MlClient.antt =====
-- src/scoring/grpc_ml_client.h and src/scoring/grpc_ml_client.cpp: the client of the ML server. Protocol
-- buffers' parser, the clock and the stub of gRPC are parameters; the stub gets the deadline and the
-- request.
use ml_distributed_fraud_eng.Common.{ℕ, ◌+◌, ◌*◌, Bool, List, [], Option, none, some, if◌then◌else◌}
use ml_distributed_fraud_eng.Float.{Fpu}
use ml_distributed_fraud_eng.Messages.{Transaction, UserFeatures, FeaturesMessage, ScoreRequest}

-- How the call ended: whether its status is ok, the `fraud_probability` of the response, and
-- when it ended.
pub record Rpc : Type 0 where
  pub ok : Bool
  pub fraud_probability : ℕ  -- float
  pub ended_at : ℕ

-- The setters; those of doubles widen a float.
unfoldable pub message_of : Fpu → UserFeatures → FeaturesMessage
message_of fpu u = record {
  tx_count_30d = u.tx_count_30d;
  avg_amount_30d = fpu.widen u.avg_amount_30d;
  countries_30d = u.countries_30d;
  last_tx_ts_ms = u.last_tx_ts;
  risk_score = fpu.widen u.risk_score;
  is_cache_miss = u.is_cache_miss;
  unknown_fields = [];
}

-- The request, where `merge` is the transaction that `ParseFromString` leaves, its result ignored.
unfoldable pub request_of : Fpu → (List ℕ → Transaction) → List ℕ → UserFeatures → ScoreRequest
unfolding message_of
request_of fpu merge serialized_tx features = record {
  transaction = some (merge serialized_tx);
  features = some (message_of fpu features);
  unknown_fields = [];
}

abbrev pub probability : Rpc → Option ℕ
probability r = if r.ok then some r.fraud_probability else none

-- The default of the constructor's second argument.
abbrev pub default_timeout_ms : ℕ
default_timeout_ms = 10

-- `std::chrono::system_clock::now() + timeout_ms_`, in nanoseconds.
abbrev pub deadline : ℕ → ℕ → ℕ
deadline timeout_ms now = now + timeout_ms * 1_000_000

-- `score`, with the clock and the stub's answer to a request by its deadline.
unfoldable pub score :
    Fpu
    → (List ℕ → Transaction)
    → ℕ
    → ℕ
    → (ℕ → ScoreRequest → Rpc)
    → List ℕ
    → UserFeatures
    → Option ℕ
unfolding request_of
score fpu merge timeout_ms now call serialized_tx features =
    probability (call (deadline timeout_ms now) (request_of fpu merge serialized_tx features))
