-- ===== src/Engine.antt =====
-- src/main.cpp: the lambda `process`, which composes the feature store, the circuit breaker, the ML
-- client and the rule engine. The producer, whose two methods are only declared, is the list of the
-- messages handed to it. Protocol buffers' codec, hiredis and the ML server are parameters.
pub mod Routing
pub mod Fallback
pub mod Outage
mod Tests
use ml_distributed_fraud_eng.Common.{
  ℕ, ◌+◌, Bool, true, false, List, [], ◌∷◌, Option, none, some, if◌then◌else◌,
}
use ml_distributed_fraud_eng.Float.{Fpu, gt32}
use ml_distributed_fraud_eng.Messages.{ScoreRequest, Transaction, UserFeatures}
use ml_distributed_fraud_eng.Breaker.{CircuitBreaker, allow_request, record_success, record_failure}
use ml_distributed_fraud_eng.FeatureStore.{
  Redis, Store, Lookup, returns, throws, undefined, get_features,
}
use ml_distributed_fraud_eng.MlClient.{Rpc, default_timeout_ms}
use ml_distributed_fraud_eng.MlClient
use ml_distributed_fraud_eng.RuleEngine

-- The code that is called and not part of the program.
pub record Outside : Type 0 where
  pub fpu : Fpu
  pub serialize : Transaction → List ℕ  -- SerializeAsString
  pub parse : List ℕ → Option Transaction  -- ParseFromString, `none` where it returns false
  pub merge : List ℕ → Transaction  -- what it leaves in the message, in any case

-- What happens around one call of `process`: hiredis as it answers then, the clock at `allow_request`, at the call of the ML server
-- and at `record_failure`, and what the server answers to a request with a deadline.
pub record Moment : Type 0 where
  pub redis : Redis
  pub asked_at : ℕ
  pub failed_at : ℕ
  pub called_at : ℕ
  pub call : ℕ → ScoreRequest → Rpc

-- The objects that the lambda captures, with what it handed to the producer, the last first, and the
-- number of calls to the ML server.
pub data Sent : Type 0 where
  clean : List ℕ → Sent
  dlq : List ℕ → ℕ → Sent

pub record Engine : Type 0 where
  pub store : Store
  pub breaker : CircuitBreaker
  pub sent : List Sent
  pub calls : ℕ

module _ (out : Outside) where
  fallback : Transaction → UserFeatures → ℕ
  fallback tx features = RuleEngine.score out.fpu out.parse (out.serialize tx) features

  -- The branches on the result of the call.
  score_answer :
      Moment → Transaction → UserFeatures → Option ℕ → CircuitBreaker → ℕ × CircuitBreaker
  unfolding fallback
  score_answer m tx features (some p) b = (p, record_success b)
  score_answer m tx features none b = (fallback tx features, record_failure m.failed_at b)

  -- The branches on `allow_request`: the score, the breaker, and the number of calls.
  score_allowed :
      Moment → Transaction → UserFeatures → CircuitBreaker × Bool → ℕ × CircuitBreaker × ℕ
  unfolding score_answer fallback
  score_allowed m tx features (b, false) = (fallback tx features, b, 0)
  score_allowed m tx features (b, true) =
      let answer =
        MlClient.score out.fpu out.merge default_timeout_ms m.called_at m.call (out.serialize tx)
          features in
      let (p, b') = score_answer m tx features answer b in (p, b', 1)

  unfoldable pub score_with :
      Moment → Transaction → UserFeatures → CircuitBreaker → ℕ × CircuitBreaker × ℕ
  unfolding score_allowed
  score_with m tx features b = score_allowed m tx features (allow_request m.asked_at b)

  -- The last test. NaN is not above the threshold.
  unfoldable pub route : ℕ → Transaction → ℕ → Sent
  route threshold tx score =
      if gt32 score threshold then dlq (out.serialize tx) score else clean (out.serialize tx)

  -- After the lookup. The result is the score that is passed on to the metrics.
  finish : ℕ → Moment → Transaction → Engine → Lookup UserFeatures × Store → Lookup ℕ × Engine
  unfolding score_with route
  finish threshold m tx e (throws, s) = (throws, record e { store = s })
  finish threshold m tx e (undefined, s) = (undefined, record e { store = s })
  finish threshold m tx e (returns features, s) =
      let (score, b, calls) = score_with m tx features e.breaker in
      (
        returns score,
        record {
          store = s;
          breaker = b;
          sent = route threshold tx score ∷ e.sent;
          calls = e.calls + calls;
        },
      )

  unfoldable pub process : ℕ → Moment → Transaction → Engine → Lookup ℕ × Engine
  unfolding finish
  process threshold m tx e = finish threshold m tx e (get_features m.redis tx.user_id e.store)

  -- One after another: what each returned, and the objects at the end.
  unfoldable pub process_all : ℕ → List (Moment × Transaction) → Engine → List (Lookup ℕ) × Engine
  process_all threshold [] e = ([], e)
  process_all threshold ((m, tx) ∷ rest) e =
      let (outcome, e') = process threshold m tx e in
      let (outcomes, e'') = process_all threshold rest e' in (outcome ∷ outcomes, e'')
