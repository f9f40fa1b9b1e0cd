-- ===== src/Pipeline/Scored.antt =====
-- src/main.cpp with generated/fraud.pb.cc: the score of a transaction that was parsed.
use ml_distributed_fraud_eng.Common.{[], some, ◌&&◌, ap, ◌∙◌, ℕ, ◌≡◌, List, some, if◌then◌else◌}
use ml_distributed_fraud_eng.Messages.{Transaction, UserFeatures}
use ml_distributed_fraud_eng.Float.{Fpu}
use ml_distributed_fraud_eng.Breaker.{CircuitBreaker, allow_request}
use ml_distributed_fraud_eng.MlClient.{Rpc, deadline, message_of, request_of}
use ml_distributed_fraud_eng.RuleEngine.{score_parsed}
use ml_distributed_fraud_eng.Codec.{Wire, serialize}
use ml_distributed_fraud_eng.Codec.Parser.{parse}
use ml_distributed_fraud_eng.Codec.Stream.{Reader}
use ml_distributed_fraud_eng.Codec.Stream.Fuel.{Advances}
use ml_distributed_fraud_eng.Codec.Stream.Laws.{WellRead, Inverse}
use ml_distributed_fraud_eng.Codec.Parser.Reparse.{reparse}
use ml_distributed_fraud_eng.Engine.{Outside, Moment, score_with}
use ml_distributed_fraud_eng.Engine.Fallback.{answer, score_with_lem}
use ml_distributed_fraud_eng.Pipeline.{outside_of, or_leftover}

-- What the ML server answers at a moment about a transaction and the features of its user, with 10 ms from
-- the call as its deadline.
abbrev pub asked : Fpu → Moment → Transaction → UserFeatures → Rpc
asked fpu m tx u =
    m.call (deadline 10 m.called_at)
      (record { transaction = some tx; features = some (message_of fpu u); unknown_fields = [] })

module _ (wire : Wire) (reader : Reader) (fpu : Fpu) (leftover : List ℕ → Transaction)
    (well : WellRead reader) (advances : Advances reader) (inverse : Inverse wire reader) where
  abbrev out : Outside
  out = outside_of wire reader fpu leftover

  pub answer-asked :
      (tx : Transaction) (m : Moment) (u : UserFeatures)
      → parse reader (serialize wire tx) ≡ some tx
      → answer out m tx u ≡ asked fpu m tx u
  unfolding request_of
  answer-asked tx m u e =
      ap
        (λ o. m.call (deadline 10 m.called_at) (record {
          transaction = some (or_leftover (leftover (serialize wire tx)) o);
          features = some (message_of fpu u);
          unknown_fields = [];
        }))
        e

  -- With the documented behaviour of single items in the codec: a transaction that was parsed from any
  -- bytes is scored by the probability that the ML server gives for that very transaction and the given
  -- features, in a call whose deadline is 10 ms after its start, if the breaker lets the request through
  -- and the call succeeds, and in every other case by the sum of the rules on that very transaction,
  -- although both get it serialized and parse it again; and the server is called exactly if the breaker
  -- lets the request through.
  pub parsed-scored :
      (bytes : List ℕ) (tx : Transaction)
      → parse reader bytes ≡ some tx
      → (m : Moment) (u : UserFeatures) (b : CircuitBreaker)
      → ((score_with (outside_of wire reader fpu leftover) m tx u b).0 ≡ (
          if (allow_request m.asked_at b).1 && (asked fpu m tx u).ok
          then (asked fpu m tx u).fraud_probability
          else score_parsed fpu tx u))
        × ((score_with (outside_of wire reader fpu leftover) m tx u b).2
            ≡ (if (allow_request m.asked_at b).1 then 1 else 0))
  parsed-scored bytes tx e m u b =
      let again = reparse wire reader well advances inverse bytes tx e in
      let (score, calls) = score_with_lem out m tx u b again in
      (
        score
            ∙ ap
                (λ (r : Rpc).
                  if (allow_request m.asked_at b).1 && r.ok
                  then r.fraud_probability
                  else score_parsed fpu tx u)
                (answer-asked tx m u again),
        calls,
      )
