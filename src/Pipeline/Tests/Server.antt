-- ===== src/Pipeline/Tests/Server.antt =====
-- src/main.cpp with the ML server: a server that is up, and the theorem at a request that it answers.
use ml_distributed_fraud_eng.Common.{
  ℕ, ◌+◌, ◌≡◌, refl, true, false, [], ◌∷◌, Option, none, some, pos, arith,
}
use ml_distributed_fraud_eng.Messages.{ScoreRequest, ScoreResponse}
use ml_distributed_fraud_eng.Breaker.{init, allow_request, record_failure}
use ml_distributed_fraud_eng.Text.{codes}
use ml_distributed_fraud_eng.MlClient
use ml_distributed_fraud_eng.MlClient.{Rpc, request_of, message_of}
use ml_distributed_fraud_eng.Codec.{serialize, serialize_features}
use ml_distributed_fraud_eng.Codec.Features.{feature_field, feature_slot_of}
use ml_distributed_fraud_eng.Codec.Request.{
  serialize_request, parse_request, empty_request, request_field, request_slot_of,
}
use ml_distributed_fraud_eng.Pipeline.Received.{about}
use ml_distributed_fraud_eng.Codec.Parser.{parse, empty, field, slot_of}
use ml_distributed_fraud_eng.Codec.Stream.{loop, turn}
use ml_distributed_fraud_eng.Codec.Stream.SmallReader.{small_wire, small_reader}
use ml_distributed_fraud_eng.Codec.Stream.SmallReader.Lawful.{
  small_reader-Advances, small_reader-WellRead, small_reader-Inverse,
}
use ml_distributed_fraud_eng.Engine.{Moment, score_with}
use ml_distributed_fraud_eng.Pipeline.{outside_of}
use ml_distributed_fraud_eng.Pipeline.Answered.{Serves, served}
use ml_distributed_fraud_eng.Codec.Response.{
  serialize_response, parse_response, empty_response, response_field, response_slot_of,
}
use ml_distributed_fraud_eng.Codec.Response.RoundTrip.{CanonicalResponse}
use ml_distributed_fraud_eng.Pipeline.Tests.{
  named, fpu, tx_a, a-parse, known_in, features_in, one_connection, us-found, us-get_features,
  fpu-Widens,
}

-- A server that gives every request the same probability and names its version.
abbrev server : ScoreRequest → ScoreResponse
server q = record {
  fraud_probability = 0x3F00_0000;
  model_version = codes "v1";
  inference_us = 900;
  unknown_fields = [];
}

abbrev answered_by : ℕ → Option ScoreResponse → Rpc
answered_by d none = record { ok = false; fraud_probability = 0; ended_at = d }
answered_by d (some r) = record { ok = true; fraud_probability = r.fraud_probability; ended_at = d }

-- What comes back of the response to a request that is read.
abbrev response_to : Option ScoreRequest → Option ScoreResponse
response_to none = none
response_to (some q) =
    parse_response small_reader (serialize_response small_wire (server q)) empty_response

abbrev up_at : ℕ → Moment
up_at t = record {
  redis = known_in (codes "US");
  asked_at = t;
  failed_at = t + 1;
  called_at = t;
  call = λ d q.
      answered_by d
        (response_to (parse_request small_reader (serialize_request small_wire q) empty_request));
}

answered-ok :
    (d : ℕ) (o : Option ScoreResponse)
    → (answered_by d o).ok ≡ true
    → (r : ScoreResponse) × (o ≡ some r)
      × ((answered_by d o).fraud_probability ≡ r.fraud_probability)
answered-ok d (some r) h = (r, refl, refl)
answered-ok d none h = cc

request-ok :
    (d : ℕ) (o : Option ScoreRequest)
    → (answered_by d (response_to o)).ok ≡ true
    → (q : ScoreRequest) × (r : ScoreResponse) × (o ≡ some q)
      × (parse_response small_reader (serialize_response small_wire (server q)) empty_response
          ≡ some r)
      × ((answered_by d (response_to o)).fraud_probability ≡ r.fraud_probability)
request-ok d (some q) h =
    let (r, back, same) = answered-ok d (response_to (some q)) h in (q, r, refl, back, same)
request-ok d none h = cc

up-Serves : Serves small_wire small_reader server (up_at 10).call
up-Serves = record { ok_read = λ d q h. request-ok d _ h }

server-CanonicalResponse : (q : ScoreRequest) → CanonicalResponse small_reader (server q)
server-CanonicalResponse q = (omega arith, refl, omega arith, tt)

served_example :
    (score_with
      (outside_of small_wire small_reader fpu (λ bytes. empty))
      (up_at 10)
      tx_a
      (features_in (codes "US"))
      (init 3 (pos 30_000))).0
    ≡ 0x3F00_0000
unfolding allow_request init message_of serialize_request serialize serialize_features loop turn
    request_field request_slot_of feature_field feature_slot_of field slot_of serialize_response
    response_field response_slot_of
served_example =
    (served small_wire small_reader (known_in (codes "US")) fpu (λ bytes. empty)
      small_reader-WellRead small_reader-Advances small_reader-Inverse us-get_features fpu-Widens
      server (named 65) tx_a one_connection (features_in (codes "US")) (up_at 10)
      (init 3 (pos 30_000)) a-parse us-found up-Serves
      (server-CanonicalResponse (about fpu tx_a (features_in (codes "US"))))).0

-- Of a request for a user whose country is no text the breaker is told of a failure.
bad-told :
    (score_with
      (outside_of small_wire small_reader fpu (λ bytes. empty))
      (up_at 10)
      tx_a
      (features_in (200 ∷ []))
      (init 3 (pos 30_000))).1
    ≡ record_failure 11 (init 3 (pos 30_000))
unfolding score_with MlClient.score allow_request init request_of serialize_request serialize
    serialize_features loop turn request_field request_slot_of feature_field feature_slot_of field
    slot_of record_failure parse
bad-told = refl
