-- ===== src/Pipeline/Tests.antt =====
-- src/main.cpp with the codec: a transaction that is parsed, scored and sent to the ML server.
mod Server
use ml_distributed_fraud_eng.Common.{
  ℕ, ◌+◌, ◌≡◌, refl, true, false, ◌&&◌, List, [], ◌∷◌, ◌++◌, map, reverse, Option, none, some, pos,
  arith,
}
use ml_distributed_fraud_eng.Messages.{
  Transaction, UserFeatures, ScoreRequest, ScoreResponse, default_features,
}
use ml_distributed_fraud_eng.Float.{f0_85, Fpu}
use ml_distributed_fraud_eng.Breaker.{init, allow_request, record_failure}
use ml_distributed_fraud_eng.FeatureStore.{
  Redis, Store, missing, returns, get_features, features_of, parse_reply, field_of,
}
use ml_distributed_fraud_eng.RuleEngine.{score_parsed}
use ml_distributed_fraud_eng.Text.{codes, str_eq}
use ml_distributed_fraud_eng.FeatureStore.Widths.{KeepsFloats}
use ml_distributed_fraud_eng.MlClient
use ml_distributed_fraud_eng.MlClient.{Rpc, request_of, message_of}
use ml_distributed_fraud_eng.Codec.{serialize, serialize_features}
use ml_distributed_fraud_eng.Codec.Features.{feature_field, feature_slot_of}
use ml_distributed_fraud_eng.Codec.Request.{
  serialize_request, parse_request, empty_request, request_field, request_slot_of,
}
use ml_distributed_fraud_eng.Pipeline.Received.{Widens, about, received}
use ml_distributed_fraud_eng.Codec.Parser.{parse, empty, field, slot_of}
use ml_distributed_fraud_eng.Codec.Stream.{loop, turn}
use ml_distributed_fraud_eng.Codec.Stream.SmallReader.{small_wire, small_reader}
use ml_distributed_fraud_eng.Codec.Stream.SmallReader.Lawful.{
  small_reader-Advances, small_reader-WellRead, small_reader-Inverse,
}
use ml_distributed_fraud_eng.Engine.{Moment, Engine, clean, process, score_with}
use ml_distributed_fraud_eng.Pipeline.{outside_of, or_leftover}
use ml_distributed_fraud_eng.Pipeline.Scored.{asked, parsed-scored}
use ml_distributed_fraud_eng.Pipeline.Missing.{parsed-missing}
use ml_distributed_fraud_eng.Pipeline.Answered.{Serves, served}
use ml_distributed_fraud_eng.Codec.Response.{
  serialize_response, parse_response, empty_response, response_field, response_slot_of,
}
use ml_distributed_fraud_eng.Codec.Response.RoundTrip.{CanonicalResponse}

-- An empty Redis, and a processor without floats.
abbrev empty_redis : Redis
empty_redis = record {
  command = λ ctx k. some (record { is_array = true; element = [] });
  get_reply = λ ctx ks i. none;
  float_from_chars = λ bytes old. old;
}

abbrev pub fpu : Fpu
fpu = record { divide = λ a b. a; widen = λ x. x }

abbrev down_at : ℕ → Moment
down_at t = record {
  redis = empty_redis;
  asked_at = t;
  failed_at = t + 1;
  called_at = t;
  call = λ d r. record { ok = false; fraud_probability = 0; ended_at = d };
}

abbrev fresh : Engine
fresh = record {
  store = record { pool = 1 ∷ []; discarded = [] };
  breaker = init 3 (pos 30_000);
  sent = [];
  calls = 0;
}

abbrev pub named : ℕ → List ℕ
named c = 10 ∷ 1 ∷ c ∷ []

abbrev pub tx_a : Transaction
tx_a = record empty { tx_id = 65 ∷ [] }

pub a-parse : parse small_reader (named 65) ≡ some tx_a
unfolding parse loop turn field slot_of
a-parse = refl

parsed-scored_example :
    (score_with
      (outside_of small_wire small_reader fpu (λ bytes. empty))
      (down_at 10)
      tx_a
      missing
      (init 3 (pos 30_000))).0
    ≡ score_parsed fpu tx_a missing
unfolding allow_request init
parsed-scored_example =
    (parsed-scored small_wire small_reader fpu (λ bytes. empty) small_reader-WellRead
      small_reader-Advances small_reader-Inverse (named 65) tx_a a-parse (down_at 10) missing
      (init 3 (pos 30_000))).0

abbrev pub one_connection : Store
one_connection = record { pool = 1 ∷ []; discarded = [] }

no-features : (get_features empty_redis [] one_connection).0 ≡ returns missing
unfolding get_features features_of
no-features = refl

refused :
    ((allow_request 10 (init 3 (pos 30_000))).1 && (asked fpu (down_at 10) tx_a missing).ok) ≡ false
unfolding allow_request init
refused = refl

parsed-missing_example :
    (process
      (outside_of small_wire small_reader fpu (λ bytes. empty))
      f0_85
      (down_at 10)
      tx_a
      fresh).1.sent
    ≡ clean (serialize small_wire tx_a) ∷ []
parsed-missing_example =
    parsed-missing small_wire small_reader fpu (λ bytes. empty) small_reader-WellRead
      small_reader-Advances small_reader-Inverse (named 65) tx_a (down_at 10) fresh f0_85 a-parse
      no-features refused (omega arith) (omega arith)

-- Redis knows one country of each user, in ASCII or not.
abbrev pub known_in : List ℕ → Redis
known_in country = record empty_redis {
  command = λ ctx k.
      some (record { is_array = true; element = some (codes "countries_30d") ∷ some country ∷ [] });
}

abbrev pub features_in : List ℕ → UserFeatures
features_in country = record default_features { countries_30d = country }

pub us-found :
    (get_features (known_in (codes "US")) [] one_connection).0 ≡ returns (features_in (codes "US"))
unfolding get_features features_of parse_reply field_of str_eq
us-found = refl

pub us-get_features : KeepsFloats (known_in (codes "US"))
us-get_features val old h = h

pub fpu-Widens : Widens fpu
fpu-Widens x h = omega arith

received_example :
    parse_request small_reader
      (serialize_request small_wire (
        request_of fpu
          (λ bytes. or_leftover empty (parse small_reader bytes))
          (serialize small_wire tx_a)
          (features_in (codes "US"))))
      empty_request
    ≡ some (about fpu tx_a (features_in (codes "US")))
received_example =
    received small_wire small_reader (known_in (codes "US")) fpu (λ bytes. empty)
      small_reader-WellRead small_reader-Advances small_reader-Inverse us-get_features fpu-Widens
      (named 65) tx_a one_connection (features_in (codes "US")) a-parse us-found

-- The byte 200 is no text in UTF-8.
bad-request :
    parse_request small_reader
      (serialize_request small_wire (about fpu tx_a (features_in (200 ∷ []))))
      empty_request
    ≡ none
unfolding serialize_request serialize serialize_features loop turn request_field request_slot_of
    feature_field feature_slot_of field slot_of
bad-request = refl
