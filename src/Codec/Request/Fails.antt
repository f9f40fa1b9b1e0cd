-- ===== src/Codec/Request/Fails.antt =====
-- generated/fraud.pb.cc: a request with features that the parser refuses.
use mathlib.Core.List.{append-nil}
use ml_distributed_fraud_eng.Common.{
  ℕ, ◌^◌, ◌<◌, false, List, [], ◌∷◌, ◌++◌, ◌≡◌, refl, ap, sym, ◌∙◌, none, some, arith,
}
use ml_distributed_fraud_eng.Messages.{Transaction, FeaturesMessage, ScoreRequest}
use ml_distributed_fraud_eng.Codec.{Wire, serialize_features, merge, message_field}
use ml_distributed_fraud_eng.Codec.Stream.{Reader, run}
use ml_distributed_fraud_eng.Codec.Stream.Fuel.{Advances}
use ml_distributed_fraud_eng.Codec.Stream.Laws.{Inverse}
use ml_distributed_fraud_eng.Codec.Stream.Fails.{run-bad_message}
use ml_distributed_fraud_eng.Codec.Parser.{empty}
use ml_distributed_fraud_eng.Codec.Parser.Canonical.{Canonical}
use ml_distributed_fraud_eng.Codec.Features.{empty_features, parse_features}
use ml_distributed_fraud_eng.Codec.Features.Fails.{run-bad_countries}
use ml_distributed_fraud_eng.Codec.Request.{
  request_slot_of, request_step, request_field, or_new, merge_part, serialize_request,
  parse_request, empty_request,
}
use ml_distributed_fraud_eng.Codec.Request.RoundTrip.{run-transaction}

module _ (wire : Wire) (reader : Reader) (advances : Advances reader)
    (inverse : Inverse wire reader) where
  run-bad_features :
      (to : ScoreRequest) (u : FeaturesMessage) (c : ℕ) (cs rest : List ℕ)
      → u.tx_count_30d < 2 ^ 32
      → u.avg_amount_30d < 2 ^ 64
      → u.countries_30d ≡ c ∷ cs
      → reader.verify_utf8 (c ∷ cs) ≡ false
      → run reader
          (request_field reader)
          (message_field wire 2 (some (serialize_features wire u)) ++ rest)
          to
        ≡ none
  unfolding request_field request_step request_slot_of
  run-bad_features to u c cs rest count average e bad =
      run-bad_message wire reader advances inverse (request_field reader) 2 to
        (λ v. record to { features = some v })
        (λ bytes. parse_features reader bytes (or_new empty_features to.features))
        (serialize_features wire u) rest (omega arith)
        (ap (λ bytes. parse_features reader bytes (or_new empty_features to.features))
            (sym (append-nil (serialize_features wire u)))
          ∙ run-bad_countries wire reader advances inverse (or_new empty_features to.features) u c
              cs [] count average e bad)
        (λ p. refl)

  -- A request is serialized although the text of its features is not in UTF-8, and then refused.
  pub parse-bad_request :
      (r : ScoreRequest) (tx : Transaction) (u : FeaturesMessage) (c : ℕ) (cs : List ℕ)
      → r.transaction ≡ some tx
      → r.features ≡ some u
      → Canonical reader tx
      → u.tx_count_30d < 2 ^ 32
      → u.avg_amount_30d < 2 ^ 64
      → u.countries_30d ≡ c ∷ cs
      → reader.verify_utf8 (c ∷ cs) ≡ false
      → parse_request reader (serialize_request wire r) empty_request ≡ none
  unfolding serialize_request
  parse-bad_request r tx u c cs is_tx is_u canonical count average e bad =
      rw (is_tx, is_u)
        (run-transaction wire reader advances inverse empty_request (some tx) _ canonical
          ∙ run-bad_features
              (record empty_request { transaction = merge_part empty merge none (some tx) }) u c cs
              _ count average e bad)
