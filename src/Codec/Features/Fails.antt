-- ===== src/Codec/Features/Fails.antt =====
-- generated/fraud.pb.cc: features with a text that is not in UTF-8.
use mathlib.Core.List.{append_assoc}
use ml_distributed_fraud_eng.Common.{
  ℕ, ◌^◌, ◌<◌, false, List, ◌∷◌, ◌++◌, ◌≡◌, refl, ◌∙◌, none, arith,
}
use ml_distributed_fraud_eng.Messages.{FeaturesMessage}
use ml_distributed_fraud_eng.Codec.{Wire, serialize_features, or_keep}
use ml_distributed_fraud_eng.Codec.Stream.{Reader, run}
use ml_distributed_fraud_eng.Codec.Stream.Fuel.{Advances}
use ml_distributed_fraud_eng.Codec.Stream.Laws.{Inverse}
use ml_distributed_fraud_eng.Codec.Stream.Items.{run-double, run-int32}
use ml_distributed_fraud_eng.Codec.Stream.Fails.{run-bad_text}
use ml_distributed_fraud_eng.Codec.Features.{feature_slot_of, feature_step, feature_field}
use ml_distributed_fraud_eng.Codec.Features.RoundTrip.{feature_field-Within}

module _ (wire : Wire) (reader : Reader) (advances : Advances reader)
    (inverse : Inverse wire reader) where
  -- The text is serialized all the same, and the parser refuses it.
  pub run-bad_countries :
      (to u : FeaturesMessage) (c : ℕ) (cs rest : List ℕ)
      → u.tx_count_30d < 2 ^ 32
      → u.avg_amount_30d < 2 ^ 64
      → u.countries_30d ≡ c ∷ cs
      → reader.verify_utf8 (c ∷ cs) ≡ false
      → run reader (feature_field reader) (serialize_features wire u ++ rest) to ≡ none
  unfolding serialize_features feature_field feature_step feature_slot_of
  run-bad_countries to u c cs rest count average e bad =
      let moves = feature_field-Within reader advances in
      let u1 = record to { tx_count_30d = or_keep to.tx_count_30d u.tx_count_30d } in
      let u2 = record u1 { avg_amount_30d = or_keep to.avg_amount_30d u.avg_amount_30d } in
      rw e (
        simp append_assoc (
          run-int32 wire reader advances inverse (feature_field reader) moves 1
            (λ x. record to { tx_count_30d = x }) to.tx_count_30d u.tx_count_30d _ (omega arith)
            count (λ p. refl)
          ∙ run-double wire reader advances inverse (feature_field reader) moves 2
              (λ x. record u1 { avg_amount_30d = x }) to.avg_amount_30d u.avg_amount_30d _
              (omega arith) average (λ p. refl)
          ∙ run-bad_text wire reader advances inverse (feature_field reader) 3
              (λ s. record u2 { countries_30d = s }) u2 c cs _ (omega arith) bad (λ p. refl)))
