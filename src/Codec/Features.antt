-- ===== src/Codec/Features.antt =====
-- generated/fraud.pb.cc, UserFeatures::_InternalParse.
pub mod RoundTrip
pub mod Fails
use ml_distributed_fraud_eng.Common.{ℕ, false, not, List, [], ◌∷◌, ◌++◌, Option, ◌==◌}
use ml_distributed_fraud_eng.Messages.{FeaturesMessage}
use ml_distributed_fraud_eng.Codec.Stream.{Reader, case, text_step, number_step, unusual_step, run}

-- A new message.
abbrev pub empty_features : FeaturesMessage
empty_features = record {
  tx_count_30d = 0;
  avg_amount_30d = 0;
  countries_30d = [];
  last_tx_ts_ms = 0;
  risk_score = 0;
  is_cache_miss = false;
  unknown_fields = [];
}

-- The cases of the `switch`.
pub data FeatureSlot : Type 0 where
  tx_count_30d avg_amount_30d countries_30d last_tx_ts_ms risk_score is_cache_miss unusual :
      FeatureSlot

unfoldable pub feature_slot_of : ℕ → FeatureSlot
feature_slot_of tag = case FeatureSlot.unusual tag 1 8 FeatureSlot.tx_count_30d (
    case FeatureSlot.unusual tag 2 17 FeatureSlot.avg_amount_30d (
      case FeatureSlot.unusual tag 3 26 FeatureSlot.countries_30d (
        case FeatureSlot.unusual tag 4 32 FeatureSlot.last_tx_ts_ms (
          case FeatureSlot.unusual tag 5 41 FeatureSlot.risk_score
            (case FeatureSlot.unusual tag 6 48 FeatureSlot.is_cache_miss FeatureSlot.unusual)))))

module _ (reader : Reader) where
  -- One field behind its tag.
  pub feature_step : FeatureSlot → ℕ → List ℕ → FeaturesMessage → Option (FeaturesMessage × List ℕ)
  unfolding text_step number_step unusual_step
  feature_step FeatureSlot.tx_count_30d tag p u =
      number_step reader (λ x. record u { tx_count_30d = x }) (reader.read_varint32 p)
  feature_step FeatureSlot.avg_amount_30d tag p u =
      number_step reader (λ x. record u { avg_amount_30d = x }) (reader.read_double p)
  feature_step FeatureSlot.countries_30d tag p u =
      text_step reader (λ s. record u { countries_30d = s }) (reader.read_string p)
  feature_step FeatureSlot.last_tx_ts_ms tag p u =
      number_step reader (λ x. record u { last_tx_ts_ms = x }) (reader.read_varint64 p)
  feature_step FeatureSlot.risk_score tag p u =
      number_step reader (λ x. record u { risk_score = x }) (reader.read_double p)
  feature_step FeatureSlot.is_cache_miss tag p u =
      number_step reader (λ x. record u { is_cache_miss = not (x == 0) }) (reader.read_varint64 p)
  feature_step FeatureSlot.unusual tag p u =
      unusual_step reader tag p (λ v. record u { unknown_fields = u.unknown_fields ++ v ∷ [] })

  -- By the tag that was read.
  unfoldable pub feature_field : ℕ → List ℕ → FeaturesMessage → Option (FeaturesMessage × List ℕ)
  unfolding feature_step
  feature_field tag p u = feature_step (feature_slot_of tag) tag p u

  -- `_InternalParse` of all bytes into a message.
  abbrev pub parse_features : List ℕ → FeaturesMessage → Option FeaturesMessage
  parse_features bytes u = run reader feature_field bytes u
