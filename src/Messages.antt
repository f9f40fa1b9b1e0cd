-- ===== src/Messages.antt =====
-- generated/fraud.pb.h, src/enrichment/redis_feature_store.h: the data that the components pass on.
-- Strings are lists of bytes. An `int64_t` or a `double` is its 64-bit pattern, an `int` or a `float`
-- its 32-bit pattern.
use ml_distributed_fraud_eng.Common.{ℕ, Bool, false, List, [], Option}

-- fraud::Transaction
pub record Transaction : Type 0 where
  pub tx_id : List ℕ
  pub user_id : List ℕ
  pub merchant_id : List ℕ
  pub amount : ℕ  -- double
  pub currency : List ℕ
  pub country : List ℕ
  pub timestamp_ms : ℕ  -- int64_t
  pub card_bin : List ℕ
  pub device_id : List ℕ
  pub ip_address : List ℕ
  pub method : ℕ  -- an int, open enum
  pub unknown_fields : List (ℕ × List ℕ)  -- by tag, the bytes that follow it

-- fraud::UserFeatures, the message.
pub record FeaturesMessage : Type 0 where
  pub tx_count_30d : ℕ  -- int32_t
  pub avg_amount_30d : ℕ  -- double
  pub countries_30d : List ℕ
  pub last_tx_ts_ms : ℕ  -- int64_t
  pub risk_score : ℕ  -- double
  pub is_cache_miss : Bool
  pub unknown_fields : List (ℕ × List ℕ)

-- fraud::ScoreRequest; a part is `none` where its pointer is null.
pub record ScoreRequest : Type 0 where
  pub transaction : Option Transaction
  pub features : Option FeaturesMessage
  pub unknown_fields : List (ℕ × List ℕ)

-- fraud::ScoreResponse
pub record ScoreResponse : Type 0 where
  pub fraud_probability : ℕ  -- float
  pub model_version : List ℕ
  pub inference_us : ℕ  -- int64_t
  pub unknown_fields : List (ℕ × List ℕ)

-- The struct UserFeatures of the feature store.
pub record UserFeatures : Type 0 where
  pub tx_count_30d : ℕ  -- int
  pub avg_amount_30d : ℕ  -- float
  pub countries_30d : List ℕ
  pub last_tx_ts : ℕ  -- int64_t
  pub risk_score : ℕ  -- float
  pub is_cache_miss : Bool

-- Its default member initialisers.
abbrev pub default_features : UserFeatures
default_features = record {
  tx_count_30d = 0;
  avg_amount_30d = 0;
  countries_30d = [];
  last_tx_ts = 0;
  risk_score = 0;
  is_cache_miss = false;
}
