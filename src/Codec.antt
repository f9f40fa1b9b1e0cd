-- ===== src/Codec.antt =====
-- generated/fraud.pb.cc, fraud::Transaction and fraud::UserFeatures: clearing, merging, serialization
-- and its size. The functions of Protocol buffers that write one field, and those that give a value's
-- size, are parameters.
pub mod Stream
pub mod Parser
pub mod Features
pub mod Request
pub mod Response
pub mod Merging
pub mod Sizes
mod Tests
use ml_distributed_fraud_eng.Common.{
  ℕ, ◌+◌, Bool, true, false, List, [], ◌∷◌, ◌++◌, ◌==◌, if◌then◌else◌, Option, none, some,
}
use ml_distributed_fraud_eng.Messages.{Transaction, FeaturesMessage}
use ml_distributed_fraud_eng.Text.{is_empty}

-- The bytes of a field by its number and value (the check of UTF-8 before only logs), and the sizes.
pub record Wire : Type 0 where
  pub write_string : ℕ → List ℕ → List ℕ  -- WriteStringMaybeAliased
  pub write_double : ℕ → ℕ → List ℕ  -- WriteDoubleToArray
  pub write_int64 : ℕ → ℕ → List ℕ  -- WriteInt64ToArray
  pub write_int32 : ℕ → ℕ → List ℕ  -- WriteInt32ToArray
  pub write_bool : ℕ → Bool → List ℕ  -- WriteBoolToArray
  pub write_enum : ℕ → ℕ → List ℕ  -- WriteEnumToArray
  pub write_float : ℕ → ℕ → List ℕ  -- WriteFloatToArray
  pub write_message : ℕ → List ℕ → List ℕ  -- InternalWriteMessage, by the bytes of the message
  pub write_unknown : ℕ × List ℕ → List ℕ  -- one of InternalSerializeUnknownFieldsToArray
  pub string_size : List ℕ → ℕ  -- StringSize
  pub int64_size_plus_one : ℕ → ℕ  -- Int64SizePlusOne
  pub int32_size_plus_one : ℕ → ℕ  -- Int32SizePlusOne
  pub enum_size : ℕ → ℕ  -- EnumSize
  pub message_size : ℕ → ℕ  -- MessageSize, by the size of the message
  pub unknown_size : List (ℕ × List ℕ) → ℕ  -- as MaybeComputeUnknownFieldsSize adds it

-- `Clear`. The `memset` covers amount, timestamp and method.
unfoldable pub clear : Transaction → Transaction
clear tx = record {
  tx_id = [];
  user_id = [];
  merchant_id = [];
  amount = 0;
  currency = [];
  country = [];
  timestamp_ms = 0;
  card_bin = [];
  device_id = [];
  ip_address = [];
  method = 0;
  unknown_fields = [];
}

abbrev pub or_keep_text : List ℕ → List ℕ → List ℕ
or_keep_text old new = if is_empty new then old else new

-- A double is tested by its bits, so a negative zero is set.
abbrev pub or_keep : ℕ → ℕ → ℕ
or_keep old new = if new == 0 then old else new

-- `MergeImpl`
unfoldable pub merge : Transaction → Transaction → Transaction
merge to from = record {
  tx_id = or_keep_text to.tx_id from.tx_id;
  user_id = or_keep_text to.user_id from.user_id;
  merchant_id = or_keep_text to.merchant_id from.merchant_id;
  amount = or_keep to.amount from.amount;
  currency = or_keep_text to.currency from.currency;
  country = or_keep_text to.country from.country;
  timestamp_ms = or_keep to.timestamp_ms from.timestamp_ms;
  card_bin = or_keep_text to.card_bin from.card_bin;
  device_id = or_keep_text to.device_id from.device_id;
  ip_address = or_keep_text to.ip_address from.ip_address;
  method = or_keep to.method from.method;
  unknown_fields = to.unknown_fields ++ from.unknown_fields;
}

unfoldable pub clear_features : FeaturesMessage → FeaturesMessage
clear_features u = record {
  tx_count_30d = 0;
  avg_amount_30d = 0;
  countries_30d = [];
  last_tx_ts_ms = 0;
  risk_score = 0;
  is_cache_miss = false;
  unknown_fields = [];
}

-- `MergeImpl`; a boolean is set if it is true.
unfoldable pub merge_features : FeaturesMessage → FeaturesMessage → FeaturesMessage
merge_features to from = record {
  tx_count_30d = or_keep to.tx_count_30d from.tx_count_30d;
  avg_amount_30d = or_keep to.avg_amount_30d from.avg_amount_30d;
  countries_30d = or_keep_text to.countries_30d from.countries_30d;
  last_tx_ts_ms = or_keep to.last_tx_ts_ms from.last_tx_ts_ms;
  risk_score = or_keep to.risk_score from.risk_score;
  is_cache_miss = if from.is_cache_miss then true else to.is_cache_miss;
  unknown_fields = to.unknown_fields ++ from.unknown_fields;
}

module _ (wire : Wire) where
  pub string_field : ℕ → List ℕ → List ℕ
  string_field n s = if is_empty s then [] else wire.write_string n s

  pub double_field : ℕ → ℕ → List ℕ
  double_field n x = if x == 0 then [] else wire.write_double n x

  pub int64_field : ℕ → ℕ → List ℕ
  int64_field n x = if x == 0 then [] else wire.write_int64 n x

  pub enum_field : ℕ → ℕ → List ℕ
  enum_field n x = if x == 0 then [] else wire.write_enum n x

  pub write_unknowns : List (ℕ × List ℕ) → List ℕ
  write_unknowns [] = []
  write_unknowns (u ∷ us) = wire.write_unknown u ++ write_unknowns us

  -- `_InternalSerialize`
  unfoldable pub serialize : Transaction → List ℕ
  unfolding string_field double_field int64_field enum_field write_unknowns
  serialize tx =
      string_field 1 tx.tx_id
      ++ (string_field 2 tx.user_id
          ++ (string_field 3 tx.merchant_id
              ++ (double_field 4 tx.amount
                  ++ (string_field 5 tx.currency
                      ++ (string_field 6 tx.country
                          ++ (int64_field 7 tx.timestamp_ms
                              ++ (string_field 8 tx.card_bin
                                  ++ (string_field 9 tx.device_id
                                      ++ (string_field 10 tx.ip_address
                                          ++ (enum_field 11 tx.method
                                              ++ write_unknowns tx.unknown_fields))))))))))

  pub string_bytes : List ℕ → ℕ
  string_bytes s = if is_empty s then 0 else 1 + wire.string_size s

  -- `ByteSizeLong`, which adds the strings first.
  unfoldable pub byte_size : Transaction → ℕ
  unfolding string_bytes
  byte_size tx =
      string_bytes tx.tx_id
      + string_bytes tx.user_id
      + string_bytes tx.merchant_id
      + string_bytes tx.currency
      + string_bytes tx.country
      + string_bytes tx.card_bin
      + string_bytes tx.device_id
      + string_bytes tx.ip_address
      + (if tx.amount == 0 then 0 else 1 + 8)
      + (if tx.timestamp_ms == 0 then 0 else wire.int64_size_plus_one tx.timestamp_ms)
      + (if tx.method == 0 then 0 else 1 + wire.enum_size tx.method)
      + wire.unknown_size tx.unknown_fields

  pub int32_field : ℕ → ℕ → List ℕ
  int32_field n x = if x == 0 then [] else wire.write_int32 n x

  pub bool_field : ℕ → Bool → List ℕ
  bool_field n b = if b then wire.write_bool n b else []

  pub float_field : ℕ → ℕ → List ℕ
  float_field n x = if x == 0 then [] else wire.write_float n x

  -- A part that is a message, by its bytes, `none` where it is not set.
  pub message_field : ℕ → Option (List ℕ) → List ℕ
  message_field n none = []
  message_field n (some bytes) = wire.write_message n bytes

  unfoldable pub serialize_features : FeaturesMessage → List ℕ
  unfolding string_field double_field int64_field int32_field bool_field write_unknowns
  serialize_features u =
      int32_field 1 u.tx_count_30d
      ++ (double_field 2 u.avg_amount_30d
          ++ (string_field 3 u.countries_30d
              ++ (int64_field 4 u.last_tx_ts_ms
                  ++ (double_field 5 u.risk_score
                      ++ (bool_field 6 u.is_cache_miss ++ write_unknowns u.unknown_fields)))))

  unfoldable pub byte_size_features : FeaturesMessage → ℕ
  unfolding string_bytes
  byte_size_features u =
      string_bytes u.countries_30d
      + (if u.avg_amount_30d == 0 then 0 else 1 + 8)
      + (if u.tx_count_30d == 0 then 0 else wire.int32_size_plus_one u.tx_count_30d)
      + (if u.is_cache_miss then 1 + 1 else 0)
      + (if u.last_tx_ts_ms == 0 then 0 else wire.int64_size_plus_one u.last_tx_ts_ms)
      + (if u.risk_score == 0 then 0 else 1 + 8)
      + wire.unknown_size u.unknown_fields
