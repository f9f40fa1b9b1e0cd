-- ===== src/Codec/Tests.antt =====
-- generated/fraud.pb.cc: a transaction with three fields, and the theorems for it.
use ml_distributed_fraud_eng.Common.{some, true, false, ◌≡◌, refl, [], length, arith}
use ml_distributed_fraud_eng.Messages.{Transaction, FeaturesMessage, ScoreRequest, ScoreResponse}
use ml_distributed_fraud_eng.Codec.Request.{serialize_request, byte_size_request}
use ml_distributed_fraud_eng.Codec.Response.{serialize_response, byte_size_response}
use ml_distributed_fraud_eng.Text.{codes}
use ml_distributed_fraud_eng.Codec.{serialize_features, byte_size_features, serialize, byte_size}
use ml_distributed_fraud_eng.Codec.Stream.SmallReader.{small_wire}
use ml_distributed_fraud_eng.Codec.Sizes.{serialize-byte_size}
use ml_distributed_fraud_eng.Codec.Sizes.Fields.{Sized}

abbrev pub small_tx : Transaction
small_tx = record {
  tx_id = codes "t1";
  user_id = [];
  merchant_id = [];
  amount = 0x4049_0000_0000_0000;
  currency = [];
  country = [];
  timestamp_ms = 5;
  card_bin = [];
  device_id = [];
  ip_address = [];
  method = 0;
  unknown_fields = [];
}

small_wire-Sized : Sized small_wire
small_wire-Sized = record {
  string_sized = λ n s h. omega arith;
  double_sized = λ n x h. refl;
  int64_sized = λ n x h. refl;
  int32_sized = λ n x h. refl;
  bool_sized = λ n b h. refl;
  float_sized = λ n x h. refl;
  message_sized = λ n s h. omega arith;
  unknown_none = refl;
  unknown_sized = λ u us. refl;
  enum_sized = λ n x h. refl;
}

abbrev some_features : FeaturesMessage
some_features = record {
  tx_count_30d = 3;
  avg_amount_30d = 0;
  countries_30d = codes "US";
  last_tx_ts_ms = 9;
  risk_score = 0;
  is_cache_miss = true;
  unknown_fields = [];
}

abbrev some_request : ScoreRequest
some_request = record {
  transaction = some small_tx;
  features = some some_features;
  unknown_fields = [];
}

abbrev some_response : ScoreResponse
some_response = record {
  fraud_probability = 0x3F00_0000;
  model_version = codes "v1";
  inference_us = 40;
  unknown_fields = [];
}

serialize-byte_size_example :
    (length (serialize small_wire small_tx) ≡ byte_size small_wire small_tx)
    × (length (serialize_features small_wire some_features)
        ≡ byte_size_features small_wire some_features)
    × (length (serialize_request small_wire some_request)
        ≡ byte_size_request small_wire some_request)
    × (length (serialize_response small_wire some_response)
        ≡ byte_size_response small_wire some_response)
serialize-byte_size_example =
    serialize-byte_size small_wire small_wire-Sized small_tx some_features some_request
      some_response

abbrev other_tx : Transaction
other_tx = record small_tx { tx_id = []; user_id = codes "u" }

abbrev no_features : FeaturesMessage
no_features = record some_features { countries_30d = []; is_cache_miss = false }
