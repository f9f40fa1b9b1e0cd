-- ===== src/Codec/Sizes.antt =====
-- generated/fraud.pb.cc: the size that is announced beside the bytes that are written.
pub mod Fields
use ml_distributed_fraud_eng.Common.{
  ap, ◌∙◌, Option, none, some, ℕ, Bool, true, false, ◌+◌, ◌<◌, ◌≡◌, refl, List, [], ◌∷◌, ◌++◌,
  length, length-append, arith, ◌==◌, if◌then◌else◌,
}
use ml_distributed_fraud_eng.Messages.{Transaction, FeaturesMessage, ScoreRequest, ScoreResponse}
use ml_distributed_fraud_eng.Codec.Request.{part_size, serialize_request, byte_size_request}
use ml_distributed_fraud_eng.Codec.Response.{serialize_response, byte_size_response}
use mathlib.Core.Option
use ml_distributed_fraud_eng.Codec.{
  Wire, int32_field, bool_field, serialize_features, byte_size_features, serialize, byte_size,
  string_field, string_bytes, double_field, int64_field, enum_field, write_unknowns, float_field,
  message_field,
}
use ml_distributed_fraud_eng.Codec.Sizes.Fields.{
  Sized, append-size, string_field-length, double_field-length, int64_field-length,
  int32_field-length, bool_field-length, float_field-length, enum_field-length,
  write_unknowns-length, message_field-length,
}

module _ (wire : Wire) (sized : Sized wire) where
  -- The sizes of the fields in the order in which they are written.
  serialize-length :
      (tx : Transaction)
      → length (serialize wire tx)
        ≡ string_bytes wire tx.tx_id
          + (string_bytes wire tx.user_id
              + (string_bytes wire tx.merchant_id
                  + ((if tx.amount == 0 then 0 else 1 + 8)
                      + (string_bytes wire tx.currency
                          + (string_bytes wire tx.country
                              + ((if tx.timestamp_ms == 0
                                    then 0
                                    else wire.int64_size_plus_one tx.timestamp_ms)
                                  + (string_bytes wire tx.card_bin
                                      + (string_bytes wire tx.device_id
                                          + (string_bytes wire tx.ip_address
                                              + ((if tx.method == 0
                                                    then 0
                                                    else 1 + wire.enum_size tx.method)
                                                  + wire.unknown_size tx.unknown_fields))))))))))
  unfolding serialize
  serialize-length tx =
      append-size _ _ _ _ (string_field-length wire sized 1 tx.tx_id (omega arith)) (
        append-size _ _ _ _ (string_field-length wire sized 2 tx.user_id (omega arith)) (
          append-size _ _ _ _ (string_field-length wire sized 3 tx.merchant_id (omega arith)) (
            append-size _ _ _ _ (double_field-length wire sized 4 tx.amount (omega arith)) (
              append-size _ _ _ _ (string_field-length wire sized 5 tx.currency (omega arith)) (
                append-size _ _ _ _ (string_field-length wire sized 6 tx.country (omega arith)) (
                  append-size _ _ _ _
                    (int64_field-length wire sized 7 tx.timestamp_ms (omega arith))
                    (append-size _ _ _ _
                      (string_field-length wire sized 8 tx.card_bin (omega arith))
                      (append-size _ _ _ _
                        (string_field-length wire sized 9 tx.device_id (omega arith))
                        (append-size _ _ _ _
                          (string_field-length wire sized 10 tx.ip_address (omega arith))
                          (append-size _ _ _ _
                            (enum_field-length wire sized 11 tx.method (omega arith))
                            (write_unknowns-length wire sized tx.unknown_fields)))))))))))

  serialize_features-length :
      (u : FeaturesMessage)
      → length (serialize_features wire u)
        ≡ (if u.tx_count_30d == 0 then 0 else wire.int32_size_plus_one u.tx_count_30d)
          + ((if u.avg_amount_30d == 0 then 0 else 1 + 8)
              + (string_bytes wire u.countries_30d
                  + ((if u.last_tx_ts_ms == 0 then 0 else wire.int64_size_plus_one u.last_tx_ts_ms)
                      + ((if u.risk_score == 0 then 0 else 1 + 8)
                          + ((if u.is_cache_miss then 1 + 1 else 0)
                              + wire.unknown_size u.unknown_fields)))))
  unfolding serialize_features
  serialize_features-length u =
      append-size _ _ _ _ (int32_field-length wire sized 1 u.tx_count_30d (omega arith)) (
        append-size _ _ _ _ (double_field-length wire sized 2 u.avg_amount_30d (omega arith)) (
          append-size _ _ _ _ (string_field-length wire sized 3 u.countries_30d (omega arith)) (
            append-size _ _ _ _ (int64_field-length wire sized 4 u.last_tx_ts_ms (omega arith)) (
              append-size _ _ _ _ (double_field-length wire sized 5 u.risk_score (omega arith)) (
                append-size _ _ _ _ (bool_field-length wire sized 6 u.is_cache_miss (omega arith))
                  (write_unknowns-length wire sized u.unknown_fields))))))

  serialize_features-byte_size :
      (u : FeaturesMessage) → length (serialize_features wire u) ≡ byte_size_features wire u
  unfolding byte_size_features
  serialize_features-byte_size u = omega (arith, serialize_features-length u)

  serialize_response-length :
      (r : ScoreResponse)
      → length (serialize_response wire r)
        ≡ (if r.fraud_probability == 0 then 0 else 1 + 4)
          + (string_bytes wire r.model_version
              + ((if r.inference_us == 0 then 0 else wire.int64_size_plus_one r.inference_us)
                  + wire.unknown_size r.unknown_fields))
  unfolding serialize_response
  serialize_response-length r =
      append-size _ _ _ _ (float_field-length wire sized 1 r.fraud_probability (omega arith)) (
        append-size _ _ _ _ (string_field-length wire sized 2 r.model_version (omega arith)) (
          append-size _ _ _ _ (int64_field-length wire sized 3 r.inference_us (omega arith))
            (write_unknowns-length wire sized r.unknown_fields)))

  serialize-size : (tx : Transaction) → length (serialize wire tx) ≡ byte_size wire tx
  unfolding byte_size
  serialize-size tx = omega (arith, serialize-length tx)

  serialize_request-length :
      (r : ScoreRequest)
      → length (serialize_request wire r)
        ≡ part_size wire (Option.map (byte_size wire) r.transaction)
          + (part_size wire (Option.map (byte_size_features wire) r.features)
              + wire.unknown_size r.unknown_fields)
  unfolding serialize_request
  serialize_request-length r =
      append-size _ _ _ _
        (message_field-length wire sized 1 r.transaction (serialize wire) (byte_size wire)
          (omega arith) serialize-size)
        (append-size _ _ _ _
          (message_field-length wire sized 2 r.features (serialize_features wire)
            (byte_size_features wire) (omega arith) serialize_features-byte_size)
          (write_unknowns-length wire sized r.unknown_fields))

  -- With the documented sizes of single fields, the sizes that `ByteSizeLong` announces for each of the
  -- four messages are the numbers of bytes that `_InternalSerialize` writes: a transaction, the features
  -- of a user, a request with the sizes of the two in front of them, and a response.
  pub serialize-byte_size :
      (tx : Transaction) (u : FeaturesMessage) (q : ScoreRequest) (r : ScoreResponse)
      → (length (serialize wire tx) ≡ byte_size wire tx)
        × (length (serialize_features wire u) ≡ byte_size_features wire u)
        × (length (serialize_request wire q) ≡ byte_size_request wire q)
        × (length (serialize_response wire r) ≡ byte_size_response wire r)
  unfolding byte_size_request byte_size_response
  serialize-byte_size tx u q r = (
    serialize-size tx,
    serialize_features-byte_size u,
    omega (arith, serialize_request-length q),
    omega (arith, serialize_response-length r),
  )
