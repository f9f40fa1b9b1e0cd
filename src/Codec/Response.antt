-- ===== src/Codec/Response.antt =====
-- generated/fraud.pb.cc, fraud::ScoreResponse: clearing, merging, serialization, its size and the parser.
pub mod RoundTrip
use ml_distributed_fraud_eng.Common.{ℕ, ◌+◌, List, [], ◌∷◌, ◌++◌, Option, ◌==◌, if◌then◌else◌}
use ml_distributed_fraud_eng.Messages.{ScoreResponse}
use ml_distributed_fraud_eng.Codec.{
  Wire, or_keep, or_keep_text, string_field, string_bytes, int64_field, float_field, write_unknowns,
}
use ml_distributed_fraud_eng.Codec.Stream.{Reader, case, text_step, number_step, unusual_step, run}

-- A new message.
abbrev pub empty_response : ScoreResponse
empty_response = record {
  fraud_probability = 0;
  model_version = [];
  inference_us = 0;
  unknown_fields = [];
}

-- `Clear`. The `memset` covers the two numbers.
unfoldable pub clear_response : ScoreResponse → ScoreResponse
clear_response r = record {
  fraud_probability = 0;
  model_version = [];
  inference_us = 0;
  unknown_fields = [];
}

-- `MergeImpl`; a float is tested by its bits.
unfoldable pub merge_response : ScoreResponse → ScoreResponse → ScoreResponse
merge_response to from = record {
  fraud_probability = or_keep to.fraud_probability from.fraud_probability;
  model_version = or_keep_text to.model_version from.model_version;
  inference_us = or_keep to.inference_us from.inference_us;
  unknown_fields = to.unknown_fields ++ from.unknown_fields;
}

module _ (wire : Wire) where
  -- `_InternalSerialize`
  unfoldable pub serialize_response : ScoreResponse → List ℕ
  unfolding float_field string_field int64_field write_unknowns
  serialize_response r =
      float_field wire 1 r.fraud_probability
      ++ (string_field wire 2 r.model_version
          ++ (int64_field wire 3 r.inference_us ++ write_unknowns wire r.unknown_fields))

  -- `ByteSizeLong`
  unfoldable pub byte_size_response : ScoreResponse → ℕ
  unfolding string_bytes
  byte_size_response r =
      string_bytes wire r.model_version
      + (if r.inference_us == 0 then 0 else wire.int64_size_plus_one r.inference_us)
      + (if r.fraud_probability == 0 then 0 else 1 + 4)
      + wire.unknown_size r.unknown_fields

-- The cases of the `switch`.
pub data ResponseSlot : Type 0 where
  fraud_probability model_version inference_us unusual : ResponseSlot

unfoldable pub response_slot_of : ℕ → ResponseSlot
response_slot_of tag = case ResponseSlot.unusual tag 1 13 ResponseSlot.fraud_probability (
    case ResponseSlot.unusual tag 2 18 ResponseSlot.model_version
      (case ResponseSlot.unusual tag 3 24 ResponseSlot.inference_us ResponseSlot.unusual))

module _ (reader : Reader) where
  -- One field behind its tag.
  pub response_step : ResponseSlot → ℕ → List ℕ → ScoreResponse → Option (ScoreResponse × List ℕ)
  unfolding text_step number_step unusual_step
  response_step ResponseSlot.fraud_probability tag p r =
      number_step reader (λ x. record r { fraud_probability = x }) (reader.read_float p)
  response_step ResponseSlot.model_version tag p r =
      text_step reader (λ s. record r { model_version = s }) (reader.read_string p)
  response_step ResponseSlot.inference_us tag p r =
      number_step reader (λ x. record r { inference_us = x }) (reader.read_varint64 p)
  response_step ResponseSlot.unusual tag p r =
      unusual_step reader tag p (λ v. record r { unknown_fields = r.unknown_fields ++ v ∷ [] })

  -- By the tag that was read.
  unfoldable pub response_field : ℕ → List ℕ → ScoreResponse → Option (ScoreResponse × List ℕ)
  unfolding response_step
  response_field tag p r = response_step (response_slot_of tag) tag p r

  -- `_InternalParse` of all bytes into a message.
  abbrev pub parse_response : List ℕ → ScoreResponse → Option ScoreResponse
  parse_response bytes r = run reader response_field bytes r
