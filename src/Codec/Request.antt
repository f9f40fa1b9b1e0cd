-- ===== src/Codec/Request.antt =====
-- generated/fraud.pb.cc, fraud::ScoreRequest: clearing, merging, serialization, its size and the parser.
pub mod RoundTrip
pub mod Fails
use mathlib.Core.Option
use ml_distributed_fraud_eng.Common.{ℕ, ◌+◌, List, [], ◌∷◌, ◌++◌, Option, none, some}
use ml_distributed_fraud_eng.Messages.{Transaction, FeaturesMessage, ScoreRequest}
use ml_distributed_fraud_eng.Codec.{
  Wire, merge, merge_features, serialize, serialize_features, byte_size, byte_size_features,
  message_field, write_unknowns,
}
use ml_distributed_fraud_eng.Codec.Stream.{Reader, case, message_step, unusual_step, run}
use ml_distributed_fraud_eng.Codec.Parser.{empty, field}
use ml_distributed_fraud_eng.Codec.Features.{empty_features, parse_features}

-- A new message.
abbrev pub empty_request : ScoreRequest
empty_request = record { transaction = none; features = none; unknown_fields = [] }

-- `Clear` deletes the parts.
unfoldable pub clear_request : ScoreRequest → ScoreRequest
clear_request r = record { transaction = none; features = none; unknown_fields = [] }

-- `_internal_mutable_…`: the part, or a new one.
abbrev pub or_new {ℓ} : {A : Type ℓ} → A → Option A → A
or_new new none = new
or_new new (some a) = a

-- A part that is not set in the other message stays as it is.
unfoldable pub merge_part {ℓ} : {A : Type ℓ} → A → (A → A → A) → Option A → Option A → Option A
merge_part new merge to none = to
merge_part new merge to (some a) = some (merge (or_new new to) a)

-- `MergeImpl`
unfoldable pub merge_request : ScoreRequest → ScoreRequest → ScoreRequest
unfolding merge_part
merge_request to from = record {
  transaction = merge_part empty merge to.transaction from.transaction;
  features = merge_part empty_features merge_features to.features from.features;
  unknown_fields = to.unknown_fields ++ from.unknown_fields;
}

module _ (wire : Wire) where
  -- `_InternalSerialize`
  unfoldable pub serialize_request : ScoreRequest → List ℕ
  unfolding message_field write_unknowns
  serialize_request r =
      message_field wire 1 (Option.map (serialize wire) r.transaction)
      ++ (message_field wire 2 (Option.map (serialize_features wire) r.features)
          ++ write_unknowns wire r.unknown_fields)

  -- One part by its size.
  unfoldable pub part_size : Option ℕ → ℕ
  part_size none = 0
  part_size (some n) = 1 + wire.message_size n

  -- `ByteSizeLong`
  unfoldable pub byte_size_request : ScoreRequest → ℕ
  unfolding part_size
  byte_size_request r =
      part_size (Option.map (byte_size wire) r.transaction)
      + part_size (Option.map (byte_size_features wire) r.features)
      + wire.unknown_size r.unknown_fields

-- The cases of the `switch`.
pub data RequestSlot : Type 0 where
  transaction features unusual : RequestSlot

unfoldable pub request_slot_of : ℕ → RequestSlot
request_slot_of tag =
    case RequestSlot.unusual tag 1 10 RequestSlot.transaction
      (case RequestSlot.unusual tag 2 18 RequestSlot.features RequestSlot.unusual)

module _ (reader : Reader) where
  -- One field behind its tag.
  pub request_step : RequestSlot → ℕ → List ℕ → ScoreRequest → Option (ScoreRequest × List ℕ)
  unfolding message_step unusual_step
  request_step RequestSlot.transaction tag p r =
      message_step reader (λ bytes. run reader (field reader) bytes (or_new empty r.transaction))
        (λ tx. record r { transaction = some tx }) (reader.read_message p)
  request_step RequestSlot.features tag p r =
      message_step reader (λ bytes. parse_features reader bytes (or_new empty_features r.features))
        (λ u. record r { features = some u }) (reader.read_message p)
  request_step RequestSlot.unusual tag p r =
      unusual_step reader tag p (λ v. record r { unknown_fields = r.unknown_fields ++ v ∷ [] })

  -- By the tag that was read.
  unfoldable pub request_field : ℕ → List ℕ → ScoreRequest → Option (ScoreRequest × List ℕ)
  unfolding request_step
  request_field tag p r = request_step (request_slot_of tag) tag p r

  -- `_InternalParse` of all bytes into a message.
  abbrev pub parse_request : List ℕ → ScoreRequest → Option ScoreRequest
  parse_request bytes r = run reader request_field bytes r
