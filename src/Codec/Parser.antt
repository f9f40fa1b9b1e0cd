-- ===== src/Codec/Parser.antt =====
-- generated/fraud.pb.cc, Transaction::_InternalParse, from an empty message as `ParseFromString` calls it.
pub mod Fuel
pub mod Canonical
pub mod RoundTrip
pub mod Reparse
pub mod Concat
mod Tests
use ml_distributed_fraud_eng.Common.{ℕ, ◌%◌, ◌^◌, List, [], ◌∷◌, ◌++◌, Option}
use ml_distributed_fraud_eng.Messages.{Transaction}
use ml_distributed_fraud_eng.Codec.Stream.{Reader, case, text_step, number_step, unusual_step, run}

-- A new message.
abbrev pub empty : Transaction
empty = record {
  tx_id = [];
  user_id = [];
  merchant_id = [];
  amount = 0;
  currency = [];
  country = [];
  timestamp_ms = 0;
  card_bin = [];
  device_id = [];
  ip_address = [];
  method = 0;
  unknown_fields = [];
}

-- The cases of the `switch`.
pub data Slot : Type 0 where
  tx_id user_id merchant_id amount currency country timestamp_ms card_bin device_id : Slot
  ip_address method unusual : Slot

unfoldable pub slot_of : ℕ → Slot
slot_of tag = case Slot.unusual tag 1 10 Slot.tx_id (
    case Slot.unusual tag 2 18 Slot.user_id (
      case Slot.unusual tag 3 26 Slot.merchant_id (
        case Slot.unusual tag 4 33 Slot.amount (
          case Slot.unusual tag 5 42 Slot.currency (
            case Slot.unusual tag 6 50 Slot.country (
              case Slot.unusual tag 7 56 Slot.timestamp_ms (
                case Slot.unusual tag 8 66 Slot.card_bin (
                  case Slot.unusual tag 9 74 Slot.device_id (
                    case Slot.unusual tag 10 82 Slot.ip_address
                      (case Slot.unusual tag 11 88 Slot.method Slot.unusual))))))))))

module _ (reader : Reader) where
  -- One field behind its tag.
  pub field_step : Slot → ℕ → List ℕ → Transaction → Option (Transaction × List ℕ)
  unfolding text_step number_step unusual_step
  field_step Slot.tx_id tag p tx =
      text_step reader (λ s. record tx { tx_id = s }) (reader.read_string p)
  field_step Slot.user_id tag p tx =
      text_step reader (λ s. record tx { user_id = s }) (reader.read_string p)
  field_step Slot.merchant_id tag p tx =
      text_step reader (λ s. record tx { merchant_id = s }) (reader.read_string p)
  field_step Slot.amount tag p tx =
      number_step reader (λ x. record tx { amount = x }) (reader.read_double p)
  field_step Slot.currency tag p tx =
      text_step reader (λ s. record tx { currency = s }) (reader.read_string p)
  field_step Slot.country tag p tx =
      text_step reader (λ s. record tx { country = s }) (reader.read_string p)
  field_step Slot.timestamp_ms tag p tx =
      number_step reader (λ x. record tx { timestamp_ms = x }) (reader.read_varint64 p)
  field_step Slot.card_bin tag p tx =
      text_step reader (λ s. record tx { card_bin = s }) (reader.read_string p)
  field_step Slot.device_id tag p tx =
      text_step reader (λ s. record tx { device_id = s }) (reader.read_string p)
  field_step Slot.ip_address tag p tx =
      text_step reader (λ s. record tx { ip_address = s }) (reader.read_string p)
  field_step Slot.method tag p tx =
      number_step reader (λ x. record tx { method = x % 2 ^ 32 }) (reader.read_varint64 p)
  field_step Slot.unusual tag p tx =
      unusual_step reader tag p (λ u. record tx { unknown_fields = tx.unknown_fields ++ u ∷ [] })

  -- By the tag that was read.
  unfoldable pub field : ℕ → List ℕ → Transaction → Option (Transaction × List ℕ)
  unfolding field_step
  field tag p tx = field_step (slot_of tag) tag p tx

  unfoldable pub parse : List ℕ → Option Transaction
  parse bytes = run reader field bytes empty
