-- ===== src/Codec/Parser/Fuel.antt =====
-- generated/fraud.pb.cc, Transaction::_InternalParse: its loop ends.
use ml_distributed_fraud_eng.Common.{ℕ, ◌<◌, ◌≡◌, List, length}
use ml_distributed_fraud_eng.Messages.{Transaction}
use ml_distributed_fraud_eng.Codec.Stream.{Reader, loop}
use ml_distributed_fraud_eng.Codec.Stream.Fuel.{
  Advances, Within, text_step-Within, number_step-Within, unusual_step-Within, loop_enough,
}
use ml_distributed_fraud_eng.Codec.Parser.{Slot, slot_of, field_step, field}

module _ (reader : Reader) (advances : Advances reader) where
  field_step-Within :
      (slot : Slot) (tag : ℕ) (p : List ℕ) (tx : Transaction)
      → Within (length p) (field_step reader slot tag p tx)
  unfolding field_step
  field_step-Within Slot.tx_id tag p tx = text_step-Within reader advances _ p
  field_step-Within Slot.user_id tag p tx = text_step-Within reader advances _ p
  field_step-Within Slot.merchant_id tag p tx = text_step-Within reader advances _ p
  field_step-Within Slot.currency tag p tx = text_step-Within reader advances _ p
  field_step-Within Slot.country tag p tx = text_step-Within reader advances _ p
  field_step-Within Slot.card_bin tag p tx = text_step-Within reader advances _ p
  field_step-Within Slot.device_id tag p tx = text_step-Within reader advances _ p
  field_step-Within Slot.ip_address tag p tx = text_step-Within reader advances _ p
  field_step-Within Slot.amount tag p tx =
      number_step-Within reader advances reader.read_double _ p advances.double_advances
  field_step-Within Slot.timestamp_ms tag p tx =
      number_step-Within reader advances reader.read_varint64 _ p advances.varint_advances
  field_step-Within Slot.method tag p tx =
      number_step-Within reader advances reader.read_varint64 _ p advances.varint_advances
  field_step-Within Slot.unusual tag p tx = unusual_step-Within reader advances tag p _

  pub field-Within :
      (tag : ℕ) (p : List ℕ) (tx : Transaction) → Within (length p) (field reader tag p tx)
  unfolding field
  field-Within tag p tx = field_step-Within (slot_of tag) tag p tx

  -- With a reader that moves forward, at least by one byte over a tag: all fuel above the number of bytes
  -- gives the loop the same result.
  pub loop_fuel :
      (f g : ℕ) (bytes : List ℕ) (tx : Transaction)
      → length bytes < f
      → length bytes < g
      → loop reader (field reader) f bytes tx ≡ loop reader (field reader) g bytes tx
  loop_fuel f g bytes tx h k =
      loop_enough reader advances (field reader) field-Within f g bytes tx h k
