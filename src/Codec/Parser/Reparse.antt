-- ===== src/Codec/Parser/Reparse.antt =====
-- generated/fraud.pb.cc: what `_InternalParse` makes of any bytes.
use ml_distributed_fraud_eng.Common.{◌↔◌, ℕ, suc, ◌^◌, ◌≡◌, refl, List, some, arith, length}
use ml_distributed_fraud_eng.Messages.{Transaction}
use ml_distributed_fraud_eng.Codec.{Wire, serialize}
use ml_distributed_fraud_eng.Codec.Stream.{Reader}
use ml_distributed_fraud_eng.Codec.Stream.Fuel.{Advances}
use ml_distributed_fraud_eng.Codec.Stream.Laws.{WellRead, Inverse}
use ml_distributed_fraud_eng.Codec.Stream.Keeps.{
  Holds, text_step-Holds, number_step-Holds, unusual_step-Holds, loop-Holds,
}
use ml_distributed_fraud_eng.Codec.Parser.{Slot, slot_of, field_step, field, parse, empty}
use ml_distributed_fraud_eng.Codec.Parser.Canonical.{Canonical, IsUnusual}
use ml_distributed_fraud_eng.Codec.Parser.RoundTrip.{parse-serialize}

module _ (reader : Reader) (well : WellRead reader) where
  abbrev Made : Transaction → Type 0
  Made tx = Canonical reader tx

  field_step-Holds :
      (slot : Slot) (tag : ℕ) (p : List ℕ) (tx : Transaction)
      → slot_of tag ≡ slot
      → Canonical reader tx
      → Holds Made (field_step reader slot tag p tx)
  unfolding field_step
  field_step-Holds Slot.tx_id tag p tx e
        (id, user, merchant, amount, currency, country, time, bin, device, ip, method, kept) =
      text_step-Holds reader well Made _ _
        (λ s h. (h, user, merchant, amount, currency, country, time, bin, device, ip, method, kept))
  field_step-Holds Slot.user_id tag p tx e
        (id, user, merchant, amount, currency, country, time, bin, device, ip, method, kept) =
      text_step-Holds reader well Made _ _
        (λ s h. (id, h, merchant, amount, currency, country, time, bin, device, ip, method, kept))
  field_step-Holds Slot.merchant_id tag p tx e
        (id, user, merchant, amount, currency, country, time, bin, device, ip, method, kept) =
      text_step-Holds reader well Made _ _
        (λ s h. (id, user, h, amount, currency, country, time, bin, device, ip, method, kept))
  field_step-Holds Slot.amount tag p tx e
        (id, user, merchant, amount, currency, country, time, bin, device, ip, method, kept) =
      number_step-Holds reader well Made (2 ^ 64) reader.read_double _ p well.double_lt
        (λ x h. (id, user, merchant, h, currency, country, time, bin, device, ip, method, kept))
  field_step-Holds Slot.currency tag p tx e
        (id, user, merchant, amount, currency, country, time, bin, device, ip, method, kept) =
      text_step-Holds reader well Made _ _
        (λ s h. (id, user, merchant, amount, h, country, time, bin, device, ip, method, kept))
  field_step-Holds Slot.country tag p tx e
        (id, user, merchant, amount, currency, country, time, bin, device, ip, method, kept) =
      text_step-Holds reader well Made _ _
        (λ s h. (id, user, merchant, amount, currency, h, time, bin, device, ip, method, kept))
  field_step-Holds Slot.timestamp_ms tag p tx e
        (id, user, merchant, amount, currency, country, time, bin, device, ip, method, kept) =
      number_step-Holds reader well Made (2 ^ 64) reader.read_varint64 _ p well.varint_lt
        (λ x h. (id, user, merchant, amount, currency, country, h, bin, device, ip, method, kept))
  field_step-Holds Slot.card_bin tag p tx e
        (id, user, merchant, amount, currency, country, time, bin, device, ip, method, kept) =
      text_step-Holds reader well Made _ _
        (λ s h. (id, user, merchant, amount, currency, country, time, h, device, ip, method, kept))
  field_step-Holds Slot.device_id tag p tx e
        (id, user, merchant, amount, currency, country, time, bin, device, ip, method, kept) =
      text_step-Holds reader well Made _ _
        (λ s h. (id, user, merchant, amount, currency, country, time, bin, h, ip, method, kept))
  field_step-Holds Slot.ip_address tag p tx e
        (id, user, merchant, amount, currency, country, time, bin, device, ip, method, kept) =
      text_step-Holds reader well Made _ _
        (λ s h. (id, user, merchant, amount, currency, country, time, bin, device, h, method, kept))
  field_step-Holds Slot.method tag p tx e
        (id, user, merchant, amount, currency, country, time, bin, device, ip, method, kept) =
      number_step-Holds reader well Made (2 ^ 64) reader.read_varint64 _ p well.varint_lt (λ x h.
        (id, user, merchant, amount, currency, country, time, bin, device, ip, omega arith, kept))
  field_step-Holds Slot.unusual tag p tx e
        (id, user, merchant, amount, currency, country, time, bin, device, ip, method, kept) =
      unusual_step-Holds reader well Made IsUnusual tx.unknown_fields
        (λ us. record tx { unknown_fields = us }) tag p (λ ends. (e, ends)) kept
        (λ us h. (id, user, merchant, amount, currency, country, time, bin, device, ip, method, h))

  field-Holds :
      (tag : ℕ) (p : List ℕ) (tx : Transaction)
      → Canonical reader tx
      → Holds Made (field reader tag p tx)
  unfolding field
  field-Holds tag p tx c = field_step-Holds (slot_of tag) tag p tx refl c

  empty-Canonical : Canonical reader empty
  empty-Canonical =
      let nil = well.nil_Valid in
      (nil, nil, nil, omega arith, nil, nil, omega arith, nil, nil, nil, omega arith, tt)

  -- The transaction that `_InternalParse` makes of any bytes has texts in UTF-8, numbers of their widths
  -- and unknown fields that are none of its own.
  pub parse-Canonical :
      (bytes : List ℕ) (tx : Transaction) → parse reader bytes ≡ some tx → Canonical reader tx
  unfolding parse
  parse-Canonical bytes tx e =
      loop-Holds reader Made (field reader) field-Holds (suc (length bytes)) bytes empty tx
        empty-Canonical e

-- With the documented behaviour of single items: when any bytes are parsed as a transaction, what is
-- serialized of it is parsed as the same transaction, its unknown fields included.
pub reparse :
    (wire : Wire) (reader : Reader)
    → WellRead reader
    → Advances reader
    → Inverse wire reader
    → (bytes : List ℕ) (tx : Transaction) → parse reader bytes ≡ some tx
    → parse reader (serialize wire tx) ≡ some tx
reparse wire reader well advances inverse bytes tx e =
    parse-serialize wire reader advances inverse tx (parse-Canonical reader well bytes tx e)

-- With the documented behaviour of single items: a transaction is parsed back from what is serialized of
-- it, whole and to the end of the bytes, exactly if it is canonical: its texts are in UTF-8, its numbers
-- fit their widths, and its unknown fields are none of its own.
pub parse-serialize_iff :
    (wire : Wire) (reader : Reader)
    → WellRead reader
    → Advances reader
    → Inverse wire reader
    → (tx : Transaction) → (parse reader (serialize wire tx) ≡ some tx) ↔ Canonical reader tx
parse-serialize_iff wire reader well advances inverse tx = (
  parse-Canonical reader well (serialize wire tx) tx,
  parse-serialize wire reader advances inverse tx,
)
