-- ===== src/Codec/Parser/Canonical.antt =====
-- generated/fraud.pb.cc: transactions as the parser makes them.
use ml_distributed_fraud_eng.Common.{ℕ, ◌^◌, ◌<◌, ◌≡◌, false, All}
use ml_distributed_fraud_eng.Messages.{Transaction}
use ml_distributed_fraud_eng.Codec.Stream.{Reader, ends_group}
use ml_distributed_fraud_eng.Codec.Stream.Laws.{Valid, Kept}
use ml_distributed_fraud_eng.Codec.Parser.{Slot, slot_of}

-- A tag of no field of a transaction.
abbrev pub IsUnusual : ℕ → Type 0
IsUnusual tag = (slot_of tag ≡ Slot.unusual) × (ends_group tag ≡ false)

-- A transaction that the parser can have made: texts in UTF-8, numbers of their width, kept fields.
abbrev pub Canonical : Reader → Transaction → Type 0
Canonical reader tx =
    Valid reader tx.tx_id
    × Valid reader tx.user_id
    × Valid reader tx.merchant_id
    × (tx.amount < 2 ^ 64)
    × Valid reader tx.currency
    × Valid reader tx.country
    × (tx.timestamp_ms < 2 ^ 64)
    × Valid reader tx.card_bin
    × Valid reader tx.device_id
    × Valid reader tx.ip_address
    × (tx.method < 2 ^ 32)
    × All (Kept reader IsUnusual) tx.unknown_fields
