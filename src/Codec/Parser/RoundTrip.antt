-- ===== src/Codec/Parser/RoundTrip.antt =====
-- generated/fraud.pb.cc: what was serialized is parsed back, into a new message or behind others.
use mathlib.Core.List.{append_assoc, append-nil}
use ml_distributed_fraud_eng.Common.{List, ℕ, [], ◌∷◌, ◌++◌, ◌≡◌, refl, ap, sym, ◌∙◌, some, arith}
use ml_distributed_fraud_eng.Messages.{Transaction}
use ml_distributed_fraud_eng.Codec.{Wire, serialize, merge, or_keep, or_keep_text}
use ml_distributed_fraud_eng.Codec.Merging.{merge-empty}
use ml_distributed_fraud_eng.Codec.Stream.{Reader, loop, run, unusual_step, unknown_step}
use ml_distributed_fraud_eng.Codec.Stream.Fuel.{Advances}
use ml_distributed_fraud_eng.Codec.Stream.Laws.{Inverse}
use ml_distributed_fraud_eng.Codec.Stream.Items.{
  run-text, run-double, run-int64, run-enum, run-write_unknowns,
}
use ml_distributed_fraud_eng.Codec.Parser.{slot_of, field_step, field, parse, empty}
use ml_distributed_fraud_eng.Codec.Parser.Fuel.{field-Within}
use ml_distributed_fraud_eng.Codec.Parser.Canonical.{Canonical, IsUnusual}

module _ (wire : Wire) (reader : Reader) (advances : Advances reader)
    (inverse : Inverse wire reader) where
  unusual-field :
      (tag : ℕ) (p : List ℕ) (tx : Transaction)
      → IsUnusual tag
      → field reader tag p tx
        ≡ unknown_step reader
            (λ u. record tx { unknown_fields = tx.unknown_fields ++ u ∷ [] })
            (reader.unknown_field_parse tag p)
  unfolding field unusual_step field_step
  unusual-field tag p tx (slot, ends) = rw (slot, ends) refl

  -- What `_InternalSerialize` writes of a message in canonical form, in front of other bytes and parsed
  -- into any message, is merged into it.
  pub run-serialize :
      (to tx : Transaction) (rest : List ℕ)
      → Canonical reader tx
      → run reader (field reader) (serialize wire tx ++ rest) to
        ≡ run reader (field reader) rest (merge to tx)
  unfolding serialize field field_step slot_of merge
  run-serialize to tx rest
        (id, user, merchant, amount, currency, country, time, bin, device, ip, method, kept) =
      let moves = field-Within reader advances in
      let text = run-text wire reader advances inverse (field reader) moves in
      let double = run-double wire reader advances inverse (field reader) moves in
      let int64 = run-int64 wire reader advances inverse (field reader) moves in
      let enum = run-enum wire reader advances inverse (field reader) moves in
      let t1 = record to { tx_id = or_keep_text to.tx_id tx.tx_id } in
      let t2 = record t1 { user_id = or_keep_text to.user_id tx.user_id } in
      let t3 = record t2 { merchant_id = or_keep_text to.merchant_id tx.merchant_id } in
      let t4 = record t3 { amount = or_keep to.amount tx.amount } in
      let t5 = record t4 { currency = or_keep_text to.currency tx.currency } in
      let t6 = record t5 { country = or_keep_text to.country tx.country } in
      let t7 = record t6 { timestamp_ms = or_keep to.timestamp_ms tx.timestamp_ms } in
      let t8 = record t7 { card_bin = or_keep_text to.card_bin tx.card_bin } in
      let t9 = record t8 { device_id = or_keep_text to.device_id tx.device_id } in
      let t10 = record t9 { ip_address = or_keep_text to.ip_address tx.ip_address } in
      let t11 = record t10 { method = or_keep to.method tx.method } in
      simp append_assoc (
        text 1 (λ s. record to { tx_id = s }) to.tx_id tx.tx_id _ (omega arith) id (λ p. refl)
        ∙ text 2 (λ s. record t1 { user_id = s }) to.user_id tx.user_id _ (omega arith) user
            (λ p. refl)
        ∙ text 3 (λ s. record t2 { merchant_id = s }) to.merchant_id tx.merchant_id _ (omega arith)
            merchant (λ p. refl)
        ∙ double 4 (λ x. record t3 { amount = x }) to.amount tx.amount _ (omega arith) amount
            (λ p. refl)
        ∙ text 5 (λ s. record t4 { currency = s }) to.currency tx.currency _ (omega arith) currency
            (λ p. refl)
        ∙ text 6 (λ s. record t5 { country = s }) to.country tx.country _ (omega arith) country
            (λ p. refl)
        ∙ int64 7 (λ x. record t6 { timestamp_ms = x }) to.timestamp_ms tx.timestamp_ms _
            (omega arith) time (λ p. refl)
        ∙ text 8 (λ s. record t7 { card_bin = s }) to.card_bin tx.card_bin _ (omega arith) bin
            (λ p. refl)
        ∙ text 9 (λ s. record t8 { device_id = s }) to.device_id tx.device_id _ (omega arith) device
            (λ p. refl)
        ∙ text 10 (λ s. record t9 { ip_address = s }) to.ip_address tx.ip_address _ (omega arith) ip
            (λ p. refl)
        ∙ enum 11 (λ x. record t10 { method = x }) to.method tx.method _ (omega arith) method
            (λ p. refl)
        ∙ run-write_unknowns wire reader advances inverse (field reader) moves IsUnusual
            (λ us. record t11 { unknown_fields = us }) to.unknown_fields tx.unknown_fields rest
            (λ tag p us unusual. unusual-field tag p (record t11 { unknown_fields = us }) unusual)
            kept)

  -- For a message as the parser makes them, with the documented round trips of single items: what
  -- `_InternalSerialize` writes, all fields and the unknown ones, `_InternalParse` reads back as that
  -- message, and it gets to the end of the bytes.
  pub parse-serialize :
      (tx : Transaction) → Canonical reader tx → parse reader (serialize wire tx) ≡ some tx
  unfolding parse loop
  parse-serialize tx h =
      ap (parse reader) (sym (append-nil (serialize wire tx)))
      ∙ run-serialize empty tx [] h
      ∙ ap some (merge-empty tx)
