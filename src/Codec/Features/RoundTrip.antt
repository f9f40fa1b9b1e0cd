-- ===== src/Codec/Features/RoundTrip.antt =====
-- generated/fraud.pb.cc: features that were serialized are parsed back.
use mathlib.Core.List.{append_assoc}
use ml_distributed_fraud_eng.Common.{
  ℕ, ◌^◌, ◌<◌, false, true, if◌then◌else◌, length, List, [], ◌∷◌, ◌++◌, ◌≡◌, refl, ◌∙◌, arith, All,
}
use ml_distributed_fraud_eng.Messages.{FeaturesMessage}
use ml_distributed_fraud_eng.Codec.{Wire, serialize_features, merge_features, or_keep, or_keep_text}
use ml_distributed_fraud_eng.Codec.Stream.{Reader, ends_group, run, unusual_step, unknown_step}
use ml_distributed_fraud_eng.Codec.Stream.Fuel.{
  Advances, Within, text_step-Within, number_step-Within, unusual_step-Within,
}
use ml_distributed_fraud_eng.Codec.Stream.Laws.{Inverse, Valid, Kept}
use ml_distributed_fraud_eng.Codec.Stream.Items.{
  run-text, run-double, run-int32, run-int64, run-bool, run-write_unknowns,
}
use ml_distributed_fraud_eng.Codec.Features.{
  FeatureSlot, feature_slot_of, feature_step, feature_field,
}

-- A tag of no field of the features.
abbrev pub IsUnusual : ℕ → Type 0
IsUnusual tag = (feature_slot_of tag ≡ FeatureSlot.unusual) × (ends_group tag ≡ false)

-- Features whose text is in UTF-8, whose numbers fit their widths and whose unknown fields are none of
-- their own.
abbrev pub CanonicalFeatures : Reader → FeaturesMessage → Type 0
CanonicalFeatures reader u =
    (u.tx_count_30d < 2 ^ 32)
    × (u.avg_amount_30d < 2 ^ 64)
    × Valid reader u.countries_30d
    × (u.last_tx_ts_ms < 2 ^ 64)
    × (u.risk_score < 2 ^ 64)
    × All (Kept reader IsUnusual) u.unknown_fields

module _ (reader : Reader) (advances : Advances reader) where
  feature_step-Within :
      (slot : FeatureSlot) (tag : ℕ) (p : List ℕ) (u : FeaturesMessage)
      → Within (length p) (feature_step reader slot tag p u)
  unfolding feature_step
  feature_step-Within FeatureSlot.tx_count_30d tag p u =
      number_step-Within reader advances reader.read_varint32 _ p advances.varint32_advances
  feature_step-Within FeatureSlot.avg_amount_30d tag p u =
      number_step-Within reader advances reader.read_double _ p advances.double_advances
  feature_step-Within FeatureSlot.countries_30d tag p u = text_step-Within reader advances _ p
  feature_step-Within FeatureSlot.last_tx_ts_ms tag p u =
      number_step-Within reader advances reader.read_varint64 _ p advances.varint_advances
  feature_step-Within FeatureSlot.risk_score tag p u =
      number_step-Within reader advances reader.read_double _ p advances.double_advances
  feature_step-Within FeatureSlot.is_cache_miss tag p u =
      number_step-Within reader advances reader.read_varint64 _ p advances.varint_advances
  feature_step-Within FeatureSlot.unusual tag p u = unusual_step-Within reader advances tag p _

  pub feature_field-Within :
      (tag : ℕ) (p : List ℕ) (u : FeaturesMessage)
      → Within (length p) (feature_field reader tag p u)
  unfolding feature_field
  feature_field-Within tag p u = feature_step-Within (feature_slot_of tag) tag p u

  unusual-feature_field :
      (tag : ℕ) (p : List ℕ) (u : FeaturesMessage)
      → IsUnusual tag
      → feature_field reader tag p u
        ≡ unknown_step reader
            (λ v. record u { unknown_fields = u.unknown_fields ++ v ∷ [] })
            (reader.unknown_field_parse tag p)
  unfolding feature_field unusual_step feature_step
  unusual-feature_field tag p u (slot, ends) = rw (slot, ends) refl

module _ (wire : Wire) (reader : Reader) (advances : Advances reader)
    (inverse : Inverse wire reader) where
  -- What `_InternalSerialize` writes of features in canonical form, in front of other bytes and parsed
  -- into any features, is merged into them.
  pub run-serialize_features :
      (to u : FeaturesMessage) (rest : List ℕ)
      → CanonicalFeatures reader u
      → run reader (feature_field reader) (serialize_features wire u ++ rest) to
        ≡ run reader (feature_field reader) rest (merge_features to u)
  unfolding serialize_features feature_field feature_step feature_slot_of merge_features
  run-serialize_features to u rest (count, average, countries, last, risk, kept) =
      let moves = feature_field-Within reader advances in
      let text = run-text wire reader advances inverse (feature_field reader) moves in
      let double = run-double wire reader advances inverse (feature_field reader) moves in
      let int32 = run-int32 wire reader advances inverse (feature_field reader) moves in
      let int64 = run-int64 wire reader advances inverse (feature_field reader) moves in
      let bool = run-bool wire reader advances inverse (feature_field reader) moves in
      let u1 = record to { tx_count_30d = or_keep to.tx_count_30d u.tx_count_30d } in
      let u2 = record u1 { avg_amount_30d = or_keep to.avg_amount_30d u.avg_amount_30d } in
      let u3 = record u2 { countries_30d = or_keep_text to.countries_30d u.countries_30d } in
      let u4 = record u3 { last_tx_ts_ms = or_keep to.last_tx_ts_ms u.last_tx_ts_ms } in
      let u5 = record u4 { risk_score = or_keep to.risk_score u.risk_score } in
      let u6 = record u5 { is_cache_miss = if u.is_cache_miss then true else to.is_cache_miss } in
      simp append_assoc (
        int32 1 (λ x. record to { tx_count_30d = x }) to.tx_count_30d u.tx_count_30d _ (omega arith)
          count (λ p. refl)
        ∙ double 2 (λ x. record u1 { avg_amount_30d = x }) to.avg_amount_30d u.avg_amount_30d _
            (omega arith) average (λ p. refl)
        ∙ text 3 (λ s. record u2 { countries_30d = s }) to.countries_30d u.countries_30d _
            (omega arith) countries (λ p. refl)
        ∙ int64 4 (λ x. record u3 { last_tx_ts_ms = x }) to.last_tx_ts_ms u.last_tx_ts_ms _
            (omega arith) last (λ p. refl)
        ∙ double 5 (λ x. record u4 { risk_score = x }) to.risk_score u.risk_score _ (omega arith)
            risk (λ p. refl)
        ∙ bool 6 (λ b. record u5 { is_cache_miss = b }) to.is_cache_miss u.is_cache_miss _
            (omega arith) (λ p. refl)
        ∙ run-write_unknowns wire reader advances inverse (feature_field reader) moves IsUnusual
            (λ us. record u6 { unknown_fields = us }) to.unknown_fields u.unknown_fields rest
            (λ tag p us unusual.
              unusual-feature_field reader advances tag p (record u6 { unknown_fields = us })
                unusual)
            kept)
