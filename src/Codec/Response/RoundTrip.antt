-- ===== src/Codec/Response/RoundTrip.antt =====
-- generated/fraud.pb.cc: a response that was serialized is parsed back.
use mathlib.Core.List.{append_assoc, append-nil}
use ml_distributed_fraud_eng.Common.{
  ℕ, ◌^◌, ◌<◌, false, length, List, [], ◌∷◌, ◌++◌, ◌≡◌, refl, ap, sym, ◌∙◌, some, arith, All,
}
use ml_distributed_fraud_eng.Messages.{ScoreResponse}
use ml_distributed_fraud_eng.Codec.{Wire, or_keep, or_keep_text}
use ml_distributed_fraud_eng.Codec.Merging.{or_keep-zero, or_keep_text-nil}
use ml_distributed_fraud_eng.Codec.Stream.{
  Reader, ends_group, loop, run, unusual_step, unknown_step,
}
use ml_distributed_fraud_eng.Codec.Stream.Fuel.{
  Advances, Within, text_step-Within, number_step-Within, unusual_step-Within,
}
use ml_distributed_fraud_eng.Codec.Stream.Laws.{Inverse, Valid, Kept}
use ml_distributed_fraud_eng.Codec.Stream.Items.{run-text, run-int64, run-float, run-write_unknowns}
use ml_distributed_fraud_eng.Codec.Response.{
  ResponseSlot, response_slot_of, response_step, response_field, merge_response, serialize_response,
  parse_response, empty_response,
}

-- A tag of no field of a response.
abbrev pub IsUnusual : ℕ → Type 0
IsUnusual tag = (response_slot_of tag ≡ ResponseSlot.unusual) × (ends_group tag ≡ false)

-- A response whose text is in UTF-8, whose numbers fit their widths and whose unknown fields are none of
-- its own.
abbrev pub CanonicalResponse : Reader → ScoreResponse → Type 0
CanonicalResponse reader r =
    (r.fraud_probability < 2 ^ 32)
    × Valid reader r.model_version
    × (r.inference_us < 2 ^ 64)
    × All (Kept reader IsUnusual) r.unknown_fields

module _ (reader : Reader) (advances : Advances reader) where
  response_step-Within :
      (slot : ResponseSlot) (tag : ℕ) (p : List ℕ) (r : ScoreResponse)
      → Within (length p) (response_step reader slot tag p r)
  unfolding response_step
  response_step-Within ResponseSlot.fraud_probability tag p r =
      number_step-Within reader advances reader.read_float _ p advances.float_advances
  response_step-Within ResponseSlot.model_version tag p r = text_step-Within reader advances _ p
  response_step-Within ResponseSlot.inference_us tag p r =
      number_step-Within reader advances reader.read_varint64 _ p advances.varint_advances
  response_step-Within ResponseSlot.unusual tag p r = unusual_step-Within reader advances tag p _

  response_field-Within :
      (tag : ℕ) (p : List ℕ) (r : ScoreResponse) → Within (length p) (response_field reader tag p r)
  unfolding response_field
  response_field-Within tag p r = response_step-Within (response_slot_of tag) tag p r

  unusual-response_field :
      (tag : ℕ) (p : List ℕ) (r : ScoreResponse)
      → IsUnusual tag
      → response_field reader tag p r
        ≡ unknown_step reader
            (λ v. record r { unknown_fields = r.unknown_fields ++ v ∷ [] })
            (reader.unknown_field_parse tag p)
  unfolding response_field unusual_step response_step
  unusual-response_field tag p r (slot, ends) = rw (slot, ends) refl

merge_response-empty : (r : ScoreResponse) → merge_response empty_response r ≡ r
unfolding merge_response
merge_response-empty r = simp (or_keep-zero, or_keep_text-nil)

module _ (wire : Wire) (reader : Reader) (advances : Advances reader)
    (inverse : Inverse wire reader) where
  -- What `_InternalSerialize` writes of a response in canonical form, in front of other bytes and parsed
  -- into any response, is merged into it.
  pub run-serialize_response :
      (to r : ScoreResponse) (rest : List ℕ)
      → CanonicalResponse reader r
      → run reader (response_field reader) (serialize_response wire r ++ rest) to
        ≡ run reader (response_field reader) rest (merge_response to r)
  unfolding serialize_response response_field response_step response_slot_of merge_response
  run-serialize_response to r rest (probability, version, time, kept) =
      let moves = response_field-Within reader advances in
      let r1 = record to { fraud_probability = or_keep to.fraud_probability r.fraud_probability } in
      let r2 = record r1 { model_version = or_keep_text to.model_version r.model_version } in
      let r3 = record r2 { inference_us = or_keep to.inference_us r.inference_us } in
      simp append_assoc (
        run-float wire reader advances inverse (response_field reader) moves 1
          (λ x. record to { fraud_probability = x }) to.fraud_probability r.fraud_probability _
          (omega arith) probability (λ p. refl)
        ∙ run-text wire reader advances inverse (response_field reader) moves 2
            (λ s. record r1 { model_version = s }) to.model_version r.model_version _ (omega arith)
            version (λ p. refl)
        ∙ run-int64 wire reader advances inverse (response_field reader) moves 3
            (λ x. record r2 { inference_us = x }) to.inference_us r.inference_us _ (omega arith)
            time (λ p. refl)
        ∙ run-write_unknowns wire reader advances inverse (response_field reader) moves IsUnusual
            (λ us. record r3 { unknown_fields = us }) to.unknown_fields r.unknown_fields rest
            (λ tag p us unusual.
              unusual-response_field reader advances tag p (record r3 { unknown_fields = us })
                unusual)
            kept)

  -- With the documented round trips of single items: a response in canonical form is parsed back from
  -- what is serialized of it, to the end of the bytes.
  pub parse-serialize_response :
      (r : ScoreResponse)
      → CanonicalResponse reader r
      → parse_response reader (serialize_response wire r) empty_response ≡ some r
  unfolding loop
  parse-serialize_response r h =
      ap (λ bytes. parse_response reader bytes empty_response)
        (sym (append-nil (serialize_response wire r)))
      ∙ run-serialize_response empty_response r [] h
      ∙ ap some (merge_response-empty r)
