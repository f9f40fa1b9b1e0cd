-- ===== src/Codec/Request/RoundTrip.antt =====
-- generated/fraud.pb.cc: a request that was serialized is parsed back, with the messages in it.
use mathlib.Core.Option
use mathlib.Core.List.{append_assoc, append-nil}
use ml_distributed_fraud_eng.Common.{
  ℕ, false, length, List, [], ◌∷◌, ◌++◌, ◌≡◌, refl, ap, sym, ◌∙◌, Option, none, some, arith, All,
}
use ml_distributed_fraud_eng.Messages.{Transaction, FeaturesMessage, ScoreRequest}
use ml_distributed_fraud_eng.Codec.{
  Wire, serialize, serialize_features, merge, merge_features, message_field,
}
use ml_distributed_fraud_eng.Codec.Merging.{merge-empty, merge_features-empty_features}
use ml_distributed_fraud_eng.Codec.Stream.{
  Reader, ends_group, loop, run, unusual_step, unknown_step,
}
use ml_distributed_fraud_eng.Codec.Stream.Fuel.{
  Advances, Within, message_step-Within, unusual_step-Within,
}
use ml_distributed_fraud_eng.Codec.Stream.Laws.{Inverse, Kept}
use ml_distributed_fraud_eng.Codec.Stream.Items.{run-message, run-write_unknowns}
use ml_distributed_fraud_eng.Codec.Parser.{empty, field}
use ml_distributed_fraud_eng.Codec.Parser.Canonical.{Canonical}
use ml_distributed_fraud_eng.Codec.Parser.RoundTrip.{run-serialize}
use ml_distributed_fraud_eng.Codec.Features.{empty_features, parse_features}
use ml_distributed_fraud_eng.Codec.Features.RoundTrip.{CanonicalFeatures, run-serialize_features}
use ml_distributed_fraud_eng.Codec.Request.{
  RequestSlot, request_slot_of, request_step, request_field, or_new, merge_part, merge_request,
  serialize_request, parse_request, empty_request,
}

-- A tag of no field of a request.
abbrev pub IsUnusual : ℕ → Type 0
IsUnusual tag = (request_slot_of tag ≡ RequestSlot.unusual) × (ends_group tag ≡ false)

abbrev pub IfAny {ℓ κ} : {A : Type ℓ} → (A → Type κ) → Option A → Type κ
IfAny P none = Unit
IfAny P (some a) = P a

-- A request whose parts are in canonical form, and whose unknown fields are none of its own.
abbrev pub CanonicalRequest : Reader → ScoreRequest → Type 0
CanonicalRequest reader r =
    IfAny (Canonical reader) r.transaction
    × IfAny (CanonicalFeatures reader) r.features
    × All (Kept reader IsUnusual) r.unknown_fields

module _ (reader : Reader) (advances : Advances reader) where
  request_step-Within :
      (slot : RequestSlot) (tag : ℕ) (p : List ℕ) (r : ScoreRequest)
      → Within (length p) (request_step reader slot tag p r)
  unfolding request_step
  request_step-Within RequestSlot.transaction tag p r = message_step-Within reader advances _ _ p
  request_step-Within RequestSlot.features tag p r = message_step-Within reader advances _ _ p
  request_step-Within RequestSlot.unusual tag p r = unusual_step-Within reader advances tag p _

  request_field-Within :
      (tag : ℕ) (p : List ℕ) (r : ScoreRequest) → Within (length p) (request_field reader tag p r)
  unfolding request_field
  request_field-Within tag p r = request_step-Within (request_slot_of tag) tag p r

  unusual-request_field :
      (tag : ℕ) (p : List ℕ) (r : ScoreRequest)
      → IsUnusual tag
      → request_field reader tag p r
        ≡ unknown_step reader
            (λ v. record r { unknown_fields = r.unknown_fields ++ v ∷ [] })
            (reader.unknown_field_parse tag p)
  unfolding request_field unusual_step request_step
  unusual-request_field tag p r (slot, ends) = rw (slot, ends) refl

merge_part-new {ℓ} :
    {A : Type ℓ} (new : A) (merge : A → A → A) (o : Option A)
    → ((a : A) → merge new a ≡ a)
    → merge_part new merge none o ≡ o
unfolding merge_part
merge_part-new new merge none h = refl
merge_part-new new merge (some a) h = ap some (h a)

merge_request-empty : (r : ScoreRequest) → merge_request empty_request r ≡ r
unfolding merge_request
merge_request-empty r = λ i. record {
  transaction = merge_part-new empty merge r.transaction merge-empty i;
  features =
      merge_part-new empty_features merge_features r.features merge_features-empty_features i;
  unknown_fields = r.unknown_fields;
}

module _ (wire : Wire) (reader : Reader) (advances : Advances reader)
    (inverse : Inverse wire reader) where
  parse-serialize-into :
      (to tx : Transaction)
      → Canonical reader tx
      → run reader (field reader) (serialize wire tx) to ≡ some (merge to tx)
  unfolding loop
  parse-serialize-into to tx h =
      ap (λ bytes. run reader (field reader) bytes to) (sym (append-nil (serialize wire tx)))
      ∙ run-serialize wire reader advances inverse to tx [] h

  parse-serialize_features-into :
      (to u : FeaturesMessage)
      → CanonicalFeatures reader u
      → parse_features reader (serialize_features wire u) to ≡ some (merge_features to u)
  unfolding loop
  parse-serialize_features-into to u h =
      ap (λ bytes. parse_features reader bytes to) (sym (append-nil (serialize_features wire u)))
      ∙ run-serialize_features wire reader advances inverse to u [] h

  pub run-transaction :
      (to : ScoreRequest) (o : Option Transaction) (rest : List ℕ)
      → IfAny (Canonical reader) o
      → run reader
          (request_field reader)
          (message_field wire 1 (Option.map (serialize wire) o) ++ rest)
          to
        ≡ run reader
            (request_field reader)
            rest
            (record to { transaction = merge_part empty merge to.transaction o })
  unfolding message_field merge_part request_field request_step request_slot_of
  run-transaction to none rest h = refl
  run-transaction to (some tx) rest h =
      run-message wire reader advances inverse (request_field reader)
        (request_field-Within reader advances) 1 to (λ t. record to { transaction = some t })
        (λ bytes. run reader (field reader) bytes (or_new empty to.transaction)) (serialize wire tx)
        (merge (or_new empty to.transaction) tx) rest (omega arith)
        (parse-serialize-into (or_new empty to.transaction) tx h) (λ p. refl)

  run-features :
      (to : ScoreRequest) (o : Option FeaturesMessage) (rest : List ℕ)
      → IfAny (CanonicalFeatures reader) o
      → run reader
          (request_field reader)
          (message_field wire 2 (Option.map (serialize_features wire) o) ++ rest)
          to
        ≡ run reader
            (request_field reader)
            rest
            (record to { features = merge_part empty_features merge_features to.features o })
  unfolding message_field merge_part request_field request_step request_slot_of
  run-features to none rest h = refl
  run-features to (some u) rest h =
      run-message wire reader advances inverse (request_field reader)
        (request_field-Within reader advances) 2 to (λ v. record to { features = some v })
        (λ bytes. parse_features reader bytes (or_new empty_features to.features))
        (serialize_features wire u) (merge_features (or_new empty_features to.features) u) rest
        (omega arith) (parse-serialize_features-into (or_new empty_features to.features) u h)
        (λ p. refl)

  -- What `_InternalSerialize` writes of a request in canonical form, in front of other bytes and parsed
  -- into any request, is merged into it.
  pub run-serialize_request :
      (to r : ScoreRequest) (rest : List ℕ)
      → CanonicalRequest reader r
      → run reader (request_field reader) (serialize_request wire r ++ rest) to
        ≡ run reader (request_field reader) rest (merge_request to r)
  unfolding serialize_request merge_request
  run-serialize_request to r rest (tx, u, kept) =
      let r1 = record to { transaction = merge_part empty merge to.transaction r.transaction } in
      let r2 = record r1 {
        features = merge_part empty_features merge_features to.features r.features;
      } in
      simp append_assoc (
        run-transaction to r.transaction _ tx
        ∙ run-features r1 r.features _ u
        ∙ run-write_unknowns wire reader advances inverse (request_field reader)
            (request_field-Within reader advances) IsUnusual
            (λ us. record r2 { unknown_fields = us }) to.unknown_fields r.unknown_fields rest
            (λ tag p us unusual.
              unusual-request_field reader advances tag p (record r2 { unknown_fields = us })
                unusual)
            kept)

  -- With the documented round trips of single items: a request in canonical form, its two parts and all
  -- unknown fields included, is parsed back from what is serialized of it, to the end of the bytes.
  pub parse-serialize_request :
      (r : ScoreRequest)
      → CanonicalRequest reader r
      → parse_request reader (serialize_request wire r) empty_request ≡ some r
  unfolding loop
  parse-serialize_request r h =
      ap (λ bytes. parse_request reader bytes empty_request)
        (sym (append-nil (serialize_request wire r)))
      ∙ run-serialize_request empty_request r [] h
      ∙ ap some (merge_request-empty r)
