-- ===== src/Pipeline/Received.antt =====
-- src/main.cpp with src/scoring/grpc_ml_client.cpp and generated/fraud.pb.cc: what can be read of a request
-- to the ML server.
use ml_distributed_fraud_eng.Common.{
  ℕ, ◌^◌, ◌<◌, ◌≡◌, refl, subst, ap, ◌∙◌, Bool, true, false, List, [], ◌∷◌, none, some,
  if◌then◌else◌,
}
use ml_distributed_fraud_eng.Float.{Fpu}
use ml_distributed_fraud_eng.Messages.{Transaction, UserFeatures, FeaturesMessage, ScoreRequest}
use ml_distributed_fraud_eng.FeatureStore.{Redis, Store, returns, get_features}
use ml_distributed_fraud_eng.FeatureStore.Widths.{Fits, KeepsFloats, Returns, get_features-Fits}
use ml_distributed_fraud_eng.Codec.{Wire, serialize}
use ml_distributed_fraud_eng.Codec.Stream.{Reader}
use ml_distributed_fraud_eng.Codec.Stream.Fuel.{Advances}
use ml_distributed_fraud_eng.Codec.Stream.Laws.{WellRead, Inverse}
use ml_distributed_fraud_eng.Codec.Parser.{parse}
use ml_distributed_fraud_eng.Codec.Parser.Canonical.{Canonical}
use ml_distributed_fraud_eng.Codec.Parser.Reparse.{parse-Canonical, reparse}
use ml_distributed_fraud_eng.Codec.Request.{serialize_request, parse_request, empty_request}
use ml_distributed_fraud_eng.Codec.Request.RoundTrip.{parse-serialize_request}
use ml_distributed_fraud_eng.Codec.Request.Fails.{parse-bad_request}
use ml_distributed_fraud_eng.MlClient.{message_of, request_of}
use ml_distributed_fraud_eng.Pipeline.{or_leftover}

-- A float is widened to a double of 64 bits.
abbrev pub Widens : Fpu → Type 0
Widens fpu = (x : ℕ) → x < 2 ^ 32 → fpu.widen x < 2 ^ 64

-- The message for the features: each member, the floats widened.
abbrev pub features_message : Fpu → UserFeatures → FeaturesMessage
features_message fpu u = record {
  tx_count_30d = u.tx_count_30d;
  avg_amount_30d = fpu.widen u.avg_amount_30d;
  countries_30d = u.countries_30d;
  last_tx_ts_ms = u.last_tx_ts;
  risk_score = fpu.widen u.risk_score;
  is_cache_miss = u.is_cache_miss;
  unknown_fields = [];
}

-- The request about a transaction and the features of its user.
abbrev pub about : Fpu → Transaction → UserFeatures → ScoreRequest
about fpu tx u = record {
  transaction = some tx;
  features = some (features_message fpu u);
  unknown_fields = [];
}

module _ (wire : Wire) (reader : Reader) (redis : Redis) (fpu : Fpu)
    (leftover : List ℕ → Transaction) (well : WellRead reader) (advances : Advances reader)
    (inverse : Inverse wire reader) (floats : KeepsFloats redis) (widens : Widens fpu) where
  refused :
      (tx : Transaction) (u : UserFeatures) (text : List ℕ)
      → Canonical reader tx
      → Fits u
      → u.countries_30d ≡ text
      → reader.verify_utf8 text ≡ false
      → parse_request reader (serialize_request wire (about fpu tx u)) empty_request ≡ none
  refused tx u [] canonical fits same bad = cc well.nil_Valid
  refused tx u (c ∷ cs) canonical (count, average, last, risk) same bad =
      parse-bad_request wire reader advances inverse (about fpu tx u) tx (features_message fpu u) c
        cs refl refl canonical count (widens u.avg_amount_30d average) same bad

  -- Where the countries are in UTF-8, and where they are not.
  read-about :
      (tx : Transaction) (u : UserFeatures) (valid : Bool)
      → Canonical reader tx
      → Fits u
      → reader.verify_utf8 u.countries_30d ≡ valid
      → parse_request reader (serialize_request wire (about fpu tx u)) empty_request
        ≡ (if valid then some (about fpu tx u) else none)
  read-about tx u true canonical (count, average, last, risk) e =
      parse-serialize_request wire reader advances inverse (about fpu tx u) (
        canonical,
        (count, widens u.avg_amount_30d average, e, last, widens u.risk_score risk, tt),
        tt,
      )
  read-about tx u false canonical fits e = refused tx u u.countries_30d canonical fits refl e

  -- With the documented behaviour of single items in the codec, of std::from_chars and of the widening of
  -- floats: take a transaction that was parsed from any bytes and the features that a lookup returned for
  -- its user, whatever Redis replied. The request that the ML client makes of them, although it gets the
  -- transaction serialized and parses it again, is read by the generated parser as exactly this
  -- transaction and these features, to the end of the bytes, if the user's countries are in UTF-8; if they
  -- are not, it is serialized all the same and no parser reads it.
  pub received :
      (bytes : List ℕ) (tx : Transaction) (s : Store) (u : UserFeatures)
      → parse reader bytes ≡ some tx
      → (get_features redis tx.user_id s).0 ≡ returns u
      → parse_request reader
          (serialize_request wire (
            request_of fpu
              (λ serialized_tx. or_leftover (leftover serialized_tx) (parse reader serialized_tx))
              (serialize wire tx)
              u))
          empty_request
        ≡ (if reader.verify_utf8 u.countries_30d then some (about fpu tx u) else none)
  unfolding request_of message_of
  received bytes tx s u e found =
      let canonical = parse-Canonical reader well bytes tx e in
      let again = reparse wire reader well advances inverse bytes tx e in
      let fits : Fits u =
        subst (λ r. Returns Fits r) found (get_features-Fits redis floats tx.user_id s) in
      ap
        (λ o.
          parse_request reader
            (serialize_request wire (about fpu (or_leftover (leftover (serialize wire tx)) o) u))
            empty_request)
        again
      ∙ read-about tx u _ canonical fits refl
