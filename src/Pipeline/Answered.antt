-- ===== src/Pipeline/Answered.antt =====
-- src/main.cpp with src/scoring/grpc_ml_client.cpp and generated/fraud.pb.cc: what comes back from the ML
-- server, and what the breaker is told.
use ml_distributed_fraud_eng.Common.{
  ℕ, ◌≡◌, refl, sym, subst, ap, ◌∙◌, Bool, true, false, ◌&&◌, List, Option, some, none, arith,
  if◌then◌else◌,
}
use mathlib.Core.Option.{some-injective}
use ml_distributed_fraud_eng.Float.{Fpu}
use ml_distributed_fraud_eng.Messages.{Transaction, UserFeatures, ScoreRequest, ScoreResponse}
use ml_distributed_fraud_eng.Breaker.{CircuitBreaker, allow_request, record_success, record_failure}
use ml_distributed_fraud_eng.FeatureStore.{Redis, Store, returns, get_features}
use ml_distributed_fraud_eng.FeatureStore.Widths.{KeepsFloats}
use ml_distributed_fraud_eng.MlClient.{Rpc, message_of, request_of}
use ml_distributed_fraud_eng.MlClient
use ml_distributed_fraud_eng.RuleEngine.{score_parsed}
use ml_distributed_fraud_eng.Codec.{Wire}
use ml_distributed_fraud_eng.Codec.Parser.{parse}
use ml_distributed_fraud_eng.Codec.Parser.Reparse.{reparse}
use ml_distributed_fraud_eng.Codec.Stream.{Reader}
use ml_distributed_fraud_eng.Codec.Stream.Fuel.{Advances}
use ml_distributed_fraud_eng.Codec.Stream.Laws.{WellRead, Inverse}
use ml_distributed_fraud_eng.Codec.Request.{serialize_request, parse_request, empty_request}
use ml_distributed_fraud_eng.Codec.Response.{serialize_response, parse_response, empty_response}
use ml_distributed_fraud_eng.Codec.Response.RoundTrip.{CanonicalResponse, parse-serialize_response}
use ml_distributed_fraud_eng.Engine.{Outside, Moment, score_with}
use ml_distributed_fraud_eng.Engine.Fallback.{answer}
use ml_distributed_fraud_eng.Pipeline.{outside_of}
use ml_distributed_fraud_eng.Pipeline.Received.{Widens, about, received}
use ml_distributed_fraud_eng.Pipeline.Scored.{asked, answer-asked, parsed-scored}

-- What gRPC documents of a call whose status is ok: the server read the bytes of the request, and the
-- client read the bytes of the response that the server makes of it.
pub record Serves (wire : Wire) (reader : Reader) (server : ScoreRequest → ScoreResponse)
    (call : ℕ → ScoreRequest → Rpc) : Type 0 where
  pub ok_read :
      (d : ℕ) (q : ScoreRequest)
      → (call d q).ok ≡ true
      → (q' : ScoreRequest) × (r : ScoreResponse) × (parse_request reader
            (serialize_request wire q)
            empty_request
          ≡ some q')
        × (parse_response reader (serialize_response wire (server q')) empty_response ≡ some r)
        × ((call d q).fraud_probability ≡ r.fraud_probability)

-- A choice between a value and its equal, where the test is known to be narrower.
narrower :
    {A : Type 0} (a o v : Bool) (p s x : A)
    → (o ≡ true → (v ≡ true) × (p ≡ s))
    → (if a && o then p else x) ≡ (if a && (v && o) then s else x)
narrower false o v p s x h = refl
narrower true false true p s x h = refl
narrower true false false p s x h = refl
narrower true true true p s x h = (h refl).1
narrower true true false p s x h = cc ((h refl).0)

agrees : (v o : Bool) → (o ≡ true → v ≡ true) → o ≡ v && o
agrees true o h = refl
agrees false true h = sym (h refl)
agrees false false h = refl

read_back :
    (v : Bool) (o : Option ScoreRequest) (q q' : ScoreRequest)
    → o ≡ (if v then some q else none)
    → o ≡ some q'
    → (v ≡ true) × (q' ≡ q)
read_back true o q q' e h = (refl, some-injective _ _ (sym h ∙ e))
read_back false o q q' e h = cc

score_with-breaker :
    (out : Outside) (m : Moment) (tx : Transaction) (u : UserFeatures) (b : CircuitBreaker)
    → (score_with out m tx u b).1 ≡ (
        if (allow_request m.asked_at b).1
        then (if (answer out m tx u).ok
            then record_success (allow_request m.asked_at b).0
            else record_failure m.failed_at (allow_request m.asked_at b).0)
        else (allow_request m.asked_at b).0)
unfolding score_with MlClient.score
score_with-breaker out m tx u b = ground arith

module _ (wire : Wire) (reader : Reader) (redis : Redis) (fpu : Fpu)
    (leftover : List ℕ → Transaction) (well : WellRead reader) (advances : Advances reader)
    (inverse : Inverse wire reader) (floats : KeepsFloats redis) (widens : Widens fpu)
    (server : ScoreRequest → ScoreResponse) where
  abbrev out : Outside
  out = outside_of wire reader fpu leftover

  -- A call that ends well has brought back what the server makes of the transaction and the features.
  ok-served :
      (bytes : List ℕ) (tx : Transaction) (s : Store) (u : UserFeatures) (m : Moment)
      → parse reader bytes ≡ some tx
      → (get_features redis tx.user_id s).0 ≡ returns u
      → Serves wire reader server m.call
      → CanonicalResponse reader (server (about fpu tx u))
      → (answer out m tx u).ok ≡ true
      → (reader.verify_utf8 u.countries_30d ≡ true)
        × ((answer out m tx u).fraud_probability ≡ (server (about fpu tx u)).fraud_probability)
  ok-served bytes tx s u m e found serves canonical ok =
      let (q, r, read, back, same) = serves.ok_read _ _ ok in
      let sent =
        received wire reader redis fpu leftover well advances inverse floats widens bytes tx s u e
          found in
      let (valid, exact) =
        read_back (reader.verify_utf8 u.countries_30d) _ (about fpu tx u) q sent read in
      let again =
        parse-serialize_response wire reader advances inverse (server (about fpu tx u)) canonical in
      let there =
        subst
          (λ q'.
            parse_response reader (serialize_response wire (server q')) empty_response ≡ some r)
          exact back in
      (valid, same ∙ ap (λ r'. r'.fraud_probability) (some-injective _ _ (sym there ∙ again)))

  -- With the documented behaviour of single items in the codec, of std::from_chars, of the widening of
  -- floats and of a call of gRPC that ends well: take a transaction that was parsed from any bytes, the
  -- features that a lookup returned for its user, and a server whose response to the two has its text in
  -- UTF-8, its numbers in their widths and no unknown fields but such as are no field of a response.
  -- If the breaker lets the request through, the user's countries are in UTF-8 and the call ends well,
  -- then the score is the probability that the server gives for exactly this transaction and these
  -- features, and in every other case it is the sum of the rules. The breaker is told of a success in
  -- the first case and of a failure in every other case in which it lets the request through, so of each
  -- request for a user whose countries are not in UTF-8.
  pub served :
      (bytes : List ℕ) (tx : Transaction) (s : Store) (u : UserFeatures) (m : Moment)
      (b : CircuitBreaker)
      → parse reader bytes ≡ some tx
      → (get_features redis tx.user_id s).0 ≡ returns u
      → Serves wire reader server m.call
      → CanonicalResponse reader (server (about fpu tx u))
      → ((score_with (outside_of wire reader fpu leftover) m tx u b).0 ≡ (
          if (allow_request m.asked_at b).1
            && (reader.verify_utf8 u.countries_30d && (asked fpu m tx u).ok)
          then (server (about fpu tx u)).fraud_probability
          else score_parsed fpu tx u))
        × ((score_with (outside_of wire reader fpu leftover) m tx u b).1 ≡ (
            if (allow_request m.asked_at b).1
            then (if reader.verify_utf8 u.countries_30d && (asked fpu m tx u).ok
                then record_success (allow_request m.asked_at b).0
                else record_failure m.failed_at (allow_request m.asked_at b).0)
            else (allow_request m.asked_at b).0))
  served bytes tx s u m b e found serves canonical =
      let again = reparse wire reader well advances inverse bytes tx e in
      let same = answer-asked wire reader fpu leftover well advances inverse tx m u again in
      let fine =
        subst
          (λ (r : Rpc).
            r.ok ≡ true
            → (reader.verify_utf8 u.countries_30d ≡ true)
              × (r.fraud_probability ≡ (server (about fpu tx u)).fraud_probability))
          same (ok-served bytes tx s u m e found serves canonical) in
      let allowed = (allow_request m.asked_at b).1 in
      let tell = λ (ok : Bool).
        if allowed
        then (if ok
            then record_success (allow_request m.asked_at b).0
            else record_failure m.failed_at (allow_request m.asked_at b).0)
        else (allow_request m.asked_at b).0 in
      (
        (parsed-scored wire reader fpu leftover well advances inverse bytes tx e m u b).0
            ∙ narrower allowed (asked fpu m tx u).ok (reader.verify_utf8 u.countries_30d) _ _
                (score_parsed fpu tx u) fine,
        score_with-breaker out m tx u b
            ∙ ap (λ (r : Rpc). tell r.ok) same
            ∙ ap tell (
                agrees (reader.verify_utf8 u.countries_30d) (asked fpu m tx u).ok
                  (λ ok. (fine ok).0)),
      )
