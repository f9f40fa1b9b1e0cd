-- ===== src/Pipeline/Missing.antt =====
-- src/main.cpp with generated/fraud.pb.cc: the transactions of users without features.
use ml_distributed_fraud_eng.Common.{ℕ, ◌≤◌, ◌≡◌, ap, ◌∙◌, false, ◌&&◌, List, ◌∷◌, some}
use ml_distributed_fraud_eng.Messages.{Transaction}
use ml_distributed_fraud_eng.Float.{Fpu, f0_85}
use ml_distributed_fraud_eng.FeatureStore.{returns, missing, get_features}
use ml_distributed_fraud_eng.Breaker.{allow_request}
use ml_distributed_fraud_eng.MlClient.{Rpc}
use ml_distributed_fraud_eng.Codec.{Wire, serialize}
use ml_distributed_fraud_eng.Codec.Parser.{parse}
use ml_distributed_fraud_eng.Codec.Parser.Reparse.{reparse}
use ml_distributed_fraud_eng.Codec.Stream.{Reader}
use ml_distributed_fraud_eng.Codec.Stream.Fuel.{Advances}
use ml_distributed_fraud_eng.Codec.Stream.Laws.{WellRead, Inverse}
use ml_distributed_fraud_eng.Engine.{Moment, Engine, clean, process}
use ml_distributed_fraud_eng.Engine.Fallback.{missing-sent}
use ml_distributed_fraud_eng.Pipeline.{outside_of}
use ml_distributed_fraud_eng.Pipeline.Scored.{asked, answer-asked}

module _ (wire : Wire) (reader : Reader) (fpu : Fpu) (leftover : List ℕ → Transaction)
    (well : WellRead reader) (advances : Advances reader) (inverse : Inverse wire reader) where
  -- With the documented behaviour of single items in the codec: a user whose features are missing,
  -- because Redis has no hash or the pool is empty, is never flagged without the ML server. If a
  -- transaction was parsed from any bytes, the lookup returns no features for its user, the breaker
  -- refuses the request or the call fails, and the threshold is a float from the default 0.85f up to
  -- infinity, then the producer is handed the transaction for the clean topic, whatever it is.
  pub parsed-missing :
      (bytes : List ℕ) (tx : Transaction) (m : Moment) (e : Engine) (threshold : ℕ)
      → parse reader bytes ≡ some tx
      → (get_features m.redis tx.user_id e.store).0 ≡ returns missing
      → ((allow_request m.asked_at e.breaker).1 && (asked fpu m tx missing).ok) ≡ false
      → f0_85 ≤ threshold
      → threshold ≤ 0x7F80_0000
      → (process (outside_of wire reader fpu leftover) threshold m tx e).1.sent
        ≡ clean (serialize wire tx) ∷ e.sent
  parsed-missing bytes tx m e threshold h found refused p q =
      let again = reparse wire reader well advances inverse bytes tx h in
      let same = answer-asked wire reader fpu leftover well advances inverse tx m missing again in
      missing-sent (outside_of wire reader fpu leftover) threshold m tx e again found
        (ap (λ (r : Rpc). (allow_request m.asked_at e.breaker).1 && r.ok) same ∙ refused) p q
