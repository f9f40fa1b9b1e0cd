-- ===== src/Engine/Fallback.antt =====
-- src/main.cpp, process: which scorer decides, and what the rule engine does when the ML server gives no
-- answer. That the codec reads back what it wrote is a hypothesis.
use ml_distributed_fraud_eng.Common.{
  ℕ, ◌≤◌, ◌≡◌, refl, ap, ◌∙◌, Bool, true, false, ◌&&◌, List, ◌∷◌, some, arith, if◌then◌else◌,
  Bool-cases, inl, inr,
}
use ml_distributed_fraud_eng.Float.{f0_85, gt32, gt32-ltb}
use ml_distributed_fraud_eng.Messages.{Transaction, UserFeatures}
use ml_distributed_fraud_eng.Breaker.{CircuitBreaker, allow_request}
use ml_distributed_fraud_eng.FeatureStore.{
  missing, Store, Lookup, returns, throws, undefined, get_features,
}
use ml_distributed_fraud_eng.MlClient.{Rpc, request_of, deadline, default_timeout_ms}
use ml_distributed_fraud_eng.MlClient
use ml_distributed_fraud_eng.RuleEngine
use ml_distributed_fraud_eng.RuleEngine.{score_parsed}
use ml_distributed_fraud_eng.RuleEngine.Scores.{score_parsed-alarm, score_parsed-le}
use ml_distributed_fraud_eng.Engine.{
  Outside, Moment, Engine, clean, route, score_with, finish, process,
}

no_average : ¬ (gt32 0 0 ≡ true)
unfolding gt32
no_average = λ h. absurd (ground arith)

or_missing : Lookup UserFeatures → UserFeatures
or_missing (returns u) = u
or_missing throws = missing
or_missing undefined = missing

module _ (out : Outside) where
  -- The ML server's answer to the request for a transaction, with 10 ms from the call as its deadline.
  abbrev pub answer : Moment → Transaction → UserFeatures → Rpc
  answer m tx u =
      m.call (deadline default_timeout_ms m.called_at)
        (request_of out.fpu out.merge (out.serialize tx) u)

  -- Whether the breaker lets the request through and the call succeeds.
  abbrev pub answered : Moment → Transaction → UserFeatures → CircuitBreaker → Bool
  answered m tx u b = (allow_request m.asked_at b).1 && (answer m tx u).ok

  score_with-fallback :
      (m : Moment) (tx : Transaction) (u : UserFeatures) (b : CircuitBreaker)
      → (score_with out m tx u b).0 ≡ (
          if answered m tx u b
          then (answer m tx u).fraud_probability
          else RuleEngine.score out.fpu out.parse (out.serialize tx) u)
  unfolding score_with MlClient.score
  score_with-fallback m tx u b = ground arith

  score-parsed :
      (bytes : List ℕ) (tx : Transaction) (u : UserFeatures)
      → out.parse bytes ≡ some tx
      → RuleEngine.score out.fpu out.parse bytes u ≡ score_parsed out.fpu tx u
  unfolding RuleEngine.score
  score-parsed bytes tx u h = rw h refl

  pub score_with-calls :
      (m : Moment) (tx : Transaction) (u : UserFeatures) (b : CircuitBreaker)
      → (score_with out m tx u b).2 ≡ (if (allow_request m.asked_at b).1 then 1 else 0)
  unfolding score_with
  score_with-calls m tx u b = ground arith

  -- If the codec reads back the transaction that it wrote, then the score is the ML server's probability,
  -- for a call with a deadline of 10 ms, if the breaker lets the request through and the call succeeds,
  -- and the sum of the rules in every other case; and the server is called exactly if the breaker lets
  -- the request through.
  pub score_with_lem :
      (m : Moment) (tx : Transaction) (u : UserFeatures) (b : CircuitBreaker)
      → out.parse (out.serialize tx) ≡ some tx
      → ((score_with out m tx u b).0 ≡ (
          if answered m tx u b
          then (answer m tx u).fraud_probability
          else score_parsed out.fpu tx u))
        × ((score_with out m tx u b).2 ≡ (if (allow_request m.asked_at b).1 then 1 else 0))
  score_with_lem m tx u b h = (
    score_with-fallback m tx u b
        ∙ ap (λ x. if answered m tx u b then (answer m tx u).fraud_probability else x)
            (score-parsed _ tx u h),
    score_with-calls m tx u b,
  )

  missing-score :
      (tx : Transaction) (threshold : ℕ)
      → f0_85 ≤ threshold
      → threshold ≤ 0x7F80_0000
      → gt32 (score_parsed out.fpu tx missing) threshold ≡ false
  missing-score tx threshold p q =
      let most = score_parsed-le out.fpu tx missing in
      let calm : gt32 (score_parsed out.fpu tx missing) f0_85 ≡ false =
        elim (Bool-cases (gt32 (score_parsed out.fpu tx missing) f0_85)) [
          | inl alarmed ↦ absurd (no_average ((score_parsed-alarm out.fpu tx missing).0 alarmed).0)
          | inr quiet ↦ quiet
        ] in
      let small = gt32-ltb (score_parsed out.fpu tx missing) f0_85 (omega arith) (omega arith) in
      let large = gt32-ltb (score_parsed out.fpu tx missing) threshold (omega arith) q in
      large ∙ ground arith

  missing-clean :
      (m : Moment) (tx : Transaction) (b : CircuitBreaker) (threshold : ℕ)
      → out.parse (out.serialize tx) ≡ some tx
      → answered m tx missing b ≡ false
      → f0_85 ≤ threshold
      → threshold ≤ 0x7F80_0000
      → route out threshold tx (score_with out m tx missing b).0 ≡ clean (out.serialize tx)
  unfolding route
  missing-clean m tx b threshold h a p q =
      let score : (score_with out m tx missing b).0 ≡ score_parsed out.fpu tx missing =
        (score_with_lem m tx missing b h).0 ∙ rw a refl in
      rw (score, missing-score tx threshold p q) refl

  finish-missing :
      (threshold : ℕ) (m : Moment) (tx : Transaction) (e : Engine)
      (found : Lookup UserFeatures × Store)
      → found.0 ≡ returns missing
      → (finish out threshold m tx e found).1.sent
        ≡ route out threshold tx (score_with out m tx missing e.breaker).0 ∷ e.sent
  unfolding finish or_missing
  finish-missing threshold m tx e (returns u, s) h =
      ap (λ u'. route out threshold tx (score_with out m tx u' e.breaker).0 ∷ e.sent)
        (ap or_missing h)
  finish-missing threshold m tx e (throws, s) h = cc
  finish-missing threshold m tx e (undefined, s) h = cc

  pub missing-sent :
      (threshold : ℕ) (m : Moment) (tx : Transaction) (e : Engine)
      → out.parse (out.serialize tx) ≡ some tx
      → (get_features m.redis tx.user_id e.store).0 ≡ returns missing
      → answered m tx missing e.breaker ≡ false
      → f0_85 ≤ threshold
      → threshold ≤ 0x7F80_0000
      → (process out threshold m tx e).1.sent ≡ clean (out.serialize tx) ∷ e.sent
  unfolding process
  missing-sent threshold m tx e h found a p q =
      finish-missing threshold m tx e _ found
      ∙ ap (λ s. s ∷ e.sent) (missing-clean m tx e.breaker threshold h a p q)
