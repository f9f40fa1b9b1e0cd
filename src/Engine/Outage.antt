-- ===== src/Engine/Outage.antt =====
-- src/main.cpp, process: how often the ML server is called while it is down.
use ml_distributed_fraud_eng.Common.{
  ℕ, suc, ◌+◌, ◌*◌, ◌/◌, ◌^◌, ◌≤◌, ◌<◌, ◌≡◌, refl, false, List, [], ◌∷◌, arith, ℤ, All, ◌⊎◌, inl,
  inr, leb, if◌then◌else◌,
}
use ml_distributed_fraud_eng.Messages.{ScoreRequest, Transaction, UserFeatures}
use ml_distributed_fraud_eng.Breaker.{
  CircuitBreaker, closed, opened, elapsed, init, allow_request, record_failure,
}
use ml_distributed_fraud_eng.FeatureStore.{Store, Lookup, returns, throws, undefined, get_features}
use ml_distributed_fraud_eng.MlClient.{request_of, deadline, default_timeout_ms}
use ml_distributed_fraud_eng.MlClient
use ml_distributed_fraud_eng.Engine.{
  Outside, Moment, Engine, process, process_all, finish, score_with,
}

-- The number of transactions that got a score.
abbrev pub scored : List (Lookup ℕ) → ℕ
scored [] = 0
scored (returns p ∷ os) = suc (scored os)
scored (_ ∷ os) = scored os

scored-cons : (o : Lookup ℕ) (os : List (Lookup ℕ)) → scored (o ∷ os) ≡ scored (o ∷ []) + scored os
scored-cons (returns p) os = omega arith
scored-cons throws os = omega arith
scored-cons undefined os = omega arith

abbrev pub min : ℕ → ℕ → ℕ
min a b = if leb a b then a else b

-- At this moment every call fails, and the breaker's recovery time since `start` is not over.
abbrev pub Down : ℕ → ℤ → Moment × Transaction → Type 0
Down start timeout (m, tx) =
    ((d : ℕ) (r : ScoreRequest) → (m.call d r).ok ≡ false)
    × (elapsed m.asked_at start timeout ≡ false)
    × (start ≤ m.failed_at)

-- The breaker in an outage, after so many calls.
abbrev Failing : ℕ → ℕ → ℤ → ℕ → CircuitBreaker → Type 0
Failing threshold start timeout k b =
    (b.failure_threshold ≡ threshold)
    × (b.recovery_timeout ≡ timeout)
    × (((b.state ≡ closed) × (b.failure_count ≡ 2 * k) × (k ≤ threshold / 2))
        ⊎ ((b.state ≡ opened) × (start ≤ b.open_time) × (k ≡ threshold / 2 + 1)))

module _ (out : Outside) (threshold start : ℕ) (timeout : ℤ) where
  score_with-Failing :
      (k : ℕ) (m : Moment) (tx : Transaction) (u : UserFeatures) (b : CircuitBreaker)
      → threshold < 2 ^ 31
      → Down start timeout (m, tx)
      → Failing threshold start timeout k b
      → Failing threshold start timeout
          (k + (score_with out m tx u b).2)
          (score_with out m tx u b).1
        × (k + (score_with out m tx u b).2 ≡ min (k + 1) (threshold / 2 + 1))
  unfolding score_with MlClient.score allow_request record_failure
  score_with-Failing k m tx u b h (down, still, after) (t, r, inl (c, n, q)) =
      let fails =
        down (deadline default_timeout_ms m.called_at)
          (request_of out.fpu out.merge (out.serialize tx) u) in
      ground (arith, fails)
  score_with-Failing k m tx u b h (down, still, after) (t, r, inr (o, l, q)) =
      let fails =
        down (deadline default_timeout_ms m.called_at)
          (request_of out.fpu out.merge (out.serialize tx) u) in
      ground (arith, fails)

  -- One transaction in an outage, with the calls it adds.
  abbrev Turned : ℕ → Engine → Lookup ℕ × Engine → Type 0
  Turned k e (o, e') =
      (k' : ℕ) × Failing threshold start timeout k' e'.breaker
      × (k' ≡ min (k + scored (o ∷ [])) (threshold / 2 + 1))
      × (e'.calls + k ≡ e.calls + k')

  Failing-le :
      (k : ℕ) (b : CircuitBreaker) → Failing threshold start timeout k b → k ≤ threshold / 2 + 1
  Failing-le k b (t, r, inl (c, n, q)) = omega arith
  Failing-le k b (t, r, inr (o, l, q)) = omega arith

  finish-Turned :
      (route_threshold k : ℕ) (m : Moment) (tx : Transaction) (e : Engine)
      (found : Lookup UserFeatures × Store)
      → threshold < 2 ^ 31
      → Down start timeout (m, tx)
      → Failing threshold start timeout k e.breaker
      → Turned k e (finish out route_threshold m tx e found)
  unfolding finish
  finish-Turned rt k m tx e (throws, s) h d f =
      (k, f, ground (arith, Failing-le k e.breaker f), refl)
  finish-Turned rt k m tx e (undefined, s) h d f =
      (k, f, ground (arith, Failing-le k e.breaker f), refl)
  finish-Turned rt k m tx e (returns u, s) h d f =
      let (g, q) = score_with-Failing k m tx u e.breaker h d f in (_, g, q, omega arith)

  process-Turned :
      (route_threshold k : ℕ) (m : Moment) (tx : Transaction) (e : Engine)
      → threshold < 2 ^ 31
      → Down start timeout (m, tx)
      → Failing threshold start timeout k e.breaker
      → Turned k e (process out route_threshold m tx e)
  unfolding process
  process-Turned rt k m tx e h d f =
      finish-Turned rt k m tx e (get_features m.redis tx.user_id e.store) h d f

  process_all-Failing :
      (route_threshold k : ℕ) (ts : List (Moment × Transaction)) (e : Engine)
      → threshold < 2 ^ 31
      → All (Down start timeout) ts
      → Failing threshold start timeout k e.breaker
      → (process_all out route_threshold ts e).1.calls + k
        ≡ e.calls + min (k + scored (process_all out route_threshold ts e).0) (threshold / 2 + 1)
  unfolding process_all
  process_all-Failing rt k [] e h d f = ground (arith, Failing-le k e.breaker f)
  process_all-Failing rt k ((m, tx) ∷ ts) e h (d, ds) f =
      let (k', g, q, c) = process-Turned rt k m tx e h d f in
      let next = process out rt m tx e in
      ground (
        arith,
        scored-cons next.0 (process_all out rt ts next.1).0,
        process_all-Failing rt k' ts next.1 h ds g,
      )

  -- If the breaker is fresh and for a whole sequence of transactions every call to the ML server would
  -- fail, within one recovery time from the start, then the server is called for the first of the
  -- transactions that get a score, one more than half the breaker's threshold at most, and for no other.
  pub process_all-calls :
      (route_threshold : ℕ) (ts : List (Moment × Transaction)) (e : Engine)
      → threshold < 2 ^ 31
      → e.breaker ≡ init threshold timeout
      → All (Down start timeout) ts
      → (process_all out route_threshold ts e).1.calls
        ≡ e.calls + min (scored (process_all out route_threshold ts e).0) (threshold / 2 + 1)
  unfolding init
  process_all-calls rt ts e h fresh d =
      ground (arith, process_all-Failing rt 0 ts e h d (ground arith))
