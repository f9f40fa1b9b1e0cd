-- ===== src/Metrics/Tally.antt =====
-- src/metrics/prometheus_metrics.cpp: each metric counts the calls of its method.
use ml_distributed_fraud_eng.Common.{
  ℕ, zero, suc, ◌+◌, arith, total, Bool-cases, inl, inr, ◌≡◌, refl, ap, ◌∙◌, Bool, true, false,
  ◌&&◌, List, [], ◌∷◌, map, Option, some,
}
use ml_distributed_fraud_eng.Text.{str_eq}
use ml_distributed_fraud_eng.Metrics.{
  Prometheus, PrometheusMetrics, Kind, Key, Series, Call, construct, call_all, scrape,
}
use ml_distributed_fraud_eng.Metrics.Laws.{
  IsLawful, Board, at, or_fresh, bump, record_value, replace_value, same_key, same_labels,
}
use ml_distributed_fraud_eng.Metrics.Refine.{scrape-apply_all}
use ml_distributed_fraud_eng.Metrics.Counts.{
  bumps, after, counter-total, values-tally_all, zero_plus, is_circuit_open, is_dlq_poison,
  is_ml_fallback, is_routed, e2e_value, redis_value, ml_value, depth_value, last_value, if_any,
  tally,
}
use ml_distributed_fraud_eng.Metrics.Board.{
  apply, apply_all, initial, routed_key, circuit_key, poison_key, fallback_key, e2e_key, redis_key,
  ml_key, depth_key,
}

and-true : (t : Bool) → (t && true) ≡ t
and-true true = refl
and-true false = refl

module _ (within : ℕ → ℕ → Bool) where
  gauge-last_value :
      (cs : List Call) (b : Board) (x : ℕ)
      → b depth_key ≡ some (Series.gauge x)
      → apply_all within cs b depth_key ≡ some (Series.gauge (last_value x (map depth_value cs)))
  unfolding apply_all apply at str_eq same_labels
  gauge-last_value [] b x e = e
  gauge-last_value (Call.depth n ∷ cs) b x e =
      gauge-last_value cs (apply within (Call.depth n) b) n (ap (replace_value n) e)
  gauge-last_value (c ∷ cs) b x e = gauge-last_value cs (apply within c b) x e

  circuit-step :
      (c : Call) (b : Board)
      → apply within c b circuit_key ≡ bumps (is_circuit_open c) (b circuit_key)
  unfolding apply at str_eq same_labels
  circuit-step Call.circuit_open b = refl
  circuit-step c b = refl

  poison-step :
      (c : Call) (b : Board) → apply within c b poison_key ≡ bumps (is_dlq_poison c) (b poison_key)
  unfolding apply at str_eq same_labels
  poison-step Call.dlq_poison b = refl
  poison-step c b = refl

  fallback-step :
      (c : Call) (b : Board)
      → apply within c b fallback_key ≡ bumps (is_ml_fallback c) (b fallback_key)
  unfolding apply at str_eq same_labels
  fallback-step Call.ml_fallback b = refl
  fallback-step c b = refl

  e2e-step :
      (c : Call) (b : Board)
      → apply within c b e2e_key ≡ after (record_value within) (e2e_value c) (b e2e_key)
  unfolding apply at str_eq same_labels
  e2e-step (Call.e2e s) b = refl
  e2e-step c b = refl

  redis-step :
      (c : Call) (b : Board)
      → apply within c b redis_key ≡ after (record_value within) (redis_value c) (b redis_key)
  unfolding apply at str_eq same_labels
  redis-step (Call.redis s) b = refl
  redis-step c b = refl

  ml-step :
      (c : Call) (b : Board)
      → apply within c b ml_key ≡ after (record_value within) (ml_value c) (b ml_key)
  unfolding apply at str_eq same_labels
  ml-step (Call.ml s) b = refl
  ml-step c b = refl

  routed-same_key :
      (route other : List ℕ) → same_key (routed_key route) (routed_key other) ≡ str_eq route other
  unfolding str_eq same_labels
  routed-same_key route other = and-true (str_eq route other)

  at-same :
      (key : Key) (f : Option Series → Option Series) (b : Board) (k : Key)
      → same_key k key ≡ true
      → at key f b k ≡ f (b k)
  unfolding at
  at-same key f b k e = rw e refl

  at-other :
      (key : Key) (f : Option Series → Option Series) (b : Board) (k : Key)
      → same_key k key ≡ false
      → at key f b k ≡ b k
  unfolding at
  at-other key f b k e = rw e refl

  if_any-bump : (n : ℕ) → bump (or_fresh Kind.a_counter [] (if_any n)) ≡ if_any (suc n)
  if_any-bump zero = refl
  if_any-bump (suc n) = refl

  routed-step :
      (route : List ℕ) (c : Call) (b : Board) (n : ℕ)
      → b (routed_key route) ≡ if_any n
      → apply within c b (routed_key route) ≡ if_any (n + is_routed route c)
  unfolding apply at str_eq same_labels
  routed-step route (Call.routed other) b n e =
      let key = routed_key other in
      let k = routed_key route in
      let fresh = or_fresh Kind.a_counter [] in
      let made = at key fresh b in
      elim (Bool-cases (str_eq route other)) [
        | inl same ↦
            let test = routed-same_key route other ∙ same in
            let more : suc n ≡ n + 1 = omega arith in
            at-same key bump made k test
            ∙ ap bump (at-same key fresh b k test ∙ ap (or_fresh Kind.a_counter []) e)
            ∙ if_any-bump n
            ∙ rw same (ap if_any more)
        | inr differ ↦
            let test = routed-same_key route other ∙ differ in
            let none_more : n ≡ n + 0 = omega arith in
            at-other key bump made k test
            ∙ at-other key fresh b k test
            ∙ e
            ∙ rw differ (ap if_any none_more)
      ]
  routed-step route c b n e = e ∙ ap if_any (omega arith)

  routed-total :
      (route : List ℕ) (cs : List Call) (b : Board) (n : ℕ)
      → b (routed_key route) ≡ if_any n
      → apply_all within cs b (routed_key route) ≡ if_any (n + total (is_routed route) cs)
  unfolding apply_all
  routed-total route [] b n e = e ∙ ap if_any (omega arith)
  routed-total route (c ∷ cs) b n e =
      routed-total route cs (apply within c b) (n + is_routed route c) (routed-step route c b n e)
      ∙ ap if_any (omega arith)

module _ (P : Prometheus) (lawful : IsLawful P) where
  -- With what prometheus-cpp documents: once the constructor has bound its port, a scrape after any calls
  -- of the recording methods, of any threads in any order, shows in each counter the number of calls of
  -- its method, for each route the number of transactions routed there (and no entry for a route without
  -- one), in each latency histogram the number of its values and how many of them are within each bound
  -- of the source, and in the gauge the last depth that was set.
  pub scrape-tally :
      (port : ℕ) (m : PrometheusMetrics P) (cs : List Call) (route : List ℕ)
      → construct P port ≡ some m
      → (scrape P (call_all P cs m) circuit_key ≡ some (Series.counter (total is_circuit_open cs)))
        × (scrape P (call_all P cs m) poison_key ≡ some (Series.counter (total is_dlq_poison cs)))
        × (scrape P (call_all P cs m) fallback_key
            ≡ some (Series.counter (total is_ml_fallback cs)))
        × (scrape P (call_all P cs m) (routed_key route) ≡ if_any (total (is_routed route) cs))
        × (scrape P (call_all P cs m) e2e_key ≡ tally P.within e2e_value cs)
        × (scrape P (call_all P cs m) redis_key ≡ tally P.within redis_value cs)
        × (scrape P (call_all P cs m) ml_key ≡ tally P.within ml_value cs)
        × (scrape P (call_all P cs m) depth_key
            ≡ some (Series.gauge (last_value 0 (map depth_value cs))))
  unfolding initial at str_eq same_labels
  scrape-tally port m cs route e =
      let shows = scrape-apply_all P lawful port m cs e in
      let counts = counter-total P.within in
      let values = values-tally_all P.within in
      (
        shows circuit_key
            ∙ counts circuit_key is_circuit_open (circuit-step P.within) cs initial 0 refl
            ∙ ap (λ n. some (Series.counter n)) (zero_plus _),
        shows poison_key
            ∙ counts poison_key is_dlq_poison (poison-step P.within) cs initial 0 refl
            ∙ ap (λ n. some (Series.counter n)) (zero_plus _),
        shows fallback_key
            ∙ counts fallback_key is_ml_fallback (fallback-step P.within) cs initial 0 refl
            ∙ ap (λ n. some (Series.counter n)) (zero_plus _),
        shows (routed_key route)
            ∙ routed-total P.within route cs initial 0 refl
            ∙ ap if_any (zero_plus _),
        shows e2e_key ∙ values e2e_key e2e_value (e2e-step P.within) cs initial refl,
        shows redis_key ∙ values redis_key redis_value (redis-step P.within) cs initial refl,
        shows ml_key ∙ values ml_key ml_value (ml-step P.within) cs initial refl,
        shows depth_key ∙ gauge-last_value P.within cs initial 0 refl,
      )
