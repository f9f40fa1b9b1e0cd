-- ===== src/Metrics/Wiring.antt =====
-- src/metrics/prometheus_metrics.cpp: the metrics that the constructor makes, and the members that point to them.
use ml_distributed_fraud_eng.Common.{ℕ, ◌≡◌, refl, ap, ◌∙◌, true, List, [], ◌∷◌, Option, none}
use ml_distributed_fraud_eng.Float.{gt64}
use ml_distributed_fraud_eng.Text.{str_eq, codes}
use ml_distributed_fraud_eng.Metrics.{
  Prometheus, PrometheusMetrics, Kind, Key, Series, latency_buckets, add_single, build,
}
use ml_distributed_fraud_eng.Metrics.Laws.{IsLawful, Board, at, or_fresh, can_register, can_add}
use ml_distributed_fraud_eng.Metrics.Board.{
  initial, circuit_key, poison_key, fallback_key, e2e_key, redis_key, ml_key, depth_key,
}

pub at_cong :
    (key : Key) (f : Option Series → Option Series) (b b' : Board) (k : Key)
    → b k ≡ b' k
    → at key f b k ≡ at key f b' k
unfolding at
at_cong key f b b' k e = rw e refl

module _ (P : Prometheus) (lawful : IsLawful P) where
  -- A registry with these names shows the board.
  abbrev Holds : P.Registry → List (List ℕ) → Board → Type 0
  Holds r ns b = (lawful.names r ≡ ns) × ((k : Key) → P.collect r k ≡ b k)

  add_single_lem :
      (kind : Kind) (name help : List ℕ) (bounds : List ℕ) (r : P.Registry) (ns : List (List ℕ))
      (b : Board)
      → Holds r ns b
      → can_register name ns ≡ true
      → can_add [] bounds ≡ true
      → Holds
          (add_single P kind name help bounds r).1
          (name ∷ ns)
          (at (name, []) (or_fresh kind bounds) b)
        × lawful.MetricOf (add_single P kind name help bounds r).0 kind (name, [])
  unfolding add_single
  add_single_lem kind name help bounds r ns b (same, shows) new sorted =
      let fresh = ap (can_register name) same ∙ new in
      let family = lawful.register_family kind name help r fresh in
      let f = (P.register kind name help r).0 in
      let r' = (P.register kind name help r).1 in
      (
        (
          lawful.add_names f [] bounds r' sorted
              ∙ lawful.register_names kind name help r fresh
              ∙ ap (λ ms. name ∷ ms) same,
          λ k.
              lawful.add_collect f kind name [] bounds r' k family sorted
              ∙ at_cong (name, []) (or_fresh kind bounds) (P.collect r') b k
                  (lawful.register_collect kind name help r k fresh ∙ shows k),
        ),
        lawful.add_metric f kind name [] bounds r' family sorted,
      )

  -- The members point to the metrics that they are named for.
  abbrev pub Wired : PrometheusMetrics P → Type 0
  Wired m =
      lawful.FamilyOf m.tx_routed_family Kind.a_counter (codes "fraud_tx_routed_total")
      × lawful.MetricOf m.circuit_open_total Kind.a_counter circuit_key
      × lawful.MetricOf m.dlq_poison_total Kind.a_counter poison_key
      × lawful.MetricOf m.ml_fallback_total Kind.a_counter fallback_key
      × lawful.MetricOf m.e2e_latency Kind.a_histogram e2e_key
      × lawful.MetricOf m.redis_latency Kind.a_histogram redis_key
      × lawful.MetricOf m.ml_latency Kind.a_histogram ml_key
      × lawful.MetricOf m.queue_depth Kind.a_gauge depth_key
      × (m.exposed ≡ true)

  -- The constructor makes the board of the start.
  pub build-initial :
      Wired (build P P.new_registry)
      × ((k : Key) → P.collect (build P P.new_registry).registry k ≡ initial k)
  unfolding build initial str_eq can_register can_add gt64
  build-initial =
      let routed = codes "fraud_tx_routed_total" in
      let help = codes "Number of transactions routed, labelled by destination" in
      let fresh = ap (can_register routed) lawful.new_names in
      let r1 = (P.register Kind.a_counter routed help P.new_registry).1 in
      let registered : Holds r1 (routed ∷ []) (λ k. none) = (
        lawful.register_names Kind.a_counter routed help P.new_registry fresh
            ∙ ap (λ ms. routed ∷ ms) lawful.new_names,
        λ k.
            lawful.register_collect Kind.a_counter routed help P.new_registry k fresh
            ∙ lawful.new_collect k,
      ) in
      let circuit =
        add_single_lem Kind.a_counter (codes "fraud_circuit_open_total")
          (codes "Number of circuit breaker OPEN transitions") [] _ _ _ registered refl refl in
      let poison =
        add_single_lem Kind.a_counter (codes "fraud_dlq_poison_total")
          (codes "Messages routed to DLQ for poison-pill / parse errors") [] _ _ _ circuit.0 refl
          refl in
      let fallback =
        add_single_lem Kind.a_counter (codes "fraud_ml_fallback_total")
          (codes "Times we fell back from ML scoring to the rule engine") [] _ _ _ poison.0 refl
          refl in
      let e2e =
        add_single_lem Kind.a_histogram (codes "fraud_e2e_latency_seconds")
          (codes "End-to-end transaction processing latency") latency_buckets _ _ _ fallback.0 refl
          refl in
      let redis =
        add_single_lem Kind.a_histogram (codes "fraud_redis_latency_seconds")
          (codes "Redis feature lookup latency") latency_buckets _ _ _ e2e.0 refl refl in
      let ml =
        add_single_lem Kind.a_histogram (codes "fraud_ml_latency_seconds")
          (codes "Full gRPC scoring call latency (network + inference)") latency_buckets _ _ _
          redis.0 refl refl in
      let depth =
        add_single_lem Kind.a_gauge (codes "fraud_thread_pool_queue_depth")
          (codes "Current thread-pool queue depth (backpressure indicator)") [] _ _ _ ml.0 refl
          refl in
      (
        (
          lawful.register_family Kind.a_counter routed help P.new_registry fresh,
          circuit.1,
          poison.1,
          fallback.1,
          e2e.1,
          redis.1,
          ml.1,
          depth.1,
          refl,
        ),
        depth.0.1,
      )
