-- ===== src/Metrics.antt =====
-- src/metrics/prometheus_metrics.h and src/metrics/prometheus_metrics.cpp: the class PrometheusMetrics.
-- prometheus-cpp is a parameter: its registry, what its calls do to it, and what a scrape finds in it.
pub mod Laws
pub mod Board
pub mod Wiring
pub mod Refine
pub mod Counts
pub mod Tally
mod Tests
use mathlib.Core.Option
use ml_distributed_fraud_eng.Common.{
  ℕ, Bool, true, false, ◌&&◌, List, [], ◌∷◌, ◌++◌, Option, none, some, if◌then◌else◌,
}
use ml_distributed_fraud_eng.Text.{codes, str_eq}

pub data Kind : Type 0 where
  a_counter a_histogram a_gauge : Kind

-- The name of a metric and its labels.
abbrev pub Key : Type 0
Key = List ℕ × List (List ℕ × List ℕ)

-- What a scrape finds under a key. A histogram has its bounds, each with the number of values counted up
-- to it, and the number of all values; its sum is left out.
pub data Series : Type 0 where
  counter : ℕ → Series
  histogram : List (ℕ × ℕ) → ℕ → Series
  gauge : ℕ → Series

-- prometheus-cpp, and std::to_string.
pub record Prometheus : Type 1 where
  pub Registry : Type 0
  pub Family : Type 0  -- a pointer to a family of metrics
  pub Metric : Type 0  -- a pointer to a metric
  pub to_string : ℕ → List ℕ
  pub binds : List ℕ → Bool  -- the constructor of Exposer, false where it throws
  pub new_registry : Registry
  pub register : Kind → List ℕ → List ℕ → Registry → Family × Registry  -- by name and help
  pub add : Family → List (List ℕ × List ℕ) → List ℕ → Registry → Metric × Registry
  pub increment : Metric → Registry → Registry
  pub observe : Metric → ℕ → Registry → Registry
  pub set : Metric → ℕ → Registry → Registry
  pub within : ℕ → ℕ → Bool  -- whether Observe counts a value up to a bound
  pub collect : Registry → Key → Option Series

-- The boundaries, in seconds.
abbrev pub latency_buckets : List ℕ
latency_buckets =
    0x3F1A_36E2_EB1C_432D  -- 0.0001
    ∷ 0x3F40_624D_D2F1_A9FC  -- 0.0005
    ∷ 0x3F50_624D_D2F1_A9FC  -- 0.001
    ∷ 0x3F60_624D_D2F1_A9FC  -- 0.002
    ∷ 0x3F74_7AE1_47AE_147B  -- 0.005
    ∷ 0x3F84_7AE1_47AE_147B  -- 0.010
    ∷ 0x3F8E_B851_EB85_1EB8  -- 0.015
    ∷ 0x3F94_7AE1_47AE_147B  -- 0.020
    ∷ 0x3FA9_9999_9999_999A  -- 0.050
    ∷ 0x3FB9_9999_9999_999A  -- 0.100
    ∷ 0x3FE0_0000_0000_0000  -- 0.500
    ∷ 0x3FF0_0000_0000_0000  -- 1.000
    ∷ []

-- The members; the exposer is what its server shows, nothing or the registry.
pub record PrometheusMetrics (P : Prometheus) : Type 0 where
  pub exposed : Bool
  pub registry : P.Registry
  pub tx_routed_family : P.Family
  pub circuit_open_total : P.Metric
  pub dlq_poison_total : P.Metric
  pub ml_fallback_total : P.Metric
  pub e2e_latency : P.Metric
  pub redis_latency : P.Metric
  pub ml_latency : P.Metric
  pub queue_depth : P.Metric

module _ (P : Prometheus) where
  -- `Build….Name(name).Help(help).Register(*registry_).Add({}, buckets)`
  add_single : Kind → List ℕ → List ℕ → List ℕ → P.Registry → P.Metric × P.Registry
  add_single kind name help buckets r =
      let (family, r') = P.register kind name help r in P.add family [] buckets r'

  -- The body of the constructor.
  pub build : P.Registry → PrometheusMetrics P
  unfolding add_single
  build r0 =
      let (routed, r1) =
        P.register Kind.a_counter (codes "fraud_tx_routed_total")
          (codes "Number of transactions routed, labelled by destination") r0 in
      let (circuit, r2) =
        add_single Kind.a_counter (codes "fraud_circuit_open_total")
          (codes "Number of circuit breaker OPEN transitions") [] r1 in
      let (poison, r3) =
        add_single Kind.a_counter (codes "fraud_dlq_poison_total")
          (codes "Messages routed to DLQ for poison-pill / parse errors") [] r2 in
      let (fallback, r4) =
        add_single Kind.a_counter (codes "fraud_ml_fallback_total")
          (codes "Times we fell back from ML scoring to the rule engine") [] r3 in
      let (e2e, r5) =
        add_single Kind.a_histogram (codes "fraud_e2e_latency_seconds")
          (codes "End-to-end transaction processing latency") latency_buckets r4 in
      let (redis, r6) =
        add_single Kind.a_histogram (codes "fraud_redis_latency_seconds")
          (codes "Redis feature lookup latency") latency_buckets r5 in
      let (ml, r7) =
        add_single Kind.a_histogram (codes "fraud_ml_latency_seconds")
          (codes "Full gRPC scoring call latency (network + inference)") latency_buckets r6 in
      let (depth, r8) =
        add_single Kind.a_gauge (codes "fraud_thread_pool_queue_depth")
          (codes "Current thread-pool queue depth (backpressure indicator)") [] r7 in
      record {
        exposed = true;
        registry = r8;
        tx_routed_family = routed;
        circuit_open_total = circuit;
        dlq_poison_total = poison;
        ml_fallback_total = fallback;
        e2e_latency = e2e;
        redis_latency = redis;
        ml_latency = ml;
        queue_depth = depth;
      }

  -- `none` where the port cannot be bound and the constructor throws.
  unfoldable pub construct : ℕ → Option (PrometheusMetrics P)
  unfolding build
  construct port =
      if P.binds (codes "0.0.0.0:" ++ P.to_string port) then some (build P.new_registry) else none

  unfoldable pub record_routed : List ℕ → PrometheusMetrics P → PrometheusMetrics P
  record_routed route m =
      let (metric, r) = P.add m.tx_routed_family ((codes "route", route) ∷ []) [] m.registry in
      record m { registry = P.increment metric r }

  unfoldable pub observe_e2e_latency : ℕ → PrometheusMetrics P → PrometheusMetrics P
  observe_e2e_latency s m = record m { registry = P.observe m.e2e_latency s m.registry }

  unfoldable pub observe_redis_latency : ℕ → PrometheusMetrics P → PrometheusMetrics P
  observe_redis_latency s m = record m { registry = P.observe m.redis_latency s m.registry }

  unfoldable pub observe_ml_latency : ℕ → PrometheusMetrics P → PrometheusMetrics P
  observe_ml_latency s m = record m { registry = P.observe m.ml_latency s m.registry }

  unfoldable pub incr_circuit_open : PrometheusMetrics P → PrometheusMetrics P
  incr_circuit_open m = record m { registry = P.increment m.circuit_open_total m.registry }

  unfoldable pub incr_dlq_poison : PrometheusMetrics P → PrometheusMetrics P
  incr_dlq_poison m = record m { registry = P.increment m.dlq_poison_total m.registry }

  unfoldable pub incr_ml_fallback : PrometheusMetrics P → PrometheusMetrics P
  incr_ml_fallback m = record m { registry = P.increment m.ml_fallback_total m.registry }

  unfoldable pub set_queue_depth : ℕ → PrometheusMetrics P → PrometheusMetrics P
  set_queue_depth n m = record m { registry = P.set m.queue_depth n m.registry }

-- The calls that any thread can make, in the order in which the library takes them.
pub data Call : Type 0 where
  routed : List ℕ → Call
  e2e redis ml : ℕ → Call
  circuit_open dlq_poison ml_fallback : Call
  depth : ℕ → Call

module _ (P : Prometheus) where
  unfoldable pub call : Call → PrometheusMetrics P → PrometheusMetrics P
  unfolding record_routed observe_e2e_latency observe_redis_latency observe_ml_latency
      incr_circuit_open incr_dlq_poison incr_ml_fallback set_queue_depth
  call (Call.routed route) m = record_routed P route m
  call (Call.e2e s) m = observe_e2e_latency P s m
  call (Call.redis s) m = observe_redis_latency P s m
  call (Call.ml s) m = observe_ml_latency P s m
  call Call.circuit_open m = incr_circuit_open P m
  call Call.dlq_poison m = incr_dlq_poison P m
  call Call.ml_fallback m = incr_ml_fallback P m
  call (Call.depth n) m = set_queue_depth P n m

  unfoldable pub call_all : List Call → PrometheusMetrics P → PrometheusMetrics P
  call_all [] m = m
  call_all (c ∷ cs) m = call_all cs (call c m)

  -- A scrape of the endpoint.
  abbrev pub scrape : PrometheusMetrics P → Key → Option Series
  scrape m key = if m.exposed then P.collect m.registry key else none
