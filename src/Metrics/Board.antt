-- ===== src/Metrics/Board.antt =====
-- src/metrics/prometheus_metrics.cpp: what a scrape shows, as a board with an entry for each key.
use ml_distributed_fraud_eng.Common.{ℕ, Bool, List, [], ◌∷◌, none}
use ml_distributed_fraud_eng.Text.{codes}
use ml_distributed_fraud_eng.Metrics.{Kind, Key, Call, latency_buckets}
use ml_distributed_fraud_eng.Metrics.Laws.{Board, at, or_fresh, bump, record_value, replace_value}

-- The keys, from the documentation of the header.
abbrev pub routed_key : List ℕ → Key
routed_key route = (codes "fraud_tx_routed_total", (codes "route", route) ∷ [])

abbrev pub circuit_key : Key
circuit_key = (codes "fraud_circuit_open_total", [])

abbrev pub poison_key : Key
poison_key = (codes "fraud_dlq_poison_total", [])

abbrev pub fallback_key : Key
fallback_key = (codes "fraud_ml_fallback_total", [])

abbrev pub e2e_key : Key
e2e_key = (codes "fraud_e2e_latency_seconds", [])

abbrev pub redis_key : Key
redis_key = (codes "fraud_redis_latency_seconds", [])

abbrev pub ml_key : Key
ml_key = (codes "fraud_ml_latency_seconds", [])

abbrev pub depth_key : Key
depth_key = (codes "fraud_thread_pool_queue_depth", [])

-- The board at the start: every metric without labels at zero.
unfoldable pub initial : Board
initial = at depth_key (or_fresh Kind.a_gauge []) (
    at ml_key (or_fresh Kind.a_histogram latency_buckets) (
      at redis_key (or_fresh Kind.a_histogram latency_buckets) (
        at e2e_key (or_fresh Kind.a_histogram latency_buckets) (
          at fallback_key (or_fresh Kind.a_counter []) (
            at poison_key (or_fresh Kind.a_counter [])
              (at circuit_key (or_fresh Kind.a_counter []) (λ k. none)))))))

-- What a call changes.
unfoldable pub apply : (ℕ → ℕ → Bool) → Call → Board → Board
apply within (Call.routed route) b =
    at (routed_key route) bump (at (routed_key route) (or_fresh Kind.a_counter []) b)
apply within (Call.e2e s) b = at e2e_key (record_value within s) b
apply within (Call.redis s) b = at redis_key (record_value within s) b
apply within (Call.ml s) b = at ml_key (record_value within s) b
apply within Call.circuit_open b = at circuit_key bump b
apply within Call.dlq_poison b = at poison_key bump b
apply within Call.ml_fallback b = at fallback_key bump b
apply within (Call.depth n) b = at depth_key (replace_value n) b

unfoldable pub apply_all : (ℕ → ℕ → Bool) → List Call → Board → Board
apply_all within [] b = b
apply_all within (c ∷ cs) b = apply_all within cs (apply within c b)
