-- ===== src/Metrics/Tests.antt =====
-- src/metrics/prometheus_metrics.cpp: a registry of functions, and the theorems for calls on it.
use ml_distributed_fraud_eng.Common.{ℕ, total, ◌≡◌, refl, ap, not, List, [], ◌∷◌, map, none, some}
use ml_distributed_fraud_eng.Text.{codes, str_eq}
use ml_distributed_fraud_eng.Float.{gt64}
use ml_distributed_fraud_eng.Chars.Decimal.{decimal}
use ml_distributed_fraud_eng.Metrics.{
  Prometheus, PrometheusMetrics, Kind, Key, Series, Call, build, construct, call_all, scrape,
}
use ml_distributed_fraud_eng.Metrics.Laws.{
  IsLawful, Board, at, or_fresh, bump, record_value, replace_value,
}
use ml_distributed_fraud_eng.Metrics.Counts.{
  is_circuit_open, is_dlq_poison, is_ml_fallback, is_routed, e2e_value, redis_value, ml_value,
  depth_value, last_value, if_any, tally,
}
use ml_distributed_fraud_eng.Metrics.Board.{
  routed_key, circuit_key, poison_key, fallback_key, e2e_key, redis_key, ml_key, depth_key,
}
use ml_distributed_fraud_eng.Metrics.Tally.{scrape-tally}

-- A handle is the kind and the key that it stands for; one port is taken.
abbrev small_prometheus : Prometheus
small_prometheus = record {
  Registry = List (List ℕ) × Board;
  Family = Kind × List ℕ;
  Metric = Kind × Key;
  to_string = decimal;
  binds = λ address. not (str_eq address (codes "0.0.0.0:80"));
  new_registry = ([], λ k. none);
  register = λ kind name help r. ((kind, name), (name ∷ r.0, r.1));
  add = λ f labels bounds r.
      ((f.0, (f.1, labels)), (r.0, at (f.1, labels) (or_fresh f.0 bounds) r.1));
  increment = λ m r. (r.0, at m.1 bump r.1);
  observe = λ m x r. (r.0, at m.1 (record_value (λ v b. not (gt64 v b)) x) r.1);
  set = λ m x r. (r.0, at m.1 (replace_value x) r.1);
  within = λ v b. not (gt64 v b);
  collect = λ r k. r.1 k;
}

small_prometheus-IsLawful : IsLawful small_prometheus
small_prometheus-IsLawful = record {
  FamilyOf = λ f kind name. f ≡ (kind, name);
  MetricOf = λ m kind key. m ≡ (kind, key);
  names = λ r. r.0;
  new_names = refl;
  new_collect = λ k. refl;
  register_family = λ kind name help r fresh. refl;
  register_names = λ kind name help r fresh. refl;
  register_collect = λ kind name help r k fresh. refl;
  add_metric = λ f kind name labels bounds r e sorted. ap (λ g. (g.0, (g.1, labels))) e;
  add_names = λ f labels bounds r sorted. refl;
  add_collect = λ f kind name labels bounds r k e sorted.
      ap (λ g. at (g.1, labels) (or_fresh g.0 bounds) r.1 k) e;
  increment_collect = λ m key r k e. ap (λ n. at n.1 bump r.1 k) e;
  observe_collect =
      λ m key x r k e. ap (λ n. at n.1 (record_value (λ v b. not (gt64 v b)) x) r.1 k) e;
  set_collect = λ m key x r k e. ap (λ n. at n.1 (replace_value x) r.1 k) e;
}

abbrev started : PrometheusMetrics small_prometheus
started = build small_prometheus small_prometheus.new_registry

started-construct : construct small_prometheus 9090 ≡ some started
unfolding construct str_eq decimal
started-construct = refl

port_taken : construct small_prometheus 80 ≡ none
unfolding construct str_eq decimal
port_taken = refl

-- Two transactions for the clean topic, one for the dead letters, a latency of 2 ms, and a fallback.
abbrev some_calls : List Call
some_calls =
    Call.routed (codes "clean")
    ∷ Call.redis 0x3F60_624D_D2F1_A9FC
    ∷ Call.routed (codes "dlq")
    ∷ Call.ml_fallback
    ∷ Call.depth 3
    ∷ Call.routed (codes "clean")
    ∷ []

clean_twice : total (is_routed (codes "clean")) some_calls ≡ 2
unfolding str_eq
clean_twice = refl

scrape-tally_example :
    (scrape small_prometheus (call_all small_prometheus some_calls started) circuit_key
      ≡ some (Series.counter (total is_circuit_open some_calls)))
    × (scrape small_prometheus (call_all small_prometheus some_calls started) poison_key
        ≡ some (Series.counter (total is_dlq_poison some_calls)))
    × (scrape small_prometheus (call_all small_prometheus some_calls started) fallback_key
        ≡ some (Series.counter (total is_ml_fallback some_calls)))
    × (scrape small_prometheus
          (call_all small_prometheus some_calls started)
          (routed_key (codes "clean"))
        ≡ if_any (total (is_routed (codes "clean")) some_calls))
    × (scrape small_prometheus (call_all small_prometheus some_calls started) e2e_key
        ≡ tally small_prometheus.within e2e_value some_calls)
    × (scrape small_prometheus (call_all small_prometheus some_calls started) redis_key
        ≡ tally small_prometheus.within redis_value some_calls)
    × (scrape small_prometheus (call_all small_prometheus some_calls started) ml_key
        ≡ tally small_prometheus.within ml_value some_calls)
    × (scrape small_prometheus (call_all small_prometheus some_calls started) depth_key
        ≡ some (Series.gauge (last_value 0 (map depth_value some_calls))))
scrape-tally_example =
    scrape-tally small_prometheus small_prometheus-IsLawful 9090 started some_calls (codes "clean")
      started-construct
