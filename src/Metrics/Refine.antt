-- ===== src/Metrics/Refine.antt =====
-- src/metrics/prometheus_metrics.cpp: what a scrape shows is the board, after each call.
use mathlib.Core.Option.{some-injective}
use ml_distributed_fraud_eng.Common.{
  ℕ, ◌≡◌, refl, subst, ◌∙◌, Bool, true, false, List, [], ◌∷◌, Option, none, some, if◌then◌else◌,
}
use ml_distributed_fraud_eng.Text.{codes}
use ml_distributed_fraud_eng.Metrics.{
  Prometheus, PrometheusMetrics, Kind, Key, Call, build, construct, call, call_all, scrape,
}
use ml_distributed_fraud_eng.Metrics.Laws.{
  IsLawful, Board, at, or_fresh, bump, record_value, replace_value, can_add,
}
use ml_distributed_fraud_eng.Metrics.Board.{
  initial, apply, apply_all, routed_key, circuit_key, poison_key, fallback_key, e2e_key, redis_key,
  ml_key, depth_key,
}
use ml_distributed_fraud_eng.Metrics.Wiring.{at_cong, Wired, build-initial}

module _ (P : Prometheus) (lawful : IsLawful P) where
  -- A call changes the registry as it changes the board.
  call-apply :
      (c : Call) (m : PrometheusMetrics P) (b : Board)
      → Wired P lawful m
      → ((k : Key) → P.collect m.registry k ≡ b k)
      → Wired P lawful (call P c m)
        × ((k : Key) → P.collect (call P c m).registry k ≡ apply P.within c b k)
  unfolding call apply can_add
  call-apply (Call.routed route) m b w shows =
      let (metric, r) = P.add m.tx_routed_family ((codes "route", route) ∷ []) [] m.registry in
      let key = routed_key route in
      (
        w,
        λ k.
            lawful.increment_collect metric key r k (
              lawful.add_metric m.tx_routed_family Kind.a_counter key.0 key.1 [] m.registry w.0
                refl)
            ∙ at_cong key bump (P.collect r) (at key (or_fresh Kind.a_counter []) b) k (
                lawful.add_collect m.tx_routed_family Kind.a_counter key.0 key.1 [] m.registry k w.0
                  refl
                ∙ at_cong key (or_fresh Kind.a_counter []) (P.collect m.registry) b k (shows k)),
      )
  call-apply (Call.e2e s) m b w shows = (
    w,
    λ k.
        lawful.observe_collect m.e2e_latency e2e_key s m.registry k w.4
        ∙ at_cong e2e_key (record_value P.within s) (P.collect m.registry) b k (shows k),
  )
  call-apply (Call.redis s) m b w shows = (
    w,
    λ k.
        lawful.observe_collect m.redis_latency redis_key s m.registry k w.5
        ∙ at_cong redis_key (record_value P.within s) (P.collect m.registry) b k (shows k),
  )
  call-apply (Call.ml s) m b w shows = (
    w,
    λ k.
        lawful.observe_collect m.ml_latency ml_key s m.registry k w.6
        ∙ at_cong ml_key (record_value P.within s) (P.collect m.registry) b k (shows k),
  )
  call-apply Call.circuit_open m b w shows = (
    w,
    λ k.
        lawful.increment_collect m.circuit_open_total circuit_key m.registry k w.1
        ∙ at_cong circuit_key bump (P.collect m.registry) b k (shows k),
  )
  call-apply Call.dlq_poison m b w shows = (
    w,
    λ k.
        lawful.increment_collect m.dlq_poison_total poison_key m.registry k w.2
        ∙ at_cong poison_key bump (P.collect m.registry) b k (shows k),
  )
  call-apply Call.ml_fallback m b w shows = (
    w,
    λ k.
        lawful.increment_collect m.ml_fallback_total fallback_key m.registry k w.3
        ∙ at_cong fallback_key bump (P.collect m.registry) b k (shows k),
  )
  call-apply (Call.depth n) m b w shows = (
    w,
    λ k.
        lawful.set_collect m.queue_depth depth_key n m.registry k w.7
        ∙ at_cong depth_key (replace_value n) (P.collect m.registry) b k (shows k),
  )

  call_all-apply_all :
      (cs : List Call) (m : PrometheusMetrics P) (b : Board)
      → Wired P lawful m
      → ((k : Key) → P.collect m.registry k ≡ b k)
      → (k : Key) → scrape P (call_all P cs m) k ≡ apply_all P.within cs b k
  unfolding call_all apply_all
  call_all-apply_all [] m b w shows k = rw w.8 (shows k)
  call_all-apply_all (c ∷ cs) m b w shows k =
      let (w', shows') = call-apply c m b w shows in
      call_all-apply_all cs (call P c m) (apply P.within c b) w' shows' k

  if-some :
      (t : Bool) (a b : PrometheusMetrics P)
      → if◌then◌else◌ {A = Option (PrometheusMetrics P)} t (some a) none ≡ some b
      → a ≡ b
  if-some true a b e = some-injective _ _ e
  if-some false a b e = cc

  -- With what prometheus-cpp documents: once the constructor has bound its port, a scrape after any calls
  -- of the recording methods finds under every key what the documentation of the methods says, starting
  -- from all metrics without labels at zero.
  pub scrape-apply_all :
      (port : ℕ) (m : PrometheusMetrics P) (cs : List Call)
      → construct P port ≡ some m
      → (k : Key) → scrape P (call_all P cs m) k ≡ apply_all P.within cs initial k
  unfolding construct
  scrape-apply_all port m cs e k =
      let (w, shows) = build-initial P lawful in
      let same = if-some _ _ m e in
      subst (λ m'. scrape P (call_all P cs m') k ≡ apply_all P.within cs initial k) same
        (call_all-apply_all cs (build P P.new_registry) initial w shows k)
