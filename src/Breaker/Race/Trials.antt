-- ===== src/Breaker/Race/Trials.antt =====
-- src/utils/circuit_breaker.h: what holds of the breaker's state under every interleaving.
use ml_distributed_fraud_eng.Common.{ℕ, ◌+◌, ◌≡◌, arith, subst, if◌then◌else◌}
use ml_distributed_fraud_eng.Breaker.{
  CircuitState, closed, opened, half_open, same, cas, CircuitBreaker,
}
use ml_distributed_fraud_eng.Breaker.Race.{Pc, Memory, advance, System, Step, move, call, tick}

-- The state changes that the breaker's design has.
pub data Edge : CircuitState → CircuitState → Type 0 where
  stay : (s : CircuitState) → Edge s s
  trips : Edge closed opened
  tries : Edge opened half_open
  recovers : Edge half_open closed
  relapses : Edge half_open opened

pick-Edge : (e d s : CircuitState) → Edge e d → Edge s (if same s e then d else s)
pick-Edge closed d closed g = g
pick-Edge closed d s g = stay _
pick-Edge opened d opened g = g
pick-Edge opened d s g = stay _
pick-Edge half_open d half_open g = g
pick-Edge half_open d s g = stay _

-- A compare-exchange along an edge follows that edge or leaves the state alone.
cas-Edge : (e d : CircuitState) (b : CircuitBreaker) → Edge e d → Edge b.state (cas e d b).0.state
cas-Edge e d b g = subst (Edge b.state) (ground arith) (pick-Edge e d b.state g)

advance-Edge : (p : Pc) (m : Memory) → Edge m.breaker.state (advance p m).0.breaker.state
unfolding advance
advance-Edge Pc.idle m = stay _
advance-Edge Pc.try_trial m = cas-Edge opened half_open m.breaker tries
advance-Edge Pc.succeed m = cas-Edge half_open closed m.breaker recovers
advance-Edge Pc.trip m = cas-Edge closed opened m.breaker trips
advance-Edge Pc.relapse m = cas-Edge half_open opened m.breaker relapses
advance-Edge _ m = stay _

-- Every access of every thread, in any state of the system, leaves the state of the breaker alone or
-- takes it along one of the four edges: to OPEN from CLOSED or HALF_OPEN, from OPEN to HALF_OPEN, and
-- from HALF_OPEN to CLOSED.
pub Step-Edge : {s t : System} → Step s t → Edge s.mem.breaker.state t.mem.breaker.state
Step-Edge {s} (move b p a e) = advance-Edge p s.mem
Step-Edge (call b p a f r e) = stay _
Step-Edge (tick d) = stay _

-- 1 in HALF_OPEN, 0 elsewhere.
abbrev pub in_half_open : CircuitState → ℕ
in_half_open half_open = 1
in_half_open _ = 0

-- Trials admitted and exits from HALF_OPEN differ by one exactly while the state is HALF_OPEN.
abbrev pub Balanced : Memory → Type 0
Balanced m = m.trials ≡ m.exits + in_half_open m.breaker.state
