-- ===== src/Metrics/Counts.antt =====
-- src/metrics/prometheus_metrics.cpp: how a sequence of calls adds up in one metric.
use ml_distributed_fraud_eng.Common.{
  ℕ, zero, suc, ◌+◌, arith, total, ◌≡◌, refl, ap, ◌∙◌, Bool, true, false, List, [], ◌∷◌, map,
  Option, none, some, if◌then◌else◌,
}
use ml_distributed_fraud_eng.Text.{str_eq}
use ml_distributed_fraud_eng.Metrics.{Key, Series, Call, latency_buckets}
use ml_distributed_fraud_eng.Metrics.Laws.{Board, bump, record_value, count_in}
use ml_distributed_fraud_eng.Metrics.Board.{apply, apply_all}

-- Which calls count for which metric.
abbrev pub is_circuit_open : Call → ℕ
is_circuit_open Call.circuit_open = 1
is_circuit_open _ = 0

abbrev pub is_dlq_poison : Call → ℕ
is_dlq_poison Call.dlq_poison = 1
is_dlq_poison _ = 0

abbrev pub is_ml_fallback : Call → ℕ
is_ml_fallback Call.ml_fallback = 1
is_ml_fallback _ = 0

abbrev pub is_routed : List ℕ → Call → ℕ
is_routed route (Call.routed other) = if str_eq route other then 1 else 0
is_routed route _ = 0

abbrev pub e2e_value : Call → Option ℕ
e2e_value (Call.e2e s) = some s
e2e_value _ = none

abbrev pub redis_value : Call → Option ℕ
redis_value (Call.redis s) = some s
redis_value _ = none

abbrev pub ml_value : Call → Option ℕ
ml_value (Call.ml s) = some s
ml_value _ = none

abbrev pub depth_value : Call → Option ℕ
depth_value (Call.depth n) = some n
depth_value _ = none

-- One for a call with a value, and one for a call with a value that counts up to a bound.
abbrev pub one : Option ℕ → ℕ
one none = 0
one (some x) = 1

abbrev pub hit : (ℕ → ℕ → Bool) → ℕ → Option ℕ → ℕ
hit within bound none = 0
hit within bound (some x) = if within x bound then 1 else 0

abbrev pub last_value : ℕ → List (Option ℕ) → ℕ
last_value x [] = x
last_value x (none ∷ os) = last_value x os
last_value x (some y ∷ os) = last_value y os

-- A counter is not there before the first call.
abbrev pub if_any : ℕ → Option Series
if_any zero = none
if_any (suc n) = some (Series.counter (suc n))

-- The histogram of the values among the calls.
abbrev pub tally : (ℕ → ℕ → Bool) → (Call → Option ℕ) → List Call → Option Series
tally within value cs = some (
    Series.histogram (map (λ b. (b, total (λ c. hit within b (value c)) cs)) latency_buckets)
      (total (λ c. one (value c)) cs))

abbrev pub bumps : ℕ → Option Series → Option Series
bumps zero o = o
bumps (suc n) o = bump (bumps n o)

abbrev pub after : (ℕ → Option Series → Option Series) → Option ℕ → Option Series → Option Series
after f none o = o
after f (some x) o = f x o

if_plus : (t : Bool) (n : ℕ) → (if t then suc n else n) ≡ n + (if t then 1 else 0)
if_plus true n = omega arith
if_plus false n = omega arith

pairs_cong :
    (f g : ℕ → ℕ) (bs : List ℕ)
    → ((b : ℕ) → f b ≡ g b)
    → map {B = ℕ × ℕ} (λ b. (b, f b)) bs ≡ map (λ b. (b, g b)) bs
pairs_cong f g [] e = refl
pairs_cong f g (b ∷ bs) e = rw (e b, pairs_cong f g bs e) refl

pub zero_plus : (n : ℕ) → 0 + n ≡ n
zero_plus n = omega arith

module _ (within : ℕ → ℕ → Bool) where
  bumps-counter : (k n : ℕ) → bumps k (some (Series.counter n)) ≡ some (Series.counter (n + k))
  bumps-counter zero n = ap (λ m. some (Series.counter m)) (omega arith)
  bumps-counter (suc k) n =
      ap bump (bumps-counter k n) ∙ ap (λ m. some (Series.counter m)) (omega arith)

  pub counter-total :
      (key : Key) (w : Call → ℕ)
      → ((c : Call) (b : Board) → apply within c b key ≡ bumps (w c) (b key))
      → (cs : List Call) (b : Board) (n : ℕ) → b key ≡ some (Series.counter n)
      → apply_all within cs b key ≡ some (Series.counter (n + total w cs))
  unfolding apply_all
  counter-total key w step [] b n e = e ∙ ap (λ m. some (Series.counter m)) (omega arith)
  counter-total key w step (c ∷ cs) b n e =
      let now = step c b ∙ ap (bumps (w c)) e ∙ bumps-counter (w c) n in
      counter-total key w step cs (apply within c b) (n + w c) now
      ∙ ap (λ m. some (Series.counter m)) (omega arith)

  count_in-map :
      (x : ℕ) (f : ℕ → ℕ) (bounds : List ℕ)
      → count_in within x (map (λ b. (b, f b)) bounds)
        ≡ map (λ b. (b, f b + hit within b (some x))) bounds
  count_in-map x f [] = refl
  count_in-map x f (b ∷ bs) = rw (if_plus (within x b) (f b), count_in-map x f bs) refl

  -- A histogram over the bounds of the source.
  abbrev pub shown : (ℕ → ℕ) → ℕ → Option Series
  shown f n = some (Series.histogram (map (λ b. (b, f b)) latency_buckets) n)

  pub shown_cong : (f g : ℕ → ℕ) (n m : ℕ) → ((b : ℕ) → f b ≡ g b) → n ≡ m → shown f n ≡ shown g m
  shown_cong f g n m e h =
      ap (λ bs. some (Series.histogram bs n)) (pairs_cong f g latency_buckets e)
      ∙ ap (λ k. some (Series.histogram (map (λ b. (b, g b)) latency_buckets) k)) h

  after-shown :
      (o : Option ℕ) (f : ℕ → ℕ) (n : ℕ)
      → after (record_value within) o (shown f n) ≡ shown (λ b. f b + hit within b o) (n + one o)
  after-shown none f n = shown_cong f (λ b. f b + 0) n (n + 0) (λ b. omega arith) (omega arith)
  after-shown (some x) f n =
      ap (λ bs. some (Series.histogram bs (suc n))) (count_in-map x f latency_buckets)
      ∙ ap
          (λ k.
            some (Series.histogram (map (λ b. (b, f b + hit within b (some x))) latency_buckets) k))
          (omega arith)

  pub values-tally :
      (key : Key) (value : Call → Option ℕ)
      → ((c : Call) (b : Board)
          → apply within c b key ≡ after (record_value within) (value c) (b key))
      → (cs : List Call) (b : Board) (f : ℕ → ℕ) (n : ℕ) → b key ≡ shown f n
      → apply_all within cs b key
        ≡ shown
            (λ d. f d + total (λ c. hit within d (value c)) cs)
            (n + total (λ c. one (value c)) cs)
  unfolding apply_all
  values-tally key value step [] b f n e =
      e ∙ shown_cong f (λ d. f d + 0) n (n + 0) (λ d. omega arith) (omega arith)
  values-tally key value step (c ∷ cs) b f n e =
      let now =
        step c b ∙ ap (after (record_value within) (value c)) e ∙ after-shown (value c) f n in
      values-tally key value step cs (apply within c b) (λ d. f d + hit within d (value c))
        (n + one (value c)) now
      ∙ shown_cong (λ d. f d + hit within d (value c) + total (λ c'. hit within d (value c')) cs)
          (λ d. f d + total (λ c'. hit within d (value c')) (c ∷ cs))
          (n + one (value c) + total (λ c'. one (value c')) cs)
          (n + total (λ c'. one (value c')) (c ∷ cs)) (λ d. omega arith) (omega arith)

  -- From a histogram without values.
  pub values-tally_all :
      (key : Key) (value : Call → Option ℕ)
      → ((c : Call) (b : Board)
          → apply within c b key ≡ after (record_value within) (value c) (b key))
      → (cs : List Call) (b : Board) → b key ≡ shown (λ d. 0) 0
      → apply_all within cs b key ≡ tally within value cs
  values-tally_all key value step cs b e =
      let hits = λ (d : ℕ). total (λ c. hit within d (value c)) cs in
      let all = total (λ c. one (value c)) cs in
      values-tally key value step cs b (λ d. 0) 0 e
      ∙ shown_cong (λ d. 0 + hits d) hits (0 + all) all (λ d. zero_plus (hits d)) (zero_plus all)
