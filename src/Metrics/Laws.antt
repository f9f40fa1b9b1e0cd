-- ===== src/Metrics/Laws.antt =====
-- src/metrics/prometheus_metrics.h and .cpp: what prometheus-cpp documents of its registry.
use ml_distributed_fraud_eng.Common.{
  not, leb, ◌==◌, ℕ, suc, ◌≡◌, Bool, true, false, ◌&&◌, ◌||◌, List, [], ◌∷◌, map, Option, none,
  some, if◌then◌else◌,
}
use ml_distributed_fraud_eng.Float.{gt64}
use ml_distributed_fraud_eng.Chars.{is_digit}
use ml_distributed_fraud_eng.Text.{str_eq}
use ml_distributed_fraud_eng.Metrics.{Prometheus, Kind, Key, Series}

unfoldable pub same_labels : List (List ℕ × List ℕ) → List (List ℕ × List ℕ) → Bool
same_labels [] [] = true
same_labels [] (l ∷ ls) = false
same_labels (l ∷ ls) [] = false
same_labels ((a, b) ∷ ls) ((c, d) ∷ ms) = str_eq a c && (str_eq b d && same_labels ls ms)

abbrev pub same_key : Key → Key → Bool
same_key (name, labels) (name', labels') = str_eq name name' && same_labels labels labels'

-- What scrapes show, key by key, and one key's entry changed.
abbrev pub Board : Type 0
Board = Key → Option Series

unfoldable pub at : Key → (Option Series → Option Series) → Board → Board
at key change board k = if same_key k key then change (board k) else board k

-- A metric is made at the first call with its labels.
abbrev pub or_fresh : Kind → List ℕ → Option Series → Option Series
or_fresh kind bounds (some s) = some s
or_fresh Kind.a_counter bounds none = some (Series.counter 0)
or_fresh Kind.a_histogram bounds none = some (Series.histogram (map (λ b. (b, 0)) bounds) 0)
or_fresh Kind.a_gauge bounds none = some (Series.gauge 0)

abbrev pub bump : Option Series → Option Series
bump (some (Series.counter n)) = some (Series.counter (suc n))
bump other = other

abbrev pub count_in : (ℕ → ℕ → Bool) → ℕ → List (ℕ × ℕ) → List (ℕ × ℕ)
count_in within x [] = []
count_in within x ((b, n) ∷ bs) = (b, if within x b then suc n else n) ∷ count_in within x bs

abbrev pub record_value : (ℕ → ℕ → Bool) → ℕ → Option Series → Option Series
record_value within x (some (Series.histogram bs n)) =
    some (Series.histogram (count_in within x bs) (suc n))
record_value within x other = other

abbrev pub replace_value : ℕ → Option Series → Option Series
replace_value x (some (Series.gauge y)) = some (Series.gauge x)
replace_value x other = other

abbrev pub contains : List ℕ → List (List ℕ) → Bool
contains name [] = false
contains name (n ∷ ns) = str_eq name n || contains name ns

-- A letter or an underscore.
abbrev is_letter : ℕ → Bool
is_letter c = (leb b'a' c && leb c b'z') || (leb b'A' c && leb c b'Z') || (c == b'_')

abbrev all_letters : List ℕ → Bool
all_letters [] = true
all_letters (c ∷ cs) = (is_letter c || is_digit c) && all_letters cs

-- The form of a name of a metric or of a label.
abbrev is_name : List ℕ → Bool
is_name [] = false
is_name (c ∷ cs) = is_letter c && all_letters (c ∷ cs)

abbrev named : List (List ℕ × List ℕ) → Bool
named [] = true
named ((label, value) ∷ ls) = is_name label && named ls

abbrev above : ℕ → List ℕ → Bool
above a [] = true
above a (b ∷ bs) = gt64 b a && above b bs

abbrev increasing : List ℕ → Bool
increasing [] = true
increasing (a ∷ bs) = above a bs

-- What prometheus-cpp throws on if it is not met: a family has a well-formed name that is not in use, and
-- a metric well-formed labels and strictly increasing bounds.
unfoldable pub can_register : List ℕ → List (List ℕ) → Bool
can_register name names = is_name name && not (contains name names)

unfoldable pub can_add : List (List ℕ × List ℕ) → List ℕ → Bool
can_add labels bounds = named labels && increasing bounds

-- What a handle stands for lasts as long as the registry. A name that can be registered gets a family
-- of its own; the same labels in a family give the same metric; an increment, an observation and a
-- setting change the entry of their metric only.
pub record IsLawful (P : Prometheus) : Type 1 where
  pub FamilyOf : P.Family → Kind → List ℕ → Type 0
  pub MetricOf : P.Metric → Kind → Key → Type 0
  pub names : P.Registry → List (List ℕ)
  pub new_names : names P.new_registry ≡ []
  pub new_collect : (k : Key) → P.collect P.new_registry k ≡ none
  pub register_family :
      (kind : Kind) (name help : List ℕ) (r : P.Registry)
      → can_register name (names r) ≡ true
      → FamilyOf (P.register kind name help r).0 kind name
  pub register_names :
      (kind : Kind) (name help : List ℕ) (r : P.Registry)
      → can_register name (names r) ≡ true
      → names (P.register kind name help r).1 ≡ name ∷ names r
  pub register_collect :
      (kind : Kind) (name help : List ℕ) (r : P.Registry) (k : Key)
      → can_register name (names r) ≡ true
      → P.collect (P.register kind name help r).1 k ≡ P.collect r k
  pub add_metric :
      (f : P.Family) (kind : Kind) (name : List ℕ) (labels : List (List ℕ × List ℕ))
      (bounds : List ℕ) (r : P.Registry)
      → FamilyOf f kind name
      → can_add labels bounds ≡ true
      → MetricOf (P.add f labels bounds r).0 kind (name, labels)
  pub add_names :
      (f : P.Family) (labels : List (List ℕ × List ℕ)) (bounds : List ℕ) (r : P.Registry)
      → can_add labels bounds ≡ true
      → names (P.add f labels bounds r).1 ≡ names r
  pub add_collect :
      (f : P.Family) (kind : Kind) (name : List ℕ) (labels : List (List ℕ × List ℕ))
      (bounds : List ℕ) (r : P.Registry) (k : Key)
      → FamilyOf f kind name
      → can_add labels bounds ≡ true
      → P.collect (P.add f labels bounds r).1 k
        ≡ at (name, labels) (or_fresh kind bounds) (P.collect r) k
  pub increment_collect :
      (m : P.Metric) (key : Key) (r : P.Registry) (k : Key)
      → MetricOf m Kind.a_counter key
      → P.collect (P.increment m r) k ≡ at key bump (P.collect r) k
  pub observe_collect :
      (m : P.Metric) (key : Key) (x : ℕ) (r : P.Registry) (k : Key)
      → MetricOf m Kind.a_histogram key
      → P.collect (P.observe m x r) k ≡ at key (record_value P.within x) (P.collect r) k
  pub set_collect :
      (m : P.Metric) (key : Key) (x : ℕ) (r : P.Registry) (k : Key)
      → MetricOf m Kind.a_gauge key
      → P.collect (P.set m x r) k ≡ at key (replace_value x) (P.collect r) k
