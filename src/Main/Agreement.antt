-- ===== src/Main/Agreement.antt =====
-- src/main.cpp and include/config.h: the settings that both read.
use mathlib.Core.Option
use ml_distributed_fraud_eng.Common.{ℕ, ◌≡◌, ◌⊎◌, Option, none}
use ml_distributed_fraud_eng.Text.{codes}
use ml_distributed_fraud_eng.Float.{f0_85}
use ml_distributed_fraud_eng.Config.{Environment, Config, Loaded, loaded, fails}
use ml_distributed_fraud_eng.Main.{Settings, getenv_or, f0_8}

abbrev value_or {ℓ} : {A : Type ℓ} → A → Loaded A → A
value_or d (loaded a) = a
value_or d (fails text) = d

-- What holds of a value that was loaded.
abbrev Loads {ℓ κ} : {A : Type ℓ} → (A → Type κ) → Loaded A → Type κ
Loads P (loaded a) = P a
Loads P (fails text) = Unit

module _ (env : Environment) where
  -- The settings against a configuration.
  abbrev Agrees : Settings → Config → Type 0
  Agrees s c =
      (s.brokers ≡ c.kafka_brokers)
      × (s.redis_host ≡ c.redis_host)
      × (s.topic ≡ c.kafka_input_topic)
      × (s.grpc_addr ≡ c.ml_grpc_address)
      × ((s.threshold ≡ c.fraud_threshold)
          ⊎ ((env.getenv (codes "FRAUD_THRESHOLD") ≡ none)
              × (s.threshold ≡ f0_8)
              × (c.fraud_threshold ≡ f0_85)))

  -- The settings but for the threshold.
  abbrev with_threshold : ℕ → Settings
  with_threshold x = record {
    brokers = getenv_or env (env.getenv (codes "KAFKA_BROKERS")) (codes "localhost:9092");
    topic = getenv_or env (env.getenv (codes "KAFKA_TOPIC")) (codes "transactions");
    redis_host = getenv_or env (env.getenv (codes "REDIS_HOST")) (codes "localhost");
    grpc_addr = getenv_or env (env.getenv (codes "GRPC_SERVER")) (codes "localhost:50051");
    threshold = x;
  }
