-- ===== src/Main.antt =====
-- src/main.cpp: the settings that `main` reads from the environment, and its signal handler. The lambda
-- `process` is in Engine. `std::stof` is a parameter, `none` where it throws.
pub mod Agreement
mod Tests
use mathlib.Core.Option
use ml_distributed_fraud_eng.Common.{ℕ, Bool, true, List, Option, none, some}
use ml_distributed_fraud_eng.Text.{codes}
use ml_distributed_fraud_eng.Config.{Environment}

pub record Settings : Type 0 where
  pub brokers : List ℕ
  pub topic : List ℕ
  pub redis_host : List ℕ
  pub grpc_addr : List ℕ
  pub threshold : ℕ  -- float

-- The literal 0.8f.
abbrev pub f0_8 : ℕ
f0_8 = 0x3F4C_CCCD

-- The global flag after a signal.
abbrev pub signal_handler : ℕ → Bool → Bool
signal_handler sig g_shutdown = true

module _ (env : Environment) where
  -- `std::getenv(name) ? std::getenv(name) : text`
  getenv_or : Option (List ℕ) → List ℕ → List ℕ
  getenv_or none text = text
  getenv_or (some v) text = v

  threshold_of : Option (List ℕ) → Option ℕ
  threshold_of none = some f0_8
  threshold_of (some v) = env.stof v

  unfoldable pub settings : Option Settings
  unfolding getenv_or threshold_of
  settings =
      Option.map
        (λ threshold. record {
          brokers = getenv_or (env.getenv (codes "KAFKA_BROKERS")) (codes "localhost:9092");
          topic = getenv_or (env.getenv (codes "KAFKA_TOPIC")) (codes "transactions");
          redis_host = getenv_or (env.getenv (codes "REDIS_HOST")) (codes "localhost");
          grpc_addr = getenv_or (env.getenv (codes "GRPC_SERVER")) (codes "localhost:50051");
          threshold = threshold;
        })
        (threshold_of (env.getenv (codes "FRAUD_THRESHOLD")))
