-- ===== src/Config/Tests.antt =====
-- include/config.h: environments with a few variables, and the theorems for them.
use ml_distributed_fraud_eng.Common.{◌≡◌, ◌++◌, refl, arith, none, some, if◌then◌else◌}
use ml_distributed_fraud_eng.Text.{codes, str_eq}
use ml_distributed_fraud_eng.Chars.{number, digit_run}
use ml_distributed_fraud_eng.Chars.Decimal.{decimal}
use ml_distributed_fraud_eng.Config.{
  Environment, loaded, env_int, from_env, stoi, skip_space, signed_int, plus_int, minus_int,
}
use ml_distributed_fraud_eng.Config.Prefix.{env_int-prefix}
use ml_distributed_fraud_eng.Config.Loading.{from_env-first_wrong, first_wrong, numbers, error_of}

-- The port of Redis is misspelt, and the pool's size is 12.
abbrev misspelt : Environment
misspelt = record {
  getenv = λ name.
      if str_eq name (codes "REDIS_PORT")
      then some (codes "redis")
      else if str_eq name (codes "REDIS_POOL_SIZE")
      then some (decimal 12)
      else none;
  stof = λ text. none;
}

-- What follows the digits is not looked at.
stoi_ignores_rest : stoi (codes " 6379abc") ≡ some 6379
unfolding stoi skip_space signed_int plus_int digit_run number
stoi_ignores_rest = refl

stoi_negative : stoi (codes "-1") ≡ some 0xFFFF_FFFF
unfolding stoi skip_space signed_int minus_int digit_run number
stoi_negative = refl

from_env-first_wrong_example : error_of (from_env misspelt) ≡ first_wrong misspelt numbers
from_env-first_wrong_example = from_env-first_wrong misspelt

-- A port that is misspelt.
abbrev port_abc : Environment
port_abc = record { getenv = λ name. some (decimal 6379 ++ codes "abc"); stof = λ text. none }

env_int-prefix_example : env_int port_abc (codes "REDIS_PORT") 1 ≡ loaded 6379
unfolding digit_run
env_int-prefix_example =
    env_int-prefix port_abc (codes "REDIS_PORT") 6379 1 (codes "abc") refl refl (omega arith)
