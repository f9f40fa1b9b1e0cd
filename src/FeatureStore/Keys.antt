-- ===== src/FeatureStore/Keys.antt =====
-- src/enrichment/redis_feature_store.cpp: which users share a key of Redis.
use mathlib.Core.List.{append_cancel_left, append_cancel_right}
use ml_distributed_fraud_eng.Common.{ℕ, ◌≡◌, ◌↔◌, ap, List, ◌++◌}
use ml_distributed_fraud_eng.Text.{codes}
use ml_distributed_fraud_eng.FeatureStore.{key, c_str}

-- Two users have the same key in Redis exactly if their ids are the same up to the first NUL byte.
key_iff : (u v : List ℕ) → (key u ≡ key v) ↔ (c_str u ≡ c_str v)
unfolding key
key_iff u v = (
  λ e. append_cancel_right (c_str u) (c_str v) (codes ":features") (
      append_cancel_left (codes "user:") (c_str u ++ codes ":features")
        (c_str v ++ codes ":features") e),
  λ e. ap (λ id. codes "user:" ++ (id ++ codes ":features")) e,
)
