-- ===== src/RuleEngine/Tests.antt =====
-- src/scoring/rule_engine.cpp: scores of the transactions of tests/test_rule_engine.cpp, and the
-- theorems at concrete inputs. The division of doubles here is exact where the divisor is a power of
-- two, and the widening where the float is positive and normal.
use ml_distributed_fraud_eng.Common.{
  ◌+◌, ◌-◌, ◌*◌, ◌/◌, ◌%◌, ◌^◌, ◌≤◌, ◌≡◌, refl, true, false, [], ◌∷◌, none, arith, inl,
}
use ml_distributed_fraud_eng.Float.{f0_85, Fpu, gt32, gt64, add32}
use ml_distributed_fraud_eng.Messages.{Transaction, UserFeatures}
use ml_distributed_fraud_eng.Text.{find}
use ml_distributed_fraud_eng.RuleEngine.{
  score, score_parsed, f0_90, f1_00, ratio_rule, amount_rule, country_rule, velocity_rule,
  miss_rule, cap_rule,
}
use ml_distributed_fraud_eng.RuleEngine.Scores.{score-le, score_parsed-alarm}
use ml_distributed_fraud_eng.RuleEngine.Country.{country_rule-csv}

abbrev pub test_fpu : Fpu
test_fpu = record {
  divide = λ a b. a + 1023 * 2 ^ 52 - b;
  widen = λ x. (x / 2 ^ 23 + 896) * 2 ^ 52 + x % 2 ^ 23 * 2 ^ 29;
}

-- 50.0 dollars in the US.
abbrev pub normal_tx : Transaction
normal_tx = record {
  tx_id = [];
  user_id = b'u' ∷ [];
  merchant_id = [];
  amount = 0x4049_0000_0000_0000;
  currency = [];
  country = b'U' ∷ b'S' ∷ [];
  timestamp_ms = 1_700_000_000_000;
  card_bin = [];
  device_id = [];
  ip_address = [];
  method = 1;
  unknown_fields = [];
}

-- An average of 64.0 dollars.
abbrev pub normal_features : UserFeatures
normal_features = record {
  tx_count_30d = 50;
  avg_amount_30d = 0x4280_0000;
  countries_30d = b'U' ∷ b'S' ∷ [];
  last_tx_ts = 1_699_999_000_000;
  risk_score = 0x3DCC_CCCD;
  is_cache_miss = false;
}

-- 9500.0 dollars from Russia, half a minute after the last transaction.
abbrev pub wild_tx : Transaction
wild_tx = record normal_tx {
  amount = 0x40C2_8E00_0000_0000;
  country = b'R' ∷ b'U' ∷ [];
  timestamp_ms = 1_699_999_030_000;
}

normal_scores_zero : score_parsed test_fpu normal_tx normal_features ≡ 0
unfolding score_parsed ratio_rule amount_rule country_rule velocity_rule miss_rule cap_rule gt64
    gt32 add32 find
normal_scores_zero = refl

-- In floats 0.3f + 0.2f + 0.25f + 0.15f is 0.9f to the last bit.
wild_scores_high : score_parsed test_fpu wild_tx normal_features ≡ f0_90
unfolding score_parsed ratio_rule amount_rule country_rule velocity_rule miss_rule cap_rule gt64
    gt32 add32 find
wild_scores_high = refl

score-le_example : score test_fpu (λ bytes. none) [] normal_features ≤ f1_00
score-le_example = score-le test_fpu (λ bytes. none) [] normal_features

score_parsed-alarm_example : gt32 (score_parsed test_fpu wild_tx normal_features) f0_85 ≡ true
unfolding gt64 gt32 find
score_parsed-alarm_example =
    (score_parsed-alarm test_fpu wild_tx normal_features).1 (refl, refl, refl, refl, inl refl)

abbrev gb_tx : Transaction
gb_tx = record wild_tx { country = b'G' ∷ b'B' ∷ [] }

abbrev us_gb : UserFeatures
us_gb = record normal_features { countries_30d = b'U' ∷ b'S' ∷ b',' ∷ b'G' ∷ b'B' ∷ [] }

country_rule-csv_example : country_rule gb_tx us_gb f0_85 ≡ f0_85
country_rule-csv_example =
    country_rule-csv (b'G', b'B') ((b'U', b'S') ∷ (b'G', b'B') ∷ []) gb_tx us_gb f0_85 (omega arith)
      (omega arith) refl refl
