-- ===== src/RuleEngine.antt =====
-- src/scoring/rule_engine.cpp: the fallback scorer. Parsing the serialized transaction is a parameter,
-- `none` where `ParseFromString` returns false; scores are floats, as patterns.
pub mod Flags
pub mod Scores
pub mod Country
mod Tests
use ml_distributed_fraud_eng.Common.{
  ℕ, ◌+◌, ◌-◌, ◌%◌, ◌^◌, Bool, true, false, not, ◌&&◌, List, Option, none, some, ltb, if◌then◌else◌,
}
use ml_distributed_fraud_eng.Float.{Fpu, gt64, gt32, add32}
use ml_distributed_fraud_eng.Messages.{Transaction, UserFeatures}
use ml_distributed_fraud_eng.Text.{is_empty, find}

-- The float literals 0.1f, 0.15f, 0.2f, 0.25f, 0.3f, 0.9f and 1.0f.
abbrev pub f0_10 : ℕ
f0_10 = 0x3DCC_CCCD

abbrev pub f0_15 : ℕ
f0_15 = 0x3E19_999A

abbrev pub f0_20 : ℕ
f0_20 = 0x3E4C_CCCD

abbrev pub f0_25 : ℕ
f0_25 = 0x3E80_0000

abbrev pub f0_30 : ℕ
f0_30 = 0x3E99_999A

abbrev pub f0_90 : ℕ
f0_90 = 0x3F66_6666

abbrev pub f1_00 : ℕ
f1_00 = 0x3F80_0000

-- The double literals 2.0, 5.0 and 5000.0.
abbrev pub d2 : ℕ
d2 = 0x4000_0000_0000_0000

abbrev pub d5 : ℕ
d5 = 0x4014_0000_0000_0000

abbrev pub d5000 : ℕ
d5000 = 0x40B3_8800_0000_0000

-- `a > 0` on an int64_t.
abbrev pub positive64 : ℕ → Bool
positive64 a = ltb 0 a && ltb a (2 ^ 63)

abbrev pub is_none {ℓ} : {A : Type ℓ} → Option A → Bool
is_none none = true
is_none (some a) = false

module _ (fpu : Fpu) where
  -- Rule 1, first part: the ratio to the average.
  pub ratio_rule : Transaction → UserFeatures → ℕ → ℕ
  ratio_rule tx features total =
      if gt32 features.avg_amount_30d 0
      then (let ratio = fpu.divide tx.amount (fpu.widen features.avg_amount_30d) in
          if gt64 ratio d5
          then add32 total f0_30
          else if gt64 ratio d2
          then add32 total f0_10
          else total)
      else total

-- Rule 1, second part.
pub amount_rule : Transaction → ℕ → ℕ
amount_rule tx total = if gt64 tx.amount d5000 then add32 total f0_20 else total

-- Rule 2.
pub country_rule : Transaction → UserFeatures → ℕ → ℕ
country_rule tx features total =
    if not (is_empty tx.country) && not (is_empty features.countries_30d)
    then (if is_none (find tx.country features.countries_30d) then add32 total f0_25 else total)
    else total

-- Rule 3. The difference wraps; `gap_ms >= 0` is a test of the sign bit.
pub velocity_rule : Transaction → UserFeatures → ℕ → ℕ
velocity_rule tx features total =
    if positive64 features.last_tx_ts && positive64 tx.timestamp_ms
    then (let gap_ms = (tx.timestamp_ms + 2 ^ 64 - features.last_tx_ts) % 2 ^ 64 in
        if ltb gap_ms (2 ^ 63) && ltb gap_ms 60_000 then add32 total f0_15 else total)
    else total

-- Rule 4.
pub miss_rule : UserFeatures → ℕ → ℕ
miss_rule features total = if features.is_cache_miss then add32 total f0_15 else total

-- `std::min(total, 1.0f)`
pub cap_rule : ℕ → ℕ
cap_rule total = if gt32 total f1_00 then f1_00 else total

-- The rules in order, from a total of 0.
unfoldable pub score_parsed : Fpu → Transaction → UserFeatures → ℕ
score_parsed fpu tx features = cap_rule (
    miss_rule features (
      velocity_rule tx features
        (country_rule tx features (amount_rule tx (ratio_rule fpu tx features 0)))))

module _ (fpu : Fpu) (parse : List ℕ → Option Transaction) where
  score_of : Option Transaction → UserFeatures → ℕ
  score_of none features = f0_90
  score_of (some tx) features = score_parsed fpu tx features

  unfoldable pub score : List ℕ → UserFeatures → ℕ
  unfolding score_of
  score serialized_tx features = score_of (parse serialized_tx) features
