-- ===== src/RuleEngine/Flags.antt =====
-- src/scoring/rule_engine.cpp: which rules fire, as five flags, and the score as a function of those.
use ml_distributed_fraud_eng.Common.{
  ℕ, ◌+◌, ◌^◌, ◌≡◌, Bool, true, false, not, ◌&&◌, List, ltb, leb, if◌then◌else◌, arith,
}
use ml_distributed_fraud_eng.Float.{Fpu, gt64, gt32, add32}
use ml_distributed_fraud_eng.Messages.{Transaction, UserFeatures}
use ml_distributed_fraud_eng.Text.{is_empty, find}
use ml_distributed_fraud_eng.RuleEngine.{
  f0_10, f0_15, f0_20, f0_25, f0_30, d2, d5, d5000, is_none, score_parsed, cap_rule, ratio_rule,
  velocity_rule, country_rule, amount_rule, miss_rule,
}

-- How large the amount is beside the user's average.
pub data Band : Type 0 where
  usual raised high : Band

pub record Flags : Type 0 where
  pub band : Band
  pub large : Bool
  pub new_country : Bool
  pub fast : Bool
  pub unknown : Bool

-- The user's last transaction and this one have times, and this one is at most a minute later.
abbrev pub within_minute : ℕ → ℕ → Bool
within_minute last now =
    ltb 0 last
    && ltb last (2 ^ 63)
    && ltb 0 now
    && ltb now (2 ^ 63)
    && leb last now
    && ltb now (last + 60_000)

-- The country is given, and the countries of the user are known and do not have it.
abbrev pub unseen : List ℕ → List ℕ → Bool
unseen country countries =
    not (is_empty country) && not (is_empty countries) && is_none (find country countries)

abbrev pub band_of : Fpu → ℕ → ℕ → Band
band_of fpu amount average =
    if not (gt32 average 0)
    then usual
    else if gt64 (fpu.divide amount (fpu.widen average)) d5
    then high
    else if gt64 (fpu.divide amount (fpu.widen average)) d2
    then raised
    else usual

unfoldable pub flags : Fpu → Transaction → UserFeatures → Flags
flags fpu tx features = record {
  band = band_of fpu tx.amount features.avg_amount_30d;
  large = gt64 tx.amount d5000;
  new_country = unseen tx.country features.countries_30d;
  fast = within_minute features.last_tx_ts tx.timestamp_ms;
  unknown = features.is_cache_miss;
}

abbrev add_if : Bool → ℕ → ℕ → ℕ
add_if true x total = add32 total x
add_if false x total = total

abbrev of_band : Band → ℕ
of_band usual = 0
of_band raised = add32 0 f0_10
of_band high = add32 0 f0_30

-- The score that a set of flags makes.
unfoldable pub score_of_flags : Flags → ℕ
unfolding cap_rule
score_of_flags f = cap_rule (
    add_if f.unknown f0_15
      (add_if f.fast f0_15 (add_if f.new_country f0_25 (add_if f.large f0_20 (of_band f.band)))))

ratio_rule_lem :
    (fpu : Fpu) (tx : Transaction) (u : UserFeatures)
    → ratio_rule fpu tx u 0 ≡ of_band (band_of fpu tx.amount u.avg_amount_30d)
unfolding ratio_rule
ratio_rule_lem fpu tx u = ground arith

velocity_rule_lem :
    (tx : Transaction) (u : UserFeatures) (total : ℕ)
    → velocity_rule tx u total ≡ add_if (within_minute u.last_tx_ts tx.timestamp_ms) f0_15 total
unfolding velocity_rule
velocity_rule_lem tx u total = ground arith

country_rule_lem :
    (tx : Transaction) (u : UserFeatures) (total : ℕ)
    → country_rule tx u total ≡ add_if (unseen tx.country u.countries_30d) f0_25 total
unfolding country_rule
country_rule_lem tx u total = ground arith

amount_rule_lem :
    (tx : Transaction) (total : ℕ)
    → amount_rule tx total ≡ add_if (gt64 tx.amount d5000) f0_20 total
unfolding amount_rule
amount_rule_lem tx total = ground arith

miss_rule_lem :
    (u : UserFeatures) (total : ℕ) → miss_rule u total ≡ add_if u.is_cache_miss f0_15 total
unfolding miss_rule
miss_rule_lem u total = ground arith

ruleset rules =
    (ratio_rule_lem, velocity_rule_lem, country_rule_lem, amount_rule_lem, miss_rule_lem)

-- The score of a transaction is that of its flags.
pub score_parsed-flags :
    (fpu : Fpu) (tx : Transaction) (u : UserFeatures)
    → score_parsed fpu tx u ≡ score_of_flags (flags fpu tx u)
unfolding score_parsed score_of_flags flags
score_parsed-flags fpu tx u = simp rules
