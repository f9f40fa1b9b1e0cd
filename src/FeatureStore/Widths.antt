-- ===== src/FeatureStore/Widths.antt =====
-- src/enrichment/redis_feature_store.cpp: the features that a lookup returns fit the types of their
-- members, whatever Redis replies.
use ml_distributed_fraud_eng.Common.{
  ℕ, ◌-◌, ◌^◌, ◌≤◌, ◌<◌, Bool, true, false, List, [], ◌∷◌, Option, none, some, arith, if◌then◌else◌,
}
use ml_distributed_fraud_eng.Messages.{UserFeatures, default_features}
use ml_distributed_fraud_eng.Chars.{from_chars, positive_value, negative_value, digit_run}
use ml_distributed_fraud_eng.FeatureStore.{
  Redis, Reply, Field, field_of, assign, parse_reply, range, missing, is_miss, Store, Lookup,
  returns, throws, undefined, or_undefined, features_of, get_with, get_from, get_features,
}

-- An int or a float is a pattern of 32 bits, an int64_t one of 64.
abbrev pub Fits : UserFeatures → Type 0
Fits u =
    (u.tx_count_30d < 2 ^ 32)
    × (u.avg_amount_30d < 2 ^ 32)
    × (u.last_tx_ts < 2 ^ 64)
    × (u.risk_score < 2 ^ 32)

-- std::from_chars to a float leaves a float, where there was one.
abbrev pub KeepsFloats : Redis → Type 0
KeepsFloats redis =
    (val : List ℕ) (old : ℕ) → old < 2 ^ 32 → redis.float_from_chars val old < 2 ^ 32

module _ (w : ℕ) (half : 2 ^ (w - 1) ≤ 2 ^ w) (some_ : 0 < 2 ^ w) where
  positive_value-lt : (ds : List ℕ) (old : ℕ) → old < 2 ^ w → positive_value w ds old < 2 ^ w
  unfolding positive_value
  positive_value-lt [] old h = h
  positive_value-lt (c ∷ cs) old h = ground arith

  negative_value-lt : (ds : List ℕ) (old : ℕ) → old < 2 ^ w → negative_value w ds old < 2 ^ w
  unfolding negative_value
  negative_value-lt [] old h = h
  negative_value-lt (c ∷ cs) old h = ground arith

  pub from_chars-lt : (val : List ℕ) (old : ℕ) → old < 2 ^ w → from_chars w val old < 2 ^ w
  unfolding from_chars
  from_chars-lt [] old h = h
  from_chars-lt (c ∷ cs) old h =
      ground (
        arith,
        negative_value-lt (digit_run cs) old h,
        positive_value-lt (digit_run (c ∷ cs)) old h,
      )

-- What holds of the value of an option, or of a lookup that returns.
abbrev IfSome : (UserFeatures → Type 0) → Option UserFeatures → Type 0
IfSome P none = Unit
IfSome P (some u) = P u

abbrev pub Returns : (UserFeatures → Type 0) → Lookup UserFeatures → Type 0
Returns P (returns u) = P u
Returns P throws = Unit
Returns P undefined = Unit

module _ (redis : Redis) (floats : KeepsFloats redis) where
  assign-Fits : (f : Field) (val : List ℕ) (u : UserFeatures) → Fits u → Fits (assign redis f val u)
  unfolding assign
  assign-Fits Field.tx_count_30d val u (count, average, last, risk) =
      (from_chars-lt 32 (omega arith) (omega arith) val u.tx_count_30d count, average, last, risk)
  assign-Fits Field.avg_amount_30d val u (count, average, last, risk) =
      (count, floats val u.avg_amount_30d average, last, risk)
  assign-Fits Field.countries_30d val u h = h
  assign-Fits Field.last_tx_ts val u (count, average, last, risk) =
      (count, average, from_chars-lt 64 (omega arith) (omega arith) val u.last_tx_ts last, risk)
  assign-Fits Field.risk_score val u (count, average, last, risk) =
      (count, average, last, floats val u.risk_score risk)
  assign-Fits Field.unknown val u h = h

  parse_reply-Fits :
      (es : List (Option (List ℕ))) (u : UserFeatures)
      → Fits u
      → IfSome Fits (parse_reply redis es u)
  unfolding parse_reply
  parse_reply-Fits [] u h = h
  parse_reply-Fits (name ∷ []) u h = tt
  parse_reply-Fits (none ∷ val ∷ rest) u h = tt
  parse_reply-Fits (some name ∷ val ∷ rest) u h =
      parse_reply-Fits rest (assign redis (field_of name) (range val) u)
        (assign-Fits (field_of name) (range val) u h)

  default_Fits : Fits default_features
  default_Fits = omega arith

  if-Fits :
      (b : Bool) (o : Option UserFeatures)
      → IfSome Fits o
      → IfSome Fits (if b then some missing else o)
  if-Fits true o h = default_Fits
  if-Fits false o h = h

  features_of-Fits : (r : Reply) → IfSome Fits (features_of redis r)
  unfolding features_of
  features_of-Fits r =
      if-Fits (is_miss r) _ (parse_reply-Fits r.element default_features default_Fits)

  or_undefined-Returns : (o : Option UserFeatures) → IfSome Fits o → Returns Fits (or_undefined o)
  or_undefined-Returns none h = tt
  or_undefined-Returns (some u) h = h

  get_with-Fits : (ctx : ℕ) (o : Option Reply) (s : Store) → Returns Fits (get_with redis ctx o s).0
  unfolding get_with
  get_with-Fits ctx none s = tt
  get_with-Fits ctx (some r) s = or_undefined-Returns _ (features_of-Fits r)

  get_from-Fits :
      (q : Option ℕ × Store) (user_id : List ℕ) → Returns Fits (get_from redis q user_id).0
  unfolding get_from
  get_from-Fits (none, s) user_id = default_Fits
  get_from-Fits (some ctx, s) user_id = get_with-Fits ctx _ s

  -- Whatever Redis replies, with what std::from_chars to a float leaves a float: the features that a
  -- lookup returns fit the types of their members, the two integers that are read from text included.
  pub get_features-Fits :
      (user_id : List ℕ) (s : Store) → Returns Fits (get_features redis user_id s).0
  unfolding get_features
  get_features-Fits user_id s = get_from-Fits _ user_id
