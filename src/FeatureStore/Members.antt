-- ===== src/FeatureStore/Members.antt =====
-- src/enrichment/redis_feature_store.cpp, parse_reply: what one member is after all fields of a hash.
use ml_distributed_fraud_eng.Common.{
  ℕ, ◌+◌, ◌-◌, ◌^◌, ◌%◌, ◌≤◌, ◌<◌, ◌≡◌, refl, ◌∙◌, List, [], ◌∷◌, arith, All, ◌⊎◌, inl, inr, ltb,
  Bool-cases, ltb→lt, sym, subst, if◌then◌else◌,
}
use ml_distributed_fraud_eng.Messages.{UserFeatures}
use ml_distributed_fraud_eng.Chars.{from_chars}
use ml_distributed_fraud_eng.Chars.Decimal.{decimal, from_chars-decimal, from_chars-negative}
use ml_distributed_fraud_eng.FeatureStore.{Redis, Field, assign, field_of}
use ml_distributed_fraud_eng.FeatureStore.Fields.{assign_all}

-- The decimal text of a signed integer of `w` bits.
unfoldable pub numeral : ℕ → ℕ → List ℕ
numeral w x = if ltb x (2 ^ (w - 1)) then decimal x else b'-' ∷ decimal (2 ^ w - x)

-- What stands in a hash under the name of a field: the member of the features in decimal, the text of a
-- float, or the countries; anything under another name.
abbrev pub Under : (ℕ → List ℕ) → UserFeatures → Field → List ℕ → Type 0
Under text u Field.tx_count_30d v = v ≡ numeral 32 u.tx_count_30d
Under text u Field.avg_amount_30d v = v ≡ text u.avg_amount_30d
Under text u Field.countries_30d v = v ≡ u.countries_30d
Under text u Field.last_tx_ts v = v ≡ numeral 64 u.last_tx_ts
Under text u Field.risk_score v = v ≡ text u.risk_score
Under text u Field.unknown v = Unit

abbrev pub Written : (ℕ → List ℕ) → UserFeatures → List ℕ × List ℕ → Type 0
Written text u (name, v) = Under text u (field_of name) v

-- The hash has a field.
abbrev pub Has : Field → List (List ℕ × List ℕ) → Type 0
Has f [] = ⊥
Has f ((name, v) ∷ ps) = (field_of name ≡ f) ⊎ Has f ps

module _ (w : ℕ) (half : 2 ^ w ≡ 2 ^ (w - 1) + 2 ^ (w - 1))
    (wraps : (x : ℕ) → x < 2 ^ w → x % 2 ^ w ≡ x) where
  -- `std::from_chars` reads the text of any integer of `w` bits back.
  from_chars-numeral : (x old : ℕ) → x < 2 ^ w → from_chars w (numeral w x) old ≡ x
  unfolding numeral
  from_chars-numeral x old h = elim (Bool-cases (ltb x (2 ^ (w - 1)))) [
    | inl small ↦ rw small (from_chars-decimal w x old (ltb→lt x (2 ^ (w - 1)) small))
    | inr large ↦
        let back : 2 ^ w - (2 ^ w - x) ≡ x = omega arith in
        let fits : 2 ^ w - x ≤ 2 ^ (w - 1) = ground arith in
        rw large (from_chars-negative w (2 ^ w - x) old fits ∙ rw back (wraps x h))
  ]

pub same_features :
    (r u : UserFeatures)
    → r.tx_count_30d ≡ u.tx_count_30d
    → r.avg_amount_30d ≡ u.avg_amount_30d
    → r.countries_30d ≡ u.countries_30d
    → r.last_tx_ts ≡ u.last_tx_ts
    → r.risk_score ≡ u.risk_score
    → r.is_cache_miss ≡ u.is_cache_miss
    → r ≡ u
same_features r u a b c d e f = cc

module _ (redis : Redis) (text : ℕ → List ℕ) (u : UserFeatures) where
  -- `from_chars` reads the text of a float back.
  abbrev pub Reads : ℕ → Type 0
  Reads x = (old : ℕ) → redis.float_from_chars (text x) old ≡ x

  -- A member that every field keeps once it is right, and its own field sets.
  pub settles :
      {A : Type 0} (member : UserFeatures → A) (f : Field)
      → ((k : Field) (v : List ℕ) (old : UserFeatures)
          → Under text u k v
          → member old ≡ member u
          → member (assign redis k v old) ≡ member u)
      → ((v : List ℕ) (old : UserFeatures)
          → Under text u f v
          → member (assign redis f v old) ≡ member u)
      → (ps : List (List ℕ × List ℕ)) (old : UserFeatures) → All (Written text u) ps
      → Has f ps ⊎ (member old ≡ member u)
      → member (assign_all redis ps old) ≡ member u
  unfolding assign_all
  settles member f keeps sets [] old h (inl none_) = absurd none_
  settles member f keeps sets [] old h (inr e) = e
  settles member f keeps sets ((name, v) ∷ ps) old (h, hs) (inl (inl e)) =
      settles member f keeps sets ps _ hs (
        inr (
          subst (λ k. Under text u k v → member (assign redis k v old) ≡ member u) (sym e)
            (sets v old) h))
  settles member f keeps sets ((name, v) ∷ ps) old (h, hs) (inl (inr later)) =
      settles member f keeps sets ps _ hs (inl later)
  settles member f keeps sets ((name, v) ∷ ps) old (h, hs) (inr e) =
      settles member f keeps sets ps _ hs (inr (keeps (field_of name) v old h e))

  assign-miss :
      (k : Field) (v : List ℕ) (old : UserFeatures)
      → (assign redis k v old).is_cache_miss ≡ old.is_cache_miss
  unfolding assign
  assign-miss Field.tx_count_30d v old = refl
  assign-miss Field.avg_amount_30d v old = refl
  assign-miss Field.countries_30d v old = refl
  assign-miss Field.last_tx_ts v old = refl
  assign-miss Field.risk_score v old = refl
  assign-miss Field.unknown v old = refl

  pub assign_all-miss :
      (ps : List (List ℕ × List ℕ)) (old : UserFeatures)
      → (assign_all redis ps old).is_cache_miss ≡ old.is_cache_miss
  unfolding assign_all
  assign_all-miss [] old = refl
  assign_all-miss ((name, v) ∷ ps) old = assign_all-miss ps _ ∙ assign-miss (field_of name) v old

  pub tx_count_30d-set :
      (v : List ℕ) (old : UserFeatures)
      → u.tx_count_30d < 2 ^ 32
      → Under text u Field.tx_count_30d v
      → (assign redis Field.tx_count_30d v old).tx_count_30d ≡ u.tx_count_30d
  unfolding assign
  tx_count_30d-set v old a h =
      rw h
        (from_chars-numeral 32 (omega arith) (λ x l. omega arith) u.tx_count_30d old.tx_count_30d a)

  pub tx_count_30d-kept :
      (k : Field) (v : List ℕ) (old : UserFeatures)
      → u.tx_count_30d < 2 ^ 32
      → Under text u k v
      → old.tx_count_30d ≡ u.tx_count_30d
      → (assign redis k v old).tx_count_30d ≡ u.tx_count_30d
  unfolding assign
  tx_count_30d-kept Field.tx_count_30d v old a h e = tx_count_30d-set v old a h
  tx_count_30d-kept Field.avg_amount_30d v old a h e = e
  tx_count_30d-kept Field.countries_30d v old a h e = e
  tx_count_30d-kept Field.last_tx_ts v old a h e = e
  tx_count_30d-kept Field.risk_score v old a h e = e
  tx_count_30d-kept Field.unknown v old a h e = e

  pub avg_amount_30d-set :
      (v : List ℕ) (old : UserFeatures)
      → Reads u.avg_amount_30d
      → Under text u Field.avg_amount_30d v
      → (assign redis Field.avg_amount_30d v old).avg_amount_30d ≡ u.avg_amount_30d
  unfolding assign
  avg_amount_30d-set v old a h = rw h (a old.avg_amount_30d)

  pub avg_amount_30d-kept :
      (k : Field) (v : List ℕ) (old : UserFeatures)
      → Reads u.avg_amount_30d
      → Under text u k v
      → old.avg_amount_30d ≡ u.avg_amount_30d
      → (assign redis k v old).avg_amount_30d ≡ u.avg_amount_30d
  unfolding assign
  avg_amount_30d-kept Field.tx_count_30d v old a h e = e
  avg_amount_30d-kept Field.avg_amount_30d v old a h e = avg_amount_30d-set v old a h
  avg_amount_30d-kept Field.countries_30d v old a h e = e
  avg_amount_30d-kept Field.last_tx_ts v old a h e = e
  avg_amount_30d-kept Field.risk_score v old a h e = e
  avg_amount_30d-kept Field.unknown v old a h e = e

  pub countries_30d-set :
      (v : List ℕ) (old : UserFeatures)
      → Under text u Field.countries_30d v
      → (assign redis Field.countries_30d v old).countries_30d ≡ u.countries_30d
  unfolding assign
  countries_30d-set v old h = h

  pub countries_30d-kept :
      (k : Field) (v : List ℕ) (old : UserFeatures)
      → Under text u k v
      → old.countries_30d ≡ u.countries_30d
      → (assign redis k v old).countries_30d ≡ u.countries_30d
  unfolding assign
  countries_30d-kept Field.tx_count_30d v old h e = e
  countries_30d-kept Field.avg_amount_30d v old h e = e
  countries_30d-kept Field.countries_30d v old h e = countries_30d-set v old h
  countries_30d-kept Field.last_tx_ts v old h e = e
  countries_30d-kept Field.risk_score v old h e = e
  countries_30d-kept Field.unknown v old h e = e

  pub last_tx_ts-set :
      (v : List ℕ) (old : UserFeatures)
      → u.last_tx_ts < 2 ^ 64
      → Under text u Field.last_tx_ts v
      → (assign redis Field.last_tx_ts v old).last_tx_ts ≡ u.last_tx_ts
  unfolding assign
  last_tx_ts-set v old a h =
      rw h (from_chars-numeral 64 (omega arith) (λ x l. omega arith) u.last_tx_ts old.last_tx_ts a)

  pub last_tx_ts-kept :
      (k : Field) (v : List ℕ) (old : UserFeatures)
      → u.last_tx_ts < 2 ^ 64
      → Under text u k v
      → old.last_tx_ts ≡ u.last_tx_ts
      → (assign redis k v old).last_tx_ts ≡ u.last_tx_ts
  unfolding assign
  last_tx_ts-kept Field.tx_count_30d v old a h e = e
  last_tx_ts-kept Field.avg_amount_30d v old a h e = e
  last_tx_ts-kept Field.countries_30d v old a h e = e
  last_tx_ts-kept Field.last_tx_ts v old a h e = last_tx_ts-set v old a h
  last_tx_ts-kept Field.risk_score v old a h e = e
  last_tx_ts-kept Field.unknown v old a h e = e

  pub risk_score-set :
      (v : List ℕ) (old : UserFeatures)
      → Reads u.risk_score
      → Under text u Field.risk_score v
      → (assign redis Field.risk_score v old).risk_score ≡ u.risk_score
  unfolding assign
  risk_score-set v old a h = rw h (a old.risk_score)

  pub risk_score-kept :
      (k : Field) (v : List ℕ) (old : UserFeatures)
      → Reads u.risk_score
      → Under text u k v
      → old.risk_score ≡ u.risk_score
      → (assign redis k v old).risk_score ≡ u.risk_score
  unfolding assign
  risk_score-kept Field.tx_count_30d v old a h e = e
  risk_score-kept Field.avg_amount_30d v old a h e = e
  risk_score-kept Field.countries_30d v old a h e = e
  risk_score-kept Field.last_tx_ts v old a h e = e
  risk_score-kept Field.risk_score v old a h e = risk_score-set v old a h
  risk_score-kept Field.unknown v old a h e = e
