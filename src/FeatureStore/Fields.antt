-- ===== src/FeatureStore/Fields.antt =====
-- src/enrichment/redis_feature_store.cpp, parse_reply: the order of a hash's fields.
use mathlib.Core.Bool.{Bool-set}
use mathlib.Core.List.{Permᴰ, Pairwise, mem-cons_self}
use mathlib.Core.List.Permᴰ
use ml_distributed_fraud_eng.Common.{
  ℕ, ◌≡◌, refl, sym, ap, ◌∙◌, Bool, true, false, List, [], ◌∷◌, Option, some,
}
use ml_distributed_fraud_eng.Messages.{UserFeatures}
use ml_distributed_fraud_eng.FeatureStore.{Redis, Field, field_of, assign, parse_reply}

-- Both are the same field that is known.
abbrev pub same_field : Field → Field → Bool
same_field Field.tx_count_30d Field.tx_count_30d = true
same_field Field.avg_amount_30d Field.avg_amount_30d = true
same_field Field.countries_30d Field.countries_30d = true
same_field Field.last_tx_ts Field.last_tx_ts = true
same_field Field.risk_score Field.risk_score = true
same_field _ _ = false

-- Names of fields that are not the same known one.
abbrev pub Apart : List ℕ × List ℕ → List ℕ × List ℕ → Type 0
Apart p q = same_field (field_of p.0) (field_of q.0) ≡ false

-- The elements of the reply for a hash.
abbrev pub elements : List (List ℕ × List ℕ) → List (Option (List ℕ))
elements [] = []
elements ((name, val) ∷ ps) = some name ∷ some val ∷ elements ps

module _ (redis : Redis) where
  assign_comm :
      (f g : Field) (v w : List ℕ) (u : UserFeatures)
      → same_field f g ≡ false
      → assign redis f v (assign redis g w u) ≡ assign redis g w (assign redis f v u)
  unfolding assign
  assign_comm Field.tx_count_30d Field.tx_count_30d v w u h = cc
  assign_comm Field.tx_count_30d Field.avg_amount_30d v w u h = refl
  assign_comm Field.tx_count_30d Field.countries_30d v w u h = refl
  assign_comm Field.tx_count_30d Field.last_tx_ts v w u h = refl
  assign_comm Field.tx_count_30d Field.risk_score v w u h = refl
  assign_comm Field.tx_count_30d Field.unknown v w u h = refl
  assign_comm Field.avg_amount_30d Field.tx_count_30d v w u h = refl
  assign_comm Field.avg_amount_30d Field.avg_amount_30d v w u h = cc
  assign_comm Field.avg_amount_30d Field.countries_30d v w u h = refl
  assign_comm Field.avg_amount_30d Field.last_tx_ts v w u h = refl
  assign_comm Field.avg_amount_30d Field.risk_score v w u h = refl
  assign_comm Field.avg_amount_30d Field.unknown v w u h = refl
  assign_comm Field.countries_30d Field.tx_count_30d v w u h = refl
  assign_comm Field.countries_30d Field.avg_amount_30d v w u h = refl
  assign_comm Field.countries_30d Field.countries_30d v w u h = cc
  assign_comm Field.countries_30d Field.last_tx_ts v w u h = refl
  assign_comm Field.countries_30d Field.risk_score v w u h = refl
  assign_comm Field.countries_30d Field.unknown v w u h = refl
  assign_comm Field.last_tx_ts Field.tx_count_30d v w u h = refl
  assign_comm Field.last_tx_ts Field.avg_amount_30d v w u h = refl
  assign_comm Field.last_tx_ts Field.countries_30d v w u h = refl
  assign_comm Field.last_tx_ts Field.last_tx_ts v w u h = cc
  assign_comm Field.last_tx_ts Field.risk_score v w u h = refl
  assign_comm Field.last_tx_ts Field.unknown v w u h = refl
  assign_comm Field.risk_score Field.tx_count_30d v w u h = refl
  assign_comm Field.risk_score Field.avg_amount_30d v w u h = refl
  assign_comm Field.risk_score Field.countries_30d v w u h = refl
  assign_comm Field.risk_score Field.last_tx_ts v w u h = refl
  assign_comm Field.risk_score Field.risk_score v w u h = cc
  assign_comm Field.risk_score Field.unknown v w u h = refl
  assign_comm Field.unknown Field.tx_count_30d v w u h = refl
  assign_comm Field.unknown Field.avg_amount_30d v w u h = refl
  assign_comm Field.unknown Field.countries_30d v w u h = refl
  assign_comm Field.unknown Field.last_tx_ts v w u h = refl
  assign_comm Field.unknown Field.risk_score v w u h = refl
  assign_comm Field.unknown Field.unknown v w u h = refl

  unfoldable pub assign_all : List (List ℕ × List ℕ) → UserFeatures → UserFeatures
  assign_all [] u = u
  assign_all ((name, val) ∷ ps) u = assign_all ps (assign redis (field_of name) val u)

  pub parse_reply-elements :
      (ps : List (List ℕ × List ℕ)) (u : UserFeatures)
      → parse_reply redis (elements ps) u ≡ some (assign_all ps u)
  unfolding parse_reply assign_all
  parse_reply-elements [] u = refl
  parse_reply-elements ((name, val) ∷ ps) u = parse_reply-elements ps _

  same_field_comm : (f g : Field) → same_field f g ≡ false → same_field g f ≡ false
  same_field_comm Field.tx_count_30d Field.tx_count_30d h = cc
  same_field_comm Field.tx_count_30d Field.avg_amount_30d h = refl
  same_field_comm Field.tx_count_30d Field.countries_30d h = refl
  same_field_comm Field.tx_count_30d Field.last_tx_ts h = refl
  same_field_comm Field.tx_count_30d Field.risk_score h = refl
  same_field_comm Field.tx_count_30d Field.unknown h = refl
  same_field_comm Field.avg_amount_30d Field.tx_count_30d h = refl
  same_field_comm Field.avg_amount_30d Field.avg_amount_30d h = cc
  same_field_comm Field.avg_amount_30d Field.countries_30d h = refl
  same_field_comm Field.avg_amount_30d Field.last_tx_ts h = refl
  same_field_comm Field.avg_amount_30d Field.risk_score h = refl
  same_field_comm Field.avg_amount_30d Field.unknown h = refl
  same_field_comm Field.countries_30d Field.tx_count_30d h = refl
  same_field_comm Field.countries_30d Field.avg_amount_30d h = refl
  same_field_comm Field.countries_30d Field.countries_30d h = cc
  same_field_comm Field.countries_30d Field.last_tx_ts h = refl
  same_field_comm Field.countries_30d Field.risk_score h = refl
  same_field_comm Field.countries_30d Field.unknown h = refl
  same_field_comm Field.last_tx_ts Field.tx_count_30d h = refl
  same_field_comm Field.last_tx_ts Field.avg_amount_30d h = refl
  same_field_comm Field.last_tx_ts Field.countries_30d h = refl
  same_field_comm Field.last_tx_ts Field.last_tx_ts h = cc
  same_field_comm Field.last_tx_ts Field.risk_score h = refl
  same_field_comm Field.last_tx_ts Field.unknown h = refl
  same_field_comm Field.risk_score Field.tx_count_30d h = refl
  same_field_comm Field.risk_score Field.avg_amount_30d h = refl
  same_field_comm Field.risk_score Field.countries_30d h = refl
  same_field_comm Field.risk_score Field.last_tx_ts h = refl
  same_field_comm Field.risk_score Field.risk_score h = cc
  same_field_comm Field.risk_score Field.unknown h = refl
  same_field_comm Field.unknown Field.tx_count_30d h = refl
  same_field_comm Field.unknown Field.avg_amount_30d h = refl
  same_field_comm Field.unknown Field.countries_30d h = refl
  same_field_comm Field.unknown Field.last_tx_ts h = refl
  same_field_comm Field.unknown Field.risk_score h = refl
  same_field_comm Field.unknown Field.unknown h = refl

  assign_all_perm :
      {ps qs : List (List ℕ × List ℕ)}
      → Permᴰ ps qs
      → Pairwise Apart ps
      → (u : UserFeatures) → assign_all ps u ≡ assign_all qs u
  unfolding assign_all
  assign_all_perm Permᴰ.nil h u = refl
  assign_all_perm (Permᴰ.cons {a = a} {b = b} {l₂ = l₂} e d) (Pairwise.cons h hs) u =
      assign_all_perm d hs _ ∙ ap (λ p. assign_all l₂ (assign redis (field_of p.0) p.1 u)) e
  assign_all_perm (Permᴰ.swap {a = a} {b = b} {a' = a'} {b' = b'} {l = l} p q) (Pairwise.cons h hs)
        u =
      ap (assign_all l) (
        sym (assign_comm (field_of a.0) (field_of b.0) a.1 b.1 u (h b mem-cons_self))
        ∙ (ap (λ x. assign redis (field_of x.0) x.1 (assign redis (field_of b.0) b.1 u)) p
            ∙ ap (λ y. assign redis (field_of b'.0) b'.1 (assign redis (field_of y.0) y.1 u)) q))
  assign_all_perm (Permᴰ.trans d d') h u =
      assign_all_perm d h u
      ∙ assign_all_perm d' (Permᴰ.pairwise (λ p q. Bool-set _ _) (λ p q. same_field_comm _ _) d h) u

  -- The features that a hash gives do not depend on the order in which Redis lists its fields, if no
  -- field that is known comes twice.
  pub parse_reply_perm :
      {ps qs : List (List ℕ × List ℕ)}
      → Permᴰ ps qs
      → Pairwise Apart ps
      → (u : UserFeatures) → parse_reply redis (elements ps) u ≡ parse_reply redis (elements qs) u
  parse_reply_perm {ps} {qs} d h u =
      parse_reply-elements ps u
      ∙ (ap some (assign_all_perm d h u) ∙ sym (parse_reply-elements qs u))
