-- ===== src/Codec/Merging.antt =====
-- generated/fraud.pb.cc: merging transactions.
use mathlib.Core.List.{append_assoc, append-nil}
use ml_distributed_fraud_eng.Common.{
  Bool, true, false, if◌then◌else◌, ℕ, ◌≡◌, refl, List, [], ◌∷◌, arith,
}
use ml_distributed_fraud_eng.Messages.{Transaction, FeaturesMessage}
use ml_distributed_fraud_eng.Codec.Parser.{empty}
use ml_distributed_fraud_eng.Codec.Features.{empty_features}
use ml_distributed_fraud_eng.Codec.{
  merge_features, clear_features, merge, clear, or_keep, or_keep_text,
}

or_keep_assoc : (a b c : ℕ) → or_keep (or_keep a b) c ≡ or_keep a (or_keep b c)
or_keep_assoc a b c = ground arith

or_keep_text_assoc :
    (a b c : List ℕ) → or_keep_text (or_keep_text a b) c ≡ or_keep_text a (or_keep_text b c)
or_keep_text_assoc a b [] = refl
or_keep_text_assoc a b (c ∷ cs) = refl

pub or_keep-zero : (a : ℕ) → or_keep 0 a ≡ a
or_keep-zero a = ground arith

pub or_keep_text-nil : (a : List ℕ) → or_keep_text [] a ≡ a
or_keep_text-nil [] = refl
or_keep_text-nil (c ∷ cs) = refl

ruleset merging = (or_keep_assoc, or_keep_text_assoc, or_keep-zero, or_keep_text-nil)

bool_lem : (b : Bool) → (if b then true else false) ≡ b
bool_lem true = refl
bool_lem false = refl

or_keep_bool_assoc :
    (a b c : Bool)
    → (if c then true else if b then true else a) ≡ (if (if c then true else b) then true else a)
or_keep_bool_assoc a b true = refl
or_keep_bool_assoc a b false = refl

merge_features_assoc :
    (a b c : FeaturesMessage)
    → merge_features (merge_features a b) c ≡ merge_features a (merge_features b c)
unfolding merge_features
merge_features_assoc a b c = simp (merging, or_keep_bool_assoc, append_assoc)

merge_features-clear_features :
    (a b : FeaturesMessage)
    → (merge_features (clear_features a) b ≡ b) × (merge_features b (clear_features a) ≡ b)
unfolding merge_features clear_features
merge_features-clear_features a b = (simp (merging, bool_lem), simp append-nil)

pub merge_features-empty_features : (u : FeaturesMessage) → merge_features empty_features u ≡ u
unfolding merge_features
merge_features-empty_features u = simp (merging, bool_lem)

pub merge-empty : (tx : Transaction) → merge empty tx ≡ tx
unfolding merge
merge-empty tx = simp merging

-- Merging transactions, and merging features, is associative, and a cleared message is its unit on both
-- sides: merging into one copies, and merging one in changes nothing.
pub merge_monoid :
    (a b c : Transaction) (u v w : FeaturesMessage)
    → ((merge (merge a b) c ≡ merge a (merge b c))
        × (merge (clear a) b ≡ b)
        × (merge b (clear a) ≡ b))
      × ((merge_features (merge_features u v) w ≡ merge_features u (merge_features v w))
          × (merge_features (clear_features u) v ≡ v)
          × (merge_features v (clear_features u) ≡ v))
unfolding merge clear
merge_monoid a b c u v w =
    let (p, q) = merge_features-clear_features u v in
    (
      (simp (merging, append_assoc), simp merging, simp append-nil),
      (merge_features_assoc u v w, p, q),
    )
