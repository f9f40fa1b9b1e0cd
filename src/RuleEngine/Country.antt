-- ===== src/RuleEngine/Country.antt =====
-- src/scoring/rule_engine.cpp, rule 2: a country code and the comma separated list of the known ones.
use mathlib.Core.Option
use ml_distributed_fraud_eng.Common.{
  ℕ, suc, ◌≡◌, ◌≢◌, refl, Bool, false, not, ◌&&◌, ◌||◌, List, [], ◌∷◌, Option, none, some, arith,
  All, ◌==◌, true, ◌∙◌, if◌then◌else◌, ap,
}
use ml_distributed_fraud_eng.Text.{find, starts_with, is_empty}
use ml_distributed_fraud_eng.RuleEngine.{is_none, country_rule, f0_25}
use ml_distributed_fraud_eng.Messages.{Transaction, UserFeatures}
use ml_distributed_fraud_eng.Float.{add32}

abbrev pub comma : ℕ
comma = b','

-- A two-letter code.
abbrev pub Code : Type 0
Code = ℕ × ℕ

abbrev pub text_of : Code → List ℕ
text_of (a, b) = a ∷ b ∷ []

-- The codes joined by commas.
abbrev pub csv : List Code → List ℕ
csv [] = []
csv ((a, b) ∷ []) = a ∷ b ∷ []
csv ((a, b) ∷ c ∷ cs) = a ∷ b ∷ comma ∷ csv (c ∷ cs)

abbrev pub listed : Code → List Code → Bool
listed (a, b) [] = false
listed (a, b) ((c, d) ∷ cs) = ((a == c) && (b == d)) || listed (a, b) cs

abbrev pub NoComma : Code → Type 0
NoComma (a, b) = (a ≢ comma) × (b ≢ comma)

is_none-map : (o : Option ℕ) → is_none (Option.map suc o) ≡ is_none o
is_none-map none = refl
is_none-map (some n) = refl

-- One byte of the search for two letters.
find_two :
    (a b c d : ℕ) (rest : List ℕ)
    → is_none (find (a ∷ b ∷ []) (c ∷ d ∷ rest))
      ≡ (not ((a == c) && (b == d)) && is_none (find (a ∷ b ∷ []) (d ∷ rest)))
unfolding find starts_with
find_two a b c d rest = ground (arith, is_none-map (find (a ∷ b ∷ []) (d ∷ rest)))

-- From a comma the search goes on behind it.
find-comma :
    (a b : ℕ) (rest : List ℕ)
    → a ≢ comma
    → is_none (find (a ∷ b ∷ []) (comma ∷ rest)) ≡ is_none (find (a ∷ b ∷ []) rest)
unfolding find starts_with
find-comma a b rest h = ground (arith, is_none-map (find (a ∷ b ∷ []) rest))

find_code :
    (a b c d : ℕ) (rest : List ℕ)
    → NoComma (a, b)
    → is_none (find (a ∷ b ∷ []) (c ∷ d ∷ comma ∷ rest))
      ≡ (not ((a == c) && (b == d)) && is_none (find (a ∷ b ∷ []) rest))
find_code a b c d rest h =
    rw (find_two a b c d (comma ∷ rest), find_two a b d comma rest, find-comma a b rest h.0)
      (ground arith)

-- In a list of two-letter codes joined by commas, the search for a two-letter code finds nothing
-- exactly if the code is not on the list: no match runs across a comma.
find-csv :
    (code : Code) (codes : List Code)
    → NoComma code
    → All NoComma codes
    → is_none (find (text_of code) (csv codes)) ≡ not (listed code codes)
unfolding find starts_with
find-csv (a, b) [] h hs = refl
find-csv (a, b) ((c, d) ∷ []) h hs = ground arith
find-csv (a, b) ((c, d) ∷ (e, f) ∷ cs) h hs =
    rw (find_code a b c d (csv ((e, f) ∷ cs)) h, find-csv (a, b) ((e, f) ∷ cs) h hs.1)
      (ground arith)

-- There are no known countries.
abbrev pub no_codes : List Code → Bool
no_codes [] = true
no_codes (c ∷ cs) = false

csv-is_empty : (codes : List Code) → is_empty (csv codes) ≡ no_codes codes
csv-is_empty [] = refl
csv-is_empty ((a, b) ∷ []) = refl
csv-is_empty ((a, b) ∷ c ∷ cs) = refl

country_rule-found :
    (tx : Transaction) (features : UserFeatures) (total : ℕ) (empty listed_ : Bool)
    → is_empty tx.country ≡ false
    → is_empty features.countries_30d ≡ empty
    → is_none (find tx.country features.countries_30d) ≡ not listed_
    → country_rule tx features total ≡ (if empty || listed_ then total else add32 total f0_25)
unfolding country_rule
country_rule-found tx features total empty listed_ a b c = ground arith

-- The country rule, for a transaction with a two-letter country and a user whose known countries are
-- two-letter codes joined by commas, no letter of them a comma: it adds 0.25f exactly if the user has
-- known countries and the transaction's is not one of them, and nothing otherwise; no match of the text
-- search runs across a comma.
pub country_rule-csv :
    (code : Code) (codes : List Code) (tx : Transaction) (features : UserFeatures) (total : ℕ)
    → NoComma code
    → All NoComma codes
    → tx.country ≡ text_of code
    → features.countries_30d ≡ csv codes
    → country_rule tx features total
      ≡ (if no_codes codes || listed code codes then total else add32 total f0_25)
country_rule-csv code codes tx features total h hs e f =
    country_rule-found tx features total (no_codes codes) (listed code codes) (ap is_empty e)
      (ap is_empty f ∙ csv-is_empty codes) (rw (e, f) (find-csv code codes h hs))
