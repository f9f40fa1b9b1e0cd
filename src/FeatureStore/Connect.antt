-- ===== src/FeatureStore/Connect.antt =====
-- src/enrichment/redis_feature_store.cpp: the constructor of the store.
use mathlib.Core.List.{append_assoc, append-nil, reverse-cons, reverse-reverse}
use ml_distributed_fraud_eng.Common.{ℕ, ◌≡◌, ap, ◌∙◌, List, [], ◌∷◌, ◌++◌, map, reverse}
use ml_distributed_fraud_eng.FeatureStore.{
  Connected, good, failed, null, Built, built, fails, connect,
}

-- The connections that an attempt opened.
abbrev pub opened_by : Connected → List ℕ
opened_by null = []
opened_by (failed ctx) = ctx ∷ []
opened_by (good ctx) = ctx ∷ []

-- What the constructor should do after good attempts: keep their connections, if no attempt is left;
-- if the next one fails, free all that were opened.
abbrev pub outcome : List ℕ → List Connected → Built
outcome opened [] = built (record { pool = reverse opened; discarded = [] })
outcome opened (bad ∷ rest) = fails (opened ++ opened_by bad)

abbrev IsBad : List Connected → Type 0
IsBad (good ctx ∷ rest) = ⊥
IsBad _ = Unit

reverse-append_one :
    (pool ctxs : List ℕ) (c : ℕ) → reverse (c ∷ pool) ++ ctxs ≡ reverse pool ++ c ∷ ctxs
reverse-append_one pool ctxs c =
    ap (λ xs. xs ++ ctxs) (reverse-cons c pool) ∙ append_assoc (reverse pool) (c ∷ []) ctxs

connect_from :
    (opened : List ℕ) (rest : List Connected) (pool : List ℕ)
    → IsBad rest
    → connect (map good opened ++ rest) pool ≡ outcome (reverse pool ++ opened) rest
unfolding connect
connect_from [] [] pool h = rw (append-nil, reverse-reverse)
connect_from [] (null ∷ rest) pool h = simp append-nil
connect_from [] (failed c ∷ rest) pool h = simp append-nil
connect_from [] (good c ∷ rest) pool h = absurd h
connect_from (c ∷ cs) rest pool h =
    connect_from cs rest (c ∷ pool) h ∙ ap (λ xs. outcome xs rest) (reverse-append_one pool cs c)

-- If all attempts to connect are good, then the pool holds all their connections, the last one at the
-- back; if one fails after some good ones, then the constructor throws after freeing each connection
-- that was opened exactly once, in the order in which they were opened, and makes no further attempt.
pub connect_lem :
    (opened : List ℕ) (rest : List Connected)
    → IsBad rest
    → connect (map good opened ++ rest) [] ≡ outcome opened rest
connect_lem opened rest h = connect_from opened rest [] h
