-- ===== src/FeatureStore/Pool.antt =====
-- src/enrichment/redis_feature_store.cpp: where the connections go in a series of lookups.
use mathlib.Core.List.{append_assoc, append-nil, reverse-cons, reverse-append}
use ml_distributed_fraud_eng.Common.{
  ℕ, ◌≡◌, refl, sym, ap, subst, ◌∙◌, Bool, true, false, List, [], ◌∷◌, ◌++◌, map, Option, none,
  some, arith, reverse, inl, inr, ◌⊎◌,
}
use ml_distributed_fraud_eng.Messages.{UserFeatures}
use ml_distributed_fraud_eng.FeatureStore.{
  Redis, Reply, Store, Connected, Built, built, fails, connect, destruct, get_features,
  get_features_pipelined, read_replies, key,
}

-- One lookup by a client.
pub data Request : Type 0 where
  single : List ℕ → Request
  batch : List (List ℕ) → Request

-- A lookup leaves the store alone, or moves the connection at the back of the pool to the discarded.
abbrev Move : Store → Store → Type 0
Move s t =
    (t ≡ s)
    ⊎ ((ctx : ℕ) × (rest : List ℕ) × (s.pool ≡ ctx ∷ rest)
        × (t ≡ record { pool = rest; discarded = ctx ∷ s.discarded }))

module _ (redis : Redis) where
  pub serve : Request → Store → Store
  serve (single user_id) s = (get_features redis user_id s).1
  serve (batch user_ids) s = (get_features_pipelined redis user_ids s).1

  single-Move :
      (u : List ℕ) (s : Store) (ctx : ℕ) (rest : List ℕ) (r : Option Reply)
      → s.pool ≡ ctx ∷ rest
      → redis.command ctx (key u) ≡ r
      → Move s (get_features redis u s).1
  unfolding get_features
  single-Move u s ctx rest none e h = inr (ctx, rest, e, ground arith)
  single-Move u s ctx rest (some r) e h = inl (ground arith)

  batch-Move :
      (us : List (List ℕ)) (s : Store) (ctx : ℕ) (rest : List ℕ)
      (r : Option (List UserFeatures × Bool))
      → s.pool ≡ ctx ∷ rest
      → read_replies redis (redis.get_reply ctx (map key us)) 0 us ≡ r
      → Move s (get_features_pipelined redis us s).1
  unfolding get_features_pipelined
  batch-Move us s ctx rest none e h = inl (ground arith)
  batch-Move us s ctx rest (some (fs, true)) e h = inl (ground arith)
  batch-Move us s ctx rest (some (fs, false)) e h = inr (ctx, rest, e, ground arith)

  serve-Move : (r : Request) (s : Store) (pool : List ℕ) → s.pool ≡ pool → Move s (serve r s)
  unfolding serve get_features get_features_pipelined
  serve-Move (single u) s [] e = inl (ground arith)
  serve-Move (single u) s (ctx ∷ rest) e = single-Move u s ctx rest _ e refl
  serve-Move (batch us) s [] e = inl (ground arith)
  serve-Move (batch us) s (ctx ∷ rest) e = batch-Move us s ctx rest _ e refl

-- A series of lookups, each with hiredis as it answers then.
pub serve_all : List (Redis × Request) → Store → Store
serve_all [] s = s
serve_all ((redis, r) ∷ rs) s = serve_all rs (serve redis r s)

-- Connections that went from the back of the first pool to the discarded, the last one first.
abbrev pub Loses : Store → Store → Type 0
Loses s t =
    (gone : List ℕ) × (s.pool ≡ gone ++ t.pool) × (t.discarded ≡ reverse gone ++ s.discarded)

Move-Loses : (s m t : Store) → Move s m → Loses m t → Loses s t
Move-Loses s m t (inl e) l = subst (λ x. Loses x t) e l
Move-Loses s m t (inr (ctx, rest, e, f)) l =
    let (gone, p, q) = subst (λ x. Loses x t) f l in
    (
      ctx ∷ gone,
      e ∙ ap (◌∷◌ ctx) p,
      q
          ∙ (sym (append_assoc (reverse gone) (ctx ∷ []) s.discarded)
              ∙ ap (λ xs. xs ++ s.discarded) (sym (reverse-cons ctx gone))),
    )

-- Any series of lookups takes connections off the back of the pool one by one, each of which is
-- discarded, and leaves the others in place: no connection comes back, changes its place, or is in
-- the pool twice if it was not before.
pub serve_all-Loses : (rs : List (Redis × Request)) (s : Store) → Loses s (serve_all rs s)
unfolding serve_all
serve_all-Loses [] s = ([], refl, refl)
serve_all-Loses ((redis, r) ∷ rs) s =
    Move-Loses s (serve redis r s) _ (serve-Move redis r s s.pool refl)
      (serve_all-Loses rs (serve redis r s))

abbrev store_or : Store → Built → Store
store_or d (built s) = s
store_or d (fails freed) = d

-- The connections that the constructor's attempts made.
abbrev pub made : List Connected → List ℕ
made [] = []
made (Connected.good ctx ∷ rest) = ctx ∷ made rest
made (Connected.failed ctx ∷ rest) = made rest
made (Connected.null ∷ rest) = made rest

built-inj : (s t : Store) → built s ≡ built t → s ≡ t
built-inj s t e = ap (store_or s) e

pub connect-made :
    (attempts : List Connected) (pool : List ℕ) (s : Store)
    → connect attempts pool ≡ built s
    → (reverse s.pool ≡ reverse pool ++ made attempts) × (s.discarded ≡ [])
unfolding connect
connect-made [] pool s e =
    let same = built-inj _ _ e in
    (
      sym (ap (λ t. reverse t.pool) same) ∙ sym (append-nil (reverse pool)),
      sym (ap (λ t. t.discarded) same),
    )
connect-made (Connected.null ∷ rest) pool s e = cc
connect-made (Connected.failed ctx ∷ rest) pool s e = cc
connect-made (Connected.good ctx ∷ rest) pool s e =
    let (p, q) = connect-made rest (ctx ∷ pool) s e in
    (
      p
          ∙ ap (λ xs. xs ++ made rest) (reverse-cons ctx pool)
          ∙ append_assoc (reverse pool) (ctx ∷ []) (made rest),
      q,
    )

-- From the constructor to the destructor, through any series of lookups: every connection that was made
-- is either freed by the destructor, once, or it was discarded, once, and is never freed; in the order
-- in which they were made, those that are freed come first.
pub made-destruct :
    (attempts : List Connected) (s : Store) (rs : List (Redis × Request))
    → connect attempts [] ≡ built s
    → made attempts ≡ destruct (serve_all rs s) ++ (serve_all rs s).discarded
made-destruct attempts s rs e =
    let (p, none_yet) = connect-made attempts [] s e in
    let t = serve_all rs s in
    let (gone, kept, lost) = serve_all-Loses rs s in
    sym p
    ∙ ap reverse kept
    ∙ reverse-append gone t.pool
    ∙ ap (λ xs. reverse t.pool ++ xs)
        (sym (lost ∙ ap (λ xs. reverse gone ++ xs) none_yet ∙ append-nil (reverse gone)))
