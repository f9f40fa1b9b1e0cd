-- ===== src/FeatureStore/Batch.antt =====
-- src/enrichment/redis_feature_store.cpp: the pipelined lookup beside single ones.
use mathlib.Core.Option
use mathlib.Core.List.{append_assoc, append-nil}
use ml_distributed_fraud_eng.Common.{
  ℕ, ◌+◌, ◌≤◌, ◌<◌, ◌≡◌, refl, sym, subst, ◌∙◌, Bool, true, false, List, [], ◌∷◌, ◌++◌, map, Option,
  none, some, arith, length, length-append, Option-cases, inl, inr,
}
use ml_distributed_fraud_eng.Messages.{UserFeatures}
use ml_distributed_fraud_eng.FeatureStore.{
  Redis, Reply, Store, returns, get_features, get_features_pipelined, missing, read_replies, key,
  features_of,
}

-- Nothing in front of a batch.
prefix_nil : (o : Option (List UserFeatures × Bool)) → Option.map (λ q. ([] ++ q.0, q.1)) o ≡ o
prefix_nil none = refl
prefix_nil (some q) = refl

module _ (redis : Redis) where
  -- A reply that gives some features.
  abbrev Gives : Option Reply → UserFeatures → Type 0
  Gives o uf = (r : Reply) × (o ≡ some r) × (features_of redis r ≡ some uf)

  -- From index `i` on there are replies, which give these features.
  abbrev Answered : (ℕ → Option Reply) → ℕ → List (List ℕ) → List UserFeatures → Type 0
  Answered next i [] [] = Unit
  Answered next i (u ∷ us) (f ∷ fs) = Gives (next i) f × Answered next (i + 1) us fs
  Answered next i _ _ = ⊥

  read_replies-good :
      (next : ℕ → Option Reply) (i j : ℕ) (us rest : List (List ℕ)) (fs : List UserFeatures)
      → Answered next i us fs
      → i + length us ≡ j
      → read_replies redis next i (us ++ rest)
        ≡ Option.map (λ q. (fs ++ q.0, q.1)) (read_replies redis next j rest)
  unfolding read_replies
  read_replies-good next i j [] rest [] h e =
      let same : i ≡ j = omega arith in rw (same, prefix_nil (read_replies redis next j rest))
  read_replies-good next i j [] rest (f ∷ fs) h e = absurd h
  read_replies-good next i j (u ∷ us) rest [] h e = absurd h
  read_replies-good next i j (u ∷ us) rest (f ∷ fs) ((r, p, q), hs) e =
      ground (arith, read_replies-good next (i + 1) j us rest fs hs)

  -- A single lookup that succeeds comes from a reply on the connection at the back of the pool.
  get_features-Gives :
      (s : Store) (ctx : ℕ) (rest : List ℕ) (u : List ℕ) (f : UserFeatures) (r : Option Reply)
      → s.pool ≡ ctx ∷ rest
      → redis.command ctx (key u) ≡ r
      → get_features redis u s ≡ (returns f, s)
      → Gives r f
  unfolding get_features
  get_features-Gives s ctx rest u f none e h g = absurd (ground arith)
  get_features-Gives s ctx rest u f (some r) e h g = elim (Option-cases (features_of redis r)) [
    | inl none_ ↦ absurd (ground arith)
    | inr (f', same) ↦ (r, refl, ground arith)
  ]

  -- The single lookups of these users return these features.
  abbrev pub Singles : Store → List (List ℕ) → List UserFeatures → Type 0
  Singles s [] [] = Unit
  Singles s (u ∷ us) (f ∷ fs) = (get_features redis u s ≡ (returns f, s)) × Singles s us fs
  Singles s _ _ = ⊥

  -- hiredis answers pipelined commands in the order in which they were appended, each like the command
  -- alone; here for the first `good` of them.
  abbrev pub InOrder : ℕ → List (List ℕ) → ℕ → Type 0
  InOrder ctx users good =
      (before : List (List ℕ)) (u : List ℕ) (after : List (List ℕ))
      → users ≡ before ++ u ∷ after
      → length before < good
      → redis.get_reply ctx (map key users) (length before) ≡ redis.command ctx (key u)

  Singles-Answered :
      (s : Store) (ctx : ℕ) (p : List ℕ) (users done us rest : List (List ℕ))
      (fs : List UserFeatures) (good : ℕ)
      → s.pool ≡ ctx ∷ p
      → InOrder ctx users good
      → users ≡ done ++ (us ++ rest)
      → length done + length us ≤ good
      → Singles s us fs
      → Answered (redis.get_reply ctx (map key users)) (length done) us fs
  Singles-Answered s ctx p users done [] rest [] good e o a g h = tt
  Singles-Answered s ctx p users done [] rest (f ∷ fs) good e o a g h = h
  Singles-Answered s ctx p users done (u ∷ us) rest [] good e o a g h = h
  Singles-Answered s ctx p users done (u ∷ us) rest (f ∷ fs) good e o a g (h, hs) =
      let one_more : length (done ++ u ∷ []) ≡ length done + 1 = length-append done (u ∷ []) in
      (
        rw (o done u (us ++ rest) a (omega arith)) (get_features-Gives s ctx p u f _ e refl h),
        subst (λ n. Answered (redis.get_reply ctx (map key users)) n us fs) one_more
            (Singles-Answered s ctx p users (done ++ u ∷ []) us rest fs good e o
              (a ∙ sym (append_assoc done (u ∷ []) (us ++ rest))) (omega arith) hs),
      )

  -- What the second loop makes of users whose single lookups succeed, followed by others.
  read_replies-Singles :
      (s : Store) (ctx : ℕ) (p : List ℕ) (us rest : List (List ℕ)) (fs : List UserFeatures)
      → s.pool ≡ ctx ∷ p
      → InOrder ctx (us ++ rest) (length us)
      → Singles s us fs
      → read_replies redis (redis.get_reply ctx (map key (us ++ rest))) 0 (us ++ rest)
        ≡ Option.map
            (λ q. (fs ++ q.0, q.1))
            (read_replies redis (redis.get_reply ctx (map key (us ++ rest))) (length us) rest)
  read_replies-Singles s ctx p us rest fs e o h =
      read_replies-good _ 0 (length us) us rest fs
        (Singles-Answered s ctx p (us ++ rest) [] us rest fs (length us) e o refl (omega arith) h)
        (omega arith)

  pipelined_kept :
      (s : Store) (ctx : ℕ) (p : List ℕ) (users : List (List ℕ)) (fs : List UserFeatures)
      → s.pool ≡ ctx ∷ p
      → read_replies redis (redis.get_reply ctx (map key users)) 0 users ≡ some (fs, true)
      → get_features_pipelined redis users s ≡ (returns fs, s)
  unfolding get_features_pipelined
  pipelined_kept s ctx p users fs e h = ground arith

  pipelined_dropped :
      (s : Store) (ctx : ℕ) (p : List ℕ) (users : List (List ℕ)) (fs : List UserFeatures)
      → s.pool ≡ ctx ∷ p
      → read_replies redis (redis.get_reply ctx (map key users)) 0 users ≡ some (fs, false)
      → get_features_pipelined redis users s
        ≡ (returns fs, record { pool = p; discarded = ctx ∷ s.discarded })
  unfolding get_features_pipelined
  pipelined_dropped s ctx p users fs e h = ground arith

  -- If every user's single lookup succeeds with the store as it is and hiredis answers in order, then
  -- the pipelined lookup of the users returns the features of the single lookups, in the users' order,
  -- and leaves the store as it is.
  pub pipelined-Singles :
      (s : Store) (ctx : ℕ) (p : List ℕ) (users : List (List ℕ)) (fs : List UserFeatures)
      → s.pool ≡ ctx ∷ p
      → InOrder ctx users (length users)
      → Singles s users fs
      → get_features_pipelined redis users s ≡ (returns fs, s)
  unfolding read_replies
  pipelined-Singles s ctx p users fs e o h =
      let all = append-nil users in
      pipelined_kept s ctx p users fs e
        (rw all at (read_replies-Singles s ctx p users [] fs e (rw all o) h) ∙ rw (append-nil fs))

  -- If the connection breaks at some user, then the users before it get the features of their single
  -- lookups, that user and all after it get cache misses, and the connection leaves the pool.
  pub pipelined_broken :
      (s : Store) (ctx : ℕ) (p : List ℕ) (us : List (List ℕ)) (u : List ℕ) (after : List (List ℕ))
      (fs : List UserFeatures)
      → s.pool ≡ ctx ∷ p
      → InOrder ctx (us ++ u ∷ after) (length us)
      → Singles s us fs
      → redis.get_reply ctx (map key (us ++ u ∷ after)) (length us) ≡ none
      → get_features_pipelined redis (us ++ u ∷ after) s ≡ (
        returns (fs ++ map (λ v. missing) (u ∷ after)),
        record { pool = p; discarded = ctx ∷ s.discarded },
      )
  unfolding read_replies
  pipelined_broken s ctx p us u after fs e o h broken =
      pipelined_dropped s ctx p (us ++ u ∷ after) _ e
        (read_replies-Singles s ctx p us (u ∷ after) fs e o h ∙ rw (broken, read_replies))
