-- ===== src/Engine/Routing.antt =====
-- src/main.cpp, process: what is handed to the producer.
use mathlib.Core.List.{append_assoc, reverse-cons}
use ml_distributed_fraud_eng.Common.{
  ℕ, ◌≡◌, refl, sym, ap, ◌∙◌, List, [], ◌∷◌, ◌++◌, reverse, map, arith, if◌then◌else◌,
}
use ml_distributed_fraud_eng.Float.{gt32}
use ml_distributed_fraud_eng.Messages.{Transaction, UserFeatures}
use ml_distributed_fraud_eng.FeatureStore.{Store, Lookup, returns, throws, undefined}
use ml_distributed_fraud_eng.Engine.{
  Outside, Moment, Sent, clean, dlq, Engine, process, process_all, route, finish,
}

-- What was handed to one topic, and the bytes of any message.
abbrev pub clean_of : List Sent → List (List ℕ)
clean_of [] = []
clean_of (clean bytes ∷ ss) = bytes ∷ clean_of ss
clean_of (dlq bytes score ∷ ss) = clean_of ss

abbrev pub dead_of : List Sent → List (List ℕ × ℕ)
dead_of [] = []
dead_of (clean bytes ∷ ss) = dead_of ss
dead_of (dlq bytes score ∷ ss) = (bytes, score) ∷ dead_of ss

abbrev pub bytes_of : Sent → List ℕ
bytes_of (clean bytes) = bytes
bytes_of (dlq bytes score) = bytes

-- Reversal in front of a list, element by element.
reverse-cons_append :
    {A : Type 0} (x : A) (xs ys : List A) → reverse (x ∷ xs) ++ ys ≡ reverse xs ++ x ∷ ys
reverse-cons_append x xs ys =
    ap (λ zs. zs ++ ys) (reverse-cons x xs) ∙ append_assoc (reverse xs) (x ∷ []) ys

clean_of-reverse :
    (ss ys : List Sent) → clean_of (reverse ss ++ ys) ≡ reverse (clean_of ss) ++ clean_of ys
clean_of-reverse [] ys = refl
clean_of-reverse (clean bytes ∷ ss) ys =
    ap clean_of (reverse-cons_append (clean bytes) ss ys)
    ∙ clean_of-reverse ss (clean bytes ∷ ys)
    ∙ sym (reverse-cons_append bytes (clean_of ss) (clean_of ys))
clean_of-reverse (dlq bytes score ∷ ss) ys =
    ap clean_of (reverse-cons_append (dlq bytes score) ss ys)
    ∙ clean_of-reverse ss (dlq bytes score ∷ ys)

dead_of-reverse :
    (ss ys : List Sent) → dead_of (reverse ss ++ ys) ≡ reverse (dead_of ss) ++ dead_of ys
dead_of-reverse [] ys = refl
dead_of-reverse (clean bytes ∷ ss) ys =
    ap dead_of (reverse-cons_append (clean bytes) ss ys) ∙ dead_of-reverse ss (clean bytes ∷ ys)
dead_of-reverse (dlq bytes score ∷ ss) ys =
    ap dead_of (reverse-cons_append (dlq bytes score) ss ys)
    ∙ dead_of-reverse ss (dlq bytes score ∷ ys)
    ∙ sym (reverse-cons_append (bytes, score) (dead_of ss) (dead_of ys))

bytes_of-reverse :
    (ss ys : List Sent)
    → map bytes_of (reverse ss ++ ys) ≡ reverse (map bytes_of ss) ++ map bytes_of ys
bytes_of-reverse [] ys = refl
bytes_of-reverse (s ∷ ss) ys =
    ap (map bytes_of) (reverse-cons_append s ss ys)
    ∙ bytes_of-reverse ss (s ∷ ys)
    ∙ sym (reverse-cons_append (bytes_of s) (map bytes_of ss) (map bytes_of ys))

module _ (out : Outside) where
  -- The messages for a sequence of transactions with what `process` returned for each: one where it
  -- returned a score, none where it threw.
  abbrev routes : ℕ → List (Moment × Transaction) → List (Lookup ℕ) → List Sent
  routes threshold [] outcomes = []
  routes threshold (t ∷ ts) [] = []
  routes threshold ((m, tx) ∷ ts) (returns score ∷ outcomes) =
      route out threshold tx score ∷ routes threshold ts outcomes
  routes threshold ((m, tx) ∷ ts) (throws ∷ outcomes) = routes threshold ts outcomes
  routes threshold ((m, tx) ∷ ts) (undefined ∷ outcomes) = routes threshold ts outcomes

  -- What one outcome adds to the messages, the last one first.
  reverse-routes :
      (threshold : ℕ) (m : Moment) (tx : Transaction) (ts : List (Moment × Transaction))
      (o : Lookup ℕ) (os : List (Lookup ℕ)) (sent : List Sent)
      → reverse (routes threshold ((m, tx) ∷ ts) (o ∷ os)) ++ sent
        ≡ reverse (routes threshold ts os) ++ (routes threshold ((m, tx) ∷ []) (o ∷ []) ++ sent)
  reverse-routes threshold m tx ts (returns p) os sent =
      let r = route out threshold tx p in
      let later = routes threshold ts os in
      ap (λ xs. xs ++ sent) (reverse-cons r later) ∙ append_assoc (reverse later) (r ∷ []) sent
  reverse-routes threshold m tx ts throws os sent = refl
  reverse-routes threshold m tx ts undefined os sent = refl

  finish-routes :
      (threshold : ℕ) (m : Moment) (tx : Transaction) (e : Engine)
      (found : Lookup UserFeatures × Store)
      → (finish out threshold m tx e found).1.sent
        ≡ routes threshold ((m, tx) ∷ []) ((finish out threshold m tx e found).0 ∷ []) ++ e.sent
  unfolding finish
  finish-routes threshold m tx e (returns u, s) = refl
  finish-routes threshold m tx e (throws, s) = refl
  finish-routes threshold m tx e (undefined, s) = refl

  pub process-routes :
      (threshold : ℕ) (m : Moment) (tx : Transaction) (e : Engine)
      → (process out threshold m tx e).1.sent
        ≡ routes threshold ((m, tx) ∷ []) ((process out threshold m tx e).0 ∷ []) ++ e.sent
  unfolding process
  process-routes threshold m tx e = finish-routes threshold m tx e _

  process_all-sent :
      (threshold : ℕ) (ts : List (Moment × Transaction)) (e : Engine)
      → (process_all out threshold ts e).1.sent
        ≡ reverse (routes threshold ts (process_all out threshold ts e).0) ++ e.sent
  unfolding process_all
  process_all-sent threshold [] e = refl
  process_all-sent threshold ((m, tx) ∷ ts) e =
      let next = process out threshold m tx e in
      process_all-sent threshold ts next.1
      ∙ (ap (◌++◌ (reverse (routes threshold ts (process_all out threshold ts next.1).0)))
            (process-routes threshold m tx e)
          ∙ sym (reverse-routes threshold m tx ts next.0 _ e.sent))

  -- The clean topic is given the transactions whose score is not above the threshold.
  abbrev pub below : ℕ → List (Moment × Transaction) → List (Lookup ℕ) → List (List ℕ)
  below threshold ((m, tx) ∷ ts) (returns score ∷ os) =
      if gt32 score threshold
      then below threshold ts os
      else out.serialize tx ∷ below threshold ts os
  below threshold (t ∷ ts) (o ∷ os) = below threshold ts os
  below threshold _ _ = []

  -- The dead letters are given those whose score is above it, with the score.
  abbrev pub above : ℕ → List (Moment × Transaction) → List (Lookup ℕ) → List (List ℕ × ℕ)
  above threshold ((m, tx) ∷ ts) (returns score ∷ os) =
      if gt32 score threshold
      then (out.serialize tx, score) ∷ above threshold ts os
      else above threshold ts os
  above threshold (t ∷ ts) (o ∷ os) = above threshold ts os
  above threshold _ _ = []

  -- All whose processing returned.
  abbrev pub scored : List (Moment × Transaction) → List (Lookup ℕ) → List (List ℕ)
  scored ((m, tx) ∷ ts) (returns score ∷ os) = out.serialize tx ∷ scored ts os
  scored (t ∷ ts) (o ∷ os) = scored ts os
  scored _ _ = []

  routed :
      (threshold : ℕ) (tx : Transaction) (score : ℕ) (xs : List Sent)
      → (clean_of (route out threshold tx score ∷ xs)
          ≡ (if gt32 score threshold then clean_of xs else out.serialize tx ∷ clean_of xs))
        × (dead_of (route out threshold tx score ∷ xs)
            ≡ (if gt32 score threshold then (out.serialize tx, score) ∷ dead_of xs else dead_of xs))
        × (bytes_of (route out threshold tx score) ≡ out.serialize tx)
  unfolding route
  routed threshold tx score xs = (ground arith, ground arith, ground arith)

  routes-topics :
      (threshold : ℕ) (ts : List (Moment × Transaction)) (os : List (Lookup ℕ))
      → (clean_of (routes threshold ts os) ≡ below threshold ts os)
        × (dead_of (routes threshold ts os) ≡ above threshold ts os)
        × (map bytes_of (routes threshold ts os) ≡ scored ts os)
  routes-topics threshold [] os = (refl, refl, refl)
  routes-topics threshold (t ∷ ts) [] = (refl, refl, refl)
  routes-topics threshold ((m, tx) ∷ ts) (returns score ∷ os) =
      let (c, d, b) = routes-topics threshold ts os in
      let (p, q, r) = routed threshold tx score (routes threshold ts os) in
      (rw (p, c) refl, rw (q, d) refl, rw (r, b) refl)
  routes-topics threshold ((m, tx) ∷ ts) (throws ∷ os) = routes-topics threshold ts os
  routes-topics threshold ((m, tx) ∷ ts) (undefined ∷ os) = routes-topics threshold ts os

  -- For any sequence of transactions, what the producer is handed on top of what it had: to the clean
  -- topic exactly the transactions whose processing returned a score that is not above the threshold, to
  -- the dead letters exactly those whose score is above it, with the score, and altogether one message
  -- for each transaction whose processing returned and none for one whose lookup throws; all in the
  -- order of the transactions, the last message first.
  pub process_all-routes :
      (threshold : ℕ) (ts : List (Moment × Transaction)) (e : Engine)
      → (clean_of (process_all out threshold ts e).1.sent
          ≡ reverse (below threshold ts (process_all out threshold ts e).0) ++ clean_of e.sent)
        × (dead_of (process_all out threshold ts e).1.sent
            ≡ reverse (above threshold ts (process_all out threshold ts e).0) ++ dead_of e.sent)
        × (map bytes_of (process_all out threshold ts e).1.sent
            ≡ reverse (scored ts (process_all out threshold ts e).0) ++ map bytes_of e.sent)
  process_all-routes threshold ts e =
      let os = (process_all out threshold ts e).0 in
      let sent = process_all-sent threshold ts e in
      let (c, d, b) = routes-topics threshold ts os in
      (
        ap clean_of sent
            ∙ clean_of-reverse (routes threshold ts os) e.sent
            ∙ ap (λ xs. reverse xs ++ clean_of e.sent) c,
        ap dead_of sent
            ∙ dead_of-reverse (routes threshold ts os) e.sent
            ∙ ap (λ xs. reverse xs ++ dead_of e.sent) d,
        ap (map bytes_of) sent
            ∙ bytes_of-reverse (routes threshold ts os) e.sent
            ∙ ap (λ xs. reverse xs ++ map bytes_of e.sent) b,
      )
