-- ===== src/FeatureStore/Sharing.antt =====
-- src/enrichment/redis_feature_store.cpp: the pool's guards as many threads take and give them up.
-- `acquire_connection` and `release_connection` run under the pool's mutex, and are one step each.
use mathlib.Core.List.{Perm, Nodup, perm_middle}
use mathlib.Core.List.Perm
use ml_distributed_fraud_eng.Common.{ℕ, ◌≡◌, List, [], ◌∷◌, ◌++◌, none, some, arith}
use ml_distributed_fraud_eng.FeatureStore.{Store, acquire_connection, release_connection, discard}

-- The store, and the connections that guards of running lookups hold.
pub record Sharing : Type 0 where
  pub store : Store
  pub held : List ℕ

pub data Step (s : Sharing) : Sharing → Type 0 where
  guard :
      (ctx : ℕ) (t : Store)
      → acquire_connection s.store ≡ (some ctx, t)
      → Step s (record { store = t; held = ctx ∷ s.held })
  guard_none :
      (t : Store) → acquire_connection s.store ≡ (none, t) → Step s (record s { store = t })
  unguard :
      (before : List ℕ) (ctx : ℕ) (after : List ℕ)
      → s.held ≡ before ++ ctx ∷ after
      → Step s (record { store = release_connection ctx s.store; held = before ++ after })
  broken :
      (before : List ℕ) (ctx : ℕ) (after : List ℕ)
      → s.held ≡ before ++ ctx ∷ after
      → Step s (record { store = discard ctx s.store; held = before ++ after })

pub data Reach (s : Sharing) : Sharing → Type 0 where
  here : Reach s s
  next : {t u : Sharing} → Reach s t → Step t u → Reach s u

-- All connections, wherever they are.
abbrev pub everywhere : Sharing → List ℕ
everywhere s = s.store.pool ++ (s.held ++ s.store.discarded)

acquired :
    (pool discarded : List ℕ) (ctx : ℕ) (t : Store)
    → acquire_connection (record { pool = pool; discarded = discarded }) ≡ (some ctx, t)
    → (pool ≡ ctx ∷ t.pool) × (t.discarded ≡ discarded)
acquired [] d ctx t e = ground arith
acquired (c ∷ p) d ctx t e = ground arith

not_acquired :
    (pool discarded : List ℕ) (t : Store)
    → acquire_connection (record { pool = pool; discarded = discarded }) ≡ (none, t)
    → t ≡ record { pool = pool; discarded = discarded }
not_acquired [] d t e = ground arith
not_acquired (c ∷ p) d t e = ground arith

guard-perm :
    (pool rest held discarded discarded' : List ℕ) (ctx : ℕ)
    → pool ≡ ctx ∷ rest
    → discarded' ≡ discarded
    → Perm (pool ++ (held ++ discarded)) (rest ++ ctx ∷ (held ++ discarded'))
guard-perm pool rest held d d' ctx p q = rw (p, q) (Perm.symm (perm_middle rest (held ++ d)))

-- A held connection comes to the front of the held and the discarded ones.
held-perm :
    (held before : List ℕ) (ctx : ℕ) (after discarded : List ℕ)
    → held ≡ before ++ ctx ∷ after
    → Perm (held ++ discarded) (ctx ∷ (before ++ after) ++ discarded)
held-perm held b ctx a d e = rw e (Perm.append_right d (perm_middle b a))

Step-everywhere : {s t : Sharing} → Step s t → Perm (everywhere s) (everywhere t)
Step-everywhere {s} (guard ctx t e) =
    let (p, q) = acquired s.store.pool s.store.discarded ctx t e in
    guard-perm s.store.pool t.pool s.held s.store.discarded t.discarded ctx p q
Step-everywhere {s} (guard_none t e) =
    rw (not_acquired s.store.pool s.store.discarded t e) (Perm.refl _)
Step-everywhere {s} (unguard b ctx a e) =
    Perm.trans (Perm.append_left s.store.pool (held-perm s.held b ctx a s.store.discarded e))
      (perm_middle s.store.pool ((b ++ a) ++ s.store.discarded))
Step-everywhere {s} (broken b ctx a e) = Perm.append_left s.store.pool (
    Perm.trans (held-perm s.held b ctx a s.store.discarded e)
      (Perm.symm (perm_middle (b ++ a) s.store.discarded)))

-- In any interleaving of lookups by any number of threads, the connections in the pool, those held by
-- running lookups and those discarded are together the ones of the start. So if the pool starts with
-- distinct connections, none is ever held by two lookups, or held while it is in the pool.
pub Reach-Nodup :
    {s t : Sharing}
    → Reach s t
    → Perm (everywhere s) (everywhere t) × (Nodup (everywhere s) → Nodup (everywhere t))
Reach-Nodup here = (Perm.refl _, λ n. n)
Reach-Nodup (next r st) =
    let (p, k) = Reach-Nodup r in
    let q = Step-everywhere st in (Perm.trans p q, λ n. Perm.nodup q (k n))
