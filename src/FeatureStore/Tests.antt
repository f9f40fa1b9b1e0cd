-- ===== src/FeatureStore/Tests.antt =====
-- src/enrichment/redis_feature_store.cpp: a small Redis with one user that it knows, and the theorems at
-- concrete inputs.
use mathlib.Core.List.{Perm, head-eq_of_cons-eq}
use ml_distributed_fraud_eng.Common.{
  ℕ, zero, suc, ◌≡◌, refl, ap, true, false, List, [], ◌∷◌, ◌++◌, Option, none, some, arith, ◌==◌,
  if◌then◌else◌,
}
use ml_distributed_fraud_eng.Messages.{UserFeatures, default_features}
use ml_distributed_fraud_eng.Text.{codes, str_eq}
use ml_distributed_fraud_eng.Chars.{from_chars, positive_value, negative_value, number, digit_run}
use ml_distributed_fraud_eng.FeatureStore.{
  Redis, Reply, Store, field_of, returns, get_features, get_features_pipelined, missing, key,
  features_of, parse_reply, assign, good, built, destruct, connect,
}
use ml_distributed_fraud_eng.FeatureStore.Pool.{batch, serve_all, made-destruct}
use ml_distributed_fraud_eng.FeatureStore.Batch.{InOrder, pipelined-Singles, pipelined_broken}
use ml_distributed_fraud_eng.FeatureStore.Sharing.{
  Sharing, Reach, guard, here, next, everywhere, Reach-Nodup,
}
use ml_distributed_fraud_eng.FeatureStore.Members.{Written}
use ml_distributed_fraud_eng.FeatureStore.Fields.{elements}

abbrev ann : List ℕ
ann = b'a' ∷ []

abbrev bob : List ℕ
bob = b'b' ∷ []

-- A hash with 12 transactions.
abbrev ann_hash : Reply
ann_hash = record {
  is_array = true;
  element = some (codes "tx_count_30d") ∷ some (codes "12") ∷ [];
}

abbrev empty_hash : Reply
empty_hash = record { is_array = true; element = [] }

-- Ann's key has 16 bytes that are told apart by the sixth.
abbrev answer : List ℕ → Reply
answer (a ∷ b ∷ c ∷ d ∷ e ∷ user ∷ rest) = if user == b'a' then ann_hash else empty_hash
answer _ = empty_hash

abbrev nth_answer : List (List ℕ) → ℕ → Option Reply
nth_answer [] i = none
nth_answer (k ∷ ks) zero = some (answer k)
nth_answer (k ∷ ks) (suc i) = nth_answer ks i

abbrev small_redis : Redis
small_redis = record {
  command = λ ctx k. some (answer k);
  get_reply = λ ctx ks i. nth_answer ks i;
  float_from_chars = λ bytes old. old;
}

-- Its pipeline breaks at the first reply.
abbrev broken_redis : Redis
broken_redis = record small_redis { get_reply = λ ctx ks i. none }

abbrev ann_features : UserFeatures
ann_features = record default_features { tx_count_30d = 12 }

abbrev store : Store
store = record { pool = 1 ∷ 2 ∷ []; discarded = [] }

get_ann : get_features small_redis ann store ≡ (returns ann_features, store)
unfolding get_features key features_of parse_reply field_of assign from_chars positive_value
    negative_value number digit_run str_eq
get_ann = refl

get_bob : get_features small_redis bob store ≡ (returns missing, store)
unfolding get_features key features_of parse_reply
get_bob = refl

ann-InOrder : InOrder small_redis 1 (ann ∷ []) 1
ann-InOrder [] u a e h = ap (λ x. some (answer (key x))) (head-eq_of_cons-eq e)
ann-InOrder (b ∷ bs) u a e h = absurd (ground arith)

pipelined-Singles_example :
    get_features_pipelined small_redis (ann ∷ []) store ≡ (returns (ann_features ∷ []), store)
pipelined-Singles_example =
    pipelined-Singles small_redis store 1 (2 ∷ []) (ann ∷ []) (ann_features ∷ []) refl ann-InOrder
      (get_ann, tt)

pipelined_broken_example :
    get_features_pipelined broken_redis (ann ∷ bob ∷ []) store
    ≡ (returns (missing ∷ missing ∷ []), record { pool = 2 ∷ []; discarded = 1 ∷ [] })
pipelined_broken_example =
    pipelined_broken broken_redis store 1 (2 ∷ []) [] ann (bob ∷ []) [] refl
      (λ b u a e h. absurd (ground arith)) tt refl

two_connected :
    connect (good 1 ∷ good 2 ∷ []) [] ≡ built (record { pool = 2 ∷ 1 ∷ []; discarded = [] })
unfolding connect
two_connected = refl

-- The batch breaks connection 2; the destructor frees connection 1.
made-destruct_example :
    1 ∷ 2 ∷ []
    ≡ destruct (
        serve_all
          ((broken_redis, batch (ann ∷ bob ∷ [])) ∷ [])
          (record { pool = 2 ∷ 1 ∷ []; discarded = [] }))
      ++ (serve_all
          ((broken_redis, batch (ann ∷ bob ∷ [])) ∷ [])
          (record { pool = 2 ∷ 1 ∷ []; discarded = [] })).discarded
made-destruct_example =
    made-destruct (good 1 ∷ good 2 ∷ []) (record { pool = 2 ∷ 1 ∷ []; discarded = [] })
      ((broken_redis, batch (ann ∷ bob ∷ [])) ∷ []) two_connected

abbrev at_rest : Sharing
at_rest = record { store = store; held = [] }

abbrev one_lookup : Sharing
one_lookup = record { store = record store { pool = 2 ∷ [] }; held = 1 ∷ [] }

at_rest-one_lookup : Reach at_rest one_lookup
at_rest-one_lookup = next here (guard 1 (record store { pool = 2 ∷ [] }) refl)

Reach-Nodup_example : Perm (everywhere at_rest) (everywhere one_lookup)
Reach-Nodup_example = (Reach-Nodup at_rest-one_lookup).0

abbrev one_byte : ℕ → List ℕ
one_byte x = x ∷ []

abbrev first_byte : List ℕ → ℕ → ℕ
first_byte [] old = old
first_byte (c ∷ cs) old = c

abbrev some_features : UserFeatures
some_features = record {
  tx_count_30d = 12;
  avg_amount_30d = 7;
  countries_30d = codes "US,GB";
  last_tx_ts = 0xFFFF_FFFF_FFFF_FFFB;
  risk_score = 3;
  is_cache_miss = false;
}

-- A Redis in which every user has these features, in another order and beside an unknown field, with
-- floats as single bytes.
abbrev hash : List (List ℕ × List ℕ)
hash =
    (codes "risk_score", one_byte 3)
    ∷ (codes "countries_30d", codes "US,GB")
    ∷ (codes "name", codes "Ann")
    ∷ (codes "last_tx_ts", codes "-5")
    ∷ (codes "tx_count_30d", codes "12")
    ∷ (codes "avg_amount_30d", one_byte 7)
    ∷ []

abbrev written_redis : Redis
written_redis = record small_redis {
  command = λ ctx k. some (record { is_array = true; element = elements hash });
  float_from_chars = first_byte;
}

-- Ann, and an id that goes on behind a NUL.
same_key : key ann ≡ key (b'a' ∷ 0 ∷ b'x' ∷ [])
unfolding key
same_key = refl

-- A count that does not fit an int leaves the old one.
abbrev large_redis : Redis
large_redis = record small_redis {
  command = λ ctx k. some (record {
    is_array = true;
    element = some (codes "tx_count_30d") ∷ some (codes "2147483648") ∷ [];
  });
}

large-get_features : get_features large_redis ann store ≡ (returns default_features, store)
unfolding get_features features_of parse_reply field_of str_eq from_chars
large-get_features = refl
