-- ===== src/FeatureStore.antt =====
-- src/enrichment/redis_feature_store.h and src/enrichment/redis_feature_store.cpp: the connection pool
-- and the lookups. hiredis is a parameter, the record `Redis`; a connection is a number that stands for
-- its `redisContext*`. A vector is a list with its back first. `std::from_chars` to a float is a
-- parameter of its own.
pub mod Fields
pub mod Keys
pub mod Pool
pub mod Batch
pub mod Sharing
pub mod Connect
pub mod Members
pub mod Written
pub mod Widths
mod Tests
use mathlib.Core.Option
use ml_distributed_fraud_eng.Common.{
  ℕ, zero, suc, ◌+◌, Bool, true, false, not, ◌&&◌, ◌||◌, List, [], ◌∷◌, ◌++◌, map, reverse, Option,
  none, some, ◌==◌, if◌then◌else◌,
}
use ml_distributed_fraud_eng.Messages.{UserFeatures, default_features}
use ml_distributed_fraud_eng.Text.{str_eq, codes}
use ml_distributed_fraud_eng.Chars.{from_chars}

-- A reply: whether its type is REDIS_REPLY_ARRAY, and the `str` of each element with its length: a null
-- pointer, with length 0, where the element is not a text.
pub record Reply : Type 0 where
  pub is_array : Bool
  pub element : List (Option (List ℕ))

-- hiredis. `none` is a null reply, or for a pipeline any outcome but REDIS_OK with a reply.
pub record Redis : Type 0 where
  pub command : ℕ → List ℕ → Option Reply  -- `redisCommand` on a connection, HGETALL of a key
  pub get_reply : ℕ → List (List ℕ) → ℕ → Option Reply  -- the reply of that index after appending
  pub float_from_chars : List ℕ → ℕ → ℕ  -- the bytes and the old value

-- A C string: the bytes up to the first NUL.
abbrev pub c_str : List ℕ → List ℕ
c_str [] = []
c_str (c ∷ cs) = if c == 0 then [] else c ∷ c_str cs

-- "user:%s:features"
unfoldable pub key : List ℕ → List ℕ
key user_id = codes "user:" ++ (c_str user_id ++ codes ":features")

-- The fields that `parse_reply` knows.
pub data Field : Type 0 where
  tx_count_30d avg_amount_30d countries_30d last_tx_ts risk_score unknown : Field

-- The chain of `strcmp`s.
unfoldable pub field_of : List ℕ → Field
field_of name =
    if str_eq (c_str name) (codes "tx_count_30d")
    then Field.tx_count_30d
    else if str_eq (c_str name) (codes "avg_amount_30d")
    then Field.avg_amount_30d
    else if str_eq (c_str name) (codes "countries_30d")
    then Field.countries_30d
    else if str_eq (c_str name) (codes "last_tx_ts")
    then Field.last_tx_ts
    else if str_eq (c_str name) (codes "risk_score")
    then Field.risk_score
    else Field.unknown

-- The bytes from `val` to `val + val_len`.
abbrev pub range : Option (List ℕ) → List ℕ
range none = []
range (some bytes) = bytes

module _ (redis : Redis) where
  pub assign : Field → List ℕ → UserFeatures → UserFeatures
  assign Field.tx_count_30d val uf = record uf { tx_count_30d = from_chars 32 val uf.tx_count_30d }
  assign Field.avg_amount_30d val uf = record uf {
    avg_amount_30d = redis.float_from_chars val uf.avg_amount_30d;
  }
  assign Field.countries_30d val uf = record uf { countries_30d = val }
  assign Field.last_tx_ts val uf = record uf { last_tx_ts = from_chars 64 val uf.last_tx_ts }
  assign Field.risk_score val uf = record uf {
    risk_score = redis.float_from_chars val uf.risk_score;
  }
  assign Field.unknown val uf = uf

  -- The loop over pairs. A read past the end, for an element with no partner, and `strcmp` of a null
  -- pointer are undefined, here `none`. A null value is the empty range.
  unfoldable pub parse_reply : List (Option (List ℕ)) → UserFeatures → Option UserFeatures
  unfolding assign field_of
  parse_reply [] uf = some uf
  parse_reply (name ∷ []) uf = none
  parse_reply (none ∷ val ∷ rest) uf = none
  parse_reply (some name ∷ val ∷ rest) uf = parse_reply rest (assign (field_of name) (range val) uf)

abbrev pub missing : UserFeatures
missing = record default_features { is_cache_miss = true }

abbrev no_elements : List (Option (List ℕ)) → Bool
no_elements [] = true
no_elements (e ∷ es) = false

-- `reply->type != REDIS_REPLY_ARRAY || reply->elements == 0`
abbrev pub is_miss : Reply → Bool
is_miss r = not r.is_array || no_elements r.element

-- The store, with the connections that were discarded, which no variable of the program holds.
pub record Store : Type 0 where
  pub pool : List ℕ
  pub discarded : List ℕ

abbrev take_back : List ℕ → Store → Option ℕ × Store
take_back [] s = (none, s)
take_back (ctx ∷ rest) s = (some ctx, record s { pool = rest })

abbrev pub acquire_connection : Store → Option ℕ × Store
acquire_connection s = take_back s.pool s

abbrev pub release_connection : ℕ → Store → Store
release_connection ctx s = record s { pool = ctx ∷ s.pool }

abbrev pub discard : ℕ → Store → Store
discard ctx s = record s { discarded = ctx ∷ s.discarded }

-- `redisConnect`: a null pointer, a context with `err` set, or a good one.
pub data Connected : Type 0 where
  null : Connected
  failed good : ℕ → Connected

-- The constructor: a pool, or the exception with the connections that were freed, in order.
pub data Built : Type 0 where
  built : Store → Built
  fails : List ℕ → Built

-- Its loop over the attempts that are left, with the pool so far.
unfoldable pub connect : List Connected → List ℕ → Built
connect [] pool = built (record { pool = pool; discarded = [] })
connect (Connected.null ∷ rest) pool = fails (reverse pool)
connect (Connected.failed ctx ∷ rest) pool = fails (reverse pool ++ ctx ∷ [])
connect (Connected.good ctx ∷ rest) pool = connect rest (ctx ∷ pool)

-- The destructor: the connections that it frees, from the front of the pool on.
abbrev pub destruct : Store → List ℕ
destruct s = reverse s.pool

-- How a lookup ends: with features, with the exception, or in a read of a reply that is undefined.
pub data Lookup {ℓ} (A : Type ℓ) : Type ℓ where
  returns : A → Lookup A
  throws : Lookup A
  undefined : Lookup A

abbrev pub or_undefined {ℓ} : {A : Type ℓ} → Option A → Lookup A
or_undefined none = undefined
or_undefined (some a) = returns a

module _ (redis : Redis) where
  -- The features of a reply that is there.
  unfoldable pub features_of : Reply → Option UserFeatures
  features_of r = if is_miss r then some missing else parse_reply redis r.element default_features

  -- After `redisCommand`, with the guard's destructor.
  get_with : ℕ → Option Reply → Store → Lookup UserFeatures × Store
  get_with ctx none s = (throws, discard ctx s)
  get_with ctx (some r) s = (or_undefined (features_of r), release_connection ctx s)

  get_from : Option ℕ × Store → List ℕ → Lookup UserFeatures × Store
  unfolding get_with
  get_from (none, s) user_id = (returns missing, s)
  get_from (some ctx, s) user_id = get_with ctx (redis.command ctx (key user_id)) s

  unfoldable pub get_features : List ℕ → Store → Lookup UserFeatures × Store
  unfolding get_from
  get_features user_id s = get_from (acquire_connection s) user_id

  -- The second loop of the pipelined lookup, from index `i`, for the users that are left: their results,
  -- and whether the connection is still good. `none` is an undefined read of a reply.
  pub read_replies : (ℕ → Option Reply) → ℕ → List (List ℕ) → Option (List UserFeatures × Bool)
  read_replies next i [] = some ([], true)
  read_replies next i (user ∷ users) =
      let rest = read_replies next (i + 1) users in
      elim (next i) [
        | none ↦ some (map (λ u. missing) (user ∷ users), false)
        | some r ↦ elim (features_of r) [
          | none ↦ none
          | some uf ↦ Option.map (λ q. (uf ∷ q.0, q.1)) rest
        ]
      ]

  finish_batch : ℕ → Option (List UserFeatures × Bool) → Store → Lookup (List UserFeatures) × Store
  finish_batch ctx none s = (undefined, release_connection ctx s)
  finish_batch ctx (some (results, true)) s = (returns results, release_connection ctx s)
  finish_batch ctx (some (results, false)) s = (returns results, discard ctx s)

  batch_from : Option ℕ × Store → List (List ℕ) → Lookup (List UserFeatures) × Store
  unfolding finish_batch read_replies
  batch_from (none, s) user_ids = (returns (map (λ u. missing) user_ids), s)
  batch_from (some ctx, s) user_ids =
      finish_batch ctx (read_replies (redis.get_reply ctx (map key user_ids)) 0 user_ids) s

  unfoldable pub get_features_pipelined : List (List ℕ) → Store → Lookup (List UserFeatures) × Store
  unfolding batch_from
  get_features_pipelined user_ids s = batch_from (acquire_connection s) user_ids
