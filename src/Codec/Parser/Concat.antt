-- ===== src/Codec/Parser/Concat.antt =====
-- generated/fraud.pb.cc: several messages that were serialized one behind the other.
use ml_distributed_fraud_eng.Common.{◌≡◌, refl, ◌∙◌, some, List, [], ◌∷◌, ◌++◌, ℕ, All}
use ml_distributed_fraud_eng.Messages.{Transaction}
use ml_distributed_fraud_eng.Codec.{Wire, serialize, merge}
use ml_distributed_fraud_eng.Codec.Stream.{Reader, loop, run}
use ml_distributed_fraud_eng.Codec.Stream.Fuel.{Advances}
use ml_distributed_fraud_eng.Codec.Stream.Laws.{Inverse}
use ml_distributed_fraud_eng.Codec.Parser.{field, parse, empty}
use ml_distributed_fraud_eng.Codec.Parser.Canonical.{Canonical}
use ml_distributed_fraud_eng.Codec.Parser.RoundTrip.{run-serialize}

abbrev pub serialize_all : Wire → List Transaction → List ℕ
serialize_all wire [] = []
serialize_all wire (tx ∷ txs) = serialize wire tx ++ serialize_all wire txs

-- One after the other, `MergeImpl` into a message.
abbrev pub merge_all : Transaction → List Transaction → Transaction
merge_all to [] = to
merge_all to (tx ∷ txs) = merge_all (merge to tx) txs

module _ (wire : Wire) (reader : Reader) (advances : Advances reader)
    (inverse : Inverse wire reader) where
  run-serialize_all :
      (to : Transaction) (txs : List Transaction)
      → All (Canonical reader) txs
      → run reader (field reader) (serialize_all wire txs) to ≡ some (merge_all to txs)
  unfolding loop
  run-serialize_all to [] h = refl
  run-serialize_all to (tx ∷ txs) (h, hs) =
      run-serialize wire reader advances inverse to tx (serialize_all wire txs) h
      ∙ run-serialize_all (merge to tx) txs hs

  -- With the documented behaviour of single items: any number of canonical transactions that are
  -- serialized one behind the other are parsed, to the end of the bytes, as one transaction: the one that
  -- `MergeImpl` makes of them in that order, from a new message on.
  pub parse-serialize_all :
      (txs : List Transaction)
      → All (Canonical reader) txs
      → parse reader (serialize_all wire txs) ≡ some (merge_all empty txs)
  unfolding parse
  parse-serialize_all txs h = run-serialize_all empty txs h
