-- ===== src/Pipeline.antt =====
-- src/main.cpp, src/scoring/ and generated/fraud.pb.cc together: the lambda `process` with the codec of
-- Protocol buffers between its parts.
pub mod Scored
pub mod Missing
pub mod Received
pub mod Answered
mod Tests
use mathlib.Core.Option
use ml_distributed_fraud_eng.Common.{
  ℕ, Bool, true, false, List, [], ◌∷◌, ◌++◌, Option, none, some, if◌then◌else◌,
}
use ml_distributed_fraud_eng.Messages.{Transaction}
use ml_distributed_fraud_eng.Float.{Fpu}
use ml_distributed_fraud_eng.FeatureStore.{Redis, Lookup, returns, throws, undefined}
use ml_distributed_fraud_eng.Codec.{Wire, serialize}
use ml_distributed_fraud_eng.Codec.Parser.{parse}
use ml_distributed_fraud_eng.Codec.Stream.{Reader}
use ml_distributed_fraud_eng.Engine.{Outside, Moment, Sent, clean, dlq, Engine, process}
use ml_distributed_fraud_eng.KafkaConsumer.{
  Message, Turn, KafkaConsumer, stop, Action, poll, handle, commit, destroy,
}

-- What `ParseFromString` leaves in a message: the transaction, or what it read before it failed.
abbrev pub or_leftover : Transaction → Option Transaction → Transaction
or_leftover leftover none = leftover
or_leftover leftover (some tx) = tx

-- The engine's world with the serializer and the parser of the program.
abbrev pub outside_of : Wire → Reader → Fpu → (List ℕ → Transaction) → Outside
outside_of wire reader fpu leftover = record {
  fpu = fpu;
  serialize = serialize wire;
  parse = parse reader;
  merge = λ bytes. or_leftover (leftover bytes) (parse reader bytes);
}
