-- ===== src/KafkaConsumer.antt =====
-- src/consumer/kafka_consumer.h and src/consumer/kafka_consumer.cpp: the consumer. librdkafka and the
-- parser of Protocol buffers are parameters; what the consumer asks of librdkafka is a list of actions.
pub mod Loop
pub mod Offsets
pub mod Restart
pub mod Setup
mod Tests
use ml_distributed_fraud_eng.Common.{
  ℕ, ◌+◌, Bool, true, false, List, [], ◌∷◌, ◌++◌, Option, none, some, if◌then◌else◌,
}
use ml_distributed_fraud_eng.Messages.{Transaction}

-- `rd_kafka_message_t`: its offset, which names it, and its payload.
pub record Message : Type 0 where
  pub offset : ℕ
  pub payload : List ℕ

-- What the loop does with librdkafka and the handler, in order. A call of the handler comes with whether
-- it returned or threw.
pub data Action : Type 0 where
  poll : Option Message → Action
  handle : Transaction → Bool → Action
  commit destroy : ℕ → Action

-- One turn of the loop: whether `stop` was called since the last test of `running_` (or since it was set,
-- for the first turn), and if the loop goes on, what the poll returns and whether the handler would return
-- (and not throw).
pub record Turn : Type 0 where
  pub polled : Option Message
  pub handler_returns : Bool
  pub stop_called : Bool

-- The consumer's own state.
pub record KafkaConsumer : Type 0 where
  pub running : Bool

abbrev pub stop : KafkaConsumer → KafkaConsumer
stop c = record c { running = false }

-- How `start` leaves the loop within some turns: it returns, the handler's exception passes through, or
-- the turns are over.
pub data Exit : Type 0 where
  returned thrown polling : Exit

-- How the body of the loop ends.
pub data Ended : Type 0 where
  goes_on threw : Ended

-- Behind the call of the handler, if it returned, and if its exception passes through.
after_handler : Message → Bool → List Action × Ended
after_handler msg true = (commit msg.offset ∷ destroy msg.offset ∷ [], goes_on)
after_handler msg false = (destroy msg.offset ∷ [], threw)

module _ (parse : List ℕ → Option Transaction) where
  -- After parsing; the guard destroys the message at the end of the scope, in each case.
  unfoldable pub body_of : Message → Bool → Option Transaction → List Action × Ended
  unfolding after_handler
  body_of msg ok none = (poll (some msg) ∷ destroy msg.offset ∷ [], goes_on)
  body_of msg ok (some tx) =
      let (rest, ended) = after_handler msg ok in (poll (some msg) ∷ handle tx ok ∷ rest, ended)

  unfoldable pub body : Option Message → Bool → List Action × Ended
  unfolding body_of
  body none ok = (poll none ∷ [], goes_on)
  body (some msg) ok = body_of msg ok (parse msg.payload)

  -- After the body, with the turns that follow.
  unfoldable pub next_turn :
      List Action
      → Ended
      → List Action × Exit × KafkaConsumer
      → KafkaConsumer
      → List Action × Exit × KafkaConsumer
  next_turn acts threw rest c = (acts, thrown, c)
  next_turn acts goes_on (later, exit, c') c = (acts ++ later, exit, c')

  -- The `while` loop, and the turns that may come. Each begins with the test of `running_`.
  unfoldable pub loop : KafkaConsumer → List Turn → List Action × Exit × KafkaConsumer
  unfolding next_turn
  loop c [] = ([], polling, c)
  loop c (t ∷ ts) =
      let c' = if t.stop_called then stop c else c in
      let rest = loop c' ts in
      let (acts, ended) = body t.polled t.handler_returns in
      if c'.running then next_turn acts ended rest c' else ([], returned, c')

  unfoldable pub start : KafkaConsumer → List Turn → List Action × Exit × KafkaConsumer
  unfolding loop
  start c turns = loop (record c { running = true }) turns

-- `rebalance_cb`: the error codes that it tells apart, and what it asks of librdkafka.
pub data RespErr : Type 0 where
  assign_partitions revoke_partitions other : RespErr

pub data Rebalance : Type 0 where
  assign : List ℕ → Rebalance
  commit_partitions : List ℕ → Rebalance
  assign_none : Rebalance

unfoldable pub rebalance_cb : RespErr → List ℕ → List Rebalance
rebalance_cb assign_partitions partitions = assign partitions ∷ []
rebalance_cb revoke_partitions partitions = commit_partitions partitions ∷ assign_none ∷ []
rebalance_cb other partitions = assign_none ∷ []
