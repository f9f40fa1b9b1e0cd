-- ===== src/KafkaConsumer/Loop.antt =====
-- src/consumer/kafka_consumer.cpp, start: how the loop runs and ends.
use ml_distributed_fraud_eng.Common.{
  ℕ, ◌≡◌, true, false, List, [], ◌∷◌, ◌++◌, Option, if◌then◌else◌,
}
use ml_distributed_fraud_eng.Messages.{Transaction}
use ml_distributed_fraud_eng.KafkaConsumer.{
  Action, Turn, Ended, goes_on, Exit, returned, thrown, KafkaConsumer, body,
}

module _ (parse : List ℕ → Option Transaction) where
  -- What one turn does.
  abbrev pub actions : Turn → List Action
  actions t = (body parse t.polled t.handler_returns).0

  abbrev pub ended : Turn → Ended
  ended t = (body parse t.polled t.handler_returns).1

  abbrev pub all_actions : List Turn → List Action
  all_actions [] = []
  all_actions (t ∷ ts) = actions t ++ all_actions ts

  -- A turn after which the loop goes on.
  abbrev pub Quiet : Turn → Type 0
  Quiet t = (t.stop_called ≡ false) × (ended t ≡ goes_on)

  -- What a turn in which `stop` was called before or the handler throws leaves, after these actions.
  abbrev pub ending : Turn → List Action → List Action × Exit × KafkaConsumer
  ending t acts =
      if t.stop_called
      then (acts, returned, record { running = false })
      else (acts ++ actions t, thrown, record { running = true })
