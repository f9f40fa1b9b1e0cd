-- ===== src/KafkaConsumer/Tests.antt =====
-- src/consumer/kafka_consumer.cpp: a malformed message and a good one, and the theorems for them.
use ml_distributed_fraud_eng.Common.{
  ℕ, zero, if◌then◌else◌, ◌≡◌, refl, Bool, true, false, List, [], ◌∷◌, ◌+◌, Option, none, some,
}
use ml_distributed_fraud_eng.Messages.{Transaction}
use ml_distributed_fraud_eng.KafkaConsumer.{
  Message, Action, Turn, KafkaConsumer, body, start, poll, handle, commit, destroy,
}
use ml_distributed_fraud_eng.Text.{codes, str_eq}
use ml_distributed_fraud_eng.KafkaConsumer.Setup.{
  Librdkafka, Constructed, construct, frees, hands_over, construct-frees,
}
use ml_distributed_fraud_eng.KafkaConsumer.Restart.{Event, turns_from, consume, AllHandled}
use ml_distributed_fraud_eng.KafkaConsumer.Restart.Handled.{consume-AllHandled}
use ml_distributed_fraud_eng.KafkaConsumer.Offsets.{
  start-Lives, commit-Covered, Lives, idle, Covered,
}

-- Transactions that are their id.
abbrev named : List ℕ → Transaction
named id = record {
  tx_id = id;
  user_id = [];
  merchant_id = [];
  amount = 0;
  currency = [];
  country = [];
  timestamp_ms = 0;
  card_bin = [];
  device_id = [];
  ip_address = [];
  method = 0;
  unknown_fields = [];
}

-- Payloads that begin with 0 are malformed.
abbrev parse_named : List ℕ → Option Transaction
parse_named (zero ∷ rest) = none
parse_named id = some (named id)

abbrev good : Message
good = record { offset = 7; payload = 1 ∷ [] }

abbrev poison : Message
poison = record { offset = 6; payload = 0 ∷ [] }

abbrev turn : Option Message → Bool → Bool → Turn
turn m ok stopping = record { polled = m; handler_returns = ok; stop_called = stopping }

abbrev three : List Turn
three =
    turn (some poison) true false
    ∷ turn none true false
    ∷ turn (some good) true false
    ∷ turn none true true
    ∷ []

abbrev trace : List Action
trace =
    poll (some poison)
    ∷ destroy 6
    ∷ poll none
    ∷ poll (some good)
    ∷ handle (named (1 ∷ [])) true
    ∷ commit 7
    ∷ destroy 7
    ∷ []

abbrev new_consumer : KafkaConsumer
new_consumer = record { running = false }

start-Lives_example : Lives parse_named idle (start parse_named new_consumer three).0 idle
unfolding start body
start-Lives_example = start-Lives parse_named new_consumer three

commit-Covered_example : Covered parse_named poison (
    destroy 6
    ∷ poll none
    ∷ poll (some good)
    ∷ handle (named (1 ∷ [])) true
    ∷ commit 7
    ∷ destroy 7
    ∷ [])
unfolding start body
commit-Covered_example =
    commit-Covered parse_named new_consumer three [] poison
      (destroy 6 ∷ poll none ∷ poll (some good) ∷ handle (named (1 ∷ [])) true ∷ []) 7
      (destroy 7 ∷ []) refl

abbrev arrival : Event
arrival = record { arrives = true; handler_returns = true; stop_called = false }

-- The first run is cut off between the handler and the commit, the second one handles the message again.
abbrev two_runs : List (ℕ × List Event)
two_runs = (4, arrival ∷ arrival ∷ []) ∷ (9, arrival ∷ arrival ∷ []) ∷ []

abbrev both : List Message
both = poison ∷ good ∷ []

twice : consume parse_named new_consumer both two_runs ≡ (named (1 ∷ []) ∷ named (1 ∷ []) ∷ [], [])
unfolding consume start body turns_from
twice = refl

consume-AllHandled_example :
    AllHandled parse_named both 2 (consume parse_named new_consumer both two_runs)
consume-AllHandled_example = consume-AllHandled parse_named new_consumer both two_runs

-- The group is refused.
abbrev no_group : Librdkafka
no_group = record {
  conf_set = λ name val. if str_eq name (codes "group.id") then some (codes "empty") else none;
  new = none;
}

construct-frees_example :
    (frees no_group (construct no_group (codes "b") [] (codes "t")).0
        + hands_over no_group (construct no_group (codes "b") [] (codes "t")).1
      ≡ 1)
    × ((construct no_group (codes "b") [] (codes "t")).1
        ≡ Constructed.fails (codes "Kafka config error: empty"))
unfolding str_eq
construct-frees_example = construct-frees no_group (codes "b") [] (codes "t")
