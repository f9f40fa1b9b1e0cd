-- ===== src/HelloKafka/Tests.antt =====
-- src/hello_kafka.cpp: a message that no broker takes.
use ml_distributed_fraud_eng.Common.{◌≡◌, refl, false, true, none}
use ml_distributed_fraud_eng.HelloKafka.{Broker, main, delivered}

abbrev nobody : Broker
nobody = record { conf_set = true; new = none; producev = false; flush = false }

main-nobody : (main nobody).stdout ≡ delivered
unfolding main
main-nobody = refl
