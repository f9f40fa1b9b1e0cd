-- ===== src/HelloKafka/Outcome.antt =====
-- src/hello_kafka.cpp: what the program says of the delivery.
use ml_distributed_fraud_eng.Common.{◌≡◌, ◌↔◌, refl, none, some, Option, List, ℕ}
use ml_distributed_fraud_eng.HelloKafka.{Broker, Call, after_new, main, delivered}

after_new-delivered :
    (o : Option (List ℕ)) (calls : List Call)
    → ((after_new o calls).status ≡ 0) × ((after_new o calls).stdout ≡ delivered) ↔ (o ≡ none)
unfolding after_new
after_new-delivered none calls = (λ h. refl, λ e. (refl, refl))
after_new-delivered (some errstr) calls = (λ h. cc, λ e. cc)

-- The program says that the message is delivered and ends with status 0 exactly if there is a producer:
-- a broker that refuses the setting, the message or the flush makes no difference.
pub main-delivered :
    (broker : Broker)
    → ((main broker).status ≡ 0) × ((main broker).stdout ≡ delivered) ↔ (broker.new ≡ none)
unfolding main
main-delivered broker = after_new-delivered broker.new _
