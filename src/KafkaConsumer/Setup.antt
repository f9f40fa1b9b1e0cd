-- ===== src/KafkaConsumer/Setup.antt =====
-- src/consumer/kafka_consumer.cpp: the constructor and the destructor of the consumer. What librdkafka
-- answers is a parameter; what is asked of it is a list of calls.
use ml_distributed_fraud_eng.Common.{
  ℕ, ◌+◌, ◌≡◌, refl, Bool, List, [], ◌∷◌, ◌++◌, Option, none, some, if◌then◌else◌,
}
use ml_distributed_fraud_eng.Text.{codes}

-- The text that a call leaves in `errstr`, or `none` where it succeeds.
pub record Librdkafka : Type 0 where
  pub conf_set : List ℕ → List ℕ → Option (List ℕ)
  pub new : Option (List ℕ)

pub data Call : Type 0 where
  conf_new set_rebalance_cb conf_destroy new_consumer poll_set_consumer consumer_close destroy :
      Call
  conf_set : List ℕ → List ℕ → Call
  subscribe : List ℕ → Call

-- Whether there is a consumer, or the text of the exception.
pub data Constructed : Type 0 where
  constructed : Constructed
  fails : List ℕ → Constructed

module _ (kafka : Librdkafka) where
  -- A setting, before the rest of the constructor.
  set_then : Option (List ℕ) → List ℕ → List ℕ → List Call × Constructed → List Call × Constructed
  set_then (some errstr) key value rest =
      (conf_set key value ∷ conf_destroy ∷ [], fails (codes "Kafka config error: " ++ errstr))
  set_then none key value rest = (conf_set key value ∷ rest.0, rest.1)

  create : Option (List ℕ) → List ℕ → List Call × Constructed
  create (some errstr) topic =
      (new_consumer ∷ conf_destroy ∷ [], fails (codes "Kafka consumer creation failed: " ++ errstr))
  create none topic = (new_consumer ∷ poll_set_consumer ∷ subscribe topic ∷ [], constructed)

  set : List ℕ → List ℕ → List Call × Constructed → List Call × Constructed
  unfolding set_then
  set key value rest = set_then (kafka.conf_set key value) key value rest

  unfoldable pub construct : List ℕ → List ℕ → List ℕ → List Call × Constructed
  unfolding set create
  construct brokers group_id topic =
      let rest = set (codes "bootstrap.servers") brokers (
        set (codes "group.id") group_id
          (set (codes "enable.auto.commit") (codes "false") (create kafka.new topic))) in
      (conf_new ∷ set_rebalance_cb ∷ rest.0, rest.1)

  -- The destructor, for a consumer or a null pointer.
  unfoldable pub destruct : Bool → List Call
  destruct consumer = if consumer then consumer_close ∷ destroy ∷ [] else []

  abbrev pub frees : List Call → ℕ
  frees [] = 0
  frees (conf_destroy ∷ cs) = 1 + frees cs
  frees (_ ∷ cs) = frees cs

  abbrev pub hands_over : Constructed → ℕ
  hands_over constructed = 1
  hands_over (fails text) = 0

  abbrev pub first_text : Option (List ℕ) → Constructed → Constructed
  first_text (some errstr) c = fails (codes "Kafka config error: " ++ errstr)
  first_text none c = c

  abbrev pub new_text : Option (List ℕ) → Constructed
  new_text (some errstr) = fails (codes "Kafka consumer creation failed: " ++ errstr)
  new_text none = constructed

  abbrev Owned : List Call × Constructed → Type 0
  Owned q = frees q.0 + hands_over q.1 ≡ 1

  create-Owned :
      (r : Option (List ℕ)) (topic : List ℕ)
      → Owned (create r topic) × ((create r topic).1 ≡ new_text r)
  unfolding create
  create-Owned none topic = (refl, refl)
  create-Owned (some e) topic = (refl, refl)

  set_then-Owned :
      (r : Option (List ℕ)) (k v : List ℕ) (rest : List Call × Constructed)
      → Owned rest
      → Owned (set_then r k v rest) × ((set_then r k v rest).1 ≡ first_text r rest.1)
  unfolding set_then
  set_then-Owned none k v rest h = (h, refl)
  set_then-Owned (some e) k v rest h = (refl, refl)

  set-Owned :
      (k v : List ℕ) (rest : List Call × Constructed)
      → Owned rest
      → Owned (set k v rest) × ((set k v rest).1 ≡ first_text (kafka.conf_set k v) rest.1)
  unfolding set
  set-Owned k v rest h = set_then-Owned (kafka.conf_set k v) k v rest h

  -- Whatever librdkafka answers, the configuration object is freed exactly once if the constructor
  -- throws, and not at all if it builds a consumer, which then owns it; and the constructor throws the
  -- first error in the order of the settings, with the creation last.
  pub construct-frees :
      (brokers group_id topic : List ℕ)
      → (frees (construct brokers group_id topic).0
            + hands_over (construct brokers group_id topic).1
          ≡ 1)
        × ((construct brokers group_id topic).1
            ≡ first_text (kafka.conf_set (codes "bootstrap.servers") brokers) (
                first_text (kafka.conf_set (codes "group.id") group_id) (
                  first_text
                    (kafka.conf_set (codes "enable.auto.commit") (codes "false"))
                    (new_text kafka.new))))
  unfolding construct
  construct-frees brokers group_id topic =
      let (o, e) = create-Owned kafka.new topic in
      let (p, f) = set-Owned (codes "enable.auto.commit") (codes "false") _ o in
      let (q, g) = set-Owned (codes "group.id") group_id _ p in
      let (r, h) = set-Owned (codes "bootstrap.servers") brokers _ q in (r, rw (h, g, f, e) refl)
