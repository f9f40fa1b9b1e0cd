-- ===== src/HelloKafka.antt =====
-- src/hello_kafka.cpp: the program that sends one message to a broker. What librdkafka answers is a
-- parameter; what is asked of it is a list of calls.
pub mod Outcome
mod Tests
use ml_distributed_fraud_eng.Common.{ℕ, Bool, List, [], ◌∷◌, ◌++◌, Option, none, some}
use ml_distributed_fraud_eng.Text.{codes}

-- The answers: of `rd_kafka_new` the text that it leaves in `errstr`, or `none` where it succeeds; of the
-- others whether they succeed.
pub record Broker : Type 0 where
  pub conf_set : Bool
  pub new : Option (List ℕ)
  pub producev : Bool
  pub flush : Bool

pub data Call : Type 0 where
  conf_new : Call
  conf_set : List ℕ → List ℕ → Call
  new_producer : Call
  producev : List ℕ → List ℕ → Call
  flush : ℕ → Call
  destroy : Call

-- What it does: its calls, what it prints to stderr and to stdout, and its status.
pub record Run : Type 0 where
  pub calls : List Call
  pub stderr : List ℕ
  pub stdout : List ℕ
  pub status : ℕ

abbrev pub newline : List ℕ
newline = 10 ∷ []

-- "Message delivered — toolchain works.", the dash in UTF-8.
abbrev pub delivered : List ℕ
delivered =
    codes "Message delivered " ++ (0xE2 ∷ 0x80 ∷ 0x94 ∷ codes " toolchain works.") ++ newline

-- Behind `rd_kafka_new`; the first two calls come before it.
after_new : Option (List ℕ) → List Call → Run
after_new (some errstr) calls = record {
  calls = calls;
  stderr = codes "Failed: " ++ errstr ++ newline;
  stdout = [];
  status = 1;
}
after_new none calls = record {
  calls = calls ++ producev (codes "hello-topic") (codes "hello kafka") ∷ flush 3000 ∷ destroy ∷ [];
  stderr = [];
  stdout = delivered;
  status = 0;
}

unfoldable pub main : Broker → Run
unfolding after_new
main broker =
    after_new broker.new
      (conf_new ∷ conf_set (codes "bootstrap.servers") (codes "localhost:9092") ∷ new_producer ∷ [])
