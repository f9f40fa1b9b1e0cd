-- ===== src/Lib.antt =====
-- The fraud detection engine: a C++ program that takes card transactions from Kafka, scores each and
-- routes it to a clean topic or to the dead letters.
--
-- How the parts interact. The consumer (src/consumer/) polls messages, parses them and hands each
-- transaction to a handler. The lambda `process` of src/main.cpp, which is meant as the handler, looks the
-- user's features up in Redis (src/enrichment/), asks the circuit breaker (src/utils/circuit_breaker.h)
-- whether the ML server may be called, calls it (src/scoring/grpc_ml_client.cpp) or falls back to the
-- rules (src/scoring/rule_engine.cpp), tells the breaker how the call went, and hands the transaction to
-- the producer. The thread pool (src/utils/thread_pool.cpp) runs tasks. The metrics (src/metrics/) count
-- what happened.
--
-- Which file models which part:
--   Breaker, below it Run, Trip, Recovery   src/utils/circuit_breaker.h, each method uninterrupted
--   Breaker.Race                            the same methods access by access, for any number of threads
--   ThreadPool                              src/utils/thread_pool.h, src/utils/thread_pool.cpp; System has
--                                           the critical sections and notifications of all threads as steps
--   RuleEngine                              src/scoring/rule_engine.cpp
--   FeatureStore                            src/enrichment/redis_feature_store.h and .cpp; Sharing has the
--                                           guards of many threads
--   MlClient                                src/scoring/grpc_ml_client.cpp
--   KafkaConsumer                           src/consumer/kafka_consumer.h and .cpp
--   Engine                                  src/main.cpp, the lambda `process`
--   Main                                    src/main.cpp, the settings and the signal handler
--   HelloKafka                              src/hello_kafka.cpp
--   Config                                  include/config.h; Config.Number has std::stoi
--   Codec                                   generated/fraud.pb.cc, the four messages: Clear, MergeImpl,
--                                           _InternalSerialize and ByteSizeLong
--   Codec.Stream                            the same file, what the four functions _InternalParse share
--   Codec.Parser                            Transaction::_InternalParse
--   Codec.Features                          UserFeatures::_InternalParse
--   Codec.Request, Codec.Response           the whole of ScoreRequest and of ScoreResponse
--   Pipeline                                src/main.cpp, the lambda `process`, with the codec, the ML
--                                           client and the feature store
--   Metrics                                 src/metrics/prometheus_metrics.h and .cpp
--   Messages                                the data of generated/fraud.pb.h and struct UserFeatures
--   Common, Float, Text, Chars              shared notation; floats, strings and std::from_chars
--
-- A record stands for the members of a class, and a function on it for a method, with the method's name;
-- it returns the new record beside the result. An `int`, `int64_t`, `float` or `double` is its bit
-- pattern, a number below 2 ^ 32 or 2 ^ 64, with the wrap-around and the order written out. A string is
-- the list of its bytes; a vector that is used as a stack is a list with its back first. Times are
-- nanoseconds of the clock. An exception is a case of the result. Threads are a step relation: a step is
-- one access to an atomic, or one critical section of a mutex, or one notification, by any thread that can
-- make it, in any order, spurious wake-ups included.
--
-- Parameters: hiredis, which may answer otherwise at each call of `process`, librdkafka, the stub of gRPC,
-- prometheus-cpp (its registry and its exposer), Protocol buffers' writers and readers of single items and
-- of unknown fields, getenv, std::stof, std::to_string, std::from_chars to a float, the division of
-- doubles and the widening of a float to a double, none of which is code of the repository. The engine
-- takes the parser and the serializer of a transaction as parameters too; Pipeline gives it those of
-- Codec. Where a theorem needs more of a parameter it has a named hypothesis: that hiredis answers
-- pipelined commands in order, each like the command alone; that a reader moves forward and reads back
-- what the writer of its item wrote, where ParseMessage hands on the bytes of a part; that a written field
-- has its documented size; that std::from_chars reads back the text of a float, and leaves a float of 32
-- bits a float of 32 bits; that a widened float is a double of 64 bits; that a call of gRPC which ends
-- well has brought the request to the server and its response back, both written and read in the format of
-- Protocol buffers; that registering, adding, incrementing, observing and setting change the entries of
-- the registry that they are documented to change, for names, labels and bucket bounds that prometheus-cpp
-- accepts. KafkaConsumer/Restart lays several runs of KafkaConsumer::start in a row: it has a poll return
-- the messages of the one partition in order, a run begin behind the last commit, and a commit take
-- effect, as librdkafka documents; a run may be cut off after any action.
--
-- Bounds: most loops run over lists that are given (replies, users, attempts to connect, turns of the poll
-- loop), so no fuel is needed. The parser's loop runs on fuel, one more than the number of bytes: each
-- turn reads a tag and leaves fewer bytes. Counters of the breaker wrap at 2 ^ 32; theorems that need less
-- say so.
--
-- Not modelled: the construction of the components in main, which does not compile there, and a wiring of
-- the lambda to the consumer and the thread pool, which src/main.cpp only announces; the producer
-- (src/routing/, declared only), logging, the metrics' destructor and the sums of the histograms, the
-- arenas, swapping, reflection and default instances of the generated code and its glue for gRPC, which
-- hold no logic of the program, the Python server and scripts, and the build.
pub mod Common
pub mod Float
pub mod Messages
pub mod Text
pub mod Breaker
pub mod ThreadPool
pub mod RuleEngine
pub mod Chars
pub mod FeatureStore
pub mod MlClient
pub mod Engine
pub mod Config
pub mod Codec
pub mod KafkaConsumer
pub mod Metrics
pub mod Pipeline
pub mod Main
pub mod HelloKafka
