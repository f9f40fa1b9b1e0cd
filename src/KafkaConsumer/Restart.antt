-- ===== src/KafkaConsumer/Restart.antt =====
-- src/consumer/kafka_consumer.cpp, start: a partition that is consumed in several runs. As librdkafka
-- documents, a poll returns the partition's messages in order, each run begins behind the last message
-- that was committed, and a commit that is waited for has taken effect. A run may be cut off after any of
-- its actions.
pub mod Handled
use mathlib.Core.List.{Sublistᴰ, append_assoc}
use mathlib.Core.Path.{subst}
use ml_distributed_fraud_eng.Common.{
  take, length, length-append, ℕ, suc, ◌+◌, ◌≤◌, arith, ◌≡◌, refl, sym, ap, ◌∙◌, Bool, true, false,
  List, [], ◌∷◌, ◌++◌, Option, none, some, if◌then◌else◌,
}
use ml_distributed_fraud_eng.Messages.{Transaction}
use ml_distributed_fraud_eng.KafkaConsumer.{
  Message, Turn, KafkaConsumer, stop, Action, poll, handle, commit, destroy, Exit, body, body_of,
  next_turn, loop, start,
}

-- What comes with one turn: whether a poll finds the next message, whether the handler returns, and
-- whether `stop` was called.
pub record Event : Type 0 where
  pub arrives : Bool
  pub handler_returns : Bool
  pub stop_called : Bool

abbrev pub next_message : Bool → List Message → Option Message
next_message true (m ∷ ms) = some m
next_message _ _ = none

abbrev pub after_poll : Bool → List Message → List Message
after_poll true (m ∷ ms) = ms
after_poll _ ms = ms

-- The turns of a run from a place in the partition on.
unfoldable pub turns_from : List Message → List Event → List Turn
turns_from ms [] = []
turns_from ms (e ∷ es) =
    record {
      polled = next_message e.arrives ms;
      handler_returns = e.handler_returns;
      stop_called = e.stop_called;
    }
    ∷ turns_from (after_poll e.arrives ms) es

-- The messages that are left behind the last commit, with the place of the polls: the loop commits the
-- message that it polled last.
unfoldable pub saved_after : List Message → List Message → List Action → List Message
saved_after place saved [] = saved
saved_after (m ∷ ms) saved (poll (some _) ∷ rest) = saved_after ms saved rest
saved_after [] saved (poll (some _) ∷ rest) = saved_after [] saved rest
saved_after place saved (poll none ∷ rest) = saved_after place saved rest
saved_after place saved (commit o ∷ rest) = saved_after place place rest
saved_after place saved (handle tx ok ∷ rest) = saved_after place saved rest
saved_after place saved (destroy o ∷ rest) = saved_after place saved rest

unfoldable pub handled : List Action → List Transaction
handled [] = []
handled (handle tx ok ∷ rest) = tx ∷ handled rest
handled (poll m ∷ rest) = handled rest
handled (commit o ∷ rest) = handled rest
handled (destroy o ∷ rest) = handled rest

abbrev pub or_skip : Option Transaction → List Transaction → List Transaction
or_skip none txs = txs
or_skip (some tx) txs = tx ∷ txs

module _ (parse : List ℕ → Option Transaction) where
  -- The transactions of some messages; those that do not parse are skipped.
  unfoldable pub parses : List Message → List Transaction
  parses [] = []
  parses (m ∷ ms) = or_skip (parse m.payload) (parses ms)

  -- One run, from the messages behind the last commit, that is cut off after so many actions.
  abbrev pub run_from : KafkaConsumer → List Message → ℕ × List Event → List Action
  run_from c place (cut, es) = take cut (start parse c (turns_from place es)).0

  -- Several runs in a row, each with its own turns and its own end: the transactions that the handler was
  -- called with, and the messages that are left behind the last commit.
  unfoldable pub consume :
      KafkaConsumer → List Message → List (ℕ × List Event) → List Transaction × List Message
  unfolding handled saved_after
  consume c place [] = ([], place)
  consume c place (run ∷ runs) =
      let rest = consume c (saved_after place place (run_from c place run)) runs in
      (handled (run_from c place run) ++ rest.0, rest.1)

  -- The messages before the final place, their transactions among those that were handled, in order, and
  -- at most so many besides.
  abbrev pub AllHandled : List Message → ℕ → List Transaction × List Message → Type 0
  AllHandled place again p =
      (done : List Message) × (place ≡ done ++ p.1)
      × Sublistᴰ (parses done) p.0
      × (length p.0 ≤ length (parses done) + again)
