-- ===== src/KafkaConsumer/Restart/Handled.antt =====
-- src/consumer/kafka_consumer.cpp, start: what is handled when a partition is consumed in several runs.
use mathlib.Core.List.{Sublistᴰ, append_assoc}
use mathlib.Core.Path.{subst}
use ml_distributed_fraud_eng.Common.{
  take, zero, length, length-append, ℕ, suc, ◌≤◌, arith, ◌≡◌, refl, sym, ap, ◌∙◌, Bool, true, false,
  List, [], ◌∷◌, ◌++◌, Option, none, some, if◌then◌else◌,
}
use ml_distributed_fraud_eng.Messages.{Transaction}
use ml_distributed_fraud_eng.KafkaConsumer.{
  poll, Message, KafkaConsumer, stop, Action, Exit, body, body_of, next_turn, loop, start,
}
use ml_distributed_fraud_eng.KafkaConsumer.Restart.{
  Event, next_message, after_poll, turns_from, saved_after, handled, or_skip, parses, run_from,
  consume, AllHandled,
}

module _ (parse : List ℕ → Option Transaction) where
  -- A run handled what it committed, in order, and then perhaps one message that it did not commit.
  abbrev Kept : List Message → List Transaction → List Message → Type 0
  Kept saved txs final =
      (done : List Message) × (extra : List Transaction) × (saved ≡ done ++ final)
      × (txs ≡ parses parse done ++ extra)
      × (length extra ≤ 1)

  or_skip-append :
      (o : Option Transaction) (xs ys : List Transaction)
      → or_skip o (xs ++ ys) ≡ or_skip o xs ++ ys
  or_skip-append none xs ys = refl
  or_skip-append (some tx) xs ys = refl

  parses-append :
      (xs ys : List Message) → parses parse (xs ++ ys) ≡ parses parse xs ++ parses parse ys
  unfolding parses
  parses-append [] ys = refl
  parses-append (m ∷ xs) ys =
      ap (or_skip (parse m.payload)) (parses-append xs ys)
      ∙ or_skip-append (parse m.payload) (parses parse xs) (parses parse ys)

  -- What holds of a run from a place, wherever it is cut off and whatever malformed messages stand
  -- between the last commit and it.
  abbrev From : List Message → List Action → Type 0
  From place acts =
      (cut : ℕ) (saved gap : List Message)
      → saved ≡ gap ++ place
      → parses parse gap ≡ []
      → Kept saved (handled (take cut acts)) (saved_after place saved (take cut acts))

  -- Nothing is done.
  nothing : (saved : List Message) → Kept saved [] saved
  unfolding parses
  nothing saved = ([], [], refl, refl, omega arith)

  -- The handler is called, and nothing is committed.
  one_called : (saved : List Message) (tx : Transaction) → Kept saved (tx ∷ []) saved
  unfolding parses
  one_called saved tx = ([], tx ∷ [], refl, refl, omega arith)

  -- A message is handled and committed, and then a run goes on behind it.
  committed-Kept :
      (m : Message) (ms : List Message) (tx : Transaction) (saved gap : List Message)
      (txs : List Transaction) (final : List Message)
      → parse m.payload ≡ some tx
      → saved ≡ gap ++ m ∷ ms
      → parses parse gap ≡ []
      → Kept ms txs final
      → Kept saved (tx ∷ txs) final
  unfolding parses
  committed-Kept m ms tx saved gap txs final e p g (done, extra, q, r, few) = (
    gap ++ m ∷ done,
    extra,
    p ∙ ap (λ xs. gap ++ m ∷ xs) q ∙ sym (append_assoc gap (m ∷ done) final),
    ap (λ xs. tx ∷ xs) r
        ∙ ap (λ xs. xs ++ extra)
            (sym (
              parses-append gap (m ∷ done)
              ∙ ap (λ xs. xs ++ parses parse (m ∷ done)) g
              ∙ ap (λ o. or_skip o (parses parse done)) e)),
    few,
  )

  malformed-gap :
      (gap : List Message) (m : Message)
      → parse m.payload ≡ none
      → parses parse gap ≡ []
      → parses parse (gap ++ m ∷ []) ≡ []
  unfolding parses
  malformed-gap gap m e g =
      parses-append gap (m ∷ [])
      ∙ ap (λ xs. xs ++ parses parse (m ∷ [])) g
      ∙ ap (λ o. or_skip o []) e

  parsed-From :
      (m : Message) (ms : List Message) (o : Option Transaction) (ok : Bool)
      (later : List Action × Exit × KafkaConsumer) (c : KafkaConsumer)
      → parse m.payload ≡ o
      → From ms later.0
      → From (m ∷ ms) (next_turn parse (body_of parse m ok o).0 (body_of parse m ok o).1 later c).0
  unfolding next_turn body_of saved_after handled parses
  parsed-From m ms none ok later c e h zero saved gap p g = nothing saved
  parsed-From m ms none ok later c e h (suc zero) saved gap p g = nothing saved
  parsed-From m ms none ok later c e h (suc (suc n)) saved gap p g =
      h n saved (gap ++ m ∷ []) (p ∙ sym (append_assoc gap (m ∷ []) ms)) (malformed-gap gap m e g)
  parsed-From m ms (some tx) true later c e h zero saved gap p g = nothing saved
  parsed-From m ms (some tx) false later c e h zero saved gap p g = nothing saved
  parsed-From m ms (some tx) true later c e h (suc zero) saved gap p g = nothing saved
  parsed-From m ms (some tx) false later c e h (suc zero) saved gap p g = nothing saved
  parsed-From m ms (some tx) true later c e h (suc (suc zero)) saved gap p g = one_called saved tx
  parsed-From m ms (some tx) true later c e h (suc (suc (suc zero))) saved gap p g =
      committed-Kept m ms tx saved gap [] ms e p g (nothing ms)
  parsed-From m ms (some tx) true later c e h (suc (suc (suc (suc n)))) saved gap p g =
      committed-Kept m ms tx saved gap _ _ e p g (h n ms [] refl refl)
  parsed-From m ms (some tx) false later c e h (suc (suc zero)) saved gap p g = one_called saved tx
  parsed-From m ms (some tx) false later c e h (suc (suc (suc n))) saved gap p g =
      one_called saved tx

  none-From :
      (acts : List Action) (place : List Message) → From place acts → From place (poll none ∷ acts)
  unfolding saved_after handled
  none-From acts place h zero saved gap p g = nothing saved
  none-From acts place h (suc n) saved gap p g = h n saved gap p g

  event-From :
      (arrives ok : Bool) (place : List Message) (later : List Action × Exit × KafkaConsumer)
      (c : KafkaConsumer)
      → From (after_poll arrives place) later.0
      → From place
          (next_turn parse
            (body parse (next_message arrives place) ok).0
            (body parse (next_message arrives place) ok).1
            later
            c).0
  unfolding next_turn body saved_after handled
  event-From true ok (m ∷ ms) later c h = parsed-From m ms (parse m.payload) ok later c refl h
  event-From true ok [] later c h = none-From later.0 [] h
  event-From false ok place later c h = none-From later.0 place h

  if-From :
      (b : Bool) (p : List Action × Exit × KafkaConsumer) (c : KafkaConsumer) (exit : Exit)
      (place : List Message)
      → From place p.0
      → From place (if b then p else ([], exit, c)).0
  unfolding saved_after handled parses
  if-From true p c exit place h = h
  if-From false p c exit place h = λ cut saved gap e g. nothing saved

  loop-From :
      (c : KafkaConsumer) (place : List Message) (es : List Event)
      → From place (loop parse c (turns_from place es)).0
  unfolding loop turns_from handled saved_after parses
  loop-From c place [] = λ cut saved gap e g. nothing saved
  loop-From c place (e ∷ es) =
      let c' = if e.stop_called then stop c else c in
      let next = after_poll e.arrives place in
      let later = loop parse c' (turns_from next es) in
      if-From c'.running _ c' _ place
        (event-From e.arrives e.handler_returns place later c' (loop-From c' next es))

  skips : (extra xs ys : List Transaction) → Sublistᴰ xs ys → Sublistᴰ xs (extra ++ ys)
  skips [] xs ys s = s
  skips (tx ∷ extra) xs ys s = Sublistᴰ.cons (skips extra xs ys s)

  keeps : (front xs ys : List Transaction) → Sublistᴰ xs ys → Sublistᴰ (front ++ xs) (front ++ ys)
  keeps [] xs ys s = s
  keeps (tx ∷ front) xs ys s = Sublistᴰ.cons-cons refl (keeps front xs ys s)

  run-then :
      (place saved : List Message) (txs : List Transaction) (n : ℕ)
      (p : List Transaction × List Message)
      → Kept place txs saved
      → AllHandled parse saved n p
      → AllHandled parse place (suc n) (txs ++ p.0, p.1)
  run-then place saved txs n p (done, extra, q, r, few) (later, q', s, few') =
      let e = parses-append done later in
      (
        done ++ later,
        q ∙ ap (λ xs. done ++ xs) q' ∙ sym (append_assoc done later p.1),
        subst (λ xs. Sublistᴰ xs (txs ++ p.0)) (sym e)
            (subst (λ xs. Sublistᴰ (parses parse done ++ parses parse later) xs)
              (sym (ap (λ xs. xs ++ p.0) r ∙ append_assoc (parses parse done) extra p.0))
              (keeps (parses parse done) (parses parse later) (extra ++ p.0)
                (skips extra (parses parse later) p.0 s))),
        omega (
          arith,
          length-append txs p.0,
          ap length r,
          length-append (parses parse done) extra,
          ap length e,
          length-append (parses parse done) (parses parse later),
          few,
          few',
        ),
      )

  -- At least once, over any number of runs of `start`, each of which begins behind the last commit and
  -- is cut off after any of its actions, where polls come in order and commits take effect: for every
  -- message before the place that is committed last, either it does not parse or the handler was called
  -- with its transaction, all in the order of the partition. And not much more than once: the handler
  -- was called besides at most once for each run.
  pub consume-AllHandled :
      (c : KafkaConsumer) (place : List Message) (runs : List (ℕ × List Event))
      → AllHandled parse place (length runs) (consume parse c place runs)
  unfolding consume start parses
  consume-AllHandled c place [] = ([], refl, Sublistᴰ.slnil, omega arith)
  consume-AllHandled c place ((cut, es) ∷ runs) =
      let saved = saved_after place place (run_from parse c place (cut, es)) in
      run-then place saved _ (length runs) (consume parse c saved runs)
        (loop-From (record { running = true }) place es cut place [] refl refl)
        (consume-AllHandled c saved runs)
