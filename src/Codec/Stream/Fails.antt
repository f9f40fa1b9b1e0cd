-- ===== src/Codec/Stream/Fails.antt =====
-- generated/fraud.pb.cc: single fields that were written and that `_InternalParse` refuses.
use ml_distributed_fraud_eng.Common.{
  ℕ, ◌+◌, ◌*◌, ◌<◌, ◌≡◌, refl, ◌∙◌, false, List, [], ◌∷◌, ◌++◌, Option, none, some, arith,
}
use ml_distributed_fraud_eng.Codec.{Wire, string_field, message_field}
use ml_distributed_fraud_eng.Codec.Stream.{
  Reader, text_step, message_step, turn_of, turn, loop, run,
}
use ml_distributed_fraud_eng.Codec.Stream.Laws.{Tagged, Inverse}
use ml_distributed_fraud_eng.Codec.Stream.Fuel.{Advances}

module _ {M : Type 0} (wire : Wire) (reader : Reader) (advances : Advances reader)
    (inverse : Inverse wire reader) (field : ℕ → List ℕ → M → Option (M × List ℕ)) where
  turn-none :
      (bytes p : List ℕ) (tag : ℕ) (m : M)
      → Tagged reader bytes tag p
      → field tag p m ≡ none
      → turn reader field bytes m ≡ none
  unfolding turn turn_of
  turn-none bytes p tag m e h = rw e h

  -- A field that is refused ends the loop, whatever stands behind it.
  run-none :
      (bytes p : List ℕ) (tag : ℕ) (m : M)
      → Tagged reader bytes tag p
      → field tag p m ≡ none
      → run reader field bytes m ≡ none
  unfolding loop
  run-none [] p tag m e h = absurd (omega (arith, advances.tag_advances [] tag p e))
  run-none (b ∷ bs) p tag m e h = rw (turn-none (b ∷ bs) p tag m e h, loop) refl

  -- A text that is not in UTF-8.
  pub run-bad_text :
      (n : ℕ) (put : List ℕ → M) (m : M) (c : ℕ) (cs rest : List ℕ)
      → n < 16
      → reader.verify_utf8 (c ∷ cs) ≡ false
      → ((p : List ℕ) → field (8 * n + 2) p m ≡ text_step reader put (reader.read_string p))
      → run reader field (string_field wire n (c ∷ cs) ++ rest) m ≡ none
  unfolding string_field text_step
  run-bad_text n put m c cs rest h bad step =
      let (p, tagged, back) = inverse.string_back n (c ∷ cs) rest h in
      run-none _ p (8 * n + 2) m tagged (step p ∙ rw (back, bad) refl)

  -- A message that its own parser refuses.
  pub run-bad_message :
      {N : Type 0} (n : ℕ) (m : M) (put : N → M) (parse : List ℕ → Option N) (s rest : List ℕ)
      → n < 16
      → parse s ≡ none
      → ((p : List ℕ)
          → field (8 * n + 2) p m ≡ message_step reader parse put (reader.read_message p))
      → run reader field (message_field wire n (some s) ++ rest) m ≡ none
  unfolding message_field message_step
  run-bad_message n m put parse s rest h bad step =
      let (p, tagged, back) = inverse.message_back n s rest h in
      run-none _ p (8 * n + 2) m tagged (step p ∙ rw (back, bad) refl)
