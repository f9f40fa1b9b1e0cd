-- ===== src/Codec/Stream/Step.antt =====
-- generated/fraud.pb.cc: one turn of the loops of `_InternalParse` and the rest of the run.
use ml_distributed_fraud_eng.Common.{ℕ, suc, ◌≡◌, List, [], ◌∷◌, Option, some, arith, length}
use ml_distributed_fraud_eng.Codec.Stream.{Reader, turn_of, turn, loop, run}
use ml_distributed_fraud_eng.Codec.Stream.Laws.{Tagged}
use ml_distributed_fraud_eng.Codec.Stream.Fuel.{Advances, Within, turn-lt, loop_enough}

module _ {M : Type 0} (reader : Reader) (advances : Advances reader)
    (field : ℕ → List ℕ → M → Option (M × List ℕ))
    (moves : (tag : ℕ) (p : List ℕ) (m : M) → Within (length p) (field tag p m)) where
  run-turn :
      (bytes : List ℕ) (m m' : M) (rest : List ℕ)
      → turn reader field bytes m ≡ some (m', rest)
      → run reader field bytes m ≡ run reader field rest m'
  unfolding loop
  run-turn [] m m' rest e =
      absurd (omega (arith, turn-lt reader advances field moves [] m m' rest e))
  run-turn (b ∷ bs) m m' rest e =
      let lt = turn-lt reader advances field moves (b ∷ bs) m m' rest e in
      rw (e, loop)
        (loop_enough reader advances field moves (suc (length bs)) (suc (length rest)) rest m'
          (omega arith) (omega arith))

  turn-step :
      (bytes p : List ℕ) (tag : ℕ) (m m' : M) (rest : List ℕ)
      → Tagged reader bytes tag p
      → field tag p m ≡ some (m', rest)
      → turn reader field bytes m ≡ some (m', rest)
  unfolding turn turn_of
  turn-step bytes p tag m m' rest e h = rw e h

  -- A field behind a tag that is read.
  pub run-step :
      (bytes p : List ℕ) (tag : ℕ) (m m' : M) (rest : List ℕ)
      → Tagged reader bytes tag p
      → field tag p m ≡ some (m', rest)
      → run reader field bytes m ≡ run reader field rest m'
  run-step bytes p tag m m' rest e h =
      run-turn bytes m m' rest (turn-step bytes p tag m m' rest e h)
