-- ===== src/Codec/Stream/Fuel.antt =====
-- generated/fraud.pb.cc, the loops of `_InternalParse`: each turn leaves fewer bytes.
use ml_distributed_fraud_eng.Common.{
  ℕ, zero, suc, ◌≤◌, ◌<◌, ◌≡◌, refl, Bool, true, false, List, [], ◌∷◌, Option, none, some, arith,
  length, Option-cases, inl, inr, if◌then◌else◌,
}
use ml_distributed_fraud_eng.Codec.Stream.{
  Reader, ends_group, text_step, number_step, put_part, message_step, unknown_step, unusual_step,
  turn_of, turn, loop,
}

-- A reading function leaves no more than it got; over a tag it moves at least by one byte.
abbrev pub Forward {ℓ} : {A : Type ℓ} → (List ℕ → Option (A × List ℕ)) → Type ℓ
Forward {A = A} read =
    (bytes : List ℕ) (a : A) (rest : List ℕ)
    → read bytes ≡ some (a, rest)
    → length rest ≤ length bytes

pub record Advances (reader : Reader) : Type 0 where
  pub tag_advances :
      (bytes : List ℕ) (tag : ℕ) (rest : List ℕ)
      → reader.read_tag bytes ≡ some (tag, rest)
      → length rest < length bytes
  pub string_advances : Forward reader.read_string
  pub double_advances : Forward reader.read_double
  pub float_advances : Forward reader.read_float
  pub varint32_advances : Forward reader.read_varint32
  pub varint_advances : Forward reader.read_varint64
  pub message_advances : Forward reader.read_message
  pub unknown_advances : (tag : ℕ) → Forward (reader.unknown_field_parse tag)

-- What is left after a step is no longer than that.
abbrev pub Within : {M : Type 0} → ℕ → Option (M × List ℕ) → Type 0
Within n none = Unit
Within n (some (m, rest)) = length rest ≤ n

module _ {M : Type 0} where
  if-Within :
      (n : ℕ) (b : Bool) (r : Option (M × List ℕ)) → Within n r → Within n (if b then r else none)
  if-Within n true r h = h
  if-Within n false r h = tt

  else-Within :
      (n : ℕ) (b : Bool) (r : Option (M × List ℕ)) → Within n r → Within n (if b then none else r)
  else-Within n true r h = tt
  else-Within n false r h = h

  Within-le :
      (r : Option (M × List ℕ)) (n : ℕ) (m : M) (rest : List ℕ)
      → Within n r
      → r ≡ some (m, rest)
      → length rest ≤ n
  Within-le none n m rest h e = cc
  Within-le (some (m', rest')) n m rest h e = ground arith

module _ {M : Type 0} (reader : Reader) (advances : Advances reader) where
  text_step-of :
      (put : List ℕ → M) (p : List ℕ) (r : Option (List ℕ × List ℕ))
      → reader.read_string p ≡ r
      → Within (length p) (text_step reader put r)
  unfolding text_step
  text_step-of put p none e = tt
  text_step-of put p (some (s, rest)) e =
      if-Within (length p) (reader.verify_utf8 s) _ (advances.string_advances p s rest e)

  pub text_step-Within :
      (put : List ℕ → M) (p : List ℕ)
      → Within (length p) (text_step reader put (reader.read_string p))
  text_step-Within put p = text_step-of put p _ refl

  number_step-of :
      (read : List ℕ → Option (ℕ × List ℕ)) (put : ℕ → M) (p : List ℕ) (r : Option (ℕ × List ℕ))
      → Forward read
      → read p ≡ r
      → Within (length p) (number_step reader put r)
  unfolding number_step
  number_step-of read put p none forward e = tt
  number_step-of read put p (some (x, rest)) forward e = forward p x rest e

  pub number_step-Within :
      (read : List ℕ → Option (ℕ × List ℕ)) (put : ℕ → M) (p : List ℕ)
      → Forward read
      → Within (length p) (number_step reader put (read p))
  number_step-Within read put p forward = number_step-of read put p _ forward refl

  put_part-Within :
      {N : Type 0} (put : N → M) (n : ℕ) (rest : List ℕ) (o : Option N)
      → length rest ≤ n
      → Within n (put_part reader put rest o)
  unfolding put_part
  put_part-Within put n rest none h = tt
  put_part-Within put n rest (some part) h = h

  message_step-of :
      {N : Type 0} (parse : List ℕ → Option N) (put : N → M) (p : List ℕ)
      (r : Option (List ℕ × List ℕ))
      → reader.read_message p ≡ r
      → Within (length p) (message_step reader parse put r)
  unfolding message_step
  message_step-of parse put p none e = tt
  message_step-of parse put p (some (s, rest)) e =
      put_part-Within put (length p) rest (parse s) (advances.message_advances p s rest e)

  pub message_step-Within :
      {N : Type 0} (parse : List ℕ → Option N) (put : N → M) (p : List ℕ)
      → Within (length p) (message_step reader parse put (reader.read_message p))
  message_step-Within parse put p = message_step-of parse put p _ refl

  unknown_step-of :
      (tag : ℕ) (p : List ℕ) (put : ℕ × List ℕ → M) (r : Option ((ℕ × List ℕ) × List ℕ))
      → reader.unknown_field_parse tag p ≡ r
      → Within (length p) (unknown_step reader put r)
  unfolding unknown_step
  unknown_step-of tag p put none e = tt
  unknown_step-of tag p put (some (u, rest)) e = advances.unknown_advances tag p u rest e

  pub unusual_step-Within :
      (tag : ℕ) (p : List ℕ) (put : ℕ × List ℕ → M)
      → Within (length p) (unusual_step reader tag p put)
  unfolding unusual_step
  unusual_step-Within tag p put =
      else-Within (length p) (ends_group tag) _ (unknown_step-of tag p put _ refl)

module _ {M : Type 0} (reader : Reader) (advances : Advances reader)
    (field : ℕ → List ℕ → M → Option (M × List ℕ))
    (moves : (tag : ℕ) (p : List ℕ) (m : M) → Within (length p) (field tag p m)) where
  turn_of-lt :
      (bytes : List ℕ) (r : Option (ℕ × List ℕ)) (m m' : M) (rest : List ℕ)
      → reader.read_tag bytes ≡ r
      → turn_of reader field r m ≡ some (m', rest)
      → length rest < length bytes
  unfolding turn_of
  turn_of-lt bytes none m m' rest e h = cc
  turn_of-lt bytes (some (tag, p)) m m' rest e h =
      omega (
        arith,
        advances.tag_advances bytes tag p e,
        Within-le _ (length p) m' rest (moves tag p m) h,
      )

  -- Each turn leaves fewer bytes.
  pub turn-lt :
      (bytes : List ℕ) (m m' : M) (rest : List ℕ)
      → turn reader field bytes m ≡ some (m', rest)
      → length rest < length bytes
  unfolding turn
  turn-lt bytes m m' rest h = turn_of-lt bytes _ m m' rest refl h

  -- All fuel above the number of bytes gives the loop the same result.
  pub loop_enough :
      (f g : ℕ) (bytes : List ℕ) (m : M)
      → length bytes < f
      → length bytes < g
      → loop reader field f bytes m ≡ loop reader field g bytes m
  unfolding loop
  loop_enough zero g bytes m h k = absurd (omega arith)
  loop_enough (suc f) zero bytes m h k = absurd (omega arith)
  loop_enough (suc f) (suc g) [] m h k = refl
  loop_enough (suc f) (suc g) (b ∷ bs) m h k = elim (Option-cases (turn reader field (b ∷ bs) m)) [
    | inl none_ ↦ rw (none_, loop) refl
    | inr ((m', rest), e) ↦
        let lt = turn-lt (b ∷ bs) m m' rest e in
        rw (e, loop) (loop_enough f g rest m' (omega arith) (omega arith))
  ]
